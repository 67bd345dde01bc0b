-- ===== src/Adopt/Gate/Safe.antt =====
-- When the gate of an adopting installation lets it pass
-- (cli/internal/bootstrap/clusterinit/adoptgate.go, cli/internal/bootstrap/adopt/pin.go).
use kube_dc_public.Prelude.{
  ◌≡◌, refl, ◌⊎◌, inl, inr, ◌↔◌, Bool, true, false, Option, none, some, List, [], ◌∷◌, is_empty,
  all, All, if◌then◌else◌, arith,
}
use kube_dc_public.Prelude.Text.{Text, text_eq, text_eq→eq, text_eq_refl}
use kube_dc_public.Prelude.Sort.{sort_by, All-sort_by, All-sort_by_rev}
use kube_dc_public.Prelude.Engine.{Outcome, ok, err}
use kube_dc_public.Adopt.{
  Component, Finding, Inspector, AdoptError, catalog, detect_one, detect_all, recommend_for,
  finding_name, inventory, detect,
}
use kube_dc_public.Adopt.Pin.{
  no_options, strip_inline_comment, contains_name, value_of, live_version, chart_of, compare_pin,
  compare_live, choose_version, verdict, pin_from, finish_outcome, nothing_filed, pin_findings,
  pin_detected, pin_versions, Filing, Verdict,
}
use kube_dc_public.Adopt.Pin.Filed.{
  is_clean, clean_outcome, clean_finding, IsFiled, pin_from-IsFiled, is_settled-finished,
}
use kube_dc_public.Adopt.Gate.{
  GateOptions, check_adopt_pinned, check_with, gate_result, overlay_gate, drift_gate,
  no_overlay_gate, allowed_or,
}

-- The component has no version to pin, or its live version is read and is the one that is set, but
-- for an inline comment.
abbrev pub IsAdoptSafe : Inspector → (Text → Text) → (Text → Text) → Component → Type 0
IsAdoptSafe i charts env c =
    (text_eq c.version_key [] ≡ true)
    ⊎ ((v : Text) × (live_version i c (chart_of charts c) ≡ ok v)
        × (is_empty v ≡ false)
        × (strip_inline_comment (env c.version_key) ≡ v))

module _ (i : Inspector) (charts env : Text → Text) where
  compare_pin_clean :
      (c : Component) (v : Text)
      → is_clean (compare_pin env c false v)
        ≡ (if is_empty v then false else text_eq (strip_inline_comment (env c.version_key)) v)
  unfolding compare_pin
  compare_pin_clean c [] = refl
  compare_pin_clean c (d ∷ v) = ground arith

  compared :
      (c : Component) (o : Outcome AdoptError Text)
      → live_version i c (chart_of charts c) ≡ o
      → text_eq c.version_key [] ≡ false
      → (clean_outcome (compare_live env c o) ≡ true) ↔ IsAdoptSafe i charts env c
  unfolding compare_live
  compared c (err x) p k = (λ h. absurd (ground arith), λ s. absurd (unsafe s))
    where
      unsafe : IsAdoptSafe i charts env c → ⊥
      unsafe (inl q) = ground arith
      unsafe (inr (v, q, e, r)) = ground arith
  compared c (ok w) p k = (
    λ h. inr (
      w,
      p,
      ground (arith, compare_pin_clean c w, h),
      text_eq→eq (strip_inline_comment (env c.version_key)) w
          (ground (arith, compare_pin_clean c w, h)),
    ),
    safe,
  )
    where
      safe : IsAdoptSafe i charts env c → is_clean (compare_pin env c false w) ≡ true
      safe (inl q) = absurd (ground arith)
      safe (inr (v, q, e, r)) = ground (arith, compare_pin_clean c w, text_eq_refl w)

  verdict-clean_iff :
      (c : Component)
      → (clean_outcome (verdict i charts env no_options c) ≡ true) ↔ IsAdoptSafe i charts env c
  unfolding verdict contains_name value_of choose_version
  verdict-clean_iff c = chosen (text_eq c.version_key []) refl
    where
      chosen :
          (b : Bool)
          → text_eq c.version_key [] ≡ b
          → (clean_outcome (
                if b
                then ok Verdict.unkeyed
                else compare_live env c (live_version i c (chart_of charts c)))
              ≡ true)
            ↔ IsAdoptSafe i charts env c
      chosen true p = (λ h. inl p, λ h. refl)
      chosen false p = compared c (live_version i c (chart_of charts c)) refl p

  all-clean_iff :
      (fs : List Finding)
      → (all (clean_finding i charts env no_options) fs ≡ true)
        ↔ All (λ f. IsAdoptSafe i charts env f.component) fs
  all-clean_iff [] = (λ h. tt, λ h. refl)
  all-clean_iff (f ∷ fs) =
      let one = verdict-clean_iff f.component in
      let rest = all-clean_iff fs in
      (
        λ h. (one.0 (ground arith), rest.0 (ground arith)),
        λ h. ground (arith, one.1 h.0, rest.1 h.1),
      )

  pub detected_iff :
      (P : Component → Type 0) (crds nss : List Text) (cs : List Component)
      → All (λ f. P f.component) (detect_all cs crds nss)
        ↔ All (λ c. (via : Text) → detect_one c crds nss ≡ some via → P c) cs
  unfolding detect_all
  detected_iff P crds nss [] = (λ h. tt, λ h. tt)
  detected_iff P crds nss (c ∷ cs) =
      chosen (detect_one c crds nss) refl (detected_iff P crds nss cs)
    where
      Rest : Type 0
      Rest = All (λ c. (via : Text) → detect_one c crds nss ≡ some via → P c) cs

      chosen :
          (o : Option Text)
          → detect_one c crds nss ≡ o
          → (All (λ f. P f.component) (detect_all cs crds nss) ↔ Rest)
          → All
              (λ f. P f.component)
              (elim o [
                | none ↦ detect_all cs crds nss
                | some via ↦
                    record { component = c; via = via; recommend = recommend_for c }
                    ∷ detect_all cs crds nss
              ])
            ↔ ((via : Text) → detect_one c crds nss ≡ some via → P c) × Rest
      chosen none p i = (λ h. (λ via q. absurd (ground arith), i.0 h), λ h. i.1 h.1)
      chosen (some v) p i = (λ h. (λ via q. h.0, i.0 h.1), λ h. (h.0 v p, i.1 h.1))

-- Every component of the catalog that is found is safe to adopt.
abbrev pub IsCatalogSafe :
    Inspector → (Text → Text) → (Text → Text) → List Text → List Text → Type 0
IsCatalogSafe i charts env crds nss =
    All (λ c. (via : Text) → detect_one c crds nss ≡ some via → IsAdoptSafe i charts env c) catalog

-- The answers of the cluster that the gate reads.
pub record IsRead (i : Inspector) (charts : Text → Text) (crds nss : List Text) : Type 0 where
  pub crds_read : i.list_crds ≡ some crds
  pub namespaces_read : i.list_namespaces ≡ some nss
  pub charts_read : i.chart_versions ≡ some charts

module _ (i : Inspector) (charts env : Text → Text) (crds nss : List Text) where
  -- What the loop over the findings gives.
  abbrev pub pinned_catalog : Outcome AdoptError Filing
  pinned_catalog =
      pin_from i charts env no_options (sort_by finding_name (detect_all catalog crds nss))
        nothing_filed

  catalog_iff :
      (all
          (clean_finding i charts env no_options)
          (sort_by finding_name (detect_all catalog crds nss))
        ≡ true)
      ↔ IsCatalogSafe i charts env crds nss
  catalog_iff =
      let P = IsAdoptSafe i charts env in
      let Q : Finding → Type 0 = λ f. P f.component in
      let found = detect_all catalog crds nss in
      let a = all-clean_iff i charts env (sort_by finding_name found) in
      let b = detected_iff i charts env P crds nss catalog in
      (
        λ h. b.0 (All-sort_by_rev finding_name Q found (a.0 h)),
        λ h. a.1 (All-sort_by finding_name Q found (b.1 h)),
      )

  pub pin_versions-catalog :
      IsRead i charts crds nss
      → pin_versions i env no_options ≡ finish_outcome no_options pinned_catalog
  unfolding pin_versions detect inventory pin_detected pin_findings
  pin_versions-catalog r = rw (r.crds_read) (rw (r.namespaces_read) (rw (r.charts_read) refl))

  gate_iff :
      (o : GateOptions)
      → o.allow ≡ false
      → ((gate_result o (finish_outcome no_options pinned_catalog)).1 ≡ ok tt)
        ↔ ((o.overlay_missing ≡ false) × IsCatalogSafe i charts env crds nss)
  unfolding finish_outcome gate_result overlay_gate drift_gate no_overlay_gate allowed_or
  gate_iff o a = by pinned_catalog (pin_from-IsFiled i charts env no_options _ nothing_filed)
    where
      by :
          (r : Outcome AdoptError Filing)
          → IsFiled i charts env no_options true
              (sort_by finding_name (detect_all catalog crds nss))
              r
          → ((gate_result o (finish_outcome no_options r)).1 ≡ ok tt)
            ↔ ((o.overlay_missing ≡ false) × IsCatalogSafe i charts env crds nss)
      by (err x) q =
          (λ h. absurd (ground arith), λ h. absurd (ground (arith, q, catalog_iff.1 h.1)))
      by (ok f) q = (
        λ h. (ground arith, catalog_iff.0 (ground (arith, q, is_settled-finished no_options f))),
        λ h. ground (arith, h.0, q, catalog_iff.1 h.1, is_settled-finished no_options f),
      )

  -- With the answers of the cluster and without leave to proceed, the gate passes just when the
  -- cluster has its overlay and every component of the catalog that is found there, by a CRD or by
  -- a namespace, either has no version to pin or is pinned to the live version.
  pub check_adopt_pinned_iff :
      IsRead i charts crds nss
      → (o : GateOptions) → o.inspector ≡ some i
      → o.env ≡ some env
      → o.allow ≡ false
      → ((check_adopt_pinned o).1 ≡ ok tt)
        ↔ ((o.overlay_missing ≡ false) × IsCatalogSafe i charts env crds nss)
  unfolding check_adopt_pinned check_with
  check_adopt_pinned_iff r o p q a = rw p (rw q (rw (pin_versions-catalog r) (gate_iff o a)))
