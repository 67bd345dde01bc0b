-- ===== src/Adopt/Gate/After/Passes.antt =====
-- The gate after the pins are written (cli/internal/bootstrap/adopt/pin.go,
-- cli/internal/bootstrap/clusterinit/adoptgate.go).
use kube_dc_public.Prelude.{
  ◌≡◌, sym, ◌∙◌, ap, subst, true, false, none, some, List, [], is_empty, All, All-map, All-both,
  ◌⊎◌, ◌↔◌, inl, inr, arith, Bool-cases, Option-cases,
}
use kube_dc_public.Prelude.Text.{Text, text_eq}
use kube_dc_public.Prelude.Sort.{sort_by, All-sort_by, All-sort_by_rev, is_empty-sort_by}
use kube_dc_public.Prelude.Engine.{Outcome, ok, err}
use kube_dc_public.EnvFile.{get_or}
use kube_dc_public.EnvFile.Store.{Call, store}
use kube_dc_public.FleetConfig.{Kv, Change, plan, set_all}
use kube_dc_public.FleetConfig.Applied.{last_for, get-set_all, plan_adding}
use kube_dc_public.Adopt.{
  Component, Finding, Inspector, AdoptError, catalog, finding_name, detect_one, detect_all,
}
use kube_dc_public.Adopt.Pin.{
  PinChange, PinResult, PinOptions, no_options, strip_inline_comment, live_version, chart_of,
  pin_key, pin_versions, finished, finish_outcome, Filing, nothing_filed,
}
use kube_dc_public.Adopt.Gate.{GateOptions, check_adopt_pinned}
use kube_dc_public.Adopt.Gate.Safe.{
  IsAdoptSafe, IsCatalogSafe, pinned_catalog, IsRead, pin_versions-catalog, check_adopt_pinned_iff,
  detected_iff,
}
use kube_dc_public.Adopt.Gate.After.{kvs_of, pins_key, IsKeyed, IsPin, IsCovered}
use kube_dc_public.Adopt.Gate.After.Grown.{catalog-IsKeyed, IsGrownBy, pin_from-IsGrown}
use kube_dc_public.Adopt.Gate.After.Assigned.{pins_key-sort_by, assigned_key, assigned_live}

module _ (i : Inspector) (charts : Text → Text) where
  some_eq : (c d : Component) → some c ≡ some d → c ≡ d
  some_eq c d h = cc

  -- No live version has an inline comment.
  abbrev pub IsBareLive : Type 0
  IsBareLive =
      (c : Component) (v : Text)
      → live_version i c (chart_of charts c) ≡ ok v
      → strip_inline_comment v ≡ v

  covered-IsAdoptSafe :
      (env after : Text → Text) (ps : List PinChange)
      → IsBareLive
      → All (IsPin i charts) ps
      → ((k : Text) → after k ≡ elim (last_for k (kvs_of ps)) [ some v ↦ v | none ↦ env k ])
      → (c : Component) → IsKeyed c
      → IsCovered i charts env ps c
      → IsAdoptSafe i charts after c
  covered-IsAdoptSafe env after ps bare pins reads c keyed (inl p) = inl p
  covered-IsAdoptSafe env after ps bare pins reads c keyed (inr (v, p, q, s)) =
      elim (Bool-cases (text_eq c.version_key [])) [
        | inl e ↦ inl e
        | inr e ↦ inr (v, p, q, set e (Option-cases (last_for c.version_key (kvs_of ps))) s)
      ]
    where
      set :
          text_eq c.version_key [] ≡ false
          → ((last_for c.version_key (kvs_of ps) ≡ none)
              ⊎ ((w : Text) × (last_for c.version_key (kvs_of ps) ≡ some w)))
          → ((strip_inline_comment (env c.version_key) ≡ v) ⊎ (pins_key c.version_key ps ≡ true))
          → strip_inline_comment (after c.version_key) ≡ v
      set e (inl l) (inl t) =
          let same : after c.version_key ≡ env c.version_key =
            ground (arith, reads c.version_key) in
          ap strip_inline_comment same ∙ t
      set e (inl l) (inr t) = absurd (ground (arith, assigned_key c.version_key ps l))
      set e (inr (w, l)) t =
          let (d, a, b) = assigned_live i charts c.version_key w ps pins l in
          let one : some d ≡ some c = sym a ∙ keyed e in
          let live : live_version i c (chart_of charts c) ≡ ok w =
            subst (λ x. live_version i x (chart_of charts x) ≡ ok w) (some_eq d c one) b in
          let new : w ≡ v = ground (arith, live, p) in
          let same : after c.version_key ≡ v = ground (arith, reads c.version_key) in
          ap strip_inline_comment same ∙ bare c v p

ok_eq : (a b : PinResult) → Path (Outcome AdoptError PinResult) (ok a) (ok b) → a ≡ b
ok_eq a b h = cc

module _ (i : Inspector) (charts : Text → Text) (crds nss : List Text) where
  -- Components of the findings and components of the catalog that are found.
  found_iff :
      (P : Component → Type 0)
      → All (λ f. P f.component) (sort_by finding_name (detect_all catalog crds nss))
        ↔ All (λ c. (via : Text) → detect_one c crds nss ≡ some via → P c) catalog
  found_iff P =
      let found = detect_all catalog crds nss in
      let Q : Finding → Type 0 = λ f. P f.component in
      let d = detected_iff i charts charts P crds nss catalog in
      (
        λ h. d.0 (All-sort_by_rev finding_name Q found h),
        λ h. All-sort_by finding_name Q found (d.1 h),
      )

  findings-IsKeyed :
      All (λ f. IsKeyed f.component) (sort_by finding_name (detect_all catalog crds nss))
  findings-IsKeyed = (found_iff IsKeyed).1 (
      All-map IsKeyed (λ c. (via : Text) → detect_one c crds nss ≡ some via → IsKeyed c) catalog
        (λ c k via p. k) catalog-IsKeyed)

  more-IsCovered :
      (env : Text → Text) (opts : PinOptions) (f : Filing) (c : Component)
      → IsCovered i charts env f.result.pins c
      → IsCovered i charts env (finished opts f).pins c
  unfolding finished
  more-IsCovered env opts f c (inl p) = inl p
  more-IsCovered env opts f c (inr (v, p, q, inl s)) = inr (v, p, q, inl s)
  more-IsCovered env opts f c (inr (v, p, q, inr s)) =
      inr (v, p, q, inr (pins_key-sort_by c.version_key f.result.pins ∙ s))

  module _ (path : Text) (cs : List Call) where
    abbrev pub file_env : Text → Text
    file_env k = get_or (store path cs) k []

    abbrev pub file_after : List Change → Text → Text
    file_after changes k = get_or (set_all changes (store path cs)) k []

    after_reads :
        (kvs : List Kv) (changes : List Change)
        → plan (store path cs) kvs true ≡ ok changes
        → (k : Text)
        → file_after changes k ≡ elim (last_for k kvs) [ some v ↦ v | none ↦ file_env k ]
    unfolding get_or
    after_reads kvs changes h k = ground (arith, get-set_all path cs kvs true changes h k)

    filed_safe :
        IsBareLive i charts
        → (f : Filing)
        → IsGrownBy i charts file_env nothing_filed
            (sort_by finding_name (detect_all catalog crds nss))
            (ok f)
        → is_empty (finished no_options f).undetected ≡ true
        → (changes : List Change)
        → plan (store path cs) (kvs_of (finished no_options f).pins) true ≡ ok changes
        → IsCatalogSafe i charts (file_after changes) crds nss
    unfolding finished
    filed_safe bare f grown none_left changes planned =
        (found_iff (IsAdoptSafe i charts (file_after changes))).0 (
          All-both (λ g. IsKeyed g.component)
            (λ g. IsCovered i charts file_env f.result.pins g.component)
            (λ g. IsAdoptSafe i charts (file_after changes) g.component)
            (sort_by finding_name (detect_all catalog crds nss))
            (λ g keyed covered.
              covered-IsAdoptSafe i charts file_env (file_after changes)
                (finished no_options f).pins bare
                (All-sort_by pin_key (IsPin i charts) f.result.pins (grown.3 tt findings-IsKeyed))
                (after_reads (kvs_of (finished no_options f).pins) changes planned) g.component
                keyed (more-IsCovered file_env no_options f g.component covered))
            findings-IsKeyed
            (grown.2 (sym (is_empty-sort_by (λ t. t) f.result.undetected) ∙ none_left)))

    -- When the cluster answers both times the same, no live version has an inline comment, and
    -- `PinVersions` without options finds a version of every component that it looks for one of, its
    -- pins can be planned; and once they are written to the file, the gate passes, where the overlay
    -- is there and no leave to proceed was given.
    pub pin_versions-check :
        IsRead i charts crds nss
        → IsBareLive i charts
        → (res : PinResult) → pin_versions i file_env no_options ≡ ok res
        → is_empty res.undetected ≡ true
        → (changes : List Change) × (plan (store path cs) (kvs_of res.pins) true ≡ ok changes)
          × ((o : GateOptions)
              → o.inspector ≡ some i
              → o.env ≡ some (file_after changes)
              → o.allow ≡ false
              → o.overlay_missing ≡ false
              → (check_adopt_pinned o).1 ≡ ok tt)
    unfolding finish_outcome
    pin_versions-check read bare res pinned none_left =
        by (pinned_catalog i charts file_env crds nss)
          (pin_from-IsGrown i charts file_env (sort_by finding_name (detect_all catalog crds nss))
            nothing_filed)
          (sym (pin_versions-catalog i charts file_env crds nss read) ∙ pinned)
      where
        by :
            (r : Outcome AdoptError Filing)
            → IsGrownBy i charts file_env nothing_filed
                (sort_by finding_name (detect_all catalog crds nss))
                r
            → finish_outcome no_options r ≡ ok res
            → (changes : List Change) × (plan (store path cs) (kvs_of res.pins) true ≡ ok changes)
              × ((o : GateOptions)
                  → o.inspector ≡ some i
                  → o.env ≡ some (file_after changes)
                  → o.allow ≡ false
                  → o.overlay_missing ≡ false
                  → (check_adopt_pinned o).1 ≡ ok tt)
        by (err x) g q = absurd (ground arith)
        by (ok f) g q =
            let same : finished no_options f ≡ res = ok_eq (finished no_options f) res q in
            let (changes, planned) = plan_adding (store path cs) (kvs_of res.pins) in
            (
              changes,
              planned,
              λ o a b c d.
                  (check_adopt_pinned_iff i charts (file_after changes) crds nss read o a b c).1 (
                    d,
                    filed_safe bare f g (ap (λ x. is_empty x.undetected) same ∙ none_left) changes
                        (ap (λ x. plan (store path cs) (kvs_of x.pins) true) same ∙ planned),
                  ),
            )
