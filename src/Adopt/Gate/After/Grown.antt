-- ===== src/Adopt/Gate/After/Grown.antt =====
-- What the loop over the findings adds to its result (cli/internal/bootstrap/adopt/pin.go).
use kube_dc_public.Prelude.{
  ◌≡◌, refl, Bool, true, false, List, [], ◌∷◌, ◌++◌, is_empty, All, if◌then◌else◌, inl, inr, arith,
}
use kube_dc_public.Prelude.Text.{Text, text_eq, text_eq→eq, text_eq_refl}
use kube_dc_public.Prelude.Engine.{Outcome, ok, err}
use kube_dc_public.Adopt.{Component, Finding, Inspector, AdoptError, catalog}
use kube_dc_public.Adopt.Pin.{
  PinChange, no_options, strip_inline_comment, contains_name, value_of, live_version, chart_of,
  compare_pin, compare_live, choose_version, verdict, Verdict, is_skipped, unkeyed, is_undetected,
  already, pinned, Filing, file, pin_from,
}
use kube_dc_public.Adopt.Gate.After.{pins_key, component_of, keyed_in, IsKeyed, IsPin, IsCovered}

pub catalog-IsKeyed : All IsKeyed catalog
unfolding component_of keyed_in catalog text_eq
catalog-IsKeyed = (
  (λ h. refl),
  (
    (λ h. refl),
    (
      (λ h. refl),
      (
        (λ h. refl),
        (
          (λ h. refl),
          (
            (λ h. refl),
            (
              (λ h. refl),
              (
                (λ h. refl),
                ((λ h. refl), ((λ h. refl), ((λ h. refl), ((λ h. absurd (ground arith)), tt)))),
              ),
            ),
          ),
        ),
      ),
    ),
  ),
)

pins_key-append :
    (k : Text) (ps : List PinChange) (p : PinChange)
    → pins_key k (ps ++ (p ∷ [])) ≡ (if pins_key k ps then true else text_eq k p.version_key)
unfolding pins_key
pins_key-append k [] p = ground arith
pins_key-append k (q ∷ ps) p = ground (arith, pins_key-append k ps p)

All-end :
    {A : Type 0} (P : A → Type 0) (xs : List A) (a : A) → All P xs → P a → All P (xs ++ (a ∷ []))
All-end P [] a h p = (p, tt)
All-end P (x ∷ xs) a h p = (h.0, All-end P xs a h.1 p)

is_empty-end : {A : Type 0} (xs : List A) (a : A) → is_empty (xs ++ (a ∷ [])) ≡ false
is_empty-end [] a = refl
is_empty-end (x ∷ xs) a = refl

module _ (i : Inspector) (charts env : Text → Text) where
  -- What each verdict says of its component.
  abbrev Facts : Component → Outcome AdoptError Verdict → Type 0
  Facts c (err x) = Unit
  Facts c (ok (is_skipped n)) = ⊥
  Facts c (ok unkeyed) = text_eq c.version_key [] ≡ true
  Facts c (ok (is_undetected n)) = Unit
  Facts c (ok (already n k m v)) =
      (live_version i c (chart_of charts c) ≡ ok v)
      × (is_empty v ≡ false)
      × (strip_inline_comment (env c.version_key) ≡ v)
  Facts c (ok (pinned p)) =
      (live_version i c (chart_of charts c) ≡ ok p.live)
      × (is_empty p.live ≡ false)
      × (p.version_key ≡ c.version_key)
      × (text_eq c.version_key [] ≡ false)

  compared-Facts :
      (c : Component) (o : Outcome AdoptError Text)
      → live_version i c (chart_of charts c) ≡ o
      → text_eq c.version_key [] ≡ false
      → Facts c (compare_live env c o)
  unfolding compare_live compare_pin
  compared-Facts c (err x) p k = tt
  compared-Facts c (ok []) p k = tt
  compared-Facts c (ok (d ∷ v)) p k =
      chosen (text_eq (strip_inline_comment (env c.version_key)) (d ∷ v)) refl
    where
      chosen :
          (b : Bool)
          → text_eq (strip_inline_comment (env c.version_key)) (d ∷ v) ≡ b
          → Facts c (
              ok (
                if b
                then already c.name c.version_key false (d ∷ v)
                else pinned (record {
                  component = c.name;
                  version_key = c.version_key;
                  current = strip_inline_comment (env c.version_key);
                  live = d ∷ v;
                  manual = false;
                })))
      chosen true q = (p, refl, text_eq→eq (strip_inline_comment (env c.version_key)) (d ∷ v) q)
      chosen false q = (p, refl, refl, k)

  verdict-Facts : (c : Component) → Facts c (verdict i charts env no_options c)
  unfolding verdict contains_name value_of choose_version
  verdict-Facts c = chosen (text_eq c.version_key []) refl
    where
      chosen :
          (b : Bool)
          → text_eq c.version_key [] ≡ b
          → Facts c
              (if b then ok unkeyed else compare_live env c (live_version i c (chart_of charts c)))
      chosen true p = p
      chosen false p = compared-Facts c (live_version i c (chart_of charts c)) refl p

  -- What one loop, or the rest of it, adds to a result.
  abbrev IsGrown : Filing → List Finding → Filing → Type 0
  IsGrown r fs f =
      (is_empty f.result.undetected ≡ true → is_empty r.result.undetected ≡ true)
      × ((k : Text) → pins_key k r.result.pins ≡ true → pins_key k f.result.pins ≡ true)
      × (is_empty f.result.undetected ≡ true
          → All (λ g. IsCovered i charts env f.result.pins g.component) fs)
      × (All (IsPin i charts) r.result.pins
          → All (λ g. IsKeyed g.component) fs
          → All (IsPin i charts) f.result.pins)

  abbrev pub IsGrownBy : Filing → List Finding → Outcome AdoptError Filing → Type 0
  IsGrownBy r fs (err x) = Unit
  IsGrownBy r fs (ok f) = IsGrown r fs f

  -- One finding.
  file-IsGrown :
      (g : Finding) (v : Verdict) (r : Filing)
      → Facts g.component (ok v)
      → IsGrown r (g ∷ []) (file v r)
  unfolding file
  file-IsGrown g (is_skipped n) r p = absurd p
  file-IsGrown g unkeyed r p = (λ e. e, λ k q. q, λ e. (inl p, tt), λ a q. a)
  file-IsGrown g (is_undetected n) r p = (
    λ e. absurd (ground (arith, is_empty-end r.result.undetected n)),
    λ k q. q,
    λ e. absurd (ground (arith, is_empty-end r.result.undetected n)),
    λ a q. a,
  )
  file-IsGrown g (already n k m v) r p =
      (λ e. e, λ k q. q, λ e. (inr (v, p.0, p.1, inl p.2), tt), λ a q. a)
  file-IsGrown g (pinned c) r p = (
    λ e. e,
    λ k q. ground (arith, pins_key-append k r.result.pins c),
    λ e. (
      inr (
        c.live,
        p.0,
        p.1,
        inr (
            ground (
              arith,
              pins_key-append g.component.version_key r.result.pins c,
              p.2,
              text_eq_refl g.component.version_key,
            )),
      ),
      tt,
    ),
    λ a q. All-end (IsPin i charts) r.result.pins c a (g.component, rw p.2 (q.0 p.3), p.0),
  )

  IsCovered-more :
      (ps qs : List PinChange) (c : Component)
      → ((k : Text) → pins_key k ps ≡ true → pins_key k qs ≡ true)
      → IsCovered i charts env ps c
      → IsCovered i charts env qs c
  IsCovered-more ps qs c f (inl p) = inl p
  IsCovered-more ps qs c f (inr (v, p, q, inl s)) = inr (v, p, q, inl s)
  IsCovered-more ps qs c f (inr (v, p, q, inr s)) = inr (v, p, q, inr (f c.version_key s))

  both-IsGrown :
      (g : Finding) (fs : List Finding) (r s f : Filing)
      → IsGrown r (g ∷ []) s
      → IsGrown s fs f
      → IsGrown r (g ∷ fs) f
  both-IsGrown g fs r s f a b = (
    λ e. a.0 (b.0 e),
    λ k q. b.1 k (a.1 k q),
    λ e. (IsCovered-more s.result.pins f.result.pins g.component b.1 ((a.2 (b.0 e)).0), b.2 e),
    λ ps ks. b.3 (a.3 ps (ks.0, tt)) ks.1,
  )

  pub pin_from-IsGrown :
      (fs : List Finding) (r : Filing) → IsGrownBy r fs (pin_from i charts env no_options fs r)
  unfolding pin_from
  pin_from-IsGrown [] r = (λ e. e, λ k q. q, λ e. tt, λ a q. a)
  pin_from-IsGrown (g ∷ fs) r =
      by (verdict i charts env no_options g.component) (verdict-Facts g.component)
        (λ v. pin_from-IsGrown fs (file v r))
    where
      next :
          (v : Verdict)
          → Facts g.component (ok v)
          → (o : Outcome AdoptError Filing) → IsGrownBy (file v r) fs o
          → IsGrownBy r (g ∷ fs) o
      next v p (err x) q = tt
      next v p (ok f) q = both-IsGrown g fs r (file v r) f (file-IsGrown g v r p) q

      by :
          (o : Outcome AdoptError Verdict)
          → Facts g.component o
          → ((v : Verdict)
              → IsGrownBy (file v r) fs (pin_from i charts env no_options fs (file v r)))
          → IsGrownBy r
              (g ∷ fs)
              (elim o [ err x ↦ err x | ok v ↦ pin_from i charts env no_options fs (file v r) ])
      by (err x) p k = tt
      by (ok v) p k = next v p (pin_from i charts env no_options fs (file v r)) (k v)
