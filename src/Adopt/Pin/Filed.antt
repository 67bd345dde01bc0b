-- ===== src/Adopt/Pin/Filed.antt =====
-- What the loop over the findings leaves (cli/internal/bootstrap/adopt/pin.go): a result with nothing
-- to pin and nothing undetected comes of findings that need nothing.
use kube_dc_public.Prelude.{
  ◌≡◌, refl, Bool, true, false, not, ◌&&◌, List, [], ◌∷◌, ◌++◌, is_empty, all, arith,
}
use kube_dc_public.Prelude.Text.{Text}
use kube_dc_public.Prelude.Sort.{is_empty-sort_by}
use kube_dc_public.Prelude.Engine.{Outcome, ok, err}
use kube_dc_public.Adopt.{Finding, Inspector, AdoptError}
use kube_dc_public.Adopt.Pin.{
  PinResult, PinOptions, has_unresolved, Verdict, is_skipped, unkeyed, is_undetected, already,
  pinned, verdict, Filing, file, pin_from, finished, pin_key,
}

-- A verdict that asks for nothing.
abbrev pub is_clean : Verdict → Bool
is_clean (is_skipped n) = true
is_clean unkeyed = true
is_clean (is_undetected n) = false
is_clean (already n k m v) = true
is_clean (pinned p) = false

abbrev pub clean_outcome : Outcome AdoptError Verdict → Bool
clean_outcome (err x) = false
clean_outcome (ok v) = is_clean v

-- The test of the gate.
abbrev pub is_settled : PinResult → Bool
is_settled r = is_empty r.pins && not (has_unresolved r)

is_empty-end : {A : Type 0} (xs : List A) (a : A) → is_empty (xs ++ (a ∷ [])) ≡ false
is_empty-end [] a = refl
is_empty-end (x ∷ xs) a = refl

is_settled-file :
    (v : Verdict) (f : Filing) → is_settled (file v f).result ≡ (is_settled f.result && is_clean v)
unfolding file has_unresolved
is_settled-file (is_skipped n) f = ground arith
is_settled-file unkeyed f = ground arith
is_settled-file (is_undetected n) f = ground (arith, is_empty-end f.result.undetected n)
is_settled-file (already n k m v) f = ground arith
is_settled-file (pinned p) f = ground (arith, is_empty-end f.result.pins p)

module _ (i : Inspector) (charts env : Text → Text) (opts : PinOptions) where
  abbrev pub clean_finding : Finding → Bool
  clean_finding f = clean_outcome (verdict i charts env opts f.component)

  abbrev pub IsFiled : Bool → List Finding → Outcome AdoptError Filing → Type 0
  IsFiled before fs (err x) = all clean_finding fs ≡ false
  IsFiled before fs (ok f) = is_settled f.result ≡ (before && all clean_finding fs)

  pub pin_from-IsFiled :
      (fs : List Finding) (r : Filing)
      → IsFiled (is_settled r.result) fs (pin_from i charts env opts fs r)
  unfolding pin_from
  pin_from-IsFiled [] r = ground arith
  pin_from-IsFiled (f ∷ fs) r =
      by (verdict i charts env opts f.component) refl (λ v. pin_from-IsFiled fs (file v r))
    where
      next :
          (v : Verdict)
          → verdict i charts env opts f.component ≡ ok v
          → (o : Outcome AdoptError Filing) → IsFiled (is_settled (file v r).result) fs o
          → IsFiled (is_settled r.result) (f ∷ fs) o
      next v p (err x) q = ground (arith, q)
      next v p (ok g) q = ground (arith, q, is_settled-file v r)

      by :
          (o : Outcome AdoptError Verdict)
          → verdict i charts env opts f.component ≡ o
          → ((v : Verdict)
              → IsFiled
                  (is_settled (file v r).result)
                  fs
                  (pin_from i charts env opts fs (file v r)))
          → IsFiled
              (is_settled r.result)
              (f ∷ fs)
              (elim o [ err x ↦ err x | ok v ↦ pin_from i charts env opts fs (file v r) ])
      by (err x) p k = ground arith
      by (ok v) p k = next v p (pin_from i charts env opts fs (file v r)) (k v)

pub is_settled-finished :
    (opts : PinOptions) (f : Filing) → is_settled (finished opts f) ≡ is_settled f.result
unfolding finished has_unresolved
is_settled-finished opts f =
    ground
      (arith, is_empty-sort_by pin_key f.result.pins, is_empty-sort_by (λ t. t) f.result.undetected)
