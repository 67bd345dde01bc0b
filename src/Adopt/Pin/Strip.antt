-- ===== src/Adopt/Pin/Strip.antt =====
-- The two removals of an inline comment (cli/internal/bootstrap/adopt/pin.go,
-- cli/internal/bootstrap/fleetconfig/config.go).
use mathlib.Core.List.{reverse, reverse-cons, reverse-append, append-nil, append_assoc}
use kube_dc_public.Prelude.{
  ℕ, ◌≡◌, refl, sym, ◌∙◌, ap, Bool, true, false, [], ◌∷◌, ◌++◌, ◌&&◌, ◌==◌, is_empty, if◌then◌else◌,
  arith, Bool-cases, inl, inr,
}
use kube_dc_public.Prelude.Text.{Text}
use kube_dc_public.FleetConfig
use kube_dc_public.FleetConfig.{is_gap, cut_comment, trim_right}
use kube_dc_public.Adopt.Pin.{drop_ws, trim_trailing_ws, scan_comment, strip_inline_comment}

-- A text whose last code point is added, when spaces and tabs are dropped at its start.
drop_ws-append :
    (s : Text) (c : ℕ)
    → drop_ws (s ++ (c ∷ []))
      ≡ (if is_empty (drop_ws s) then (if is_gap c then [] else c ∷ []) else drop_ws s ++ (c ∷ []))
unfolding drop_ws is_gap
drop_ws-append [] c = ground arith
drop_ws-append (d ∷ s) c = ground (arith, drop_ws-append s c)

is_empty-append : (s : Text) (c : ℕ) → is_empty (s ++ (c ∷ [])) ≡ false
is_empty-append [] c = refl
is_empty-append (d ∷ s) c = refl

reversed_end :
    (r : Text) (c : ℕ)
    → reverse (if is_empty r then (if is_gap c then [] else c ∷ []) else r ++ (c ∷ []))
      ≡ (if is_empty (reverse r) && is_gap c then [] else c ∷ reverse r)
reversed_end [] c = elim (Bool-cases (is_gap c)) [ inl p ↦ rw p refl | inr p ↦ rw p refl ]
reversed_end (d ∷ r) c =
    let some_left : is_empty (reverse (d ∷ r)) ≡ false =
      ap is_empty (reverse-cons d r) ∙ is_empty-append (reverse r) d in
    reverse-append (d ∷ r) (c ∷ []) ∙ sym (ap (kept (reverse (d ∷ r))) some_left)
  where
    kept : Text → Bool → Text
    kept t b = if b && is_gap c then [] else c ∷ t

trim_trailing_ws-trim_right : (v : Text) → trim_trailing_ws v ≡ trim_right v
unfolding trim_trailing_ws drop_ws trim_right
trim_trailing_ws-trim_right [] = refl
trim_trailing_ws-trim_right (c ∷ v) =
    ap (λ t. reverse (drop_ws t)) (reverse-cons c v)
    ∙ ap reverse (drop_ws-append (reverse v) c)
    ∙ reversed_end (drop_ws (reverse v)) c
    ∙ ap (kept c) (trim_trailing_ws-trim_right v)
  where
    kept : ℕ → Text → Text
    kept c t = if is_empty t && is_gap c then [] else c ∷ t

-- Whether the last code point before the place is a space or a tab.
abbrev ends_gap : Text → Bool
ends_gap [] = false
ends_gap (p ∷ before) = is_gap p

scan_comment-cut_comment :
    (before s : Text)
    → scan_comment before s ≡ trim_trailing_ws (reverse before ++ cut_comment (ends_gap before) s)
unfolding scan_comment cut_comment is_gap
scan_comment-cut_comment before [] = ap trim_trailing_ws (sym (append-nil (reverse before)))
scan_comment-cut_comment [] (c ∷ s) = scan_comment-cut_comment (c ∷ []) s ∙ first (c == b'#')
  where
    first :
        (b : Bool)
        → trim_trailing_ws (c ∷ cut_comment (is_gap c) s)
          ≡ trim_trailing_ws (if b && false then [] else c ∷ cut_comment (is_gap c) s)
    first true = refl
    first false = refl
scan_comment-cut_comment (p ∷ before) (c ∷ s) = chosen (c == b'#' && is_gap p) (
    scan_comment-cut_comment (c ∷ p ∷ before) s
    ∙ ap (λ t. trim_trailing_ws (t ++ cut_comment (is_gap c) s)) (reverse-cons c (p ∷ before))
    ∙ ap trim_trailing_ws (append_assoc (reverse (p ∷ before)) (c ∷ []) (cut_comment (is_gap c) s)))
  where
    chosen :
        (b : Bool)
        → scan_comment (c ∷ p ∷ before) s
          ≡ trim_trailing_ws (reverse (p ∷ before) ++ (c ∷ cut_comment (is_gap c) s))
        → (if b then trim_trailing_ws (reverse (p ∷ before)) else scan_comment (c ∷ p ∷ before) s)
          ≡ trim_trailing_ws
              (reverse (p ∷ before) ++ (if b then [] else c ∷ cut_comment (is_gap c) s))
    chosen true i = ap trim_trailing_ws (sym (append-nil (reverse (p ∷ before))))
    chosen false i = i

-- The two packages remove an inline comment in the same way.
pub strip_inline_comment-agrees :
    (v : Text) → strip_inline_comment v ≡ FleetConfig.strip_inline_comment v
unfolding strip_inline_comment FleetConfig.strip_inline_comment
strip_inline_comment-agrees v =
    scan_comment-cut_comment [] v ∙ trim_trailing_ws-trim_right (cut_comment false v)
