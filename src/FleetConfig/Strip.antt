-- ===== src/FleetConfig/Strip.antt =====
-- The removal of an inline comment (cli/internal/bootstrap/fleetconfig/config.go).
use kube_dc_public.Prelude.{
  ◌≡◌, refl, ◌∙◌, ap, Bool, true, false, [], ◌∷◌, ◌&&◌, ◌==◌, if◌then◌else◌, arith,
}
use kube_dc_public.Prelude.Text.{Text}
use kube_dc_public.FleetConfig.{is_gap, cut_comment, trim_right, strip_inline_comment}

trim_right_twice : (v : Text) → trim_right (trim_right v) ≡ trim_right v
unfolding trim_right
trim_right_twice [] = refl
trim_right_twice (c ∷ s) = ground (arith, trim_right_twice s)

-- Whether no comment begins in the text.
is_plain : Bool → Text → Bool
unfolding is_gap
is_plain b [] = true
is_plain b (c ∷ s) = if c == b'#' && b then false else is_plain (is_gap c) s

is_plain-cut_comment : (b : Bool) (v : Text) → is_plain b (cut_comment b v) ≡ true
unfolding is_plain cut_comment
is_plain-cut_comment b [] = refl
is_plain-cut_comment b (c ∷ s) = ground (arith, is_plain-cut_comment (is_gap c) s)

is_plain-trim_right : (b : Bool) (v : Text) → is_plain b v ≡ true → is_plain b (trim_right v) ≡ true
unfolding is_plain trim_right
is_plain-trim_right b [] h = refl
is_plain-trim_right b (c ∷ s) h = ground (arith, is_plain-trim_right (is_gap c) s)

cut_comment_plain : (b : Bool) (v : Text) → is_plain b v ≡ true → cut_comment b v ≡ v
unfolding is_plain cut_comment
cut_comment_plain b [] h = refl
cut_comment_plain b (c ∷ s) h = ground (arith, cut_comment_plain (is_gap c) s)

-- A second removal of the inline comment finds none.
pub strip_inline_comment_twice :
    (v : Text) → strip_inline_comment (strip_inline_comment v) ≡ strip_inline_comment v
unfolding strip_inline_comment
strip_inline_comment_twice v =
    let cut = cut_comment false v in
    ap trim_right (
      cut_comment_plain false (trim_right cut)
        (is_plain-trim_right false cut (is_plain-cut_comment false v)))
    ∙ trim_right_twice cut
