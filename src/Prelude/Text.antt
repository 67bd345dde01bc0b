-- ===== src/Prelude/Text.antt =====
-- Go strings as lists of code points, with what the program uses of package strings.
use Prim.Native.Nat.{ℕ, zero, suc, ◌-◌}
use Prim.Native.Char.{code}
use Prim.Native.String.{String}
use mathlib.Core.Path.{◌≡◌, refl}
use mathlib.Core.Bool.{Bool, true, false, ◌&&◌, ◌||◌}
use mathlib.Core.List.{List, [], ◌∷◌, ◌++◌, reverse}
use mathlib.Core.Option.{Option, none, some}
use native.Mathlib.Omega.{arith}
use kube_dc_public.Prelude.Tests.{leb, ◌==◌, if◌then◌else◌}
use kube_dc_public.Prelude.Lists.{length}

abbrev pub Text : Type 0
Text = List ℕ

-- The code points of a literal.
abbrev pub codes : String → Text
codes String.[] = []
codes (String.◌∷◌ c s) = code c ∷ codes s

-- Go's `==` on strings.
unfoldable pub text_eq : Text → Text → Bool
text_eq [] [] = true
text_eq (x ∷ s) (y ∷ t) = x == y && text_eq s t
text_eq _ _ = false

pub text_eq→eq : (s t : Text) → text_eq s t ≡ true → s ≡ t
unfolding text_eq
text_eq→eq [] [] h = refl
text_eq→eq [] (y ∷ t) h = ground arith
text_eq→eq (x ∷ s) [] h = ground arith
text_eq→eq (x ∷ s) (y ∷ t) h = ground (arith, text_eq→eq s t)

pub text_eq_refl : (s : Text) → text_eq s s ≡ true
unfolding text_eq
text_eq_refl [] = refl
text_eq_refl (x ∷ s) = ground (arith, text_eq_refl s)

-- unicode.IsSpace.
unfoldable pub is_space : ℕ → Bool
is_space c =
    (leb 9 c && leb c 13)
    || c == 32
    || c == 0x85
    || c == 0xa0
    || c == 0x1680
    || (leb 0x2000 c && leb c 0x200a)
    || c == 0x2028
    || c == 0x2029
    || c == 0x202f
    || c == 0x205f
    || c == 0x3000

unfoldable pub trim_left : Text → Text
trim_left [] = []
trim_left (c ∷ s) = let rest = trim_left s in if is_space c then rest else c ∷ s

-- strings.TrimSpace.
unfoldable pub trim_space : Text → Text
unfolding trim_left is_space
trim_space s = reverse (trim_left (reverse (trim_left s)))

-- strings.HasPrefix, with the prefix first.
unfoldable pub has_prefix : Text → Text → Bool
has_prefix [] s = true
has_prefix (p ∷ ps) [] = false
has_prefix (p ∷ ps) (c ∷ s) = p == c && has_prefix ps s

pub has_prefix_append : (p s : Text) → has_prefix p (p ++ s) ≡ true
unfolding has_prefix
has_prefix_append [] s = refl
has_prefix_append (c ∷ p) s = ground (arith, has_prefix_append p s)

pub has_prefix→append : (p s : Text) → has_prefix p s ≡ true → (t : Text) × (s ≡ p ++ t)
unfolding has_prefix
has_prefix→append [] s h = (s, refl)
has_prefix→append (c ∷ p) [] h = cc
has_prefix→append (c ∷ p) (d ∷ s) h =
    let (t, e) = has_prefix→append p s (ground arith) in (t, ground arith)

-- strings.TrimPrefix of a prefix that is there.
unfoldable pub remove_prefix : Text → Text → Text
remove_prefix [] s = s
remove_prefix (p ∷ ps) [] = []
remove_prefix (p ∷ ps) (c ∷ s) = remove_prefix ps s

-- strings.Contains, with the part first.
unfoldable pub contains : Text → Text → Bool
unfolding has_prefix
contains p [] = has_prefix p []
contains p (c ∷ s) = has_prefix p (c ∷ s) || contains p s

abbrev cons_head : ℕ → List Text → List Text
cons_head c [] = (c ∷ []) ∷ []
cons_head c (w ∷ ws) = (c ∷ w) ∷ ws

-- `skip` code points of a separator are still to be passed over.
split_from : Text → ℕ → Text → List Text
split_from sep skip [] = [] ∷ []
split_from sep (suc skip) (c ∷ s) = split_from sep skip s
split_from sep zero (c ∷ s) =
    let cut = [] ∷ split_from sep (length sep - 1) s in
    let on = cons_head c (split_from sep zero s) in if has_prefix sep (c ∷ s) then cut else on

-- strings.Split with a separator that is not empty.
unfoldable pub split : Text → Text → List Text
unfolding split_from has_prefix
split s sep = split_from sep 0 s

-- strings.Join.
unfoldable pub join : List Text → Text → Text
join [] sep = []
join (w ∷ []) sep = w
join (w ∷ v ∷ ws) sep = w ++ (sep ++ join (v ∷ ws) sep)

unfoldable pub is_blank : Text → Bool
unfolding trim_space
is_blank s = elim (trim_space s) [ [] ↦ true | _ ∷ _ ↦ false ]

-- strings.Index of a part that is not empty, as what stands before its first place and after it.
unfoldable pub cut_at : Text → Text → Option (Text × Text)
unfolding has_prefix
cut_at p [] = none
cut_at p (c ∷ s) =
    let rest = cut_at p s in
    if has_prefix p (c ∷ s)
    then some ([], remove_prefix p (c ∷ s))
    else elim rest [ none ↦ none | some r ↦ some (c ∷ r.0, r.1) ]
