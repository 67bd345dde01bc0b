-- ===== src/OidcCutover/Config/Items.antt =====
-- Searches among the lines and items of a configuration
-- (cli/internal/bootstrap/oidccutover/config.go).
use kube_dc_public.Prelude.{
  ℕ, zero, suc, ◌+◌, ◌-◌, ◌≡◌, refl, ap, subst, Bool, true, ◌||◌, inl, inr, List, [], ◌∷◌, ◌++◌,
  arith, any, Bool-cases,
}
use kube_dc_public.Prelude.Text.{Text, codes, trim_space, text_eq, has_prefix}
use kube_dc_public.OidcCutover.Config.{
  leading_spaces, unquote, webhook_flag, cache_ttl_flag, strip_comment, spaces, take, drop,
  first_item_indent, is_item, item_value, is_flag, keep,
}

pub minus_zero : (n : ℕ) → n - 0 ≡ n
minus_zero n = omega arith

zero_minus : (n : ℕ) → 0 - suc n ≡ 0
zero_minus n = omega arith

pub minus_suc : (m n : ℕ) → suc n - suc m ≡ n - m
minus_suc m n = omega arith

module _ (p : Text → Bool) where
  pub any-append : (xs ys : List Text) → any p (xs ++ ys) ≡ any p xs || any p ys
  any-append [] ys = refl
  any-append (x ∷ xs) ys = ground (arith, any-append xs ys)

  pub any_front : (xs ys : List Text) → any p xs ≡ true → any p (xs ++ ys) ≡ true
  any_front xs ys h = ground (arith, any-append xs ys)

  pub any_back : (xs ys : List Text) → any p ys ≡ true → any p (xs ++ ys) ≡ true
  any_back xs ys h = ground (arith, any-append xs ys)

  pub any-take : (n : ℕ) (ls : List Text) → any p (take n ls) ≡ true → any p ls ≡ true
  unfolding take
  any-take zero ls h = cc
  any-take (suc n) [] h = h
  any-take (suc n) (l ∷ ls) h = ground (arith, any-take n ls)

  pub any-drop : (n : ℕ) (ls : List Text) → any p (drop n ls) ≡ true → any p ls ≡ true
  unfolding drop
  any-drop zero ls h = h
  any-drop (suc n) [] h = h
  any-drop (suc n) (l ∷ ls) h = ground (arith, any-drop n ls)

  pub any-keep : (q : Text → Bool) (ls : List Text) → any p (keep q ls) ≡ true → any p ls ≡ true
  unfolding keep
  any-keep q [] h = h
  any-keep q (l ∷ ls) h = ground (arith, any-keep q ls)

  -- A hit between the lines `m` and `n` is one before the line `n`.
  pub any_between :
      (m n : ℕ) (ls : List Text)
      → any p (take (n - m) (drop m ls)) ≡ true
      → any p (take n ls) ≡ true
  unfolding take drop
  any_between zero n ls h = subst (λ k. any p (take k ls) ≡ true) (minus_zero n) h
  any_between (suc m) zero ls h =
      subst (λ k. any p (take k (drop (suc m) ls)) ≡ true) (zero_minus m) h
  any_between (suc m) (suc n) [] h = any-take _ _ h
  any_between (suc m) (suc n) (l ∷ ls) h = ground (arith, minus_suc m n, any_between m n ls)

strip_spaces : (n : ℕ) (s : Text) → strip_comment (spaces n ++ s) ≡ spaces n ++ strip_comment s
unfolding strip_comment spaces
strip_spaces zero s = refl
strip_spaces (suc n) s = ap (λ t. 32 ∷ t) (strip_spaces n s)

trim_spaces : (n : ℕ) (s : Text) → trim_space (spaces n ++ s) ≡ trim_space s
unfolding trim_space spaces
trim_spaces zero s = refl
trim_spaces (suc n) s = trim_spaces n s

pub is_flag-spaces : (f : Text) (n : ℕ) (s : Text) → is_flag f (spaces n ++ s) ≡ is_flag f s
unfolding is_flag is_item item_value
is_flag-spaces f n s = ground (arith, strip_spaces n s, trim_spaces n (strip_comment s))

-- The indent of the items is made of spaces.
pub first_item_indent-spaces :
    (i : ℕ) (ls : List Text) → (n : ℕ) × (first_item_indent i ls ≡ spaces n)
unfolding first_item_indent
first_item_indent-spaces i [] = (i + 2, refl)
first_item_indent-spaces i (l ∷ ls) = elim (Bool-cases (is_item l)) [
  | inl e ↦ (leading_spaces (strip_comment l), ground (arith, e))
  | inr e ↦ let (n, q) = first_item_indent-spaces i ls in (n, ground (arith, e, q))
]

pub is_flag-webhook : is_flag webhook_flag (codes "- " ++ webhook_flag) ≡ true
unfolding is_flag is_item item_value webhook_flag has_prefix trim_space strip_comment text_eq
    unquote
is_flag-webhook = refl

pub is_flag-cache_ttl : is_flag cache_ttl_flag (codes "- " ++ cache_ttl_flag) ≡ true
unfolding is_flag is_item item_value cache_ttl_flag has_prefix trim_space strip_comment text_eq
    unquote
is_flag-cache_ttl = refl
