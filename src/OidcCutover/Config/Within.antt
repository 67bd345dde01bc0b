-- ===== src/OidcCutover/Config/Within.antt =====
-- Lines that stand among others in their order, and parts of a file
-- (cli/internal/bootstrap/oidccutover/config.go).
use mathlib.Core.List.{reverse, reverse-cons}
use kube_dc_public.Prelude.{
  ℕ, zero, suc, ◌-◌, ◌≡◌, refl, sym, ap, subst, ◌∙◌, ◌≤◌, List, [], ◌∷◌, ◌++◌, arith,
}
use kube_dc_public.Prelude.Text.{Text}
use kube_dc_public.OidcCutover.Config.Items.{minus_zero, minus_suc}
use kube_dc_public.OidcCutover.Config.{take, drop}

-- The first lines stand among the second, in their order.
pub data IsWithin : List Text → List Text → Type 0 where
  nothing : IsWithin [] []
  extra : {l : Text} {xs ys : List Text} → IsWithin xs ys → IsWithin xs (l ∷ ys)
  same : {l : Text} {xs ys : List Text} → IsWithin xs ys → IsWithin (l ∷ xs) (l ∷ ys)

pub IsWithin-refl : (xs : List Text) → IsWithin xs xs
IsWithin-refl [] = nothing
IsWithin-refl (x ∷ xs) = same (IsWithin-refl xs)

pub IsWithin-trans : {xs ys zs : List Text} → IsWithin xs ys → IsWithin ys zs → IsWithin xs zs
IsWithin-trans p nothing = p
IsWithin-trans p (extra q) = extra (IsWithin-trans p q)
IsWithin-trans (extra p) (same q) = extra (IsWithin-trans p q)
IsWithin-trans (same p) (same q) = same (IsWithin-trans p q)

pub append-IsWithin :
    {xs ys us vs : List Text} → IsWithin xs ys → IsWithin us vs → IsWithin (xs ++ us) (ys ++ vs)
append-IsWithin nothing q = q
append-IsWithin (extra p) q = extra (append-IsWithin p q)
append-IsWithin (same p) q = same (append-IsWithin p q)

pub append_front-IsWithin : (xs ys : List Text) → IsWithin ys (xs ++ ys)
append_front-IsWithin [] ys = IsWithin-refl ys
append_front-IsWithin (x ∷ xs) ys = extra (append_front-IsWithin xs ys)

pub append_back-IsWithin : (xs ys : List Text) → IsWithin xs (xs ++ ys)
append_back-IsWithin [] [] = nothing
append_back-IsWithin [] (y ∷ ys) = extra (append_back-IsWithin [] ys)
append_back-IsWithin (x ∷ xs) ys = same (append_back-IsWithin xs ys)

pub reverse-IsWithin : {xs ys : List Text} → IsWithin xs ys → IsWithin (reverse xs) (reverse ys)
reverse-IsWithin nothing = nothing
reverse-IsWithin (extra {l} {xs} {ys} p) =
    subst (λ v. IsWithin (reverse xs) v) (sym (reverse-cons l ys))
      (IsWithin-trans (reverse-IsWithin p) (append_back-IsWithin (reverse ys) (l ∷ [])))
reverse-IsWithin (same {l} {xs} {ys} p) =
    subst (λ v. IsWithin v (reverse (l ∷ ys))) (sym (reverse-cons l xs))
      (subst (λ v. IsWithin (reverse xs ++ (l ∷ [])) v) (sym (reverse-cons l ys))
        (append-IsWithin (reverse-IsWithin p) (IsWithin-refl (l ∷ []))))

pub take-drop : (n : ℕ) (ls : List Text) → take n ls ++ drop n ls ≡ ls
unfolding take drop
take-drop zero ls = refl
take-drop (suc n) [] = refl
take-drop (suc n) (l ∷ ls) = ap (λ t. l ∷ t) (take-drop n ls)

take-nil : (n : ℕ) → take n [] ≡ []
unfolding take
take-nil zero = refl
take-nil (suc n) = refl

-- The lines between two places, and those from the second on.
pub take-drop_between :
    (m n : ℕ) (ls : List Text) → m ≤ n → take (n - m) (drop m ls) ++ drop n ls ≡ drop m ls
unfolding take drop
take-drop_between zero n ls l = ap (λ k. take k ls ++ drop n ls) (minus_zero n) ∙ take-drop n ls
take-drop_between (suc m) zero ls l = absurd (omega arith)
take-drop_between (suc m) (suc n) [] l = ap (λ t. t ++ []) (take-nil (suc n - suc m))
take-drop_between (suc m) (suc n) (x ∷ ls) l =
    ap (λ k. take k (drop m ls) ++ drop n ls) (minus_suc m n)
    ∙ take-drop_between m n ls (omega arith)
