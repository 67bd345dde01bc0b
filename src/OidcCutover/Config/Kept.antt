-- ===== src/OidcCutover/Config/Kept.antt =====
-- The lines that a change of the configuration keeps
-- (cli/internal/bootstrap/oidccutover/config.go).
use mathlib.Core.List.{reverse, reverse-reverse, reverse-cons, append-nil}
use kube_dc_public.Prelude.{
  ℕ, ◌+◌, ◌≡◌, refl, sym, ap, subst, ◌∙◌, Bool, true, false, not, ◌&&◌, Option, if◌then◌else◌, none,
  some, List, [], ◌∷◌, ◌++◌, arith, Bool-cases, inl, inr,
}
use kube_dc_public.Prelude.Text.{Text, is_blank}
use kube_dc_public.Prelude.Engine.{Outcome, ok, err}
use kube_dc_public.OidcCutover.Config.{
  spaces, api_server_arg_key, new_items, block_has_flag, managed_flags, Error,
  find_api_server_arg_block, take, drop, block_items, end_of_block, is_legacy, keep,
  drop_legacy_auth_config, drop_blank, append_block, add_block, insert_missing, merge_flags,
  patch_lines,
}
use kube_dc_public.OidcCutover.Config.Within.{
  IsWithin, nothing, extra, same, IsWithin-refl, IsWithin-trans, append-IsWithin,
  append_front-IsWithin, append_back-IsWithin, reverse-IsWithin, take-drop, take-drop_between,
}

-- A line that has to stay: it is not blank, and no item of the retired flag.
abbrev pub has_to_stay : Text → Bool
has_to_stay l = not (is_blank l) && not (is_legacy l)

keep-append : (q : Text → Bool) (xs ys : List Text) → keep q (xs ++ ys) ≡ keep q xs ++ keep q ys
unfolding keep
keep-append q [] ys = refl
keep-append q (x ∷ xs) ys = elim (Bool-cases (q x)) [
  | inl e ↦ ground (arith, e, keep-append q xs ys)
  | inr e ↦ ground (arith, e, keep-append q xs ys)
]

keep-IsWithin : (q : Text → Bool) (xs : List Text) → IsWithin (keep q xs) xs
unfolding keep
keep-IsWithin q [] = nothing
keep-IsWithin q (x ∷ xs) = step (keep-IsWithin q xs) (q x)
  where
    step :
        IsWithin (keep q xs) xs
        → (b : Bool) → IsWithin (if b then x ∷ keep q xs else keep q xs) (x ∷ xs)
    step w true = same w
    step w false = extra w

-- What has to stay of the block is not dropped.
keep_stay-IsWithin :
    (xs : List Text) → IsWithin (keep has_to_stay xs) (keep (λ l. not (is_legacy l)) xs)
unfolding keep
keep_stay-IsWithin [] = nothing
keep_stay-IsWithin (x ∷ xs) = step (keep_stay-IsWithin xs) (is_blank x) (is_legacy x)
  where
    step :
        IsWithin (keep has_to_stay xs) (keep (λ l. not (is_legacy l)) xs)
        → (b c : Bool)
        → IsWithin (if not b && not c then x ∷ keep has_to_stay xs else keep has_to_stay xs) (
            if not c
            then x ∷ keep (λ l. not (is_legacy l)) xs
            else keep (λ l. not (is_legacy l)) xs)
    step w true true = w
    step w true false = extra w
    step w false true = w
    step w false false = same w

drop_blank-IsWithin : (xs : List Text) → IsWithin (keep has_to_stay xs) (drop_blank xs)
unfolding keep drop_blank
drop_blank-IsWithin [] = nothing
drop_blank-IsWithin (x ∷ xs) = step (drop_blank-IsWithin xs) (is_blank x) (is_legacy x)
  where
    step :
        IsWithin (keep has_to_stay xs) (drop_blank xs)
        → (b c : Bool)
        → IsWithin
            (if not b && not c then x ∷ keep has_to_stay xs else keep has_to_stay xs)
            (if b then drop_blank xs else x ∷ xs)
    step w true c = w
    step w false true = extra (keep-IsWithin has_to_stay xs)
    step w false false = same (keep-IsWithin has_to_stay xs)

keep-reverse : (q : Text → Bool) (xs : List Text) → keep q (reverse xs) ≡ reverse (keep q xs)
unfolding keep
keep-reverse q [] = refl
keep-reverse q (x ∷ xs) =
    ap (keep q) (reverse-cons x xs)
    ∙ (keep-append q (reverse xs) (x ∷ [])
        ∙ (ap (λ t. t ++ keep q (x ∷ [])) (keep-reverse q xs) ∙ step (q x)))
  where
    step :
        (b : Bool)
        → reverse (keep q xs) ++ (if b then x ∷ [] else [])
          ≡ reverse (if b then x ∷ keep q xs else keep q xs)
    step true = sym (reverse-cons x (keep q xs))
    step false = append-nil (reverse (keep q xs))

-- What has to stay of a file, and what is there of it after the change.
abbrev pub Stayed : List Text → Outcome Error (Option (List Text)) → Type 0
Stayed lines (ok (some ls)) = IsWithin (keep has_to_stay lines) ls
Stayed lines _ = Unit {0}

drop_legacy_auth_config-IsWithin :
    (lines : List Text) (start : ℕ)
    → IsWithin (keep has_to_stay lines) (drop_legacy_auth_config lines start 0).0
unfolding drop_legacy_auth_config block_items end_of_block
drop_legacy_auth_config-IsWithin lines start =
    let a = start + 1 in
    let e = end_of_block lines start 0 in
    let old = block_items lines start e in
    subst
      (λ v.
        IsWithin (keep has_to_stay v)
          (take a lines ++ (keep (λ l. not (is_legacy l)) old ++ drop e lines)))
      (ap (λ t. take a lines ++ t) (take-drop_between a e lines (omega arith)) ∙ take-drop a lines)
      (subst (λ v. IsWithin v (take a lines ++ (keep (λ l. not (is_legacy l)) old ++ drop e lines)))
        (sym (
          keep-append has_to_stay (take a lines) (old ++ drop e lines)
          ∙ ap (λ t. keep has_to_stay (take a lines) ++ t)
              (keep-append has_to_stay old (drop e lines))))
        (append-IsWithin (keep-IsWithin has_to_stay (take a lines))
          (append-IsWithin (keep_stay-IsWithin old) (keep-IsWithin has_to_stay (drop e lines)))))

append_block-IsWithin :
    (lines block : List Text) → IsWithin (keep has_to_stay lines) (append_block lines block)
unfolding append_block
append_block-IsWithin lines block =
    IsWithin-trans
      (subst (λ v. IsWithin v (reverse (drop_blank (reverse lines))))
        (sym (keep-reverse has_to_stay (reverse lines))
          ∙ ap (keep has_to_stay) (reverse-reverse lines))
        (reverse-IsWithin (drop_blank-IsWithin (reverse lines))))
      (append_back-IsWithin (reverse (drop_blank (reverse lines))) _)

choice-Stayed :
    (lines new ls : List Text) (end : ℕ) (b : Bool)
    → IsWithin (keep has_to_stay lines) ls
    → Stayed lines (ok (if b then none else some (take end ls ++ (new ++ drop end ls))))
choice-Stayed lines new ls end true w = tt
choice-Stayed lines new ls end false w = IsWithin-trans w (
    subst (λ v. IsWithin v (take end ls ++ (new ++ drop end ls))) (take-drop end ls)
      (append-IsWithin (IsWithin-refl (take end ls)) (append_front-IsWithin new (drop end ls))))

insert_missing-Stayed :
    (lines : List Text) (indent : Text) (start end : ℕ) (left : List Text × ℕ)
    → IsWithin (keep has_to_stay lines) left.0
    → Stayed lines (ok (insert_missing indent start end left))
unfolding insert_missing
insert_missing-Stayed lines indent start end (ls, k) w =
    choice-Stayed lines
      (new_items indent (keep (λ f. not (block_has_flag ls start end f)) managed_flags)) ls end _ w

merge_flags-Stayed : (lines : List Text) (start : ℕ) → Stayed lines (ok (merge_flags lines start))
unfolding merge_flags
merge_flags-Stayed lines start =
    insert_missing-Stayed lines _ start _ (drop_legacy_auth_config lines start 0)
      (drop_legacy_auth_config-IsWithin lines start)

add_block-Stayed : (lines : List Text) → Stayed lines (ok (some (add_block lines)))
unfolding add_block
add_block-Stayed lines =
    append_block-IsWithin lines
      ((api_server_arg_key ++ (58 ∷ [])) ∷ new_items (spaces 2) managed_flags)

-- A change of the configuration keeps the lines of the file in their order, but for blank lines and
-- the items of the retired flag: every other line stands in the new file, as it was.
pub patch_lines-Stayed : (lines : List Text) → Stayed lines (patch_lines lines)
unfolding patch_lines
patch_lines-Stayed lines = split (find_api_server_arg_block lines)
  where
    split :
        (r : Outcome Error (Option ℕ))
        → Stayed lines (elim r [
          | err e ↦ err e
          | ok none ↦ ok (some (add_block lines))
          | ok (some start) ↦ ok (merge_flags lines start)
        ])
    split (err e) = tt
    split (ok none) = add_block-Stayed lines
    split (ok (some start)) = merge_flags-Stayed lines start
