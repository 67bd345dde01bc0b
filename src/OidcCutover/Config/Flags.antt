-- ===== src/OidcCutover/Config/Flags.antt =====
-- The flags of a patched configuration (cli/internal/bootstrap/oidccutover/config.go).
use kube_dc_public.Prelude.{
  ℕ, ◌+◌, ◌-◌, ◌≡◌, refl, sym, subst, Bool, true, false, not, ◌&&◌, ◌==◌, inl, inr, Option, none,
  some, List, [], ◌∷◌, ◌++◌, arith, any, Bool-cases, is_empty,
}
use mathlib.Core.List.{reverse}
use kube_dc_public.Prelude.Text.{Text, codes}
use kube_dc_public.Prelude.Engine.{Outcome, ok, err}
use kube_dc_public.OidcCutover.Config.{
  find_api_server_arg_block, drop_blank, api_server_arg_key, Error, webhook_flag, cache_ttl_flag,
  managed_flags, spaces, take, drop, block_items, list_item_indent, is_flag, block_has_flag, keep,
  drop_legacy_auth_config, append_block, new_items, add_block, merge_flags, insert_missing,
  patch_lines, api_server_arg_key, end_of_block, is_legacy,
}
use kube_dc_public.OidcCutover.Config.Items.{
  any_front, any_back, any-take, any-drop, any-keep, any_between, any-append,
  first_item_indent-spaces, is_flag-spaces, is_flag-webhook, is_flag-cache_ttl,
}

-- Both flags are items of the file.
pub record HasFlags (lines : List Text) : Type 0 where
  pub webhook : any (is_flag webhook_flag) lines ≡ true
  pub cache_ttl : any (is_flag cache_ttl_flag) lines ≡ true

-- The file has the flags after the change, and before it where none is to be made.
abbrev pub Patched : List Text → Outcome Error (Option (List Text)) → Type 0
Patched lines (ok none) = HasFlags lines
Patched lines (ok (some ls)) = HasFlags ls
Patched lines (err e) = Unit {0}

-- A line for each flag that is not there.
abbrev added : (Text → Bool) → Text → List Text
added has indent = new_items indent (keep (λ f. not (has f)) managed_flags)

added-webhook :
    (has : Text → Bool) (n : ℕ)
    → has webhook_flag ≡ false
    → any (is_flag webhook_flag) (added has (spaces n)) ≡ true
unfolding new_items managed_flags keep
added-webhook has n h =
    ground (arith, h, is_flag-spaces webhook_flag n (codes "- " ++ webhook_flag), is_flag-webhook)

added-cache_ttl :
    (has : Text → Bool) (n : ℕ)
    → has cache_ttl_flag ≡ false
    → any (is_flag cache_ttl_flag) (added has (spaces n)) ≡ true
unfolding new_items managed_flags keep
added-cache_ttl has n h =
    ground
      (arith, h, is_flag-spaces cache_ttl_flag n (codes "- " ++ cache_ttl_flag), is_flag-cache_ttl)

-- Each flag is there or added.
merged-flag :
    (f : Text) (start end : ℕ) (ls new : List Text)
    → (block_has_flag ls start end f ≡ false → any (is_flag f) new ≡ true)
    → any (is_flag f) (take end ls ++ (new ++ drop end ls)) ≡ true
unfolding block_has_flag block_items
merged-flag f start end ls new h = elim (Bool-cases (block_has_flag ls start end f)) [
  | inl e ↦ any_front (is_flag f) _ _ (any_between (is_flag f) (start + 1) end ls e)
  | inr e ↦ any_back (is_flag f) (take end ls) _ (any_front (is_flag f) new _ (h e))
]

-- What is left of the lines has no flag that they have not.
left-flag :
    (f : Text) (ls : List Text) (start indent : ℕ)
    → any (is_flag f) (drop_legacy_auth_config ls start indent).0 ≡ true
    → any (is_flag f) ls ≡ true
unfolding drop_legacy_auth_config block_items
left-flag f ls start indent h = ground (
  arith,
  any-append (is_flag f) (take (start + 1) ls) (
      keep (λ l. not (is_legacy l)) (block_items ls start (end_of_block ls start indent))
      ++ drop (end_of_block ls start indent) ls),
  any-append (is_flag f)
      (keep (λ l. not (is_legacy l)) (block_items ls start (end_of_block ls start indent)))
      (drop (end_of_block ls start indent) ls),
  any-take (is_flag f) (start + 1) ls,
  any-drop (is_flag f) (end_of_block ls start indent) ls,
  any-keep (is_flag f) (λ l. not (is_legacy l))
      (block_items ls start (end_of_block ls start indent)),
  any-take (is_flag f) (end_of_block ls start indent - (start + 1)) (drop (start + 1) ls),
  any-drop (is_flag f) (start + 1) ls,
)

abbrev key_line : Text
key_line = api_server_arg_key ++ (58 ∷ [])

add_block-flag :
    (f : Text) (lines : List Text)
    → any (is_flag f) (added (λ g. false) (spaces 2)) ≡ true
    → any (is_flag f) (add_block lines) ≡ true
unfolding add_block append_block keep managed_flags
add_block-flag f lines h = any_back (is_flag f) (reverse (drop_blank (reverse lines))) _ (
    any_front (is_flag f) (key_line ∷ new_items (spaces 2) managed_flags) ([] ∷ [])
      (any_back (is_flag f) (key_line ∷ []) (new_items (spaces 2) managed_flags) h))

-- What is there of a file after the legacy flag was dropped.
abbrev Inserted : List Text → Option (List Text) → Type 0
Inserted patched none = HasFlags patched
Inserted patched (some ls) = HasFlags ls

has→any :
    (f : Text) (start end : ℕ) (ls : List Text)
    → block_has_flag ls start end f ≡ true
    → any (is_flag f) ls ≡ true
unfolding block_has_flag block_items
has→any f start end ls h =
    any-take (is_flag f) end ls (any_between (is_flag f) (start + 1) end ls h)

none_missing :
    (has : Text → Bool)
    → is_empty (keep (λ f. not (has f)) managed_flags) ≡ true
    → (has webhook_flag ≡ true) × (has cache_ttl_flag ≡ true)
unfolding keep managed_flags
none_missing has h = ground arith

insert_missing-Inserted :
    (n start end : ℕ) (left : List Text × ℕ)
    → Inserted left.0 (insert_missing (spaces n) start end left)
unfolding insert_missing
insert_missing-Inserted n start end (ls, k) = elim (Bool-cases same) [
  | inl e ↦ ground (
    arith,
    e,
    none_missing has,
    has→any webhook_flag start end ls,
    has→any cache_ttl_flag start end ls,
  )
  | inr e ↦ ground (
    arith,
    e,
    merged-flag webhook_flag start end ls (added has (spaces n)) (added-webhook has n),
    merged-flag cache_ttl_flag start end ls (added has (spaces n)) (added-cache_ttl has n),
  )
]
  where
    has : Text → Bool
    has f = block_has_flag ls start end f

    same : Bool
    same = is_empty (keep (λ f. not (has f)) managed_flags) && k == 0

Inserted-Patched :
    (lines : List Text) (left : List Text) (r : Option (List Text))
    → ((f : Text) → any (is_flag f) left ≡ true → any (is_flag f) lines ≡ true)
    → Inserted left r
    → Patched lines (ok r)
Inserted-Patched lines left none back p = record {
  webhook = back webhook_flag p.webhook;
  cache_ttl = back cache_ttl_flag p.cache_ttl;
}
Inserted-Patched lines left (some ls) back p = p

merge_flags-Patched : (lines : List Text) (start : ℕ) → Patched lines (ok (merge_flags lines start))
unfolding merge_flags list_item_indent
merge_flags-Patched lines start =
    let end = end_of_block lines start 0 in
    let left = drop_legacy_auth_config lines start 0 in
    let (n, e) = first_item_indent-spaces 0 (block_items lines start end) in
    Inserted-Patched lines left.0 _ (λ f h. left-flag f lines start 0 h)
      (subst (λ i. Inserted left.0 (insert_missing i start (end - left.1) left)) (sym e)
        (insert_missing-Inserted n start (end - left.1) left))

-- A change of the configuration that is not refused leaves a file that has both flags of the webhook
-- as items, whatever the file was; where no change is to be made, the file has them already.
pub patch_lines-HasFlags : (lines : List Text) → Patched lines (patch_lines lines)
unfolding patch_lines
patch_lines-HasFlags lines = split (find_api_server_arg_block lines)
  where
    split :
        (r : Outcome Error (Option ℕ))
        → Patched lines (elim r [
          | err e ↦ err e
          | ok none ↦ ok (some (add_block lines))
          | ok (some start) ↦ ok (merge_flags lines start)
        ])
    split (err e) = tt
    split (ok none) = record {
      webhook = add_block-flag webhook_flag lines (added-webhook (λ g. false) 2 refl);
      cache_ttl = add_block-flag cache_ttl_flag lines (added-cache_ttl (λ g. false) 2 refl);
    }
    split (ok (some start)) = merge_flags-Patched lines start
