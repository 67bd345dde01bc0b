-- ===== src/OidcCutover/Config.antt =====
-- cli/internal/bootstrap/oidccutover/config.go: the flags that point the API server at the
-- authenticator, written into RKE2's configuration line by line.
pub mod Items
pub mod Flags
pub mod Within
pub mod Kept
mod Tests
use kube_dc_public.Prelude.{
  ℕ, zero, suc, ◌+◌, ◌-◌, Bool, true, false, not, ◌&&◌, ◌||◌, Option, none, some, List, [], ◌∷◌,
  ◌++◌, length, is_empty, any, ltb, ◌==◌, if◌then◌else◌,
}
use mathlib.Core.List.{reverse}
use kube_dc_public.Prelude.Text.{
  Text, codes, text_eq, trim_space, is_blank, has_prefix, contains, split, join,
}
use kube_dc_public.Prelude.Engine.{Outcome, ok, err}

pub api_server_arg_key : Text
api_server_arg_key = codes "kube-apiserver-arg"

pub webhook_flag : Text
webhook_flag =
    codes "authentication-token-webhook-config-file=/etc/rancher/oidc-webhook-kubeconfig.yaml"

pub cache_ttl_flag : Text
cache_ttl_flag = codes "authentication-token-webhook-cache-ttl=2m"

pub legacy_auth_config_prefix : Text
legacy_auth_config_prefix = codes "authentication-config="

pub managed_flags : List Text
managed_flags = webhook_flag ∷ cache_ttl_flag ∷ []

-- The line of an inline value, and the two lines of a key that stands twice, from 0.
pub data Error : Type 0 where
  inline_value : ℕ → Error
  declared_twice : ℕ → ℕ → Error

-- A line up to its first `#`.
pub strip_comment : Text → Text
strip_comment [] = []
strip_comment (c ∷ s) = let rest = strip_comment s in if c == 35 then [] else c ∷ rest

pub leading_spaces : Text → ℕ
leading_spaces [] = 0
leading_spaces (c ∷ s) = let rest = leading_spaces s in if c == 32 || c == 9 then rest + 1 else 0

pub spaces : ℕ → Text
spaces zero = []
spaces (suc n) = 32 ∷ spaces n

-- A text without its last code point, and that code point.
pub unsnoc : Text → Option (Text × ℕ)
unsnoc [] = none
unsnoc (c ∷ s) = elim (unsnoc s) [ none ↦ some ([], c) | some r ↦ some (c ∷ r.0, r.1) ]

-- The tests on the first and the last byte.
pub quoted_with : ℕ → ℕ → Bool
quoted_with a b = (a == 34 || a == 39) && b == a

pub unquote : Text → Text
unfolding unsnoc quoted_with
unquote [] = []
unquote (c ∷ s) = elim (unsnoc s) [
  | none ↦ c ∷ s
  | some r ↦ (if quoted_with c r.1 then r.0 else c ∷ s)
]

-- strings.SplitN(line, ":", 2): what stands before the first colon, and what follows it.
pub cut_colon : Text → Text × Option Text
cut_colon [] = ([], none)
cut_colon (c ∷ s) = let rest = cut_colon s in if c == 58 then ([], some s) else (c ∷ rest.0, rest.1)

-- The key of a line at column zero, and whether a value stands on its line.
pub is_inline : Option Text → Bool
is_inline none = false
is_inline (some v) = not (is_blank v)

-- A line that opens the list of flags: it is at column zero, and its key is the list's.
pub opens_block : Text → Bool
unfolding api_server_arg_key
opens_block line =
    let body = strip_comment line in
    not (is_blank body)
    && leading_spaces body == 0
    && text_eq (unquote (trim_space (cut_colon body).0)) api_server_arg_key

-- `start` is the opening line found so far; the lines left begin with number `i`.
pub find_block_from : ℕ → Option ℕ → List Text → Outcome Error (Option ℕ)
find_block_from i start [] = ok start
find_block_from i start (line ∷ ls) =
    let rest = find_block_from (i + 1) (if opens_block line then some i else start) ls in
    if opens_block line
    then (if is_inline (cut_colon (strip_comment line)).1
        then err (inline_value i)
        else elim start [ none ↦ rest | some s ↦ err (declared_twice s i) ])
    else rest

pub find_api_server_arg_block : List Text → Outcome Error (Option ℕ)
find_api_server_arg_block lines = find_block_from 0 none lines

pub is_item : Text → Bool
is_item line = has_prefix (codes "- ") (trim_space (strip_comment line))

-- A line that a block whose key is at column `indent` goes on through.
pub in_block : ℕ → Text → Bool
in_block indent line =
    let content = strip_comment line in
    is_blank content
    || ltb indent (leading_spaces content)
    || (leading_spaces content == indent && is_item line)

-- The number of lines in front that belong to the block.
pub block_length : ℕ → List Text → ℕ
block_length indent [] = 0
block_length indent (line ∷ ls) =
    let rest = block_length indent ls in if in_block indent line then rest + 1 else 0

pub take : ℕ → List Text → List Text
take zero ls = []
take (suc n) [] = []
take (suc n) (l ∷ ls) = l ∷ take n ls

pub drop : ℕ → List Text → List Text
drop zero ls = ls
drop (suc n) [] = []
drop (suc n) (l ∷ ls) = drop n ls

pub end_of_block : List Text → ℕ → ℕ → ℕ
unfolding drop block_length
end_of_block lines start indent = start + 1 + block_length indent (drop (start + 1) lines)

-- The lines of the block after its key.
pub block_items : List Text → ℕ → ℕ → List Text
unfolding take drop
block_items lines start end = take (end - (start + 1)) (drop (start + 1) lines)

pub first_item_indent : ℕ → List Text → Text
first_item_indent indent [] = spaces (indent + 2)
first_item_indent indent (line ∷ ls) =
    let rest = first_item_indent indent ls in
    if is_item line then spaces (leading_spaces (strip_comment line)) else rest

pub list_item_indent : List Text → ℕ → ℕ → ℕ → Text
list_item_indent lines start end indent = first_item_indent indent (block_items lines start end)

-- strings.TrimPrefix(item, "- ") on an item.
pub item_value : Text → Text
item_value line = elim (trim_space (strip_comment line)) [
  | _ ∷ _ ∷ v ↦ unquote (trim_space v)
  | _ ↦ []
]

pub is_flag : Text → Text → Bool
is_flag flag line = is_item line && text_eq (item_value line) flag

pub block_has_flag : List Text → ℕ → ℕ → Text → Bool
block_has_flag lines start end flag = any (is_flag flag) (block_items lines start end)

pub is_legacy : Text → Bool
unfolding legacy_auth_config_prefix
is_legacy line = is_item line && has_prefix legacy_auth_config_prefix (item_value line)

pub keep : (Text → Bool) → List Text → List Text
keep p [] = []
keep p (l ∷ ls) = let rest = keep p ls in if p l then l ∷ rest else rest

-- The lines left, and how many were removed.
pub drop_legacy_auth_config : List Text → ℕ → ℕ → List Text × ℕ
unfolding take drop keep end_of_block
drop_legacy_auth_config lines start indent =
    let end = end_of_block lines start indent in
    let old = block_items lines start end in
    let left = keep (λ l. not (is_legacy l)) old in
    (take (start + 1) lines ++ (left ++ drop end lines), length old - length left)

pub is_cut_over_line : Text → Bool
is_cut_over_line line = contains webhook_flag (strip_comment line)

pub is_cut_over : Text → Bool
is_cut_over body = any is_cut_over_line (split body (10 ∷ []))

pub drop_blank : List Text → List Text
drop_blank [] = []
drop_blank (l ∷ ls) = let rest = drop_blank ls in if is_blank l then rest else l ∷ ls

pub append_block : List Text → List Text → List Text
unfolding drop_blank
append_block lines block = reverse (drop_blank (reverse lines)) ++ (block ++ ([] ∷ []))

pub new_items : Text → List Text → List Text
new_items indent [] = []
new_items indent (f ∷ fs) = (indent ++ (codes "- " ++ f)) ∷ new_items indent fs

pub add_block : List Text → List Text
unfolding append_block new_items api_server_arg_key
add_block lines =
    append_block lines ((api_server_arg_key ++ (58 ∷ [])) ∷ new_items (spaces 2) managed_flags)

-- The lines with the missing flags at the end of the block, or nothing where none is to change.
pub insert_missing : Text → ℕ → ℕ → List Text × ℕ → Option (List Text)
unfolding keep take drop new_items
insert_missing indent start end (patched, dropped) =
    let missing = keep (λ f. not (block_has_flag patched start end f)) managed_flags in
    if is_empty missing && dropped == 0
    then none
    else some (take end patched ++ (new_items indent missing ++ drop end patched))

pub merge_flags : List Text → ℕ → Option (List Text)
unfolding insert_missing end_of_block drop_legacy_auth_config
merge_flags lines start =
    let end = end_of_block lines start 0 in
    let left = drop_legacy_auth_config lines start 0 in
    insert_missing (list_item_indent lines start end 0) start (end - left.1) left

-- The new text, or nothing where the text says it already.
pub patch_lines : List Text → Outcome Error (Option (List Text))
unfolding add_block merge_flags
patch_lines lines = elim (find_api_server_arg_block lines) [
  | err e ↦ err e
  | ok none ↦ ok (some (add_block lines))
  | ok (some start) ↦ ok (merge_flags lines start)
]

pub patch_config : Text → Outcome Error (Text × Bool)
unfolding patch_lines
patch_config body = elim (patch_lines (split body (10 ∷ []))) [
  | err e ↦ err e
  | ok none ↦ ok (body, false)
  | ok (some ls) ↦ ok (join ls (10 ∷ []), true)
]
