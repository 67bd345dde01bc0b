-- ===== src/EnvFile.antt =====
-- cli/internal/bootstrap/config/env.go: the store of a cluster-config.env, as a list of lines with
-- an index. A map is a list of pairs, one for each key.
pub mod Index
pub mod Store
pub mod Write
pub mod Scan
pub mod RoundTrip
mod Tests
use kube_dc_public.Prelude.{
  ℕ, zero, suc, ◌+◌, Bool, true, false, Option, none, some, List, [], ◌∷◌, ◌++◌, map, length,
  is_empty, ◌==◌, ◌||◌, ◌&&◌, if◌then◌else◌,
}
use kube_dc_public.Prelude.Text.{Text, codes, text_eq, trim_space, has_prefix, cut_at}

pub data LineKind : Type 0 where
  kv blank comment : LineKind

pub record EnvLine : Type 0 where
  pub kind : LineKind
  pub key : Text
  pub value : Text
  pub raw : Text

pub record Env : Type 0 where
  pub path : Text
  pub lines : List EnvLine
  pub index : List (Text × ℕ)

pub last_code : ℕ → Text → ℕ
last_code c [] = c
last_code c (d ∷ s) = last_code d s

pub drop_last : Text → Text
drop_last [] = []
drop_last (c ∷ []) = []
drop_last (c ∷ d ∷ s) = c ∷ drop_last (d ∷ s)

-- Two quotes of one kind around a text.
pub is_quoted : ℕ → Text → Bool
unfolding last_code
is_quoted q [] = false
is_quoted q (c ∷ []) = false
is_quoted q (c ∷ d ∷ s) = c == q && last_code d s == q

pub strip_ends : Text → Text
unfolding drop_last
strip_ends [] = []
strip_ends (c ∷ s) = drop_last s

pub unquote : Text → Text
unfolding is_quoted strip_ends
unquote s = if is_quoted b'"' s || is_quoted b'\'' s then strip_ends s else s

abbrev pub kv_line : Text → Text → Text → EnvLine
kv_line key value raw = record { kind = kv; key = key; value = value; raw = raw }

abbrev pub plain_line : LineKind → Text → EnvLine
plain_line kind raw = record { kind = kind; key = []; value = []; raw = raw }

pub split_line : Text → Option (Text × Text) → EnvLine
unfolding unquote trim_space
split_line line none = plain_line comment line
split_line line (some (k, v)) = kv_line (trim_space k) (unquote (trim_space v)) line

abbrev pub is_kv : EnvLine → Bool
is_kv l = elim l.kind [ kv ↦ true | _ ↦ false ]

-- One line of the file.
pub parse_line : Text → EnvLine
unfolding split_line trim_space has_prefix cut_at
parse_line line =
    if is_empty (trim_space line)
    then plain_line blank line
    else if has_prefix (b'#' ∷ []) (trim_space line)
    then plain_line comment line
    else split_line line (cut_at (b'=' ∷ []) line)

-- The reads and writes of a map.
pub find : {A : Type 0} → Text → List (Text × A) → Option A
find k [] = none
find k (e ∷ es) = if text_eq k e.0 then some e.1 else find k es

pub put : {A : Type 0} → Text → A → List (Text × A) → List (Text × A)
put k i [] = (k, i) ∷ []
put k i (e ∷ es) = let rest = put k i es in if text_eq k e.0 then (k, i) ∷ es else e ∷ rest

pub append : EnvLine → Env → Env
append l e = record e { lines = e.lines ++ (l ∷ []) }

pub append_kv : EnvLine → Env → Env
unfolding put append
append_kv l e = record (append l e) { index = put l.key (length e.lines) e.index }

pub scan_line : EnvLine → Env → Env
unfolding append append_kv
scan_line l e = if is_kv l then append_kv l e else append l e

pub new_env : Text → Env
new_env path = record { path = path; lines = []; index = [] }

-- LoadEnv on the lines that the scanner gives; `none` if the file cannot be opened or read.
pub scan_lines : List Text → Env → Env
unfolding scan_line parse_line
scan_lines [] e = e
scan_lines (t ∷ ts) e = scan_lines ts (scan_line (parse_line t) e)

pub load_env : Text → Option (List Text) → Option Env
unfolding scan_lines new_env
load_env path none = none
load_env path (some ts) = some (scan_lines ts (new_env path))

pub value_at : List EnvLine → ℕ → Option Text
value_at [] i = none
value_at (l ∷ ls) zero = some l.value
value_at (l ∷ ls) (suc i) = value_at ls i

-- `none` is the answer that the key is not set. An index out of range, which panics in the source,
-- is `none` too.
pub get : Env → Text → Option Text
unfolding find value_at
get e k = elim (find k e.index) [ none ↦ none | some i ↦ value_at e.lines i ]

unfoldable pub get_or : Env → Text → Text → Text
unfolding get
get_or e k fallback = elim (get e k) [ none ↦ fallback | some v ↦ v ]

pub map_of : List EnvLine → List (Text × Text) → List (Text × Text)
unfolding put
map_of [] out = out
map_of (l ∷ ls) out = map_of ls (if is_kv l then put l.key l.value out else out)

pub as_map : Env → List (Text × Text)
unfolding map_of
as_map e = map_of e.lines []

pub keys_of : List EnvLine → List Text
keys_of [] = []
keys_of (l ∷ ls) = let rest = keys_of ls in if is_kv l then l.key ∷ rest else rest

pub keys : Env → List Text
unfolding keys_of
keys e = keys_of e.lines

pub assign : EnvLine → Text → Text → EnvLine
assign l k v = record l { value = v; raw = k ++ (b'=' ∷ v) }

pub assign_at : ℕ → Text → Text → List EnvLine → List EnvLine
unfolding assign
assign_at i k v [] = []
assign_at zero k v (l ∷ ls) = assign l k v ∷ ls
assign_at (suc i) k v (l ∷ ls) = l ∷ assign_at i k v ls

pub set_found : Text → Text → Env → Option ℕ → Env
unfolding assign_at append_kv
set_found k v e (some i) = record e { lines = assign_at i k v e.lines }
set_found k v e none = append_kv (kv_line k v (k ++ (b'=' ∷ v))) e

pub set : Text → Text → Env → Env
unfolding set_found find
set k v e = set_found k v e (find k e.index)

pub append_comment : Text → Env → Env
unfolding append
append_comment text e = append (plain_line comment text) e

pub append_blank : Env → Env
unfolding append
append_blank e = append (plain_line blank []) e

-- A line as Write writes it.
pub line_text : EnvLine → Text
line_text l = elim l.kind [ kv ↦ l.key ++ (b'=' ∷ l.value) | _ ↦ l.raw ]

pub env_text : List EnvLine → Text
unfolding line_text
env_text [] = []
env_text (l ∷ ls) = line_text l ++ (10 ∷ env_text ls)
