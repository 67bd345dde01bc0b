-- ===== src/EnvFile/Store.antt =====
-- The store as a map from keys to values, whatever was done to it
-- (cli/internal/bootstrap/config/env.go).
use kube_dc_public.Prelude.{
  ℕ, ◌≡◌, refl, sym, ◌∙◌, ap, Bool, true, false, Option, none, some, List, [], ◌∷◌, ◌++◌, length,
  any, if◌then◌else◌, arith,
}
use kube_dc_public.Prelude.Text.{Text, text_eq}
use kube_dc_public.EnvFile.{
  EnvLine, Env, blank, comment, kv_line, plain_line, parse_line, find, put, append, append_kv,
  scan_line, new_env, get, is_kv, map_of, as_map, keys_of, keys, set_found, set, append_comment,
  append_blank,
}
use kube_dc_public.EnvFile.Index.{
  holds, last_at, last_value, IsIndexed, find-put, last_at-append, last_value-append,
  read_at-last_at, last_at-assign_at, last_value-assign_at, is_set,
}

-- What can be done to a store: a line of a file is read into it, or one of its operations is called.
pub data Call : Type 0 where
  scanned : Text → Call
  assigned : Text → Text → Call
  commented : Text → Call
  separated : Call

abbrev pub step : Call → Env → Env
step (scanned t) e = scan_line (parse_line t) e
step (assigned k v) e = set k v e
step (commented t) e = append_comment t e
step separated e = append_blank e

-- The store after the calls, the newest first.
abbrev pub store : Text → List Call → Env
store path [] = new_env path
store path (c ∷ cs) = step c (store path cs)

-- What the newest call that concerns a key says its value is.
abbrev pub current : List Call → Text → Option Text
current [] k = none
current (scanned t ∷ cs) k =
    if holds k (parse_line t) then some (parse_line t).value else current cs k
current (assigned j v ∷ cs) k = if text_eq k j then some v else current cs k
current (_ ∷ cs) k = current cs k

-- What appending a line does.
append_kv-IsIndexed :
    (l : EnvLine) (e : Env) → is_kv l ≡ true → IsIndexed e → IsIndexed (append_kv l e)
unfolding append_kv append
append_kv-IsIndexed l e p i k =
    ground (arith, find-put k l.key (length e.lines) e.index, last_at-append k e.lines l, i k)

append-IsIndexed : (l : EnvLine) (e : Env) → is_kv l ≡ false → IsIndexed e → IsIndexed (append l e)
unfolding append
append-IsIndexed l e p i k = ground (arith, last_at-append k e.lines l, i k)

pub scan_line-IsIndexed : (l : EnvLine) (e : Env) → IsIndexed e → IsIndexed (scan_line l e)
unfolding scan_line
scan_line-IsIndexed l e i = chosen (is_kv l) refl
  where
    chosen : (b : Bool) → is_kv l ≡ b → IsIndexed (if b then append_kv l e else append l e)
    chosen true p = append_kv-IsIndexed l e p i
    chosen false p = append-IsIndexed l e p i

set_found-IsIndexed :
    (k v : Text) (e : Env) (found : Option ℕ) → IsIndexed e → IsIndexed (set_found k v e found)
unfolding set_found
set_found-IsIndexed k v e none i = append_kv-IsIndexed (kv_line k v (k ++ (b'=' ∷ v))) e refl i
set_found-IsIndexed k v e (some n) i = λ j. i j ∙ sym (last_at-assign_at j k v n e.lines)

-- In a store made by any calls the index has, for each key, the place of the last line for it, and
-- nothing for a key with no line.
pub store-IsIndexed : (path : Text) (cs : List Call) → IsIndexed (store path cs)
unfolding new_env append_comment append_blank set find last_at
store-IsIndexed path [] = λ k. refl
store-IsIndexed path (scanned t ∷ cs) =
    scan_line-IsIndexed (parse_line t) (store path cs) (store-IsIndexed path cs)
store-IsIndexed path (assigned k v ∷ cs) =
    set_found-IsIndexed k v (store path cs) (find k (store path cs).index) (store-IsIndexed path cs)
store-IsIndexed path (commented t ∷ cs) =
    append-IsIndexed (plain_line comment t) (store path cs) refl (store-IsIndexed path cs)
store-IsIndexed path (separated ∷ cs) =
    append-IsIndexed (plain_line blank []) (store path cs) refl (store-IsIndexed path cs)

-- What the lines say.
pub scan_line_value :
    (k : Text) (l : EnvLine) (e : Env)
    → last_value k (scan_line l e).lines
      ≡ (if holds k l then some l.value else last_value k e.lines)
unfolding scan_line append_kv append
scan_line_value k l e = ground (arith, last_value-append k e.lines l)

set_found_value :
    (j k v : Text) (e : Env) (found : Option ℕ)
    → last_at k e.lines ≡ found
    → last_value j (set_found k v e found).lines
      ≡ (if text_eq j k then some v else last_value j e.lines)
unfolding set_found append_kv append
set_found_value j k v e none p = last_value-append j e.lines (kv_line k v (k ++ (b'=' ∷ v)))
set_found_value j k v e (some i) p = last_value-assign_at j k v i e.lines p

store_value :
    (path : Text) (cs : List Call) (k : Text) → last_value k (store path cs).lines ≡ current cs k
unfolding new_env append_comment append_blank append set last_value current
store_value path [] k = refl
store_value path (scanned t ∷ cs) k =
    ground (arith, scan_line_value k (parse_line t) (store path cs), store_value path cs k)
store_value path (assigned j v ∷ cs) k =
    let i = store-IsIndexed path cs j in
    ground (
      arith,
      set_found_value k j v (store path cs) (find j (store path cs).index) (sym i),
      store_value path cs k,
    )
store_value path (commented t ∷ cs) k =
    ground (
      arith,
      last_value-append k (store path cs).lines (plain_line comment t),
      store_value path cs k,
    )
store_value path (separated ∷ cs) k =
    ground (
      arith,
      last_value-append k (store path cs).lines (plain_line blank []),
      store_value path cs k,
    )

pub get_value : (e : Env) (k : Text) → IsIndexed e → get e k ≡ last_value k e.lines
unfolding get
get_value e k i = ground (arith, i k, read_at-last_at k e.lines)

map_of_value :
    (k : Text) (ls : List EnvLine) (out : List (Text × Text))
    → find k (map_of ls out) ≡ elim (last_value k ls) [ some v ↦ some v | none ↦ find k out ]
unfolding map_of last_value
map_of_value k [] out = refl
map_of_value k (l ∷ ls) out = ground (
  arith,
  map_of_value k ls (if is_kv l then put l.key l.value out else out),
  find-put k l.key l.value out,
)

keys_of_value :
    (k : Text) (ls : List EnvLine) → any (text_eq k) (keys_of ls) ≡ is_set (last_value k ls)
unfolding keys_of last_value
keys_of_value k [] = refl
keys_of_value k (l ∷ ls) = ground (arith, keys_of_value k ls)

-- The reads of a store against the calls that were made on it.
pub record Reads (e : Env) (cs : List Call) (k : Text) : Type 0 where
  pub got : get e k ≡ current cs k
  pub mapped : find k (as_map e) ≡ current cs k
  pub listed : any (text_eq k) (keys e) ≡ is_set (current cs k)

-- A store is a map from keys to values, whatever lines were read into it and whatever was set: for
-- each key, `Get` gives the value that the newest line or assignment for it has, and nothing if
-- there is none; the map that `AsMap` returns has the same; and the key is among `Keys` just when
-- it has a value.
pub store-Reads : (path : Text) (cs : List Call) (k : Text) → Reads (store path cs) cs k
unfolding as_map keys find
store-Reads path cs k =
    let v = store_value path cs k in
    record {
      got = get_value (store path cs) k (store-IsIndexed path cs) ∙ v;
      mapped = ground (arith, map_of_value k (store path cs).lines [], v);
      listed = keys_of_value k (store path cs).lines ∙ ap is_set v;
    }
