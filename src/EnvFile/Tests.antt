-- ===== src/EnvFile/Tests.antt =====
-- A file with a quoted value, read and written, and instances of the theorems.
use kube_dc_public.Prelude.{◌≡◌, refl, some, List, [], ◌∷◌}
use kube_dc_public.Prelude.Text.{
  codes, text_eq, trim_space, trim_left, is_space, has_prefix, remove_prefix, cut_at,
}
use kube_dc_public.EnvFile.{
  last_code, drop_last, is_quoted, strip_ends, unquote, split_line, parse_line, find, put, append,
  append_kv, scan_line, new_env, value_at, get, assign, assign_at, set_found, set, line_text,
  env_text,
}
use kube_dc_public.EnvFile.Store.{Call, scanned, assigned, commented, store, Reads, store-Reads}

abbrev calls : List Call
calls =
    assigned (codes "A") (codes "2")
    ∷ scanned (codes "B=\"x y\"")
    ∷ scanned (codes "# note")
    ∷ scanned (codes " A = 1")
    ∷ []

assigned_read : get (store [] calls) (codes "A") ≡ some (codes "2")
unfolding last_code drop_last is_quoted strip_ends unquote split_line parse_line find put append
    append_kv scan_line new_env value_at get assign assign_at set_found set text_eq trim_space
    trim_left is_space has_prefix remove_prefix cut_at
assigned_read = refl

-- The quotes are gone from a line that nothing was assigned to.
quotes_lost : env_text (store [] calls).lines ≡ codes "A=2\n# note\nB=x y\n"
unfolding last_code drop_last is_quoted strip_ends unquote split_line parse_line find put append
    append_kv scan_line new_env value_at assign assign_at set_found set text_eq trim_space trim_left
    is_space has_prefix remove_prefix cut_at line_text env_text
quotes_lost = refl

-- A line with an empty key is read as a value of that key.
empty_key : get (store [] (scanned (codes "=v") ∷ [])) [] ≡ some (codes "v")
unfolding last_code drop_last is_quoted strip_ends unquote split_line parse_line find put append
    append_kv scan_line new_env value_at get text_eq trim_space trim_left is_space has_prefix
    remove_prefix cut_at
empty_key = refl

store-Reads_example : Reads (store [] calls) calls (codes "B")
store-Reads_example = store-Reads [] calls (codes "B")

abbrev plain_calls : List Call
plain_calls = assigned (codes "A") (codes "2") ∷ commented (codes "# note") ∷ []
