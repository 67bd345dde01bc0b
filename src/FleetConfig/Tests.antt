-- ===== src/FleetConfig/Tests.antt =====
-- Assignments that are parsed, planned and written (cli/internal/bootstrap/fleetconfig/config.go).
use kube_dc_public.Prelude.{◌≡◌, refl, true, false, none, some, List, [], ◌∷◌}
use kube_dc_public.Prelude.Text.{
  Text, codes, text_eq, trim_space, trim_left, is_space, cut_at, has_prefix, remove_prefix,
  is_blank,
}
use kube_dc_public.Prelude.Engine.{ok, err}
use kube_dc_public.EnvFile.{get}
use kube_dc_public.EnvFile.Store.{Call, assigned, store, store-Reads}
use kube_dc_public.FleetConfig.{
  Kv, Change, bad_assignment, given_twice, key_shape, is_upper, is_key_code, is_value, breaks_line,
  validate_key, parse_kv, parse_cut, parse_from, cons_kv, parse_assignments, plan, set_all,
  strip_inline_comment, cut_comment, trim_right, is_gap, change_of, cons_change,
}
use kube_dc_public.FleetConfig.Parsed.{IsParsed, IsTrimmed}
use kube_dc_public.FleetConfig.Applied.{IsBare, IsDone, last_for, plan-set_all}

abbrev kv : Kv
kv = record { key = codes "MTU"; value = codes "1400" }

not_an_assignment : parse_assignments (codes "MTU" ∷ []) ≡ err (bad_assignment (codes "MTU"))
unfolding parse_assignments parse_from parse_cut cut_at has_prefix remove_prefix
not_an_assignment = refl

twice : parse_assignments (codes "A=1" ∷ codes "A = 2" ∷ []) ≡ err (given_twice (codes "A"))
unfolding parse_assignments parse_from parse_cut parse_kv cons_kv cut_at has_prefix remove_prefix
    trim_space trim_left is_space validate_key key_shape is_upper is_key_code is_value breaks_line
    is_blank text_eq
twice = refl

comment_gone : strip_inline_comment (codes "1400  # jumbo #2") ≡ codes "1400"
unfolding strip_inline_comment cut_comment trim_right is_gap
comment_gone = refl

kv-IsParsed : IsParsed [] (kv ∷ [])
unfolding key_shape is_upper is_key_code is_value breaks_line is_blank trim_space trim_left is_space
kv-IsParsed = (refl, refl, refl, tt)

kv-IsTrimmed : IsTrimmed (kv ∷ [])
unfolding trim_space trim_left is_space
kv-IsTrimmed = (refl, tt)

kv-IsBare : IsBare (kv ∷ [])
unfolding strip_inline_comment cut_comment trim_right is_gap
kv-IsBare = (refl, tt)

abbrev before : List Call
before = assigned (codes "MTU") (codes "1500  # default") ∷ []

abbrev planned : List Change
planned = record { key = codes "MTU"; old = codes "1500"; new = codes "1400"; added = false } ∷ []

plan-before : plan (store [] before) (kv ∷ []) false ≡ ok planned
unfolding plan change_of cons_change strip_inline_comment cut_comment trim_right is_gap text_eq
plan-before = rw ((store-Reads [] before (codes "MTU")).got) refl

plan-set_all_example :
    let e = set_all planned (store [] before) in
    ((k : Text)
      → get e k ≡ elim (last_for k (kv ∷ [])) [ some v ↦ some v | none ↦ get (store [] before) k ])
    × IsDone (plan e (kv ∷ []) false)
plan-set_all_example =
    plan-set_all [] before (kv ∷ []) false planned plan-before kv-IsParsed kv-IsBare

-- A value that is accepted and is read back without its end, so that a plan for it never has
-- nothing to do.
never_done : (is_value (codes "a #b") ≡ true) × (strip_inline_comment (codes "a #b") ≡ codes "a")
unfolding is_value breaks_line is_blank trim_space trim_left is_space strip_inline_comment
    cut_comment trim_right is_gap
never_done = (refl, refl)
