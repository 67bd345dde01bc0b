-- ===== src/FleetConfig.antt =====
-- The editor of a cluster's cluster-config.env (cli/internal/bootstrap/fleetconfig/config.go, and the
-- writes of `applyConfigSet` in cli/cmd/kube-dc/bootstrap_config.go).
pub mod Strip
pub mod Parsed
pub mod Applied
mod Tests
use kube_dc_public.Prelude.{
  ℕ, Bool, true, false, not, ◌&&◌, ◌||◌, ◌==◌, leb, Option, none, some, List, [], ◌∷◌, is_empty,
  any, all, if◌then◌else◌,
}
use kube_dc_public.Prelude.Text.{Text, text_eq, trim_space, cut_at, is_blank}
use kube_dc_public.Prelude.Engine.{Outcome, ok, err}
use kube_dc_public.EnvFile.{Env, get, set}

pub data ConfigError : Type 0 where
  bad_assignment : Text → ConfigError
  empty_key : ConfigError
  bad_key : Text → ConfigError
  bad_value : Text → ConfigError
  given_twice : Text → ConfigError
  unknown_key : Text → ConfigError

unfoldable pub is_gap : ℕ → Bool
is_gap c = c == b' ' || c == 9

-- `b`: the code point before is a space or a tab.
unfoldable pub cut_comment : Bool → Text → Text
unfolding is_gap
cut_comment b [] = []
cut_comment b (c ∷ s) = if c == b'#' && b then [] else c ∷ cut_comment (is_gap c) s

unfoldable pub trim_right : Text → Text
unfolding is_gap
trim_right [] = []
trim_right (c ∷ s) = let rest = trim_right s in if is_empty rest && is_gap c then [] else c ∷ rest

-- StripInlineComment.
unfoldable pub strip_inline_comment : Text → Text
unfolding cut_comment trim_right
strip_inline_comment v = trim_right (cut_comment false v)

unfoldable pub is_upper : ℕ → Bool
is_upper c = leb b'A' c && leb c b'Z'

unfoldable pub is_key_code : ℕ → Bool
unfolding is_upper
is_key_code c = is_upper c || (leb b'0' c && leb c b'9') || c == b'_'

-- The regular expression of a key.
unfoldable pub key_shape : Text → Bool
unfolding is_upper is_key_code
key_shape [] = false
key_shape (c ∷ s) = is_upper c && all is_key_code s

unfoldable pub validate_key : Text → Outcome ConfigError (Unit {0})
unfolding key_shape
validate_key [] = err empty_key
validate_key (c ∷ s) = if key_shape (c ∷ s) then ok tt else err (bad_key (c ∷ s))

unfoldable pub breaks_line : ℕ → Bool
breaks_line c = c == 10 || c == 13 || c == 0

unfoldable pub is_value : Text → Bool
unfolding breaks_line is_blank trim_space
is_value v = not (is_blank v) && not (any breaks_line v)

pub record Kv : Type 0 where
  pub key : Text
  pub value : Text

-- One assignment of ParseAssignments; `seen` are the keys before it.
unfoldable pub parse_kv : List Text → Text → Text → Outcome ConfigError Kv
unfolding validate_key is_value
parse_kv seen key value = elim (validate_key key) [
  | err x ↦ err x
  | ok _ ↦
      if not (is_value value)
      then err (bad_value key)
      else if any (text_eq key) seen
      then err (given_twice key)
      else ok (record { key = key; value = value })
]

-- What stands before the first `=` and after it, when something does stand before it.
unfoldable pub parse_cut : List Text → Text → Option (Text × Text) → Outcome ConfigError Kv
unfolding parse_kv trim_space
parse_cut seen arg none = err (bad_assignment arg)
parse_cut seen arg (some ([], value)) = err (bad_assignment arg)
parse_cut seen arg (some (c ∷ key, value)) = parse_kv seen (trim_space (c ∷ key)) (trim_space value)

unfoldable pub cons_kv : Kv → Outcome ConfigError (List Kv) → Outcome ConfigError (List Kv)
cons_kv kv (err x) = err x
cons_kv kv (ok kvs) = ok (kv ∷ kvs)

unfoldable pub parse_from : List Text → List Text → Outcome ConfigError (List Kv)
unfolding parse_cut cut_at cons_kv
parse_from seen [] = ok []
parse_from seen (a ∷ args) = elim (parse_cut seen a (cut_at (b'=' ∷ []) a)) [
  | err x ↦ err x
  | ok kv ↦ cons_kv kv (parse_from (kv.key ∷ seen) args)
]

-- ParseAssignments.
unfoldable pub parse_assignments : List Text → Outcome ConfigError (List Kv)
unfolding parse_from
parse_assignments args = parse_from [] args

pub record Change : Type 0 where
  pub key : Text
  pub old : Text
  pub new : Text
  pub added : Bool

-- Change.NoOp.
unfoldable pub no_op : Change → Bool
no_op c = not c.added && text_eq c.old c.new

-- The change of one assignment, from what `Get` gave.
unfoldable pub change_of : Bool → Kv → Option Text → Outcome ConfigError Change
unfolding strip_inline_comment
change_of allow_add kv (some old) =
    ok (record { key = kv.key; old = strip_inline_comment old; new = kv.value; added = false })
change_of allow_add kv none =
    if allow_add
    then ok (record { key = kv.key; old = []; new = kv.value; added = true })
    else err (unknown_key kv.key)

unfoldable pub cons_change :
    Outcome ConfigError Change
    → Outcome ConfigError (List Change)
    → Outcome ConfigError (List Change)
cons_change (err x) r = err x
cons_change (ok c) (err x) = err x
cons_change (ok c) (ok cs) = ok (c ∷ cs)

-- The changes of all assignments.
unfoldable pub plan : Env → List Kv → Bool → Outcome ConfigError (List Change)
unfolding change_of cons_change
plan e [] allow_add = ok []
plan e (kv ∷ kvs) allow_add =
    cons_change (change_of allow_add kv (get e kv.key)) (plan e kvs allow_add)

-- HasEffective.
unfoldable pub has_effective : List Change → Bool
unfolding no_op
has_effective [] = false
has_effective (c ∷ cs) = if not (no_op c) then true else has_effective cs

-- The writes of applyConfigSet.
unfoldable pub set_all : List Change → Env → Env
set_all [] e = e
set_all (c ∷ cs) e = set_all cs (set c.key c.new e)
