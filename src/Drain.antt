-- ===== src/Drain.antt =====
-- cli/internal/bootstrap/ports/drain.go: reading the lines of a script up to its exit status. The
-- channel is the list of the lines that come before it is closed.
pub mod Exit
mod Tests
use kube_dc_public.Prelude.{ℕ, Option, none, some, List, [], ◌∷◌, if◌then◌else◌}
use kube_dc_public.Prelude.Text.{Text, trim_space}
use kube_dc_public.Prelude.Decimal.{ℤ, atoi}
use kube_dc_public.Prelude.Engine.{Outcome, ok, err}

pub data Stream : Type 0 where
  stdout stderr exit : Stream

pub record Line : Type 0 where
  pub stream : Stream
  pub text : Text

pub data StreamError : Type 0 where
  truncated duplicate_exit output_after_exit bad_exit_code : StreamError

-- The empty record is refused by atoi too.
pub parse_exit_code : Text → Option ℤ
unfolding trim_space atoi
parse_exit_code s = atoi (trim_space s)

pub finish : Option ℤ → Outcome StreamError ℤ
finish none = err truncated
finish (some n) = ok n

-- `code` is the exit status read so far. The first part of the result are the lines passed on.
pub drain_from : Option ℤ → List Line → List Line × Outcome StreamError ℤ
unfolding finish
drain_from code [] = ([], finish code)
drain_from (some n) (l ∷ ls) =
    ([], elim l.stream [ exit ↦ err duplicate_exit | _ ↦ err output_after_exit ])
drain_from none (l ∷ ls) = elim l.stream [
  | exit ↦ elim (parse_exit_code l.text) [
    | none ↦ ([], err bad_exit_code)
    | some n ↦ drain_from (some n) ls
  ]
  | _ ↦ (let rest = drain_from none ls in (l ∷ rest.0, rest.1))
]

pub drain : List Line → List Line × Outcome StreamError ℤ
unfolding drain_from
drain ls = drain_from none ls
