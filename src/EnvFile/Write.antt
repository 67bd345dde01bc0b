-- ===== src/EnvFile/Write.antt =====
-- cli/internal/bootstrap/config/env.go: `Write`, which puts a store in the place of a file.
pub mod Ends
mod Tests
use kube_dc_public.Prelude.{
  ℕ, Bool, true, false, not, Option, none, some, List, [], ◌∷◌, is_empty, ◌==◌, if◌then◌else◌,
}
use kube_dc_public.Prelude.Text.{Text, codes}
use kube_dc_public.Prelude.Engine.{Outcome, ok, err, M, return, throw, ◌>>=◌, ◌>>◌, perform, demand}
use kube_dc_public.EnvFile.{Env, env_text}

-- What stands before the last slash, if there is one, and what stands after it.
pub split_path : Text → Option Text × Text
split_path [] = (none, [])
split_path (c ∷ s) =
    let rest = split_path s in
    elim rest.0 [
      | some dir ↦ (some (c ∷ dir), rest.1)
      | none ↦ (if c == b'/' then (some [], s) else (none, c ∷ s))
    ]

pub dir_of : Text → Text
unfolding split_path
dir_of path = elim (split_path path).0 [
  | none ↦ codes "."
  | some dir ↦ (if is_empty dir then codes "/" else dir)
]

pub filepath_base : Text → Text
unfolding split_path
filepath_base path = (split_path path).1

-- The directory and the start of the name of the temporary file are given to its creation.
pub data FileOp : Type 0 where
  create_temp : Text → Text → FileOp
  write_temp : Text → FileOp
  chmod_temp close_temp : FileOp
  rename_temp : Text → FileOp
  remove_temp : FileOp

-- A call, and whether it succeeded.
pub data Event : Type 0 where
  called : FileOp → Bool → Event

pub data WriteError : Type 0 where
  no_path create_failed write_failed chmod_failed close_failed rename_failed : WriteError

abbrev pub Run : Type 0 → Type 0
Run A = M Event WriteError A

module _ (file : List Event → FileOp → Bool) where
  abbrev pub call : FileOp → Run Bool
  call op = perform (λ h. file h op) (called op)

  -- The temporary file is removed when a call fails; if it is still open, it is closed first.
  pub give_up : Bool → WriteError → Run (Unit {0})
  give_up true x = do _ ← call close_temp; _ ← call remove_temp; throw x
  give_up false x = do _ ← call remove_temp; throw x

  pub or_give_up : Bool → Bool → WriteError → Run (Unit {0})
  unfolding give_up
  or_give_up is_open true x = return tt
  or_give_up is_open false x = give_up is_open x

  pub replace : Text → Text → Run (Unit {0})
  unfolding or_give_up dir_of filepath_base
  replace path text = do
    made ← call (create_temp (dir_of path) (filepath_base path))
    demand made create_failed
    r ← call (write_temp text)
    or_give_up true r write_failed
    r ← call chmod_temp
    or_give_up true r chmod_failed
    r ← call close_temp
    or_give_up false r close_failed
    r ← call (rename_temp path)
    or_give_up false r rename_failed

  abbrev pub target : Env → Text → Text
  target e path = if is_empty path then e.path else path

  -- The store that is returned knows the path it was written to.
  pub write : Env → Text → Run Env
  unfolding replace env_text
  write e path = do
    demand (not (is_empty (target e path))) no_path
    replace (target e path) (env_text e.lines)
    return (record e { path = target e path })
