-- ===== src/OpenBao/Init/Files.antt =====
-- Copies of the shares on disk (cli/internal/bootstrap/openbao/init.go).
pub mod Publish
pub mod Dump
pub mod Rewrite
use mathlib.Core.List.{reverse}
use kube_dc_public.Prelude.{
  ℕ, zero, suc, ◌+◌, ◌/◌, ◌%◌, ◌-◌, Bool, true, false, not, Option, none, some, List, [], ◌∷◌, ◌++◌,
  is_empty, leb, ltb, ◌==◌, ◌||◌, ◌&&◌, if◌then◌else◌,
}
use kube_dc_public.Prelude.Text.{Text, codes, split, join}
use kube_dc_public.Prelude.Engine.{
  Outcome, ok, err, M, return, throw, ◌>>=◌, ◌>>◌, perform, map_err, attempt, demand, unwrap,
}
use kube_dc_public.Secrets.{Buffer}
use kube_dc_public.OpenBao.Init.{
  Options, FileOp, make_dir, create_temp, write_temp, chmod_temp, sync_temp, close_temp, link_temp,
  rename_temp, remove_temp, sync_dir, Reply, done, already_there, failed, Tree, outside, inside,
  unresolved, Event, tree_checked, home_read, file_op, FileError, inside_git_tree, path_unresolved,
  name_taken, file_failed, DumpError, no_home, no_shares, all_names_taken, not_written, Env,
}
use kube_dc_public.OpenBao.Init.Payload.{render_shares}

-- The names of a path that is absolute and clean, the last first.
pub parts_of : Text → List Text
unfolding split
parts_of path = reverse (drop_empty (split path (b'/' ∷ [])))
  where
    drop_empty : List Text → List Text
    drop_empty [] = []
    drop_empty (w ∷ ws) = if is_empty w then drop_empty ws else w ∷ drop_empty ws

-- The directories above it, up to the root.
pub directories : List Text → List Text
unfolding join
directories [] = []
directories (name ∷ up) = (b'/' ∷ join (reverse up) (b'/' ∷ [])) ∷ directories up

pub any_git : (Text → Bool) → List Text → Bool
any_git is_git [] = false
any_git is_git (d ∷ ds) = is_git d || any_git is_git ds

-- assertNotInsideAnyGitTree.
pub tree_of : Env → List Event → Text → Tree
unfolding parts_of directories any_git
tree_of env h path = elim (env.absolute h path) [
  | none ↦ unresolved
  | some p ↦ (if any_git (env.is_git_dir h) (directories (parts_of p)) then inside else outside)
]

abbrev pub FileRun : Type 0 → Type 0
FileRun A = M Event FileError A

pub tree_outside : Tree → FileRun (Unit {0})
tree_outside outside = return tt
tree_outside inside = throw inside_git_tree
tree_outside unresolved = throw path_unresolved

pub check_tree : Env → Text → FileRun (Unit {0})
unfolding tree_outside
check_tree env path = do t ← perform (λ h. tree_of env h path) (tree_checked path); tree_outside t

pub reply_done : Reply → FileRun (Unit {0})
reply_done done = return tt
reply_done already_there = throw name_taken
reply_done failed = throw file_failed

pub run_op : Env → FileOp → FileRun (Unit {0})
unfolding reply_done
run_op env op = do r ← perform (λ h. env.file h op) (file_op op); reply_done r

pub done_or_remove : Env → Reply → FileRun (Unit {0})
unfolding reply_done
done_or_remove env done = return tt
done_or_remove env r = do
  _ ← perform (λ h. env.file h remove_temp) (file_op remove_temp)
  reply_done r

-- A call after which the temporary file is removed, if it fails. That the file is closed first, if
-- it still is open, is left out.
pub op_or_remove : Env → FileOp → FileRun (Unit {0})
unfolding done_or_remove
op_or_remove env op = do r ← perform (λ h. env.file h op) (file_op op); done_or_remove env r

pub fill_temp : Env → Text → FileRun (Unit {0})
unfolding run_op op_or_remove
fill_temp env body = do
  run_op env make_dir
  run_op env create_temp
  op_or_remove env (write_temp body)
  op_or_remove env chmod_temp
  op_or_remove env sync_temp
  op_or_remove env close_temp

pub publish : Env → Text → Bool → FileRun (Unit {0})
unfolding op_or_remove
publish env path true = do
  op_or_remove env (link_temp path)
  _ ← perform (λ h. env.file h remove_temp) (file_op remove_temp)
  return tt
publish env path false = op_or_remove env (rename_temp path)

-- What fsyncDir meets is passed over.
pub name_file : Env → Text → Bool → FileRun (Unit {0})
unfolding publish
name_file env path no_clobber = do
  publish env path no_clobber
  _ ← perform (λ h. env.file h sync_dir) (file_op sync_dir)
  return tt

-- writeSharesFile.
pub write_shares_file : Env → Text → Text → Bool → FileRun (Unit {0})
unfolding check_tree fill_temp
write_shares_file env path body no_clobber = do
  check_tree env path
  fill_temp env body
  name_file env path no_clobber

abbrev pub DumpRun : Type 0 → Type 0
DumpRun A = M Event DumpError A

-- url.PathEscape on a name of ASCII letters.
pub is_plain : ℕ → Bool
is_plain c =
    (leb b'a' c && leb c b'z')
    || (leb b'A' c && leb c b'Z')
    || (leb b'0' c && leb c b'9')
    || c == b'-'
    || c == b'_'
    || c == b'.'
    || c == b'~'
    || c == b'$'
    || c == b'&'
    || c == b'+'
    || c == b':'
    || c == b'='
    || c == b'@'

pub hex_digit : ℕ → ℕ
hex_digit d = if ltb d 10 then b'0' + d else b'A' + (d - 10)

pub path_escape : Text → Text
unfolding is_plain hex_digit
path_escape [] = []
path_escape (c ∷ s) =
    let rest = path_escape s in
    if is_plain c then c ∷ rest else b'%' ∷ hex_digit (c / 16) ∷ hex_digit (c % 16) ∷ rest

abbrev pub dump_base : Text → Text → Text
dump_base home cluster =
    home ++ (codes "/.kube-dc/openbao-emergency-shares-" ++ path_escape cluster)

-- A number below a hundred.
pub show_small : ℕ → Text
show_small n = if ltb n 10 then (b'0' + n) ∷ [] else (b'0' + n / 10) ∷ (b'0' + n % 10) ∷ []

pub dump_name : Text → ℕ → Text
unfolding show_small
dump_name base zero = base ++ codes ".yaml"
dump_name base (suc n) = base ++ (b'.' ∷ (show_small (suc n) ++ codes ".yaml"))

abbrev pub max_attempts : ℕ
max_attempts = 100

-- A name that was taken is passed over.
pub or_next : Text → DumpRun Text → Outcome FileError (Unit {0}) → DumpRun Text
or_next path next (ok u) = return path
or_next path next (err name_taken) = next
or_next path next (err e) = throw (not_written e)

-- The names from number `i` on, of which `left` are left.
pub dump_from : Env → Text → Text → ℕ → ℕ → DumpRun Text
unfolding or_next dump_name
dump_from env base body i zero = throw all_names_taken
dump_from env base body i (suc left) = do
  r ← attempt (write_shares_file env (dump_name base i) body true)
  or_next (dump_name base i) (dump_from env base body (i + 1) left) r

abbrev pub provenance : Text → Text
provenance cluster =
    codes "EMERGENCY dump from `kube-dc bootstrap openbao init "
    ++ (cluster ++ codes "` — the ceremony did not complete.")

-- Where there is nothing to write, there is no copy.
pub dump_text : Env → Text → Text → Option Text → DumpRun Text
unfolding dump_from
dump_text env cluster home none = throw no_shares
dump_text env cluster home (some body) = dump_from env (dump_base home cluster) body 0 max_attempts

pub dump_under : Env → Text → Buffer → Option Text → DumpRun Text
dump_under env cluster b none = throw no_home
dump_under env cluster b (some home) =
    dump_text env cluster home (render_shares b (provenance cluster))

pub emergency_dump : Env → Text → Buffer → DumpRun Text
emergency_dump env cluster b = do found ← perform env.home home_read; dump_under env cluster b found
