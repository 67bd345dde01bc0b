-- ===== src/OidcCutover/Cutover.antt =====
-- cli/internal/bootstrap/oidccutover/run.go: the cutover of the control-plane nodes, one after the
-- other, and its rollback. SSH, the cluster and the clock are the fields of `Env`. Lines printed for
-- the operator are left out; their verdicts are in the result and the error.
pub mod Guards
pub mod Wiring
pub mod Preflight
pub mod Order
pub mod Reads
pub mod Ends
pub mod Polling
pub mod Termination
mod Tests
use kube_dc_public.Prelude.{
  ℕ, zero, suc, ◌+◌, Bool, true, false, not, ◌&&◌, Option, none, some, List, [], ◌∷◌, ◌++◌, length,
  is_empty, ltb, ◌==◌, if◌then◌else◌,
}
use kube_dc_public.Prelude.Text.{
  Text, codes, text_eq, trim_space, is_blank, contains, split, cut_at,
}
use kube_dc_public.Prelude.Engine.{
  Outcome, ok, err, M, return, throw, ◌>>=◌, ◌>>◌, perform, map_err,
}
use kube_dc_public.NodeRemove.{SshHost}
use kube_dc_public.OidcCutover.Config
use kube_dc_public.OidcCutover.Config.{webhook_flag, patch_config}

pub record Node : Type 0 where
  pub name : Text
  pub host : SshHost

-- `has_k8s` is the test of the cluster client against nil.
pub record Options : Type 0 where
  pub has_k8s : Bool
  pub nodes : List Node
  pub dry_run : Bool
  pub rollback : Bool
  pub ready_timeout : ℕ
  pub poll_interval : ℕ

-- A skipped node comes with the process that holds its port.
pub record Result : Type 0 where
  pub wired : List Text
  pub already_wired : List Text
  pub skipped : List (Text × Text)

-- `none` and `false` are calls that failed.
pub data Event : Type 0 where
  pods_counted : Option ℕ → Event
  kubeconfig_tested : SshHost → Option Text → Event
  config_read : SshHost → Option Text → Event
  port_read : SshHost → Option Text → Event
  snapshot_made : SshHost → Bool → Event
  config_written : SshHost → Text → Bool → Event
  restarted : SshHost → Bool → Event
  clock_read : ℕ → Event
  waited : ℕ → Bool → Event
  readyz_read : SshHost → Option Text → Event
  flag_read : SshHost → Option Text → Event
  snapshot_tested : SshHost → Bool → Event
  snapshot_restored : SshHost → Bool → Event

pub data Error : Type 0 where
  no_nodes no_authenticator : Error
  unreachable : Text → Error
  kubeconfig_missing : List Text → Error
  read_failed : Text → Error
  bad_config : Text → Config.Error → Error
  port_unknown : Text → Error
  port_held : Text → Text → Error
  snapshot_failed write_failed restart_failed : Text → Error
  cancelled not_ready : Text → Error
  flag_unread flag_missing : Text → Error
  no_snapshot restore_failed : Text → Error
  out_of_fuel : Error

pub record Env : Type 0 where
  pub pod_count : List Event → Option ℕ
  pub test_kubeconfig : List Event → SshHost → Option Text
  pub read_config : List Event → SshHost → Option Text
  pub read_port : List Event → SshHost → Option Text
  pub make_snapshot : List Event → SshHost → Bool
  pub write_config : List Event → SshHost → Text → Bool
  pub restart : List Event → SshHost → Bool
  pub now : List Event → ℕ
  pub wait : List Event → ℕ → Bool
  pub read_ready : List Event → SshHost → Option Text
  pub read_flag : List Event → SshHost → Option Text
  pub test_snapshot : List Event → SshHost → Bool
  pub restore_snapshot : List Event → SshHost → Bool

abbrev pub Run : Type 0 → Type 0
Run A = M Event Error A

pub or_fail : {A : Type 0} → Option A → Error → Run A
or_fail (some a) e = return a
or_fail none e = throw e

pub need : Bool → Error → Run (Unit {0})
need true e = return tt
need false e = throw e

pub label_of : Node → Text
label_of n = if is_empty n.name then n.host.hostname else n.name

-- The names of the processes on one line of ss, each after `("` and up to the next `"`.
pub process_names : ℕ → Text → List Text
unfolding cut_at
process_names zero line = []
process_names (suc fuel) line = elim (cut_at (codes "(\"") line) [
  | none ↦ []
  | some r ↦ elim (cut_at (codes "\"") r.1) [
    | none ↦ []
    | some q ↦ q.0 ∷ process_names fuel (34 ∷ q.1)
  ]
]

pub is_foreign : Text → Bool
is_foreign name = not (is_empty name) && not (text_eq name (codes "kube-apiserver"))

pub first_foreign : List Text → Option Text
first_foreign [] = none
first_foreign (n ∷ ns) = let rest = first_foreign ns in if is_foreign n then some n else rest

pub owner_in_lines : List Text → Option Text
owner_in_lines [] = none
owner_in_lines (line ∷ ls) =
    let rest = owner_in_lines ls in
    let names = process_names (length line) line in
    if is_blank line then rest else elim (first_foreign names) [ some n ↦ some n | none ↦ rest ]

-- The process other than the API server that listens on the port.
pub foreign_port_owner : Text → Option Text
foreign_port_owner out = owner_in_lines (split out (10 ∷ []))

pub check_authenticator : Env → Options → Run (Unit {0})
check_authenticator env o =
    if o.has_k8s
    then (do
      r ← perform env.pod_count pods_counted
      elim r [ none ↦ return tt | some zero ↦ throw no_authenticator | some (suc n) ↦ return tt ])
    else return tt

pub is_present : Text → Bool
is_present out = contains (codes "present") out

pub test_kubeconfig : Env → Node → Run Bool
unfolding or_fail
test_kubeconfig env n = do
  r ← perform (λ h. env.test_kubeconfig h n.host) (kubeconfig_tested n.host)
  out ← or_fail r (unreachable n.name)
  return (is_present out)

-- The names of the nodes that miss the webhook's kubeconfig, before they are sorted for the error.
pub missing_kubeconfigs : Env → List Node → Run (List Text)
missing_kubeconfigs env [] = return []
missing_kubeconfigs env (n ∷ ns) = do
  present ← test_kubeconfig env n
  rest ← missing_kubeconfigs env ns
  return (if present then rest else n.name ∷ rest)

pub none_missing : List Text → Run (Unit {0})
none_missing [] = return tt
none_missing (m ∷ ms) = throw (kubeconfig_missing (m ∷ ms))

pub preflight : Env → Options → Run (Unit {0})
preflight env o = do
  check_authenticator env o
  missing ← missing_kubeconfigs env o.nodes
  none_missing missing

pub says_ok : Option Text → Bool
says_ok none = false
says_ok (some out) = text_eq (trim_space out) (codes "ok")

-- One round of the readiness loop: whether the API server says that it is ready.
pub probe : Env → Options → Node → ℕ → Run Bool
unfolding need
probe env o n deadline = do
  t ← perform env.now clock_read
  need (ltb t deadline) (not_ready (label_of n))
  w ← perform (λ h. env.wait h o.poll_interval) (waited o.poll_interval)
  need w (cancelled (label_of n))
  r ← perform (λ h. env.read_ready h n.host) (readyz_read n.host)
  return (says_ok r)

pub poll_ready : ℕ → Env → Options → Node → ℕ → Run (Unit {0})
poll_ready zero env o n deadline = throw out_of_fuel
poll_ready (suc fuel) env o n deadline = do
  ready ← probe env o n deadline
  elim ready [ true ↦ return tt | false ↦ poll_ready fuel env o n deadline ]

pub wait_api_server_ready : ℕ → Env → Options → Node → Run (Unit {0})
wait_api_server_ready fuel env o n = do
  t ← perform env.now clock_read
  poll_ready fuel env o n (t + o.ready_timeout)

pub verify_flag_live : Env → Node → Run (Unit {0})
unfolding or_fail need
verify_flag_live env n = do
  r ← perform (λ h. env.read_flag h n.host) (flag_read n.host)
  out ← or_fail r (flag_unread (label_of n))
  need (contains webhook_flag out) (flag_missing (label_of n))

-- What is to be written on a node, or nothing where its file says it already.
pub to_write : Text → Outcome Config.Error (Text × Bool) → Run (Option Text)
to_write l (err e) = throw (bad_config l e)
to_write l (ok (text, false)) = return none
to_write l (ok (text, true)) = return (some text)

pub not_held : Text → Option Text → Run (Unit {0})
not_held l none = return tt
not_held l (some owner) = throw (port_held l owner)

pub check_port : Env → Node → Run (Unit {0})
unfolding or_fail not_held
check_port env n = do
  p ← perform (λ h. env.read_port h n.host) (port_read n.host)
  out ← or_fail p (port_unknown (label_of n))
  not_held (label_of n) (foreign_port_owner out)

-- The calls that change a node.
pub write_and_restart : Env → Node → Text → Run (Unit {0})
unfolding need
write_and_restart env n patched = do
  s ← perform (λ h. env.make_snapshot h n.host) (snapshot_made n.host)
  need s (snapshot_failed (label_of n))
  w ← perform (λ h. env.write_config h n.host patched) (config_written n.host patched)
  need w (write_failed (label_of n))
  r ← perform (λ h. env.restart h n.host) (restarted n.host)
  need r (restart_failed (label_of n))

pub change_node : ℕ → Env → Options → Node → Text → Run (Unit {0})
change_node fuel env o n patched = do
  write_and_restart env n patched
  wait_api_server_ready fuel env o n
  verify_flag_live env n

pub wire_node : ℕ → Env → Options → Node → Text → Run (Unit {0})
wire_node fuel env o n patched = do
  check_port env n
  if o.dry_run then return tt else change_node fuel env o n patched

pub read_node : Env → Node → Run (Option Text)
unfolding or_fail to_write
read_node env n = do
  r ← perform (λ h. env.read_config h n.host) (config_read n.host)
  body ← or_fail r (read_failed (label_of n))
  to_write (label_of n) (patch_config body)

pub wire : ℕ → Env → Options → Node → Option Text → Run Bool
wire fuel env o n none = return false
wire fuel env o n (some patched) = do wire_node fuel env o n patched; return true

-- One node: whether it had to be wired.
pub cut_over_node : ℕ → Env → Options → Node → Run Bool
unfolding read_node wire
cut_over_node fuel env o n = do w ← read_node env n; wire fuel env o n w

pub note_wired : Bool → Text → Result → Result
note_wired true l res = record res { wired = res.wired ++ (l ∷ []) }
note_wired false l res = record res { already_wired = res.already_wired ++ (l ∷ []) }

pub note_skipped : Result → Error → Result × Error
note_skipped res (port_held l owner) =
    (record res { skipped = (l, owner) ∷ res.skipped }, port_held l owner)
note_skipped res e = (res, e)

-- The result comes with an error as well.
abbrev pub Summary : Type 0
Summary = M Event (Result × Error) Result

pub cut_over_nodes : ℕ → Env → Options → List Node → Result → Summary
unfolding note_skipped note_wired
cut_over_nodes fuel env o [] res = return res
cut_over_nodes fuel env o (n ∷ ns) res = do
  w ← map_err (note_skipped res) (cut_over_node fuel env o n)
  cut_over_nodes fuel env o ns (note_wired w (label_of n) res)

pub restore_and_restart : Env → Node → Run (Unit {0})
unfolding need
restore_and_restart env n = do
  t ← perform (λ h. env.test_snapshot h n.host) (snapshot_tested n.host)
  need t (no_snapshot (label_of n))
  c ← perform (λ h. env.restore_snapshot h n.host) (snapshot_restored n.host)
  need c (restore_failed (label_of n))
  r ← perform (λ h. env.restart h n.host) (restarted n.host)
  need r (restart_failed (label_of n))

pub roll_back_node : ℕ → Env → Options → Node → Run (Unit {0})
roll_back_node fuel env o n =
    if o.dry_run
    then return tt
    else (do restore_and_restart env n; wait_api_server_ready fuel env o n)

pub roll_back : ℕ → Env → Options → List Node → Run (Unit {0})
roll_back fuel env o [] = return tt
roll_back fuel env o (n ∷ ns) = do roll_back_node fuel env o n; roll_back fuel env o ns

pub with_defaults : Options → Options
with_defaults o = record o {
  ready_timeout = if o.ready_timeout == 0 then 300000000000 else o.ready_timeout;
  poll_interval = if o.poll_interval == 0 then 5000000000 else o.poll_interval;
}

pub start : Result
start = record { wired = []; already_wired = []; skipped = [] }

-- The run without a rollback.
pub apply_all : ℕ → Env → Options → Summary
unfolding start
apply_all fuel env o = do
  map_err (λ e. (start, e)) (preflight env o)
  cut_over_nodes fuel env o o.nodes start

pub undo_all : ℕ → Env → Options → Summary
unfolding start
undo_all fuel env o = do map_err (λ e. (start, e)) (roll_back fuel env o o.nodes); return start

pub cut_over : ℕ → Env → Options → Summary
unfolding with_defaults
cut_over fuel env o =
    if is_empty o.nodes
    then throw (start, no_nodes)
    else (if o.rollback
        then undo_all fuel env (with_defaults o)
        else apply_all fuel env (with_defaults o))
