-- ===== src/GpuTransition.antt =====
-- cli/internal/bootstrap/gputransition/transition.go: moving a GPU node from one workload mode to
-- another. The cluster client, the fleet transaction, the clock and the wait are the fields of
-- `Env`. Durations are numbers of nanoseconds; one that is not positive is 0, as the code treats
-- all of those alike. Lines printed for the operator are left out.
pub mod Order
pub mod Ready
pub mod Poll
mod Tests
use kube_dc_public.Prelude.{
  ℕ, zero, suc, ◌+◌, Bool, true, false, not, ◌&&◌, ◌||◌, Option, none, some, List, [], ◌∷◌, ltb,
  ◌==◌, if◌then◌else◌, is_empty,
}
use kube_dc_public.Prelude.Text.{Text, codes, text_eq, is_blank}
use kube_dc_public.Prelude.Engine.{M, return, throw, ◌>>=◌, ◌>>◌, perform}

-- ports.GPUPluginOwner.
pub record Owner : Type 0 where
  pub kind : Text
  pub namespace : Text
  pub name : Text

-- ports.GPUHolder.
pub record Holder : Type 0 where
  pub namespace : Text
  pub kind : Text
  pub name : Text

-- ports.GPUNodeTransitionState, with the fields of its runtime that the transition reads.
pub record State : Type 0 where
  pub labels : List (Text × Text)
  pub plugin_owners : List Owner
  pub holders : List Holder
  pub is_ready : Bool
  pub unschedulable : Bool

abbrev pub pod_hami : Text
pod_hami = codes "pod-hami"

abbrev pub pod_hami_dra : Text
pod_hami_dra = codes "pod-hami-dra"

abbrev pub vm_passthrough : Text
vm_passthrough = codes "vm-passthrough"

pub record Options : Type 0 where
  pub node : Text
  pub from : Text
  pub to : Text
  pub dry_run : Bool
  pub resume_cordoned : Bool
  pub timeout : ℕ
  pub poll_interval : ℕ
  pub has_cluster : Bool
  pub has_fleet : Bool

pub data Event : Type 0 where
  observed : Option State → Event
  fleet_prepared : Option Text → Event
  set_schedulable : Bool → Bool → Event
  fleet_applied : Text → Text → Option Text → Event
  clock_read : ℕ → Event
  waited : ℕ → Bool → Event

-- The stage that `failCordoned` names.
pub data Stage : Type 0 where
  post_cordon_observation post_cordon_verification post_cordon_holders : Stage
  mode_change wait_for_target final_holders uncordon_node : Stage

pub data Error : Type 0 where
  missing_dependency unsupported_modes : Error
  observe_failed prepare_failed mode_drift has_holders already_cordoned cordon_failed : Error
  remains_cordoned : Stage → Error
  -- The model's own: no run of the program ends so.
  out_of_fuel : Error

pub record Result : Type 0 where
  pub revision : Text
  pub resumed : Bool

-- A call that fails returns `none` or `false`.
pub record Env : Type 0 where
  pub node_state : List Event → Text → Option State
  pub schedulable : List Event → Text → Bool → Bool
  pub prepare : List Event → Text → Option Text
  pub apply : List Event → Text → Text → Text → Option Text
  pub now : List Event → ℕ
  pub wait : List Event → ℕ → Bool

-- A Go map read: the zero value for a key that is missing.
pub label : Text → List (Text × Text) → Text
label k [] = []
label k ((j, v) ∷ m) = if text_eq j k then v else label k m

pub active_mode : State → Text
unfolding label text_eq
active_mode s = label (codes "kube-dc.com/gpu.workload-mode") s.labels

pub expected_mode : State → Text
unfolding label text_eq
expected_mode s = label (codes "kube-dc.com/gpu.expected-workload-mode") s.labels

-- The test of `recognizedOwners`.
pub is_recognized : Owner → Bool
unfolding text_eq
is_recognized w =
    text_eq w.kind (codes "DaemonSet")
    && (text_eq w.namespace (codes "gpu-operator") || text_eq w.namespace (codes "hami-system"))

-- `recognizedOwners(owners)[name]`.
pub owns : List Owner → Text → Bool
unfolding is_recognized
owns [] name = false
owns (w ∷ ws) name = (is_recognized w && text_eq w.name name) || owns ws name

abbrev pub nvidia_plugin : Text
nvidia_plugin = codes "nvidia-device-plugin-daemonset"

abbrev pub hami_plugin : Text
hami_plugin = codes "hami-device-plugin"

abbrev pub hami_dra_plugin : Text
hami_dra_plugin = codes "hami-dra-driver-kubelet-plugin"

abbrev pub sandbox_plugin : Text
sandbox_plugin = codes "nvidia-sandbox-device-plugin-daemonset"

-- The `switch` on the target's mode.
pub mode_owned : List Owner → Text → Bool
mode_owned ws target =
    if text_eq target pod_hami
    then owns ws hami_plugin && not (owns ws hami_dra_plugin) && not (owns ws sandbox_plugin)
    else if text_eq target pod_hami_dra
    then owns ws hami_dra_plugin && not (owns ws hami_plugin) && not (owns ws sandbox_plugin)
    else if text_eq target vm_passthrough
    then owns ws sandbox_plugin && not (owns ws hami_plugin) && not (owns ws hami_dra_plugin)
    else false

pub target_ready : State → Text → Bool
unfolding mode_owned
target_ready s target =
    if not s.is_ready
      || not s.unschedulable
      || not (is_empty s.holders)
      || not (text_eq (active_mode s) target)
      || not (text_eq (expected_mode s) target)
    then false
    else if owns s.plugin_owners nvidia_plugin
    then false
    else mode_owned s.plugin_owners target

pub transitional_mode : Text → Text → Text → Bool
transitional_mode value from to = text_eq value from || text_eq value to

pub is_allowed : Text → Bool
is_allowed m = text_eq m pod_hami || text_eq m pod_hami_dra || text_eq m vm_passthrough

abbrev pub Run : Type 0 → Type 0
Run A = M Event Error A

pub validate_options : Options → Run (Unit {0})
unfolding is_allowed
validate_options o = do
  if is_blank o.node || not o.has_cluster || not o.has_fleet
      then throw missing_dependency
      else return tt
  if not (is_allowed o.from) || not (is_allowed o.to) || text_eq o.from o.to
      then throw unsupported_modes
      else return tt

pub observe : Env → Options → Run (Option State)
observe env o = perform (λ h. env.node_state h o.node) observed

pub set_node : Env → Options → Bool → Run Bool
set_node env o b = perform (λ h. env.schedulable h o.node b) (set_schedulable b)

pub or_throw : {A : Type 0} → Option A → Error → Run A
or_throw (some a) e = return a
or_throw none e = throw e

-- Whether an earlier run already wrote the target mode to the fleet.
pub is_resumed : Options → State → Text → Bool
unfolding transitional_mode
is_resumed o s fleet_mode =
    text_eq fleet_mode o.to
    && ((text_eq (active_mode s) o.to && text_eq (expected_mode s) o.to)
        || (s.unschedulable
            && o.resume_cordoned
            && transitional_mode (active_mode s) o.from o.to
            && transitional_mode (expected_mode s) o.from o.to))

-- The gates before anything is changed.
pub preflight : Options → State → Text → Run (Unit {0})
unfolding is_resumed
preflight o s fleet_mode = do
  if not (is_resumed o s fleet_mode)
        && (not (text_eq (active_mode s) o.from)
            || not (text_eq (expected_mode s) o.from)
            || not (text_eq fleet_mode o.from))
      then throw mode_drift
      else return tt
  if is_empty s.holders then return tt else throw has_holders
  if s.unschedulable && not o.resume_cordoned then throw already_cordoned else return tt

-- The node is at the target and was never cordoned.
pub is_noop : Options → State → Text → Bool
is_noop o s fleet_mode =
    text_eq (active_mode s) o.to
    && text_eq (expected_mode s) o.to
    && text_eq fleet_mode o.to
    && not s.unschedulable
    && target_ready (record s { unschedulable = true }) o.to

-- `err == nil && targetReady(state, o.To)`.
pub when_ready : Option State → Text → Option State
when_ready none target = none
when_ready (some s) target = if target_ready s target then some s else none

-- One round's test of the deadline, and its wait.
pub pause : Env → Options → ℕ → Run (Unit {0})
pause env o deadline = do
  t ← perform env.now clock_read
  if ltb deadline t then throw (remains_cordoned wait_for_target) else return tt
  w ← perform (λ h. env.wait h o.poll_interval) (waited o.poll_interval)
  if w then return tt else throw (remains_cordoned wait_for_target)

-- The loop that waits for the target runtime.
pub poll : Env → Options → ℕ → ℕ → Run State
unfolding observe when_ready
poll env o deadline zero = throw out_of_fuel
poll env o deadline (suc fuel) = do
  r ← observe env o
  elim (when_ready r o.to) [
    | some s ↦ return s
    | none ↦ (do pause env o deadline; poll env o deadline fuel)
  ]

-- The observation after the cordon, and its gates.
pub recheck : Env → Options → Run (Unit {0})
unfolding observe
recheck env o = do
  r ← observe env o
  s ← or_throw r (remains_cordoned post_cordon_observation)
  if s.unschedulable then return tt else throw (remains_cordoned post_cordon_verification)
  if is_empty s.holders then return tt else throw (remains_cordoned post_cordon_holders)

pub cordon : Env → Options → State → Run (Unit {0})
unfolding set_node
cordon env o s =
    if s.unschedulable
    then return tt
    else (do c ← set_node env o false; if c then return tt else throw cordon_failed)

pub apply_mode : Env → Options → Bool → Run Text
apply_mode env o resumed = if resumed then return [] else (do
  r ← perform (λ h. env.apply h o.node o.from o.to) (fleet_applied o.from o.to)
  or_throw r (remains_cordoned mode_change))

pub uncordon : Env → Options → State → Run (Unit {0})
unfolding set_node
uncordon env o s = do
  if is_empty s.holders then return tt else throw (remains_cordoned final_holders)
  u ← set_node env o true
  if u then return tt else throw (remains_cordoned uncordon_node)

-- From the cordon to the mode's commit in the fleet.
pub enter : Env → Options → State → Bool → Run Text
unfolding cordon recheck apply_mode or_throw
enter env o s resumed = do cordon env o s; recheck env o; apply_mode env o resumed

pub leave : Env → Options → Text → Bool → State → Run Result
unfolding uncordon
leave env o revision resumed s = do
  uncordon env o s
  return (record { revision = revision; resumed = resumed })

pub await : ℕ → Env → Options → Run State
await fuel env o = do start ← perform env.now clock_read; poll env o (start + o.timeout) fuel

-- From the cordon on.
pub transition : ℕ → Env → Options → State → Bool → Run Result
transition fuel env o s resumed = do
  revision ← enter env o s resumed
  s' ← await fuel env o
  leave env o revision resumed s'

pub with_defaults : Options → Options
with_defaults o = record o {
  timeout = if o.timeout == 0 then 900000000000 else o.timeout;
  poll_interval = if o.poll_interval == 0 then 5000000000 else o.poll_interval;
}

-- Past the gates: nothing to do, a preview, or the transition.
pub proceed : ℕ → Env → Options → State → Text → Run Result
proceed fuel env o s fleet_mode =
    if is_noop o s fleet_mode
    then return (record { revision = []; resumed = true })
    else if o.dry_run
    then return (record { revision = []; resumed = is_resumed o s fleet_mode })
    else transition fuel env o s (is_resumed o s fleet_mode)

pub checked : ℕ → Env → Options → State → Text → Run Result
checked fuel env o s fleet_mode = do preflight o s fleet_mode; proceed fuel env o s fleet_mode

-- The two reads before the gates.
pub look : Env → Options → Run (State × Text)
unfolding observe or_throw
look env o = do
  r ← observe env o
  s ← or_throw r observe_failed
  p ← perform (λ h. env.prepare h o.node) fleet_prepared
  fleet_mode ← or_throw p prepare_failed
  return (s, fleet_mode)

pub look_and_run : ℕ → Env → Options → Run Result
look_and_run fuel env o = do seen ← look env o; checked fuel env o seen.0 seen.1

pub run : ℕ → Env → Options → Run Result
unfolding validate_options with_defaults
run fuel env o = do validate_options o; look_and_run fuel env (with_defaults o)
