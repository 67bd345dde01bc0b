-- ===== src/GpuTransition/Tests.antt =====
-- Runs of a transition, and instances of the theorems.
use kube_dc_public.Prelude.{
  ℕ, ◌+◌, ◌≤◌, ◌≡◌, ◌≢◌, refl, Bool, true, false, some, List, [], ◌∷◌, arith,
}
use kube_dc_public.Prelude.Text.{Text, codes, text_eq, is_blank}
use kube_dc_public.Prelude.Engine.{ok, err, Each}
use kube_dc_public.GpuTransition.{
  State, Options, Event, waited, Env, pod_hami, vm_passthrough, hami_plugin, sandbox_plugin,
  set_schedulable, out_of_fuel, active_mode, expected_mode, owns, target_ready, run, with_defaults,
  look_and_run, look, checked, proceed, preflight, is_noop, transition, enter, await, leave, poll,
  pause,
}
use kube_dc_public.GpuTransition.Order.{Guard, Ended, run-Guard, run-Ended}
use kube_dc_public.GpuTransition.Ready.{IsTarget, target_ready_iff}
use kube_dc_public.GpuTransition.Poll.{Clocked, run_fuel}

abbrev node_at : Text → Text → Bool → State
node_at mode plugin cordoned = record {
  labels =
      (codes "kube-dc.com/gpu.workload-mode", mode)
      ∷ (codes "kube-dc.com/gpu.expected-workload-mode", mode)
      ∷ [];
  plugin_owners =
      record { kind = codes "DaemonSet"; namespace = codes "hami-system"; name = plugin } ∷ [];
  holders = [];
  is_ready = true;
  unschedulable = cordoned;
}

-- The cluster follows the fleet after one wait; the clock counts the time waited.
abbrev view : List Event → State
view [] = node_at pod_hami hami_plugin false
view (waited d r ∷ h) = node_at vm_passthrough sandbox_plugin true
view (set_schedulable false r ∷ h) = node_at pod_hami hami_plugin true
view (_ ∷ h) = view h

abbrev clock : List Event → ℕ
clock [] = 0
clock (waited d r ∷ h) = clock h + d
clock (_ ∷ h) = clock h

abbrev env : Env
env = record {
  node_state = λ h n. some (view h);
  schedulable = λ h n b. true;
  prepare = λ h n. some pod_hami;
  apply = λ h n from to. some (codes "abc");
  now = clock;
  wait = λ h d. true;
}

abbrev options : Options
options = record {
  node = codes "gpu-1";
  from = pod_hami;
  to = vm_passthrough;
  dry_run = false;
  resume_cordoned = false;
  timeout = 20;
  poll_interval = 10;
  has_cluster = true;
  has_fleet = true;
}

moved : (run 22 env options []).0 ≡ ok (record { revision = codes "abc"; resumed = false })
unfolding run look_and_run look checked proceed preflight is_noop transition enter await leave poll
    pause target_ready active_mode owns expected_mode text_eq is_blank
moved = refl

run-Guard_example : Each (Guard options) (run 22 env options []).1
run-Guard_example = run-Guard 22 env options

run-Ended_example : Ended options (run 22 env options []).0 (run 22 env options []).1
run-Ended_example = run-Ended 22 env options

target_ready_iff_example :
    (target_ready (node_at vm_passthrough sandbox_plugin true) vm_passthrough ≡ true)
    × IsTarget (node_at vm_passthrough sandbox_plugin true) vm_passthrough
unfolding target_ready active_mode expected_mode owns text_eq
target_ready_iff_example =
    (refl, (target_ready_iff (node_at vm_passthrough sandbox_plugin true) vm_passthrough).0 refl)

clock_steady : (e : Event) (h : List Event) → clock h ≤ clock (e ∷ h)
clock_steady (waited d r) h = omega arith
clock_steady _ h = omega arith

env-Clocked : Clocked env
env-Clocked = record { steady = clock_steady; passes = λ d h e. omega arith }

run_fuel_example : (run 22 env options []).0 ≢ err out_of_fuel
unfolding with_defaults
run_fuel_example = run_fuel 22 env options env-Clocked (omega arith)
