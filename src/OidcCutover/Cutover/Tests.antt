-- ===== src/OidcCutover/Cutover/Tests.antt =====
-- A cutover of two nodes, the second wired before, and a dry run.
use kube_dc_public.Prelude.{
  ℕ, ◌≤◌, ◌+◌, arith, ◌≡◌, refl, Bool, true, false, some, List, [], ◌∷◌, ◌++◌, if◌then◌else◌,
}
use kube_dc_public.Prelude.Text.{Text, codes, text_eq, split, is_blank, remove_prefix}
use kube_dc_public.Prelude.Engine.{Each}
use kube_dc_public.NodeRemove.{SshHost}
use kube_dc_public.OidcCutover.Config.{webhook_flag}
use kube_dc_public.OidcCutover.Cutover.{
  Event, waited, with_defaults, Node, Options, Env, cut_over, foreign_port_owner, owner_in_lines,
  first_foreign, process_names, is_foreign,
}
use kube_dc_public.OidcCutover.Cutover.Guards.{Guard}
use kube_dc_public.OidcCutover.Cutover.Order.{cut_over-Guard}
use kube_dc_public.OidcCutover.Cutover.Polling.{Clocked}
use kube_dc_public.OidcCutover.Cutover.Termination.{Summed, cut_over_fuel}
use kube_dc_public.OidcCutover.Cutover.Ends.{Ended, cut_over-Ended}

abbrev host : Text → SshHost
host name = record { alias = []; hostname = name }

abbrev two_nodes : List Node
two_nodes =
    record { name = codes "a"; host = host (codes "a") }
    ∷ record { name = []; host = host (codes "b") }
    ∷ []

abbrev wired_config : Text
wired_config =
    codes "kube-apiserver-arg:\n- "
    ++ (webhook_flag ++ codes "\n- \"authentication-token-webhook-cache-ttl=2m\" # two\n")

abbrev plain_config : Text
plain_config = codes "token: x\n\n"

abbrev test_env : Env
test_env = record {
  pod_count = λ h. some 1;
  test_kubeconfig = λ h p. some (codes "present\n");
  read_config = λ h p. some (if text_eq p.hostname (codes "a") then plain_config else wired_config);
  read_port = λ h p. some (codes "LISTEN users:((\"kube-apiserver\",pid=1,fd=3))\n");
  make_snapshot = λ h p. true;
  write_config = λ h p t. true;
  restart = λ h p. true;
  now = λ h. 0;
  wait = λ h d. true;
  read_ready = λ h p. some (codes "ok\n");
  read_flag = λ h p. some webhook_flag;
  test_snapshot = λ h p. true;
  restore_snapshot = λ h p. true;
}

abbrev options : Bool → Options
options dry = record {
  has_k8s = true;
  nodes = two_nodes;
  dry_run = dry;
  rollback = false;
  ready_timeout = 0;
  poll_interval = 0;
}

second_process :
    foreign_port_owner (codes "a ((\"kube-apiserver\",pid=1),(\"envoy\",pid=2))\n")
    ≡ some (codes "envoy")
unfolding foreign_port_owner owner_in_lines split is_blank first_foreign process_names remove_prefix
    is_foreign text_eq
second_process = refl

cut_over-Guard_example : Each (Guard (options false)) (cut_over 2 test_env (options false) []).1
cut_over-Guard_example = cut_over-Guard 2 test_env (options false)

cut_over-Ended_example :
    Ended two_nodes
      (cut_over 2 test_env (options false) []).0
      (cut_over 2 test_env (options false) []).1
cut_over-Ended_example = cut_over-Ended 2 test_env (options false) refl refl

-- Time passes in the waits, and the server never becomes ready.
abbrev clock : List Event → ℕ
clock [] = 0
clock (waited d true ∷ h) = clock h + d
clock (_ ∷ h) = clock h

abbrev slow_env : Env
slow_env = record test_env { now = clock; read_ready = λ h p. some (codes "etcd failed") }

abbrev short_options : Options
short_options = record (options false) { ready_timeout = 20; poll_interval = 10 }

clock_steady : (e : Event) (h : List Event) → clock h ≤ clock (e ∷ h)
clock_steady e h = ground arith

slow_env-Clocked : Clocked slow_env
slow_env-Clocked = record { steady = clock_steady; passes = λ d h e. omega arith }

cut_over_fuel_example :
    Summed (cut_over 21 slow_env short_options []).0 (cut_over 21 slow_env short_options []).1
unfolding with_defaults
cut_over_fuel_example = cut_over_fuel 21 slow_env short_options slow_env-Clocked (omega arith)
