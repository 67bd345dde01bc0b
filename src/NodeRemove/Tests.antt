-- ===== src/NodeRemove/Tests.antt =====
-- Runs of `remove` on small clusters, and instances of the theorems.
use kube_dc_public.Prelude.{◌≡◌, refl, true, false, some, List, [], ◌∷◌}
use kube_dc_public.Prelude.Text.{Text, codes, text_eq}
use kube_dc_public.Prelude.Engine.{ok, Each}
use kube_dc_public.NodeRemove.{
  Options, Env, Node, EtcdPod, Reply, is_etcd, node_map, find_node, etcd_count, remove,
  member_id_of, resolve, carry_out, plan_and_run, names_node, peer_pod_of,
}
use kube_dc_public.NodeRemove.Order.{Guard, remove-Guard}
use kube_dc_public.NodeRemove.Ends.{IsDone, remove_ok-IsDone}
use kube_dc_public.NodeRemove.Member.{names_node_dashed}

abbrev cp : Text → Node
cp n = record { name = n; labels = (codes "node-role.kubernetes.io/etcd", codes "true") ∷ [] }

abbrev members : Text
members = codes "aa, started, cp-2-f0, x\nbb, started, cp-1-0f, y"

abbrev answer : Reply
answer = record { out = members; failed = false }

abbrev etcd_pods : List EtcdPod
etcd_pods =
    record { name = codes "etcd-cp-1"; node_name = codes "cp-1" }
    ∷ record { name = codes "etcd-cp-2"; node_name = codes "cp-2" }
    ∷ []

-- A cluster of the given nodes on which every command succeeds.
abbrev cluster : List Node → Env
cluster ns = record {
  kubectl = λ h args. answer;
  ssh = λ h host cmd. answer;
  parse_nodes = λ raw. some ns;
  parse_pods = λ raw. some etcd_pods;
}

abbrev pair : Env
pair = cluster (cp (codes "cp-1") ∷ cp (codes "cp-2") ∷ [])

abbrev options : Options
options = record {
  has_kubectl = true;
  has_ssh = true;
  node = record { alias = codes "cp-1"; hostname = [] };
  node_name = codes "cp-1";
  uninstall = false;
  skip_drain = false;
  drain_timeout = [];
  force = false;
  dry_run = false;
}

pair_removed : (remove pair options []).0 ≡ ok tt
unfolding remove plan_and_run carry_out resolve find_node node_map is_etcd etcd_count peer_pod_of
    member_id_of text_eq
pair_removed = refl

remove-Guard_example : Each (Guard pair options) (remove pair options []).1
remove-Guard_example = remove-Guard pair options

remove_ok-IsDone_example : IsDone pair options (remove pair options []).1
remove_ok-IsDone_example = remove_ok-IsDone pair options refl pair_removed

abbrev alone : Env
alone = cluster (cp (codes "cp-1") ∷ [])

names_node_dashed_example : names_node (codes "cp") (codes "cp-2-f0") ≡ true
names_node_dashed_example = names_node_dashed (codes "cp") (codes "2") (codes "f0")

-- The member of `cp-2` is picked for the removal of `cp`.
wrong_member :
    member_id_of (codes "cp") (codes "aa, started, cp-2-f0, x\nbb, started, cp-0f, y")
    ≡ some (codes "aa")
unfolding member_id_of
wrong_member = refl
