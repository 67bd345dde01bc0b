-- ===== src/NodeRemove.antt =====
-- cli/internal/bootstrap/noderemove/remove.go: `kube-dc bootstrap remove-node`.
-- kubectl, the SSH client and the JSON decoder are the fields of `Env`; lines printed for the
-- operator are left out, but for the plan's warning on quorum.
pub mod Order
pub mod Ends
pub mod Member
mod Tests
use kube_dc_public.Prelude.{
  ℕ, suc, ◌-◌, ◌%◌, Bool, true, false, not, ◌&&◌, ◌||◌, Option, none, some, List, [], ◌∷◌, ◌++◌,
  leb, ltb, ◌==◌, if◌then◌else◌,
}
use kube_dc_public.Prelude.Text.{Text, codes, text_eq, has_prefix, is_blank, trim_space, split}
use kube_dc_public.Prelude.Engine.{M, return, throw, ◌>>=◌, ◌>>◌, perform}

-- ports.SSHHost, the fields that this command reads; the SSH client has the rest of it.
pub record SshHost : Type 0 where
  pub alias : Text
  pub hostname : Text

pub record Node : Type 0 where
  pub name : Text
  pub labels : List (Text × Text)

pub record EtcdPod : Type 0 where
  pub name : Text
  pub node_name : Text

pub record Options : Type 0 where
  pub has_kubectl : Bool
  pub has_ssh : Bool
  pub node : SshHost
  pub node_name : Text
  pub uninstall : Bool
  pub skip_drain : Bool
  pub drain_timeout : Text
  pub force : Bool
  pub dry_run : Bool

-- Combined output of a command, and whether it failed.
pub record Reply : Type 0 where
  pub out : Text
  pub failed : Bool

pub data Call : Type 0 where
  get_nodes get_etcd_pods : Call
  member_list : Text → Call
  member_remove : Text → Text → Call
  cordon : Text → Call
  drain : Text → Text → Bool → Call
  delete_node : Text → Call

pub data Warning : Type 0 where
  single_control_plane even_control_planes no_warning : Warning

pub data Event : Type 0 where
  kubectl_run : Call → Reply → Event
  ssh_run : SshHost → Text → Reply → Event
  plan_shown : Warning → Event

pub data Error : Type 0 where
  missing_kubectl missing_node_name : Error
  list_nodes_failed parse_nodes_failed : Error
  node_not_found last_control_plane : Text → Error
  list_pods_failed parse_pods_failed no_etcd_peer : Error
  member_list_failed : Error
  etcd_member_missing : Text → Error
  member_remove_failed cordon_failed drain_failed delete_failed : Error

pub record Env : Type 0 where
  pub kubectl : List Event → List Text → Reply
  pub ssh : List Event → SshHost → Text → Reply
  -- json.Unmarshal into the lists that the command declares.
  pub parse_nodes : Text → Option (List Node)
  pub parse_pods : Text → Option (List EtcdPod)

abbrev etcd_cert_args : List Text
etcd_cert_args =
    codes "--cacert"
    ∷ codes "/var/lib/rancher/rke2/server/tls/etcd/server-ca.crt"
    ∷ codes "--cert"
    ∷ codes "/var/lib/rancher/rke2/server/tls/etcd/server-client.crt"
    ∷ codes "--key"
    ∷ codes "/var/lib/rancher/rke2/server/tls/etcd/server-client.key"
    ∷ codes "--endpoints"
    ∷ codes "https://127.0.0.1:2379"
    ∷ []

pub etcdctl_args : Text → List Text → List Text
etcdctl_args peer_pod args =
    (codes "exec" ∷ codes "-n" ∷ codes "kube-system" ∷ peer_pod ∷ codes "--" ∷ codes "etcdctl" ∷ [])
    ++ (etcd_cert_args ++ args)

-- The argument list that kubectl is given.
pub argv : Call → List Text
unfolding etcdctl_args
argv get_nodes = codes "get" ∷ codes "nodes" ∷ codes "-o" ∷ codes "json" ∷ []
argv get_etcd_pods =
    codes "get"
    ∷ codes "pods"
    ∷ codes "-n"
    ∷ codes "kube-system"
    ∷ codes "-l"
    ∷ codes "component=etcd"
    ∷ codes "-o"
    ∷ codes "json"
    ∷ []
argv (member_list pod) =
    etcdctl_args pod (codes "-w" ∷ codes "simple" ∷ codes "member" ∷ codes "list" ∷ [])
argv (member_remove pod id) = etcdctl_args pod (codes "member" ∷ codes "remove" ∷ id ∷ [])
argv (cordon n) = codes "cordon" ∷ n ∷ []
argv (drain n timeout force) =
    (codes "drain"
      ∷ n
      ∷ codes "--ignore-daemonsets"
      ∷ codes "--delete-emptydir-data"
      ∷ codes "--timeout"
      ∷ timeout
      ∷ [])
    ++ (if force then codes "--force" ∷ codes "--disable-eviction" ∷ [] else [])
argv (delete_node n) = codes "delete" ∷ codes "node" ∷ n ∷ codes "--ignore-not-found" ∷ []

pub has_label : Text → List (Text × Text) → Bool
has_label k [] = false
has_label k ((j, v) ∷ m) = text_eq j k || has_label k m

pub is_etcd : Node → Bool
unfolding has_label text_eq
is_etcd n =
    has_label (codes "node-role.kubernetes.io/etcd") n.labels
    || has_label (codes "node-role.kubernetes.io/control-plane") n.labels
    || has_label (codes "node-role.kubernetes.io/master") n.labels

-- `nodes[it.Metadata.Name] = …`: a later item of the same name takes the earlier one's place.
put_node : Node → List Node → List Node
put_node n [] = n ∷ []
put_node n (m ∷ ms) = if text_eq m.name n.name then n ∷ ms else m ∷ put_node n ms

put_nodes : List Node → List Node → List Node
put_nodes acc [] = acc
put_nodes acc (n ∷ ns) = put_nodes (put_node n acc) ns

pub node_map : List Node → List Node
unfolding put_nodes put_node text_eq
node_map ns = put_nodes [] ns

pub find_node : Text → List Node → Option Node
find_node k [] = none
find_node k (n ∷ ns) = if text_eq n.name k then some n else find_node k ns

pub etcd_count : List Node → ℕ
etcd_count [] = 0
etcd_count (n ∷ ns) = if is_etcd n then suc (etcd_count ns) else etcd_count ns

-- The first etcd pod that is not on the node.
pub peer_pod_of : Text → List EtcdPod → Option Text
peer_pod_of exclude [] = none
peer_pod_of exclude (p ∷ ps) =
    if text_eq p.node_name exclude then peer_pod_of exclude ps else some p.name

abbrev comma : Text
comma = codes ", "

abbrev dash : Text
dash = codes "-"

-- The test on a member's name.
pub names_node : Text → Text → Bool
unfolding text_eq has_prefix
names_node node_name name = text_eq name node_name || has_prefix (node_name ++ dash) name

-- One line of `etcdctl -w simple member list`.
pub member_of_fields : Text → List Text → Option Text
unfolding names_node trim_space
member_of_fields node_name (id ∷ status ∷ name ∷ more) =
    if names_node node_name (trim_space name) then some (trim_space id) else none
member_of_fields node_name _ = none

pub member_of_lines : Text → List Text → Option Text
member_of_lines node_name [] = none
member_of_lines node_name (l ∷ ls) = elim (member_of_fields node_name (split l comma)) [
  | none ↦ member_of_lines node_name ls
  | some id ↦ some id
]

abbrev newline : Text
newline = codes "\n"

pub member_id_of : Text → Text → Option Text
unfolding member_of_lines member_of_fields split
member_id_of node_name out = member_of_lines node_name (split out newline)

abbrev pub Run : Type 0 → Type 0
Run A = M Event Error A

pub kubectl : Env → Call → Run Reply
kubectl env c = perform (λ h. env.kubectl h (argv c)) (kubectl_run c)

pub or_throw : {A : Type 0} → Option A → Error → Run A
or_throw (some a) e = return a
or_throw none e = throw e

pub check_reply : Reply → Error → Run Text
check_reply r e = if r.failed then throw e else return r.out

pub list_nodes : Env → Run (List Node)
unfolding kubectl or_throw check_reply
list_nodes env = do
  r ← kubectl env get_nodes
  raw ← check_reply r list_nodes_failed
  items ← or_throw (env.parse_nodes raw) parse_nodes_failed
  return (node_map items)

pub find_etcd_peer_pod : Env → Text → Run Text
unfolding kubectl or_throw check_reply
find_etcd_peer_pod env exclude = do
  r ← kubectl env get_etcd_pods
  raw ← check_reply r list_pods_failed
  items ← or_throw (env.parse_pods raw) parse_pods_failed
  or_throw (peer_pod_of exclude items) no_etcd_peer

pub find_etcd_member_id : Env → Text → Text → Run Text
unfolding kubectl or_throw check_reply
find_etcd_member_id env peer_pod node_name = do
  r ← kubectl env (member_list peer_pod)
  out ← check_reply r member_list_failed
  or_throw (member_id_of node_name out) (etcd_member_missing node_name)

pub record Plan : Type 0 where
  pub target_is_etcd : Bool
  pub etcd_members : ℕ
  pub peer_pod : Text
  pub member_id : Text

-- The reads, before anything is changed.
pub resolve : Env → Options → Run Plan
unfolding list_nodes find_etcd_peer_pod find_etcd_member_id
resolve env o = do
  nodes ← list_nodes env
  target ← or_throw (find_node o.node_name nodes) (node_not_found o.node_name)
  let count = etcd_count nodes
  if is_etcd target && leb count 1 then throw (last_control_plane o.node_name) else return tt
  if is_etcd target
      then (do
        pod ← find_etcd_peer_pod env o.node_name
        id ← find_etcd_member_id env pod o.node_name
        return (record {
          target_is_etcd = true;
          etcd_members = count;
          peer_pod = pod;
          member_id = id;
        }))
      else return
          (record { target_is_etcd = false; etcd_members = count; peer_pod = []; member_id = [] })

-- The warning of `renderPlan` on the members that are left.
pub plan_warning : Bool → ℕ → Warning
plan_warning false count = no_warning
plan_warning true count =
    if count - 1 == 1
    then single_control_plane
    else if (count - 1) % 2 == 0 && ltb 0 (count - 1)
    then even_control_planes
    else no_warning

pub render_plan : Plan → Run (Unit {0})
render_plan p = perform (λ h. tt) (λ _. plan_shown (plan_warning p.target_is_etcd p.etcd_members))

pub remove_member : Env → Plan → Run (Unit {0})
unfolding kubectl
remove_member env p = do
  r ← kubectl env (member_remove p.peer_pod p.member_id)
  if r.failed then throw member_remove_failed else return tt

pub drain_node : Env → Options → Run (Unit {0})
unfolding kubectl
drain_node env o = do
  c ← kubectl env (cordon o.node_name)
  if c.failed then throw cordon_failed else return tt
  d ← kubectl env (drain o.node_name o.drain_timeout o.force)
  if d.failed && not o.force then throw drain_failed else return tt

pub delete_object : Env → Options → Run (Unit {0})
unfolding kubectl
delete_object env o = do
  r ← kubectl env (delete_node o.node_name)
  if r.failed then throw delete_failed else return tt

abbrev teardown_script : Bool → Text
teardown_script uninstall =
    if uninstall
    then codes "/usr/local/bin/rke2-uninstall.sh"
    else codes "/usr/local/bin/rke2-killall.sh"

pub nonempty : Text → Bool
nonempty [] = false
nonempty (_ ∷ _) = true

-- Best effort: a failure is only reported.
pub teardown : Env → Options → Run (Unit {0})
unfolding nonempty
teardown env o =
    if o.has_ssh && (nonempty o.node.alias || nonempty o.node.hostname)
    then (do
      let cmd = codes "sudo -n " ++ teardown_script o.uninstall
      _ ← perform (λ h. env.ssh h o.node cmd) (ssh_run o.node cmd)
      return tt)
    else return tt

-- The changes, in the order that protects the etcd quorum.
pub execute : Env → Options → Plan → Run (Unit {0})
unfolding remove_member drain_node delete_object teardown
execute env o p = do
  if p.target_is_etcd then remove_member env p else return tt
  if o.skip_drain then return tt else drain_node env o
  delete_object env o
  teardown env o

pub carry_out : Env → Options → Plan → Run (Unit {0})
unfolding render_plan execute
carry_out env o p = do render_plan p; if o.dry_run then return tt else execute env o p

pub plan_and_run : Env → Options → Run (Unit {0})
plan_and_run env o = do p ← resolve env o; carry_out env o p

pub with_default_timeout : Options → Options
with_default_timeout o = record o {
  drain_timeout = if nonempty o.drain_timeout then o.drain_timeout else codes "120s";
}

pub remove : Env → Options → Run (Unit {0})
unfolding with_default_timeout is_blank
remove env o = do
  if o.has_kubectl then return tt else throw missing_kubectl
  if is_blank o.node_name then throw missing_node_name else return tt
  plan_and_run env (with_default_timeout o)
