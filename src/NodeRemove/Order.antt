-- ===== src/NodeRemove/Order.antt =====
-- The order of the calls that `remove` makes (cli/internal/bootstrap/noderemove/remove.go).
use kube_dc_public.Prelude.{
  ◌≤◌, ◌≡◌, Bool, true, false, not, ◌||◌, Option, none, some, List, [], ◌∷◌, arith,
}
use kube_dc_public.Prelude.Text.{Text}
use kube_dc_public.Prelude.Engine.{bind_post, Outcome, ok, err, Each}
use kube_dc_public.NodeRemove.{
  Options, Error, Event, kubectl_run, ssh_run, get_nodes, get_etcd_pods, member_list, member_remove,
  cordon, drain, delete_node, Env, Plan, Node, is_etcd, etcd_count, node_map, find_node,
  peer_pod_of, member_id_of, remove_member, execute, resolve, remove, render_plan, carry_out,
  plan_and_run, with_default_timeout,
}

-- Searches of a history, newest call first.
abbrev pub removed : List Event → Bool
removed [] = false
removed (kubectl_run (member_remove pod id) r ∷ h) = not r.failed || removed h
removed (_ ∷ h) = removed h

abbrev pub cordoned : List Event → Bool
cordoned [] = false
cordoned (kubectl_run (cordon n) r ∷ h) = not r.failed || cordoned h
cordoned (_ ∷ h) = cordoned h

-- A drain that succeeded, or any drain where `--force` goes on past a failure.
abbrev pub drained : Bool → List Event → Bool
drained force [] = false
drained force (kubectl_run (drain n t f) r ∷ h) = (force || not r.failed) || drained force h
drained force (_ ∷ h) = drained force h

abbrev pub deleted : List Event → Bool
deleted [] = false
deleted (kubectl_run (delete_node n) r ∷ h) = not r.failed || deleted h
deleted (_ ∷ h) = deleted h

-- The node list that kubectl gave, read on its own.
abbrev pub listed : Env → List Event → Option (List Node)
listed env [] = none
listed env (kubectl_run get_nodes r ∷ h) = env.parse_nodes r.out
listed env (_ ∷ h) = listed env h

abbrev pub etcd_in : Text → Option (List Node) → Bool
etcd_in name none = false
etcd_in name (some ns) = elim (find_node name (node_map ns)) [ none ↦ false | some n ↦ is_etcd n ]

-- Whether the node is a control-plane or etcd node, by that list.
abbrev pub target_etcd : Env → Text → List Event → Bool
target_etcd env name h = etcd_in name (listed env h)

-- At least two control-plane or etcd nodes are on that list.
abbrev pub HasSpare : Option (List Node) → Type 0
HasSpare none = ⊥
HasSpare (some ns) = 2 ≤ etcd_count (node_map ns)

-- The pod is the first etcd pod on another node, by kubectl's list of them.
abbrev pub Peer : Env → Text → Text → List Event → Type 0
Peer env name pod [] = ⊥
Peer env name pod (kubectl_run get_etcd_pods r ∷ h) =
    (ps : _) × (env.parse_pods r.out ≡ some ps) × (peer_pod_of name ps ≡ some pod)
Peer env name pod (_ ∷ h) = Peer env name pod h

-- The member list taken from that pod names the member for the node.
abbrev pub Member : Text → Text → Text → List Event → Type 0
Member name pod id [] = ⊥
Member name pod id (kubectl_run (member_list p) r ∷ h) =
    (p ≡ pod) × (r.failed ≡ false) × (member_id_of name r.out ≡ some id)
Member name pod id (_ ∷ h) = Member name pod id h

-- What must hold when a call is made.
abbrev pub Guard : Env → Options → Event → List Event → Type 0
Guard env o (kubectl_run (member_remove pod id) r) h =
    (target_etcd env o.node_name h ≡ true)
    × HasSpare (listed env h)
    × Peer env o.node_name pod h
    × Member o.node_name pod id h
Guard env o (kubectl_run (cordon n) r) h =
    (n ≡ o.node_name) × (target_etcd env o.node_name h ≡ true → removed h ≡ true)
Guard env o (kubectl_run (drain n t f) r) h =
    (n ≡ o.node_name)
    × (cordoned h ≡ true)
    × (target_etcd env o.node_name h ≡ true → removed h ≡ true)
Guard env o (kubectl_run (delete_node n) r) h =
    (n ≡ o.node_name)
    × (o.skip_drain ≡ false → drained o.force h ≡ true)
    × (target_etcd env o.node_name h ≡ true → removed h ≡ true)
Guard env o (ssh_run host cmd r) h = deleted h ≡ true
Guard env o _ h = Unit {0}

-- The state of the run between two steps of `execute`.
record Ready (env : Env) (o : Options) (p : Plan) (h : List Event) : Type 0 where
  etcd_agrees : target_etcd env o.node_name h ≡ p.target_is_etcd
  guarded : Each (Guard env o) h

module _ (env : Env) (o : Options) (p : Plan) where
  remove_member-Ready :
      (h : List Event)
      → Ready env o p h
      → p.target_is_etcd ≡ true
      → HasSpare (listed env h)
      → Peer env o.node_name p.peer_pod h
      → Member o.node_name p.peer_pod p.member_id h
      → Ready env o p (remove_member env p h).1
  unfolding remove_member
  remove_member-Ready h s e z a b = ground arith

  execute-Ready :
      (h : List Event)
      → Ready env o p h
      → (p.target_is_etcd ≡ true → HasSpare (listed env h))
      → (p.target_is_etcd ≡ true → Peer env o.node_name p.peer_pod h)
      → (p.target_is_etcd ≡ true → Member o.node_name p.peer_pod p.member_id h)
      → Each (Guard env o) (execute env o p h).1
  unfolding execute
  execute-Ready h s z a b = ground arith

-- What the reads establish, whether they find a plan or stop.
abbrev Resolved : Env → Options → Outcome Error Plan → List Event → Type 0
Resolved env o (ok q) h =
    Each (Guard env o) h
    × (target_etcd env o.node_name h ≡ q.target_is_etcd)
    × (q.target_is_etcd ≡ true → HasSpare (listed env h))
    × (q.target_is_etcd ≡ true → Peer env o.node_name q.peer_pod h)
    × (q.target_is_etcd ≡ true → Member o.node_name q.peer_pod q.member_id h)
Resolved env o (err e) h = Each (Guard env o) h

module _ (env : Env) (o : Options) where
  resolve-Resolved : Resolved env o (resolve env o []).0 (resolve env o []).1
  unfolding resolve
  resolve-Resolved = ground arith

  carry_out-Guard :
      (p : Plan) (h : List Event)
      → Resolved env o (ok p) h
      → Each (Guard env o) (carry_out env o p h).1
  unfolding carry_out
  carry_out-Guard p h s = ground (arith, execute-Ready env o p (render_plan p h).1)

  plan_and_run-Guard : Each (Guard env o) (plan_and_run env o []).1
  unfolding plan_and_run
  plan_and_run-Guard =
      bind_post (Resolved env o) (λ r. Each (Guard env o)) (resolve env o) (carry_out env o) []
        resolve-Resolved carry_out-Guard (λ x h s. s)

-- Whatever kubectl and the host answer, and however the run ends: the etcd member is removed only
-- if the node is one of at least two control-plane or etcd nodes, from an etcd pod of another node whose member list
-- names it; if the node is such a node, nothing is cordoned, drained or deleted before its member
-- is gone; a drain follows a cordon, the deletion follows the drain unless drains are skipped, and
-- the teardown on the host follows the deletion.
pub remove-Guard : (env : Env) (o : Options) → Each (Guard env o) (remove env o []).1
unfolding remove
remove-Guard env o = ground (arith, plan_and_run-Guard env (with_default_timeout o))
