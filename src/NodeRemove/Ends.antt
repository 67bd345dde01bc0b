-- ===== src/NodeRemove/Ends.antt =====
-- How `remove` ends (cli/internal/bootstrap/noderemove/remove.go).
use kube_dc_public.Prelude.{◌≤◌, ◌≡◌, ◌⊎◌, Bool, true, false, some, List, [], ◌∷◌, arith}
use kube_dc_public.Prelude.Text.{Text, is_blank}
use kube_dc_public.Prelude.Engine.{Outcome, ok, err, Each, bind_post}
use kube_dc_public.NodeRemove.{
  Options, Error, Event, kubectl_run, ssh_run, plan_shown, get_nodes, get_etcd_pods, member_list,
  member_remove, drain, delete_node, Env, Plan, Node, Reply, is_etcd, node_map, find_node,
  etcd_count, argv, execute, resolve, remove, render_plan, carry_out, plan_and_run,
  with_default_timeout, last_control_plane,
}
use kube_dc_public.NodeRemove.Order.{
  removed, drained, deleted, target_etcd, Peer, Member, Guard, remove-Guard,
}

-- Calls that change nothing.
abbrev pub IsRead : Event → List Event → Type 0
IsRead (kubectl_run get_nodes r) h = Unit {0}
IsRead (kubectl_run get_etcd_pods r) h = Unit {0}
IsRead (kubectl_run (member_list pod) r) h = Unit {0}
IsRead (kubectl_run _ r) h = ⊥
IsRead (ssh_run host cmd r) h = ⊥
IsRead (plan_shown w) h = Unit {0}

abbrev Reads : {A : Type 0} → Outcome Error A → List Event → Type 0
Reads r h = Each IsRead h

module _ (env : Env) (o : Options) where
  resolve-IsRead : Each IsRead (resolve env o []).1
  unfolding resolve
  resolve-IsRead = ground arith

  plan_and_run-IsRead : o.dry_run ≡ true → Each IsRead (plan_and_run env o []).1
  unfolding plan_and_run
  plan_and_run-IsRead d =
      bind_post Reads Reads (resolve env o) (carry_out env o) [] resolve-IsRead
        (λ p h s. unfold carry_out in ground arith) (λ x h s. s)

-- A dry run only reads, whatever the other systems answer and however it ends.
pub remove_dry_run-IsRead :
    (env : Env) (o : Options) → o.dry_run ≡ true → Each IsRead (remove env o []).1
unfolding remove
remove_dry_run-IsRead env o d = ground (arith, plan_and_run-IsRead env (with_default_timeout o))

-- A node list on which the node is the only control-plane or etcd node: the run is refused with the
-- error for it, and nothing but that list is asked for.
pub remove-last_control_plane :
    (env : Env) (o : Options) (r : Reply) (ns : List Node) (t : Node)
    → o.has_kubectl ≡ true
    → is_blank o.node_name ≡ false
    → env.kubectl [] (argv get_nodes) ≡ r
    → r.failed ≡ false
    → env.parse_nodes r.out ≡ some ns
    → find_node o.node_name (node_map ns) ≡ some t
    → is_etcd t ≡ true
    → etcd_count (node_map ns) ≤ 1
    → remove env o [] ≡ (err (last_control_plane o.node_name), kubectl_run get_nodes r ∷ [])
unfolding remove plan_and_run resolve
remove-last_control_plane env o r ns t a b c d e f g h = ground arith

-- What the run has been through when it reports success.
record Marked (env : Env) (o : Options) (h : List Event) : Type 0 where
  is_deleted : deleted h ≡ true
  is_drained : o.skip_drain ≡ false → drained o.force h ≡ true
  is_removed : target_etcd env o.node_name h ≡ true → removed h ≡ true

abbrev Finished : {A : Type 0} → Env → Options → Outcome Error A → List Event → Type 0
Finished env o (ok u) h = Marked env o h
Finished env o (err e) h = Unit {0}

abbrev Agrees : Env → Options → Outcome Error Plan → List Event → Type 0
Agrees env o (ok p) h = target_etcd env o.node_name h ≡ p.target_is_etcd
Agrees env o (err e) h = Unit {0}

module _ (env : Env) (o : Options) where
  execute-Finished :
      (p : Plan) (h : List Event)
      → target_etcd env o.node_name h ≡ p.target_is_etcd
      → Finished env o (execute env o p h).0 (execute env o p h).1
  unfolding execute
  execute-Finished p h e = ground arith

  carry_out-Finished :
      (p : Plan) (h : List Event)
      → o.dry_run ≡ false
      → target_etcd env o.node_name h ≡ p.target_is_etcd
      → Finished env o (carry_out env o p h).0 (carry_out env o p h).1
  unfolding carry_out
  carry_out-Finished p h d e = ground (arith, execute-Finished p (render_plan p h).1)

  resolve-Agrees : Agrees env o (resolve env o []).0 (resolve env o []).1
  unfolding resolve
  resolve-Agrees = ground arith

  plan_and_run-Finished :
      o.dry_run ≡ false → Finished env o (plan_and_run env o []).0 (plan_and_run env o []).1
  unfolding plan_and_run
  plan_and_run-Finished d =
      bind_post (Agrees env o) (Finished env o) (resolve env o) (carry_out env o) [] resolve-Agrees
        (λ p h e. carry_out-Finished p h d e) (λ x h s. tt)

-- The node of this name was deleted.
abbrev pub HasDeleted : Text → List Event → Type 0
HasDeleted name [] = ⊥
HasDeleted name (kubectl_run (delete_node n) r ∷ h) =
    ((n ≡ name) × (r.failed ≡ false)) ⊎ HasDeleted name h
HasDeleted name (_ ∷ h) = HasDeleted name h

-- A drain of the node of this name succeeded, or was tried where `--force` goes on past a failure.
abbrev pub HasDrained : Bool → Text → List Event → Type 0
HasDrained force name [] = ⊥
HasDrained force name (kubectl_run (drain n t f) r ∷ h) =
    ((n ≡ name) × ((force ≡ true) ⊎ (r.failed ≡ false))) ⊎ HasDrained force name h
HasDrained force name (_ ∷ h) = HasDrained force name h

-- The member was removed that the member list, taken from the first etcd pod on another node, gives
-- for this node's name, through that pod.
abbrev pub HasRemoved : Env → Text → List Event → Type 0
HasRemoved env name [] = ⊥
HasRemoved env name (kubectl_run (member_remove pod id) r ∷ h) =
    ((r.failed ≡ false) × Peer env name pod h × Member name pod id h) ⊎ HasRemoved env name h
HasRemoved env name (_ ∷ h) = HasRemoved env name h

-- What has been done when the run reports success.
pub record IsDone (env : Env) (o : Options) (h : List Event) : Type 0 where
  pub is_deleted : HasDeleted o.node_name h
  pub is_drained : o.skip_drain ≡ false → HasDrained o.force o.node_name h
  pub is_removed : target_etcd env o.node_name h ≡ true → HasRemoved env o.node_name h

module _ (env : Env) (o : Options) where
  deleted-HasDeleted :
      (h : List Event) → Each (Guard env o) h → deleted h ≡ true → HasDeleted o.node_name h
  deleted-HasDeleted [] g d = cc
  deleted-HasDeleted (e ∷ h) g d = ground (arith, deleted-HasDeleted h g.1)

  drained-HasDrained :
      (h : List Event)
      → Each (Guard env o) h
      → drained o.force h ≡ true
      → HasDrained o.force o.node_name h
  drained-HasDrained [] g d = cc
  drained-HasDrained (e ∷ h) g d = ground (arith, drained-HasDrained h g.1)

  removed-HasRemoved :
      (h : List Event) → Each (Guard env o) h → removed h ≡ true → HasRemoved env o.node_name h
  removed-HasRemoved [] g d = cc
  removed-HasRemoved (e ∷ h) g d = ground (arith, removed-HasRemoved h g.1)

  Marked-IsDone : (h : List Event) → Each (Guard env o) h → Marked env o h → IsDone env o h
  Marked-IsDone h g m = record {
    is_deleted = deleted-HasDeleted h g m.is_deleted;
    is_drained = λ s. drained-HasDrained h g (m.is_drained s);
    is_removed = λ e. removed-HasRemoved h g (m.is_removed e);
  }

remove_ok-Marked :
    (env : Env) (o : Options)
    → o.dry_run ≡ false
    → (remove env o []).0 ≡ ok tt
    → Marked env o (remove env o []).1
unfolding remove
remove_ok-Marked env o d e = ground (arith, plan_and_run-Finished env (with_default_timeout o))

-- A run that is no dry run and reports success has deleted the node of the name it was given; has
-- drained that node, or with `--force` at least tried to, unless drains are skipped; and, if
-- kubectl lists the node as a control-plane or etcd node, has removed the member that the name test
-- picks for it on the member list of an etcd pod on another node.
pub remove_ok-IsDone :
    (env : Env) (o : Options)
    → o.dry_run ≡ false
    → (remove env o []).0 ≡ ok tt
    → IsDone env o (remove env o []).1
remove_ok-IsDone env o d e =
    Marked-IsDone env o (remove env o []).1 (remove-Guard env o) (remove_ok-Marked env o d e)
