-- ===== src/KubeConfig/Closed.antt =====
-- The contexts of a kubeconfig refer to clusters and users that are there
-- (cli/internal/kubeconfig/manager.go).
use kube_dc_public.Prelude.{◌≡◌, subst, true, List, arith, All, All-map, All-both}
use kube_dc_public.Prelude.Text.{Text, text_eq, text_eq_refl}
use kube_dc_public.KubeConfig.{
  Config, Named, Context, AddContextParams, named, without, cluster_still_referenced,
  user_still_referenced, new_cluster, new_user, new_context, add_context, drop_context,
}
use kube_dc_public.KubeConfig.Entries.{
  named-put, named-collect, All-put, All-without, clusters-referenced, users-referenced, AllSome,
  All-renamespace,
}
use kube_dc_public.KubeConfig.Calls.{Call, removed_server, step, step-keeps}

-- The cluster and the user of a context are there.
abbrev pub HasBoth : Config → Text → Text → Type 0
HasBoth c cluster user = (named cluster c.clusters ≡ true) × (named user c.users ≡ true)

abbrev pub IsClosed : Config → Type 0
IsClosed c = All (λ e. HasBoth c e.body.cluster e.body.user) c.contexts

add_context-IsClosed :
    (encode : Text → Text) (p : AddContextParams) (c : Config)
    → IsClosed c
    → IsClosed (add_context encode p c)
unfolding add_context new_context
add_context-IsClosed encode p c h =
    All-put (λ e. Both e.body.cluster e.body.user) p.context_name (new_context p) c.contexts
      (λ e q. itself) itself
      (All-map _ (λ e. Both e.body.cluster e.body.user) c.contexts
        (λ e q. still e.body.cluster e.body.user q) h)
  where
    Both : Text → Text → Type 0
    Both = HasBoth (add_context encode p c)

    still : (cluster user : Text) → HasBoth c cluster user → Both cluster user
    still cluster user q = (
      ground (arith, named-put cluster p.cluster_name (new_cluster encode p) c.clusters, q.0),
      ground (arith, named-put user p.user_name (new_user p) c.users, q.1),
    )

    itself : Both p.cluster_name p.user_name
    itself = (
      ground (
        arith,
        named-put p.cluster_name p.cluster_name (new_cluster encode p) c.clusters,
        text_eq_refl p.cluster_name,
      ),
      ground
          (arith, named-put p.user_name p.user_name (new_user p) c.users, text_eq_refl p.user_name),
    )

drop_context-IsClosed :
    (name : Text) (v : Context) (c : Config) → IsClosed c → IsClosed (drop_context name v c)
unfolding drop_context
drop_context-IsClosed name v c h =
    All-both (λ e. HasBoth c e.body.cluster e.body.user) IsSeen
      (λ e. HasBoth (drop_context name v c) e.body.cluster e.body.user) left
      (λ e q r. (
        named-collect e.body.cluster v.cluster (cluster_still_referenced v.cluster left) c.clusters
            q.0 r.0,
        named-collect e.body.user v.user (user_still_referenced v.user left) c.users q.1 r.1,
      ))
      (All-without (λ e. HasBoth c e.body.cluster e.body.user) name c.contexts h)
      (All-both _ _ IsSeen left (λ e a b. (a, b)) (clusters-referenced v.cluster left)
        (users-referenced v.user left))
  where
    left : List (Named Context)
    left = without name c.contexts

    IsSeen : Named Context → Type 0
    IsSeen e =
        (text_eq v.cluster e.body.cluster ≡ true → cluster_still_referenced v.cluster left ≡ true)
        × (text_eq v.user e.body.user ≡ true → user_still_referenced v.user left ≡ true)

-- Every call but one.
abbrev pub IsOfOne : Call → Type 0
IsOfOne (removed_server s) = ⊥
IsOfOne _ = Unit

-- Every call but the removal for a server leaves each context a cluster and a user that are there,
-- if each had them before; so the removal of a context takes no cluster and no user that another
-- context refers to.
pub step-IsClosed :
    (encode : Text → Text) (k : Call) (c : Config)
    → IsOfOne k
    → IsClosed c
    → IsClosed (step encode k c)
step-IsClosed encode k c i h =
    step-keeps IsClosed encode k c h (λ p. add_context-IsClosed encode p c h)
      (λ name v. drop_context-IsClosed name v c h) (λ name p. h)
      (λ ns r p.
        subst (AllSome (λ e. HasBoth c e.body.cluster e.body.user)) p
          (All-renamespace (HasBoth c) c.current_context ns c.contexts h))
      (λ s p. absurd (subst IsOfOne p i))
