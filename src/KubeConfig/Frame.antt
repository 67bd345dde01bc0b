-- ===== src/KubeConfig/Frame.antt =====
-- What an added context changes, and that its removal undoes it (cli/internal/kubeconfig/manager.go).
use kube_dc_public.Prelude.{
  ◌≡◌, refl, false, none, some, List, [], ◌∷◌, if◌then◌else◌, arith, Bool-cases, inl, inr,
}
use kube_dc_public.Prelude.Text.{Text, text_eq, text_eq_refl}
use kube_dc_public.KubeConfig.{
  Config, Named, Context, AddContextParams, put, named, collect, cluster_still_referenced,
  user_still_referenced, new_cluster, new_user, new_context, add_context, drop_context, victim_of,
  remove_context,
}
use kube_dc_public.KubeConfig.Entries.{find, find-put, put_twice, without-put}

-- After a context is added, a search by name gives the new cluster, user and context under their
-- names and what it gave before under every other, and the current context is the new one or, where
-- that is not asked for, the one before.
pub add_context-Finds :
    (encode : Text → Text) (p : AddContextParams) (c : Config) (m : Text)
    → let d = add_context encode p c in
      (find m d.clusters
        ≡ (if text_eq p.cluster_name m then some (new_cluster encode p) else find m c.clusters))
      × (find m d.users ≡ (if text_eq p.user_name m then some (new_user p) else find m c.users))
      × (find m d.contexts
          ≡ (if text_eq p.context_name m then some (new_context p) else find m c.contexts))
      × (d.current_context ≡ (if p.set_current then p.context_name else c.current_context))
unfolding add_context
add_context-Finds encode p c m = (
  find-put m p.cluster_name (new_cluster encode p) c.clusters,
  find-put m p.user_name (new_user p) c.users,
  find-put m p.context_name (new_context p) c.contexts,
  refl,
)

-- To add a context a second time changes nothing.
pub add_context_twice :
    (encode : Text → Text) (p : AddContextParams) (c : Config)
    → add_context encode p (add_context encode p c) ≡ add_context encode p c
unfolding add_context
add_context_twice encode p c = ground (
  arith,
  put_twice p.cluster_name (new_cluster encode p) c.clusters,
  put_twice p.user_name (new_user p) c.users,
  put_twice p.context_name (new_context p) c.contexts,
)

-- The names of a context to be added are new and not empty.
pub record IsFresh (p : AddContextParams) (c : Config) : Type 0 where
  pub new_context_name : named p.context_name c.contexts ≡ false
  pub new_cluster_name : named p.cluster_name c.clusters ≡ false
  pub new_user_name : named p.user_name c.users ≡ false
  pub some_cluster : text_eq p.cluster_name [] ≡ false
  pub some_user : text_eq p.user_name [] ≡ false
  pub unused_cluster : cluster_still_referenced p.cluster_name c.contexts ≡ false
  pub unused_user : user_still_referenced p.user_name c.contexts ≡ false
  pub not_current : text_eq c.current_context p.context_name ≡ false

victim_of_absent :
    (n : Text) (es : List (Named Context)) → named n es ≡ false → victim_of n es ≡ none
unfolding victim_of named
victim_of_absent n [] h = refl
victim_of_absent n (e ∷ es) h = elim (Bool-cases (text_eq e.name n)) [
  | inl q ↦ absurd (ground arith)
  | inr q ↦ ground (arith, victim_of_absent n es (ground arith))
]

victim_of-put :
    (n : Text) (a : Context) (es : List (Named Context))
    → named n es ≡ false
    → victim_of n (put n a es) ≡ some a
unfolding victim_of put named
victim_of-put n a [] h = ground (arith, text_eq_refl n)
victim_of-put n a (e ∷ es) h = elim (Bool-cases (text_eq e.name n)) [
  | inl q ↦ absurd (ground arith)
  | inr q ↦ ground (arith, victim_of-put n a es (ground arith))
]

-- A context added under names that are new and not empty, and then removed, leaves the configuration
-- as it was, but for the current context: it is empty where the added context was made the current
-- one.
pub remove_context-add_context :
    (encode : Text → Text) (p : AddContextParams) (c : Config)
    → IsFresh p c
    → remove_context p.context_name (add_context encode p c)
      ≡ some (record c { current_context = if p.set_current then [] else c.current_context })
unfolding remove_context add_context drop_context collect new_context
remove_context-add_context encode p c h = ground (
  arith,
  victim_of-put p.context_name (new_context p) c.contexts h.new_context_name,
  without-put p.context_name (new_context p) c.contexts h.new_context_name,
  without-put p.cluster_name (new_cluster encode p) c.clusters h.new_cluster_name,
  without-put p.user_name (new_user p) c.users h.new_user_name,
  text_eq_refl p.context_name,
  h.some_cluster,
  h.some_user,
  h.unused_cluster,
  h.unused_user,
  h.not_current,
)
