-- ===== src/KubeConfig/Current.antt =====
-- The current context of a kubeconfig is one of its contexts (cli/internal/kubeconfig/manager.go).
use kube_dc_public.Prelude.{
  ◌≡◌, refl, ◌⊎◌, inl, inr, Bool, true, false, some, List, [], ◌∷◌, if◌then◌else◌, arith,
}
use kube_dc_public.Prelude.Text.{Text, text_eq, text_eq→eq, text_eq_refl, has_prefix, codes}
use kube_dc_public.KubeConfig.{
  Config, Named, Context, AddContextParams, put, named, without, unprefixed, first_name,
  renamespace, new_context, add_context, drop_context, remove_server,
}
use kube_dc_public.KubeConfig.Entries.{
  named-put, named-without, named-unprefixed, named-renamespace,
}
use kube_dc_public.KubeConfig.Calls.{Call, step, step-keeps}

-- The current context is empty or the name of a context.
abbrev pub IsCurrent : Config → Type 0
IsCurrent c = (c.current_context ≡ []) ⊎ (named c.current_context c.contexts ≡ true)

add_context-IsCurrent :
    (encode : Text → Text) (p : AddContextParams) (c : Config)
    → IsCurrent c
    → IsCurrent (add_context encode p c)
unfolding add_context
add_context-IsCurrent encode p c h = chosen p.set_current h
  where
    n : Text
    n = p.context_name

    chosen :
        (b : Bool)
        → IsCurrent c
        → ((if b then n else c.current_context) ≡ [])
          ⊎ (named (if b then n else c.current_context) (put n (new_context p) c.contexts) ≡ true)
    chosen true k = inr (ground (arith, named-put n n (new_context p) c.contexts, text_eq_refl n))
    chosen false (inl k) = inl k
    chosen false (inr k) =
        inr (ground (arith, named-put c.current_context n (new_context p) c.contexts))

drop_context-IsCurrent :
    (name : Text) (v : Context) (c : Config) → IsCurrent c → IsCurrent (drop_context name v c)
unfolding drop_context
drop_context-IsCurrent name v c h = chosen (text_eq c.current_context name) refl h
  where
    chosen :
        (b : Bool)
        → text_eq c.current_context name ≡ b
        → IsCurrent c
        → ((if b then [] else c.current_context) ≡ [])
          ⊎ (named (if b then [] else c.current_context) (without name c.contexts) ≡ true)
    chosen true p k = inl refl
    chosen false p (inl k) = inl k
    chosen false p (inr k) = inr (
        ground (
          arith,
          named-without c.current_context name c.contexts,
          text_eq→eq name c.current_context,
          text_eq_refl name,
        ))

named-first_name :
    (es : List (Named Context)) → (first_name es ≡ []) ⊎ (named (first_name es) es ≡ true)
unfolding first_name named
named-first_name [] = inl refl
named-first_name (e ∷ es) = inr (ground (arith, text_eq_refl e.name))

remove_server-IsCurrent : (s : Text) (c : Config) → IsCurrent c → IsCurrent (remove_server s c)
unfolding remove_server
remove_server-IsCurrent s c h =
    chosen (has_prefix (codes "kube-dc/") c.current_context) refl h
      (unprefixed (codes "kube-dc/") c.contexts) refl
  where
    chosen :
        (b : Bool)
        → has_prefix (codes "kube-dc/") c.current_context ≡ b
        → IsCurrent c
        → (es : List (Named Context)) → unprefixed (codes "kube-dc/") c.contexts ≡ es
        → ((if b then first_name es else c.current_context) ≡ [])
          ⊎ (named (if b then first_name es else c.current_context) es ≡ true)
    chosen true p k es q = named-first_name es
    chosen false p (inl k) es q = inl k
    chosen false p (inr k) es q =
        inr (ground (arith, named-unprefixed (codes "kube-dc/") c.current_context c.contexts))

set_namespace-IsCurrent :
    (c : Config) (ns : Text) (r : List (Named Context))
    → renamespace c.current_context ns c.contexts ≡ some r
    → IsCurrent c
    → IsCurrent (record c { contexts = r })
set_namespace-IsCurrent c ns r p (inl k) = inl k
set_namespace-IsCurrent c ns r p (inr k) =
    inr (ground (arith, named-renamespace c.current_context c.current_context ns c.contexts r p))

-- Every call of the manager leaves a current context that is empty or the name of a context, if it
-- was so before.
pub step-IsCurrent :
    (encode : Text → Text) (k : Call) (c : Config) → IsCurrent c → IsCurrent (step encode k c)
step-IsCurrent encode k c h =
    step-keeps IsCurrent encode k c h (λ p. add_context-IsCurrent encode p c h)
      (λ name v. drop_context-IsCurrent name v c h) (λ name p. inr p)
      (λ ns r p. set_namespace-IsCurrent c ns r p h) (λ s p. remove_server-IsCurrent s c h)
