-- ===== src/OpenBao/Init/Finish/Ends.antt =====
-- What becomes of the root token when the shares are committed
-- (cli/internal/bootstrap/openbao/init.go).
use kube_dc_public.Prelude.{Bool, true, false, if◌then◌else◌, List, ◌∷◌, arith}
use kube_dc_public.Prelude.Text.{Text}
use kube_dc_public.Prelude.Engine.{
  Outcome, ok, err, Each, bind_post, map_err, map_err_post, attempt_post, return, demand, perform,
  ◌>>=◌, ◌>>◌,
}
use kube_dc_public.Secrets.{Buffer}
use kube_dc_public.OpenBao.ControllerAuth.{SetupError, refresh_full, setup_controller_auth}
use kube_dc_public.OpenBao.ControllerAuth.Frame.{setup_controller_auth-Keeps}
use kube_dc_public.OpenBao.Init.{
  Options, Event, revoked, k8s_missing, auth_failed, annotate_failed, Error, post_commit, Env, Run,
}
use kube_dc_public.OpenBao.Init.Finish.{
  share_of, unseal_with, first_pod, post_init_unseal, root_token, port, post_init_setup,
  post_init_annotate_both, outcome_of, revoke_after, finish,
}
use kube_dc_public.OpenBao.Init.Guard.{Guard, IsCommitted, IsJustRevoked, IsUnrevoked, IsLate}

-- Nothing is revoked yet.
abbrev Live : {A : Type 0} → Outcome Error A → List Event → Type 0
Live (ok a) h = Each Guard h × IsCommitted h × IsUnrevoked h
Live (err (post_commit c)) h = Each Guard h × IsCommitted h × IsLate c h
Live (err e) h = ⊥

-- A cause after which the revocation was tried.
abbrev IsLast : Error → Type 0
IsLast (post_commit k8s_missing) = Unit {0}
IsLast (post_commit (auth_failed e)) = Unit {0}
IsLast (post_commit annotate_failed) = Unit {0}
IsLast _ = ⊥

abbrev Stepped : Outcome Error (Unit {0}) → List Event → Type 0
Stepped (ok u) h = Each Guard h × IsCommitted h
Stepped (err e) h = Each Guard h × IsCommitted h × IsLast e

abbrev pub Finished : Outcome Error (Unit {0}) → List Event → Type 0
Finished (ok u) h = Each Guard h × IsCommitted h × IsJustRevoked h
Finished (err (post_commit c)) h = Each Guard h × IsCommitted h × IsLate c h
Finished (err e) h = ⊥

module _ (env : Env) (o : Options) (b : Buffer) where
  post_init_unseal-Live :
      (h : List Event)
      → Live {A = Unit {0}} (ok tt) h
      → Live (post_init_unseal env b h).0 (post_init_unseal env b h).1
  unfolding post_init_unseal first_pod unseal_with share_of
  post_init_unseal-Live h s = ground arith

  root_token-Live :
      (h : List Event) → Live {A = Unit {0}} (ok tt) h → Live (root_token b h).0 (root_token b h).1
  unfolding root_token
  root_token-Live h s = ground arith

  abbrev IsSafe : List Event → Type 0
  IsSafe h = Each Guard h × IsCommitted h

  abbrev Safe : Outcome SetupError (Unit {0}) → List Event → Type 0
  Safe r h = IsSafe h

  post_init_setup-Stepped :
      (h : List Event) → IsSafe h → Stepped (post_init_setup env o h).0 (post_init_setup env o h).1
  unfolding post_init_setup
  post_init_setup-Stepped h s = chosen o.skip_controller_auth o.has_k8s
    where
      set_up : Run (Unit {0})
      set_up =
          map_err (λ e. post_commit (auth_failed e))
            (setup_controller_auth (port env) true o.has_openbao o.has_k8s refresh_full)

      m : Bool → Bool → Run (Unit {0})
      m skip k8s = if skip then return tt else (demand k8s (post_commit k8s_missing) >> set_up)

      chosen : (skip k8s : Bool) → Stepped (m skip k8s h).0 (m skip k8s h).1
      chosen true k8s = s
      chosen false false = (s.0, s.1, tt)
      chosen false true =
          map_err_post Safe Stepped (λ e. post_commit (auth_failed e))
            (setup_controller_auth (port env) true o.has_openbao o.has_k8s refresh_full) h
            (setup_controller_auth-Keeps (port env) IsSafe (λ r h' t. ((tt, t.0), t.1))
              (λ c r h' t. ((t.1, t.0), t.1)) true o.has_openbao o.has_k8s refresh_full h s)
            (λ u h' t. t) (λ e h' t. (t.0, t.1, tt))

  post_init_annotate_both-Stepped :
      (h : List Event)
      → IsSafe h
      → Stepped (post_init_annotate_both env o h).0 (post_init_annotate_both env o h).1
  unfolding post_init_annotate_both
  post_init_annotate_both-Stepped h s = ground arith

  outcome_of-Finished :
      (token : Text) (r : Outcome Error (Unit {0})) (h : List Event)
      → Stepped r h
      → Finished
          (outcome_of r (revoked token (env.revoke_self h token) ∷ h)).0
          (outcome_of r (revoked token (env.revoke_self h token) ∷ h)).1
  unfolding outcome_of
  outcome_of-Finished token r h s = ground arith

  revoke_after-Finished :
      (token : Text) (steps : Run (Unit {0})) (h : List Event)
      → Stepped (steps h).0 (steps h).1
      → Finished (revoke_after env token steps h).0 (revoke_after env token steps h).1
  unfolding revoke_after
  revoke_after-Finished token steps h s =
      attempt_post Stepped Finished steps
        (λ r. perform (λ h'. env.revoke_self h' token) (revoked token) >> outcome_of r) h s
        (λ r h' t. outcome_of-Finished token r h' t)

  pub finish-Finished :
      (h : List Event)
      → Each Guard h
      → IsCommitted h
      → IsUnrevoked h
      → Finished (finish env o b h).0 (finish env o b h).1
  unfolding finish
  finish-Finished h g c r =
      let steps : Run (Unit {0}) = post_init_setup env o >> post_init_annotate_both env o in
      let rest : Run (Unit {0}) = root_token b >>= λ token. revoke_after env token steps in
      bind_post Live Finished (post_init_unseal env b) (λ u. rest) h
        (post_init_unseal-Live h (g, c, r))
        (λ u h' t.
          bind_post Live Finished (root_token b) (λ token. revoke_after env token steps) h'
            (root_token-Live h' t)
            (λ token h'' t'. revoke_after-Finished token steps h'' (
              bind_post Stepped Stepped (post_init_setup env o) (λ v. post_init_annotate_both env o)
                h'' (post_init_setup-Stepped h'' (t'.0, t'.1))
                (λ v g'' s. post_init_annotate_both-Stepped g'' s) (λ e g'' s. s)))
            (failed Text))
        (failed (Unit {0}))
    where
      failed :
          (A : Type 0) (e : Error) (h' : List Event) → Live {A = A} (err e) h' → Finished (err e) h'
      failed A (post_commit c) h' t = t
      failed A e h' t = ground arith
