-- ===== src/OpenBao/Init/Finish.antt =====
-- `Init` once the shares are committed (cli/internal/bootstrap/openbao/init.go).

pub mod Ends
use kube_dc_public.Prelude.{ℕ, ◌+◌, true, Option, none, some, List, [], ◌∷◌, if◌then◌else◌}
use kube_dc_public.Prelude.Text.{Text}
use kube_dc_public.Prelude.Engine.{
  Outcome, ok, err, return, throw, ◌>>=◌, ◌>>◌, perform, attempt, map_err, demand, unwrap,
}
use kube_dc_public.Secrets
use kube_dc_public.Secrets.{Buffer, new_buffer, share, root_token_of, share_count}
use kube_dc_public.OpenBao.ControllerAuth.{
  Stamp, bootstrap_finalized, controller_auth_installed, set_annotations, Port, refresh_full,
  setup_controller_auth,
}
use kube_dc_public.OpenBao.Init.{
  Options, Event, pods_listed, share_applied, auth_called, ca_read, revoked, pods_unlisted, no_pods,
  no_share, unseal_failed, token_gone, k8s_missing, auth_failed, annotate_failed, Error,
  post_commit, Env, Run,
}

pub share_of : ℕ → Outcome Secrets.ErrScrubbed (Option Text) → Run Text
share_of i (err e) = throw (post_commit (no_share i))
share_of i (ok none) = throw (post_commit (no_share i))
share_of i (ok (some [])) = throw (post_commit (no_share i))
share_of i (ok (some (c ∷ s))) = return (c ∷ s)

pub unseal_with : Env → Buffer → Text → ℕ → Run (Unit {0})
unfolding share_of
unseal_with env b pod i = do
  s ← share_of (i + 1) (share b i)
  r ← perform (λ h. env.unseal h pod s) (share_applied pod s)
  demand r (post_commit (unseal_failed (i + 1)))

pub first_pod : List Text → Run Text
first_pod [] = throw (post_commit no_pods)
first_pod (p ∷ ps) = return p

pub post_init_unseal : Env → Buffer → Run (Unit {0})
unfolding first_pod unseal_with
post_init_unseal env b = do
  p ← perform env.pod_list pods_listed
  pods ← unwrap p (post_commit pods_unlisted)
  pod ← first_pod pods
  unseal_with env b pod 0
  unseal_with env b pod 1
  unseal_with env b pod 2

pub root_token : Buffer → Run Text
root_token b = elim (root_token_of b) [
  | ok (some (c ∷ t)) ↦ return (c ∷ t)
  | _ ↦ throw (post_commit token_gone)
]

abbrev port : Env → Port Event
port env = record {
  read_ca = env.read_ca;
  call = env.auth_call;
  ca_read = ca_read;
  called = auth_called;
}

pub post_init_setup : Env → Options → Run (Unit {0})
post_init_setup env o = if o.skip_controller_auth then return tt else (do
  demand o.has_k8s (post_commit k8s_missing)
  map_err (λ e. post_commit (auth_failed e))
      (setup_controller_auth (port env) true o.has_openbao o.has_k8s refresh_full))

pub post_init_annotate_both : Env → Options → Run (Unit {0})
post_init_annotate_both env o = do
  let stamps : List Stamp =
      if o.skip_controller_auth
      then bootstrap_finalized ∷ []
      else bootstrap_finalized ∷ controller_auth_installed ∷ []
  r ← perform (λ h. env.auth_call h (set_annotations stamps)) (auth_called (set_annotations stamps))
  demand r (post_commit annotate_failed)

pub outcome_of : Outcome Error (Unit {0}) → Run (Unit {0})
outcome_of (ok u) = return tt
outcome_of (err e) = throw e

-- The token is revoked however the steps before end, and what that meets is only reported.
pub revoke_after : Env → Text → Run (Unit {0}) → Run (Unit {0})
revoke_after env token steps = do
  r ← attempt steps
  _ ← perform (λ h. env.revoke_self h token) (revoked token)
  outcome_of r

-- Phase C.
pub finish : Env → Options → Buffer → Run (Unit {0})
unfolding root_token revoke_after
finish env o b = do
  post_init_unseal env b
  token ← root_token b
  revoke_after env token (do post_init_setup env o; post_init_annotate_both env o)
