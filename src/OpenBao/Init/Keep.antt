-- ===== src/OpenBao/Init/Keep.antt =====
-- `Init` putting the shares into the fleet repository (cli/internal/bootstrap/openbao/init.go).

pub mod Ends
pub mod Keys
use kube_dc_public.Prelude.{
  ℕ, zero, suc, ◌+◌, Bool, true, false, not, Option, none, some, List, [], ◌∷◌, ◌++◌, is_empty,
  ◌==◌, if◌then◌else◌,
}
use kube_dc_public.Prelude.Text.{Text, codes, contains}
use kube_dc_public.Prelude.Decimal.{ℤ, pos}
use kube_dc_public.Prelude.Engine.{
  Outcome, ok, err, M, return, throw, ◌>>=◌, ◌>>◌, perform, attempt, map_err, demand, unwrap,
}
use kube_dc_public.Secrets
use kube_dc_public.Secrets.{Buffer, new_buffer, share, root_token_of, share_count}
use kube_dc_public.Drain.{Line, StreamError, drain}
use kube_dc_public.OpenBao.ControllerAuth.{
  Stamp, bootstrap_finalized, controller_auth_installed, set_annotations, Port, refresh_full,
  setup_controller_auth,
}
use kube_dc_public.OpenBao.Init
use kube_dc_public.OpenBao.Init.{
  Options, Tree, outside, inside, unresolved, Script, Event, secrets_seen, tree_checked, diff_read,
  annotation_read, head_read, script_run, share_encrypted, decrypted, committed, custody_removed,
  pods_listed, share_applied, auth_called, ca_read, revoked, DumpError, PayloadError, ShareError,
  share_unread, share_empty, encrypt_failed, decrypt_failed, round_trip_failed, Cause, bad_payload,
  drain_broken, script_status, share_count_wrong, token_missing, encryption_failed, commit_failed,
  LateCause, pods_unlisted, no_pods, no_share, unseal_failed, token_gone, k8s_missing, auth_failed,
  annotate_failed, Error, missing_dependency, secrets_missing, shares_out_inside_git,
  shares_out_unresolved, diff_failed, dirty_working_tree, already_initialised, head_failed,
  start_failed, capture_missing, drain_failed, script_failed, preserved, lost, post_commit, Env,
  Run,
}
use kube_dc_public.OpenBao.Init.Payload.{load_buffer_from_json, render_shares}
use kube_dc_public.OpenBao.Init.Files.{tree_of, write_shares_file, emergency_dump}
use kube_dc_public.OpenBao.Init.Capture.{Capture, custody, capture}

abbrev pub ShareRun : Type 0 → Type 0
ShareRun A = M Event ShareError A

pub present : ℕ → Outcome Secrets.ErrScrubbed (Option Text) → ShareRun Text
present i (err e) = throw (share_unread i)
present i (ok none) = throw (share_empty i)
present i (ok (some [])) = throw (share_empty i)
present i (ok (some (c ∷ s))) = return (c ∷ s)

-- Share number `i + 1`.
pub write_and_verify : Env → Buffer → ℕ → ShareRun (Unit {0})
unfolding present
write_and_verify env b i = do
  s ← present (suc i) (share b i)
  set ← perform (λ h. env.encrypt h (suc i) s) (share_encrypted (suc i) s)
  demand set (encrypt_failed (suc i))
  d ← perform env.decrypt decrypted
  file ← unwrap d (decrypt_failed (suc i))
  demand (contains s file) (round_trip_failed (suc i))

pub write_and_verify_shares : Env → Buffer → ShareRun (Unit {0})
write_and_verify_shares env b = do
  write_and_verify env b 0
  write_and_verify env b 1
  write_and_verify env b 2
  write_and_verify env b 3
  write_and_verify env b 4

pub write_if_any : Env → Text → Option Text → Run (Unit {0})
write_if_any env path none = return tt
write_if_any env path (some body) = do
  _ ← attempt (write_shares_file env path body false)
  return tt

-- A copy that the operator asked for; it may fail.
pub write_shares_out : Env → Options → Buffer → Run (Unit {0})
unfolding write_if_any
write_shares_out env o b =
    if is_empty o.shares_out_path
    then return tt
    else write_if_any env o.shares_out_path (
        render_shares b
          (codes "Generated by `kube-dc bootstrap openbao init --openbao-shares-out`."))

pub commit_message : Options → Text
commit_message o =
    codes "feat("
    ++ (o.cluster_name ++ codes "): encrypt OpenBao Shamir shares into secrets.enc.yaml")

pub sha_of : Capture → Outcome Text Text → Run Text
sha_of c (ok sha) = return sha
sha_of c (err sha) = custody c (commit_failed sha)

pub commit_and_maybe_push : Env → Options → Capture → Run Text
unfolding sha_of commit_message
commit_and_maybe_push env o c = do
  r ← perform (λ h. env.commit h o.no_push (commit_message o)) committed
  sha_of c r

-- The copy made at the capture has served its purpose.
pub remove_custody : Env → Outcome DumpError Text → Run (Unit {0})
remove_custody env (err e) = return tt
remove_custody env (ok path) = do
  _ ← perform (λ h. env.remove_custody h path) (custody_removed path)
  return tt

pub shares_kept : Capture → Outcome ShareError (Unit {0}) → Run (Unit {0})
shares_kept c (ok u) = return tt
shares_kept c (err e) = custody c (encryption_failed e)

-- Phase B.
pub keep : Env → Options → Capture → Run (Unit {0})
unfolding shares_kept write_shares_out commit_and_maybe_push
keep env o c = do
  r ← attempt (write_and_verify_shares env c.buffer)
  shares_kept c r
  write_shares_out env o c.buffer
  _ ← commit_and_maybe_push env o c
  remove_custody env c.custody
