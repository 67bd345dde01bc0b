-- ===== src/OpenBao/GenerateRoot.antt =====
-- cli/internal/bootstrap/openbao/generate_root.go, `GenerateRoot`: a root token from the shares,
-- with an audit record in front of it. SOPS, the OpenBao client, the clock and the two writers are
-- the fields of `Env`. The clearing of the buffers is left out.
pub mod Audit
mod Tests
use kube_dc_public.Prelude.{
  ℕ, Bool, true, false, not, ◌||◌, Option, none, some, List, is_empty, if◌then◌else◌,
}
use kube_dc_public.Prelude.Text.{Text, codes}
use kube_dc_public.Prelude.Engine.{Outcome, ok, err, M, return, throw, ◌>>=◌, ◌>>◌, perform}
use kube_dc_public.OpenBao.Shares.{extract_threshold_shares}
use kube_dc_public.OpenBao.Unseal.{secrets_path}

pub record Options : Type 0 where
  pub cluster_name : Text
  pub fleet_repo : Text
  pub has_sops : Bool
  pub has_openbao : Bool
  pub consent : Bool
  pub operator_name : Text
  pub revoke_immediately : Bool
  pub has_out : Bool
  pub has_audit : Bool

-- The lines of the audit writer.
pub data Line : Type 0 where
  token_generated : Text → Text → Text → Line
  revoke_warning token_revoked token_live : Line

pub data Event : Type 0 where
  decrypted : Text → Option Text → Event
  ceremony : List Text → Option Text → Event
  clock_read : Text → Event
  audited : Line → Bool → Event
  printed : Text → Bool → Event
  revoked : Text → Bool → Event

pub data Error : Type 0 where
  missing_dependency consent_required decrypt_failed : Error
  missing_shares : List ℕ → Error
  ceremony_failed audit_failed output_failed : Error
  revoke_failed status_audit_failed : Error
  -- errors.Join of the two.
  revoke_and_status_audit_failed : Error

-- A call that fails returns `none` or `false`; a write that fails may have been made in part.
pub record Env : Type 0 where
  pub decrypt : List Event → Text → Option Text
  pub generate_root : List Event → List Text → Option Text
  pub revoke_self : List Event → Text → Bool
  pub now : List Event → Text
  pub write_audit : List Event → Line → Bool
  pub write_out : List Event → Text → Bool

abbrev pub Run : Type 0 → Type 0
Run A = M Event Error A

pub or_throw : {A : Type 0} → Option A → Error → Run A
or_throw (some a) e = return a
or_throw none e = throw e

pub require : Bool → Error → Run (Unit {0})
require true e = return tt
require false e = throw e

pub validate_options : Options → Run (Unit {0})
unfolding require
validate_options o = do
  require (not (is_empty o.cluster_name)) missing_dependency
  require (not (is_empty o.fleet_repo)) missing_dependency
  require o.has_sops missing_dependency
  require o.has_openbao missing_dependency

-- A writer that is nil is io.Discard.
pub audit : Env → Options → Line → Run Bool
audit env o line = perform (λ h. not o.has_audit || env.write_audit h line) (audited line)

pub print_token : Env → Options → Text → Run Bool
print_token env o token = perform (λ h. not o.has_out || env.write_out h token) (printed token)

pub read_shares : Outcome (List ℕ) (List Text) → Run (List Text)
read_shares (ok ss) = return ss
read_shares (err js) = throw (missing_shares js)

-- What follows the token's line.
pub settle : Env → Options → Text → Run (Unit {0})
unfolding audit require
settle env o token =
    if o.revoke_immediately
    then (do
      gone ← perform (λ h. env.revoke_self h token) (revoked token)
      if gone
          then (do noted ← audit env o token_revoked; require noted status_audit_failed)
          else (do
            noted ← audit env o revoke_warning
            if noted then throw revoke_failed else throw revoke_and_status_audit_failed))
    else (do noted ← audit env o token_live; require noted status_audit_failed)

-- The audit record, and then the token.
pub disclose : Env → Options → Text → Run (Unit {0})
unfolding audit print_token require settle
disclose env o token = do
  stamp ← perform env.now clock_read
  noted ← audit env o (
      token_generated o.cluster_name stamp
        (if is_empty o.operator_name then codes "<unknown>" else o.operator_name))
  require noted audit_failed
  shown ← print_token env o token
  require shown output_failed
  settle env o token

pub generate : Env → Options → Run Text
unfolding validate_options require or_throw read_shares
generate env o = do
  validate_options o
  require o.consent consent_required
  d ←
      perform (λ h. env.decrypt h (secrets_path o.fleet_repo o.cluster_name))
        (decrypted (secrets_path o.fleet_repo o.cluster_name))
  file ← or_throw d decrypt_failed
  shares ← read_shares (extract_threshold_shares file)
  t ← perform (λ h. env.generate_root h shares) (ceremony shares)
  or_throw t ceremony_failed

pub generate_root : Env → Options → Run (Unit {0})
generate_root env o = do token ← generate env o; disclose env o token
