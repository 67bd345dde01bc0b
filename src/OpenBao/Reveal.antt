-- ===== src/OpenBao/Reveal.antt =====
-- cli/internal/bootstrap/openbao/reveal.go, `RevealShares`: all five shares on the standard output,
-- with an audit record in front of them. SOPS, the clock and the two writers are the fields of
-- `Env`. The clearing of the buffers is left out.
pub mod Audit
mod Tests
use kube_dc_public.Prelude.{
  ℕ, ◌+◌, Bool, true, false, not, ◌||◌, Option, none, some, List, [], ◌∷◌, is_empty, if◌then◌else◌,
}
use kube_dc_public.Prelude.Text.{Text, codes}
use kube_dc_public.Prelude.Engine.{Outcome, ok, err, M, return, throw, ◌>>=◌, ◌>>◌, perform}
use kube_dc_public.OpenBao.Shares.{extract_all_shares}
use kube_dc_public.OpenBao.Unseal.{secrets_path}

pub record Options : Type 0 where
  pub cluster_name : Text
  pub fleet_repo : Text
  pub has_sops : Bool
  pub consent : Bool
  pub operator_name : Text
  pub has_out : Bool
  pub has_audit : Bool

-- The lines of the standard output.
pub data Line : Type 0 where
  header footer : Line
  share_line : ℕ → Text → Line

pub data Event : Type 0 where
  decrypted : Text → Option Text → Event
  clock_read : Text → Event
  audited : Text → Text → Text → Bool → Event
  printed : Line → Bool → Event

pub data Error : Type 0 where
  missing_dependency consent_required decrypt_failed : Error
  missing_shares : List ℕ → Error
  audit_failed output_failed : Error

-- A call that fails returns `none` or `false`; a write that fails may have been made in part.
pub record Env : Type 0 where
  pub decrypt : List Event → Text → Option Text
  pub now : List Event → Text
  pub write_audit : List Event → Text → Text → Text → Bool
  pub write_out : List Event → Line → Bool

abbrev pub Run : Type 0 → Type 0
Run A = M Event Error A

pub or_throw : {A : Type 0} → Option A → Error → Run A
or_throw (some a) e = return a
or_throw none e = throw e

pub require : Bool → Error → Run (Unit {0})
require true e = return tt
require false e = throw e

pub validate_options : Options → Run (Unit {0})
unfolding require
validate_options o = do
  require (not (is_empty o.cluster_name)) missing_dependency
  require (not (is_empty o.fleet_repo)) missing_dependency
  require o.has_sops missing_dependency

pub read_shares : Outcome (List ℕ) (List Text) → Run (List Text)
read_shares (ok ss) = return ss
read_shares (err js) = throw (missing_shares js)

-- A writer that is nil is io.Discard.
pub print_line : Env → Options → Line → Run (Unit {0})
unfolding require
print_line env o line = do
  done ← perform (λ h. not o.has_out || env.write_out h line) (printed line)
  require done output_failed

pub print_shares : Env → Options → ℕ → List Text → Run (Unit {0})
unfolding print_line
print_shares env o i [] = return tt
print_shares env o i (s ∷ ss) = do print_line env o (share_line i s); print_shares env o (i + 1) ss

pub operator_of : Options → Text
operator_of o = if is_empty o.operator_name then codes "<unknown>" else o.operator_name

pub record_audit : Env → Options → Run (Unit {0})
unfolding require
record_audit env o = do
  stamp ← perform env.now clock_read
  noted ←
      perform (λ h. not o.has_audit || env.write_audit h o.cluster_name stamp (operator_of o))
        (audited o.cluster_name stamp (operator_of o))
  require noted audit_failed

pub disclose : Env → Options → List Text → Run (Unit {0})
unfolding print_line print_shares
disclose env o shares = do
  print_line env o header
  print_shares env o 1 shares
  print_line env o footer

pub prepare : Env → Options → Run (List Text)
unfolding validate_options require or_throw read_shares record_audit
prepare env o = do
  validate_options o
  require o.consent consent_required
  d ←
      perform (λ h. env.decrypt h (secrets_path o.fleet_repo o.cluster_name))
        (decrypted (secrets_path o.fleet_repo o.cluster_name))
  file ← or_throw d decrypt_failed
  shares ← read_shares (extract_all_shares file)
  record_audit env o
  return shares

pub reveal_shares : Env → Options → Run (Unit {0})
reveal_shares env o = do shares ← prepare env o; disclose env o shares
