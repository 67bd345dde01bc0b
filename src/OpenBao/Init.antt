-- ===== src/OpenBao/Init.antt =====
-- cli/internal/bootstrap/openbao/init.go: the ceremony that initialises a vault and brings its
-- unseal shares into the fleet repository. Here are the calls that it makes and the ways it ends;
-- `Payload` reads and prints the shares, `Files` writes them to disk, `Preflight`,
-- `Capture`, `Keep` and `Finish` are the phases of `Init`, which is in `Ceremony`.
-- The systems are the fields of `Env`; lines printed for the operator are left out.
pub mod Payload
pub mod Guard
pub mod Files
pub mod Preflight
pub mod Capture
pub mod Keep
pub mod Finish
pub mod Ceremony
use kube_dc_public.Prelude.{ℕ, Bool, Option, List}
use kube_dc_public.Prelude.Text.{Text}
use kube_dc_public.Prelude.Decimal.{ℤ}
use kube_dc_public.Prelude.Engine.{Outcome, M}
use kube_dc_public.OpenBao.ControllerAuth
use kube_dc_public.Drain.{Line, StreamError}

-- InitOptions; a client is given by its test against nil.
pub record Options : Type 0 where
  pub cluster_name : Text
  pub fleet_repo : Text
  pub has_runner : Bool
  pub has_sops : Bool
  pub has_git : Bool
  pub has_openbao : Bool
  pub has_k8s : Bool
  pub skip_controller_auth : Bool
  pub no_push : Bool
  pub shares_out_path : Text

-- One call of the file system on the way of a shares file to its name.
pub data FileOp : Type 0 where
  make_dir create_temp : FileOp
  write_temp : Text → FileOp
  chmod_temp sync_temp close_temp : FileOp
  link_temp rename_temp : Text → FileOp
  remove_temp sync_dir : FileOp

-- `already_there` is the class os.ErrExist.
pub data Reply : Type 0 where
  done already_there failed : Reply

pub data Tree : Type 0 where
  outside inside unresolved : Tree

-- A run of the script: what its callback was handed, block by block, and its lines.
pub record Script : Type 0 where
  pub payloads : List Text
  pub lines : List Line

-- The `bao operator init` payload, decoded.
pub record BaoInitJson : Type 0 where
  pub unseal_keys : List Text
  pub root_token : Text

-- `none` and `false` are calls that failed. A commit that fails may have made the commit.
pub data Event : Type 0 where
  secrets_seen : Text → Bool → Event
  tree_checked : Text → Tree → Event
  diff_read : Option (List Text) → Event
  annotation_read : Option Text → Event
  head_read : Bool → Event
  script_run : Option Script → Event
  home_read : Option Text → Event
  file_op : FileOp → Reply → Event
  share_encrypted : ℕ → Text → Bool → Event
  decrypted : Option Text → Event
  committed : Outcome Text Text → Event
  custody_removed : Text → Bool → Event
  pods_listed : Option (List Text) → Event
  share_applied : Text → Text → Bool → Event
  auth_called : ControllerAuth.Call → Bool → Event
  ca_read : Option Text → Event
  revoked : Text → Bool → Event

pub data FileError : Type 0 where
  inside_git_tree path_unresolved name_taken file_failed : FileError

-- Why a copy of the shares is not on disk.
pub data DumpError : Type 0 where
  no_home no_shares all_names_taken : DumpError
  not_written : FileError → DumpError

pub data PayloadError : Type 0 where
  empty_payload not_json : PayloadError
  key_count : ℕ → PayloadError
  key_empty : ℕ → PayloadError
  root_token_absent : PayloadError

pub data ShareError : Type 0 where
  share_unread share_empty encrypt_failed decrypt_failed round_trip_failed : ℕ → ShareError

-- What went wrong while the shares were at risk.
pub data Cause : Type 0 where
  bad_payload : PayloadError → Cause
  drain_broken : StreamError → Cause
  script_status : ℤ → Cause
  share_count_wrong : ℕ → Cause
  token_missing : Cause
  encryption_failed : ShareError → Cause
  commit_failed : Text → Cause

pub data LateCause : Type 0 where
  pods_unlisted no_pods : LateCause
  no_share unseal_failed : ℕ → LateCause
  token_gone k8s_missing annotate_failed : LateCause
  auth_failed : ControllerAuth.SetupError → LateCause

-- `preserved` and `lost` are the errors of `custody`.
pub data Error : Type 0 where
  missing_dependency secrets_missing shares_out_inside_git shares_out_unresolved diff_failed : Error
  dirty_working_tree : List Text → Error
  already_initialised : Text → Error
  head_failed start_failed capture_missing : Error
  drain_failed : StreamError → Error
  script_failed : ℤ → Error
  preserved : Cause → Text → ℕ → Error
  lost : Cause → DumpError → ℕ → Error
  post_commit : LateCause → Error

pub record Env : Type 0 where
  pub see_secrets : List Event → Text → Bool
  pub absolute : List Event → Text → Option Text
  pub is_git_dir : List Event → Text → Bool
  pub diff : List Event → Option (List Text)
  pub annotation : List Event → Option Text
  pub head : List Event → Bool
  pub script : List Event → Option Script
  pub home : List Event → Option Text
  pub file : List Event → FileOp → Reply
  pub encrypt : List Event → ℕ → Text → Bool
  pub decrypt : List Event → Option Text
  pub commit : List Event → Bool → Text → Outcome Text Text
  pub remove_custody : List Event → Text → Bool
  pub pod_list : List Event → Option (List Text)
  pub unseal : List Event → Text → Text → Bool
  pub auth_call : List Event → ControllerAuth.Call → Bool
  pub read_ca : List Event → Option Text
  pub revoke_self : List Event → Text → Bool
  pub decode : Text → Option BaoInitJson

abbrev pub Run : Type 0 → Type 0
Run A = M Event Error A
