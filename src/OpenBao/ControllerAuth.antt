-- ===== src/OpenBao/ControllerAuth.antt =====
-- cli/internal/bootstrap/openbao/setup_controller_auth.go: the policies and roles of the controllers.
-- The calls go through a `Port`, so that other procedures can run this one among their own calls.
-- The texts of the policies and the parameters of the roles are constants of the program, left out.
pub mod Frame
pub mod Order
mod Tests
use kube_dc_public.Prelude.{
  Bool, true, false, not, Option, none, some, List, [], ◌∷◌, is_empty, if◌then◌else◌,
}
use kube_dc_public.Prelude.Text.{Text}
use kube_dc_public.Prelude.Engine.{
  Outcome, ok, err, M, return, throw, ◌>>=◌, ◌>>◌, perform, demand, unwrap,
}

-- The manager, the database manager and the snapshot job.
pub data Tier : Type 0 where
  manager db_manager snapshot : Tier

pub data RefreshMode : Type 0 where
  refresh_full refresh_policy : RefreshMode

pub data Stamp : Type 0 where
  policy_generation controller_auth_installed bootstrap_finalized : Stamp

pub data Call : Type 0 where
  enable_auth_path : Call
  configure_auth : Text → Call
  apply_policy write_role : Tier → Call
  set_annotations : List Stamp → Call

pub data SetupError : Type 0 where
  empty_token no_client ca_unread ca_missing : SetupError
  call_failed : Call → SetupError

-- How a procedure with histories of `E` reads the CA and makes the calls, and what it enters.
pub record Port (E : Type 0) : Type 0 where
  pub read_ca : List E → Option Text
  pub call : List E → Call → Bool
  pub ca_read : Option Text → E
  pub called : Call → Bool → E

module _ {E : Type 0} (port : Port E) where
  pub make_call : Call → M E SetupError (Unit {0})
  make_call c = do r ← perform (λ h. port.call h c) (port.called c); demand r (call_failed c)

  pub load_ca : M E SetupError Text
  load_ca = do
    r ← perform port.read_ca port.ca_read
    ca ← unwrap r ca_unread
    demand (not (is_empty ca)) ca_missing
    return ca

  pub enable_and_configure : RefreshMode → M E SetupError (Unit {0})
  unfolding make_call load_ca
  enable_and_configure refresh_policy = return tt
  enable_and_configure refresh_full = do
    make_call enable_auth_path
    ca ← load_ca
    make_call (configure_auth ca)

  pub apply_tier : Tier → M E SetupError (Unit {0})
  unfolding make_call
  apply_tier t = do make_call (apply_policy t); make_call (write_role t)

  pub stamps_of : RefreshMode → List Stamp
  stamps_of refresh_full = policy_generation ∷ controller_auth_installed ∷ []
  stamps_of refresh_policy = policy_generation ∷ []

  -- The steps, when the options are complete.
  pub configure_all : RefreshMode → M E SetupError (Unit {0})
  unfolding apply_tier stamps_of make_call
  configure_all mode = do
    enable_and_configure mode
    apply_tier manager
    apply_tier db_manager
    apply_tier snapshot
    make_call (set_annotations (stamps_of mode))

  -- The token is given by whether it is empty, the clients by their tests against nil.
  pub setup_controller_auth : Bool → Bool → Bool → RefreshMode → M E SetupError (Unit {0})
  setup_controller_auth has_token has_openbao has_k8s mode = do
    demand has_token empty_token
    demand has_openbao no_client
    demand has_k8s no_client
    configure_all mode
