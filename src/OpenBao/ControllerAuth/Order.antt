-- ===== src/OpenBao/ControllerAuth/Order.antt =====
-- The order of the calls that give the controllers access
-- (cli/internal/bootstrap/openbao/setup_controller_auth.go).
use kube_dc_public.Prelude.{
  ◌≡◌, Bool, true, false, Option, none, some, List, [], ◌∷◌, is_empty, arith,
}
use kube_dc_public.Prelude.Text.{Text}
use kube_dc_public.Prelude.Engine.{Outcome, ok, err, Each, M, ◌>>◌, bind_post}
use kube_dc_public.OpenBao.ControllerAuth.{
  Tier, manager, db_manager, snapshot, RefreshMode, refresh_full, refresh_policy, Call, Stamp,
  enable_auth_path, configure_auth, apply_policy, write_role, set_annotations, SetupError,
  call_failed, ca_unread, ca_missing, Port, make_call, load_ca, enable_and_configure, apply_tier,
  stamps_of, configure_all, setup_controller_auth,
}

-- A run on its own.
pub data Event : Type 0 where
  ca_read : Option Text → Event
  called : Call → Bool → Event

abbrev pub alone : (List Event → Option Text) → (List Event → Call → Bool) → Port Event
alone read_ca call = record { read_ca = read_ca; call = call; ca_read = ca_read; called = called }

-- The newest calls read a CA that is not empty, after the path was enabled.
abbrev pub IsLoaded : Text → List Event → Type 0
IsLoaded ca (ca_read (some c) ∷ called enable_auth_path true ∷ h) = (c ≡ ca) × (is_empty c ≡ false)
IsLoaded ca _ = ⊥

-- In a full run the newest call configured the path; in the other there was no call.
abbrev pub IsConfigured : RefreshMode → List Event → Type 0
IsConfigured refresh_full (called (configure_auth ca) true ∷ h) = Unit {0}
IsConfigured refresh_full _ = ⊥
IsConfigured refresh_policy [] = Unit {0}
IsConfigured refresh_policy _ = ⊥

-- The newest two calls gave this tier its policy and its role; `P` holds of what came before.
abbrev pub IsGiven : Tier → (List Event → Type 0) → List Event → Type 0
IsGiven t P (called (write_role r) true ∷ called (apply_policy p) true ∷ h) =
    (r ≡ t) × (p ≡ t) × P h
IsGiven t P _ = ⊥

abbrev pub AllGiven : RefreshMode → List Event → Type 0
AllGiven mode h = IsGiven snapshot (IsGiven db_manager (IsGiven manager (IsConfigured mode))) h

abbrev pub IsPoliced : Tier → List Event → Type 0
IsPoliced t (called (apply_policy p) true ∷ h) = p ≡ t
IsPoliced t _ = ⊥

abbrev pub Guard : RefreshMode → Event → List Event → Type 0
Guard mode (called (configure_auth ca) r) h = IsLoaded ca h
Guard mode (called (write_role t) r) h = IsPoliced t h
Guard mode (called (set_annotations ss) r) h = AllGiven mode h
Guard mode _ h = Unit {0}

abbrev pub Ended : RefreshMode → Outcome SetupError (Unit {0}) → List Event → Type 0
Ended mode (ok u) (called (set_annotations ss) true ∷ h) = AllGiven mode h
Ended mode (ok u) _ = ⊥
Ended mode (err (call_failed c)) (called d false ∷ h) = d ≡ c
Ended mode (err (call_failed c)) _ = ⊥
Ended mode (err ca_unread) (ca_read none ∷ h) = Unit {0}
Ended mode (err ca_unread) _ = ⊥
Ended mode (err ca_missing) (ca_read (some []) ∷ h) = Unit {0}
Ended mode (err ca_missing) _ = ⊥
Ended mode (err _) h = h ≡ []

-- A step after which `P` holds, or an error.
abbrev Reached :
    RefreshMode → (List Event → Type 0) → Outcome SetupError (Unit {0}) → List Event → Type 0
Reached mode P (ok u) h = Each (Guard mode) h × P h
Reached mode P (err e) h = Each (Guard mode) h × Ended mode (err e) h

abbrev Sound : RefreshMode → Outcome SetupError (Unit {0}) → List Event → Type 0
Sound mode r h = Each (Guard mode) h × Ended mode r h

module _ (read_ca : List Event → Option Text) (call : List Event → Call → Bool)
    (mode : RefreshMode) where
  abbrev port : Port Event
  port = alone read_ca call

  enable_and_configure-Reached :
      Reached mode
        (IsConfigured mode)
        (enable_and_configure port mode []).0
        (enable_and_configure port mode []).1
  unfolding enable_and_configure make_call load_ca
  enable_and_configure-Reached = ground arith

  apply_tier-Reached :
      (t : Tier) (P : List Event → Type 0) (h : List Event)
      → Each (Guard mode) h
      → P h
      → Reached mode (IsGiven t P) (apply_tier port t h).0 (apply_tier port t h).1
  unfolding apply_tier make_call
  apply_tier-Reached t P h g p = ground arith

  make_call-Sound :
      (ss : List Stamp) (h : List Event)
      → Each (Guard mode) h
      → AllGiven mode h
      → Sound mode
          (make_call port (set_annotations ss) h).0
          (make_call port (set_annotations ss) h).1
  unfolding make_call
  make_call-Sound ss h g a = ground arith

  -- A step, and what follows it.
  then :
      (P : List Event → Type 0) (m k : M Event SetupError (Unit {0})) (h : List Event)
      → Reached mode P (m h).0 (m h).1
      → ((h' : List Event) → Each (Guard mode) h' → P h' → Sound mode (k h').0 (k h').1)
      → Sound mode ((m >> k) h).0 ((m >> k) h).1
  then P m k h r n =
      bind_post (Reached mode P) (Sound mode) m (λ u. k) h r (λ u h' s. n h' s.0 s.1) (λ e h' s. s)

  configured-Sound : Sound mode (configure_all port mode []).0 (configure_all port mode []).1
  unfolding configure_all
  configured-Sound =
      let stamp = make_call port (set_annotations (stamps_of port mode)) in
      let third = apply_tier port snapshot >> stamp in
      let second = apply_tier port db_manager >> third in
      let first = apply_tier port manager >> second in
      let C = IsConfigured mode in
      then C (enable_and_configure port mode) first [] enable_and_configure-Reached (λ h g p.
        then (IsGiven manager C) (apply_tier port manager) second h
          (apply_tier-Reached manager C h g p)
          (λ h g p.
            then (IsGiven db_manager (IsGiven manager C)) (apply_tier port db_manager) third h
              (apply_tier-Reached db_manager (IsGiven manager C) h g p)
              (λ h g p.
                then (AllGiven mode) (apply_tier port snapshot) stamp h
                  (apply_tier-Reached snapshot (IsGiven db_manager (IsGiven manager C)) h g p)
                  (λ h g p. make_call-Sound (stamps_of port mode) h g p))))

-- However the systems answer: the path is configured only with a CA that was just read and is not
-- empty; a role is written only right after its policy; the stamps are set only after all three
-- tiers were given policy and role, in order, each call without an error, and in a full run after
-- the path was configured. Success: the stamps were set so. A failed call is the last call made, and
-- is the one the error names; the other errors come before any call, or from the read of the CA.
pub setup_controller_auth-Ended :
    (read_ca : List Event → Option Text) (call : List Event → Call → Bool)
    (has_token has_openbao has_k8s : Bool) (mode : RefreshMode)
    → let run = setup_controller_auth (alone read_ca call) has_token has_openbao has_k8s mode [] in
      Each (Guard mode) run.1 × Ended mode run.0 run.1
unfolding setup_controller_auth
setup_controller_auth-Ended read_ca call has_token has_openbao has_k8s mode =
    ground (arith, configured-Sound read_ca call mode)
