-- ===== src/OpenBao/ControllerAuth/Frame.antt =====
-- What the set-up of the controllers' access leaves alone
-- (cli/internal/bootstrap/openbao/setup_controller_auth.go).
use kube_dc_public.Prelude.{Bool, true, false, not, Option, none, some, List, ◌∷◌, is_empty}
use kube_dc_public.Prelude.Text.{Text}
use kube_dc_public.Prelude.Engine.{M, return, ◌>>=◌, ◌>>◌, demand, unwrap, bind_post}
use kube_dc_public.OpenBao.ControllerAuth.{
  Tier, manager, db_manager, snapshot, RefreshMode, refresh_full, refresh_policy, Call,
  enable_auth_path, configure_auth, apply_policy, write_role, set_annotations, SetupError,
  empty_token, no_client, ca_missing, ca_unread, call_failed, Port, make_call, load_ca,
  enable_and_configure, apply_tier, stamps_of, configure_all, setup_controller_auth,
}

-- `P` holds whatever the port enters.
module _ {E : Type 0} (port : Port E) (P : List E → Type 0)
    (after_ca : (r : Option Text) (h : List E) → P h → P (port.ca_read r ∷ h))
    (after_call : (c : Call) (r : Bool) (h : List E) → P h → P (port.called c r ∷ h)) where
  abbrev Keeps : {A : Type 0} → M E SetupError A → Type 0
  Keeps m = (h : List E) → P h → P (m h).1

  bind-Keeps :
      {A B : Type 0} (m : M E SetupError A) (f : A → M E SetupError B)
      → Keeps m
      → ((a : A) → Keeps (f a))
      → Keeps (m >>= f)
  bind-Keeps m f k l h p =
      bind_post (λ r h'. P h') (λ r h'. P h') m f h (k h p) (λ a h' q. l a h' q) (λ x h' q. q)

  demand-Keeps : (b : Bool) (x : SetupError) → Keeps (demand b x)
  demand-Keeps true x h p = p
  demand-Keeps false x h p = p

  unwrap-Keeps : {A : Type 0} (a : Option A) (x : SetupError) → Keeps (unwrap a x)
  unwrap-Keeps (some a) x h p = p
  unwrap-Keeps none x h p = p

  make_call-Keeps : (c : Call) → Keeps (make_call port c)
  unfolding make_call
  make_call-Keeps c h p =
      demand-Keeps (port.call h c) (call_failed c) (port.called c (port.call h c) ∷ h)
        (after_call c (port.call h c) h p)

  load_ca-Keeps : Keeps (load_ca port)
  unfolding load_ca
  load_ca-Keeps h p =
      let checked = λ (ca : Text). demand {E = E} (not (is_empty ca)) ca_missing >> return ca in
      bind-Keeps (unwrap (port.read_ca h) ca_unread) checked
        (unwrap-Keeps (port.read_ca h) ca_unread)
        (λ ca.
          bind-Keeps (demand (not (is_empty ca)) ca_missing) (λ u. return ca)
            (demand-Keeps (not (is_empty ca)) ca_missing) (λ u h' q. q))
        (port.ca_read (port.read_ca h) ∷ h) (after_ca (port.read_ca h) h p)

  enable_and_configure-Keeps : (mode : RefreshMode) → Keeps (enable_and_configure port mode)
  unfolding enable_and_configure
  enable_and_configure-Keeps refresh_policy = λ h p. p
  enable_and_configure-Keeps refresh_full =
      bind-Keeps (make_call port enable_auth_path)
        (λ u. load_ca port >>= λ ca. make_call port (configure_auth ca))
        (make_call-Keeps enable_auth_path)
        (λ u.
          bind-Keeps (load_ca port) (λ ca. make_call port (configure_auth ca)) load_ca-Keeps
            (λ ca. make_call-Keeps (configure_auth ca)))

  apply_tier-Keeps : (t : Tier) → Keeps (apply_tier port t)
  unfolding apply_tier
  apply_tier-Keeps t =
      bind-Keeps (make_call port (apply_policy t)) (λ u. make_call port (write_role t))
        (make_call-Keeps (apply_policy t)) (λ u. make_call-Keeps (write_role t))

  configure_all-Keeps : (mode : RefreshMode) → Keeps (configure_all port mode)
  unfolding configure_all
  configure_all-Keeps mode =
      let stamp = make_call port (set_annotations (stamps_of port mode)) in
      let third = apply_tier port snapshot >> stamp in
      let second = apply_tier port db_manager >> third in
      let first = apply_tier port manager >> second in
      bind-Keeps (enable_and_configure port mode) (λ u. first) (enable_and_configure-Keeps mode)
        (λ u.
          bind-Keeps (apply_tier port manager) (λ u. second) (apply_tier-Keeps manager)
            (λ u.
              bind-Keeps (apply_tier port db_manager) (λ u. third) (apply_tier-Keeps db_manager)
                (λ u.
                  bind-Keeps (apply_tier port snapshot) (λ u. stamp) (apply_tier-Keeps snapshot)
                    (λ u. make_call-Keeps (set_annotations (stamps_of port mode))))))

  pub setup_controller_auth-Keeps :
      (has_token has_openbao has_k8s : Bool) (mode : RefreshMode) (h : List E)
      → P h
      → P (setup_controller_auth port has_token has_openbao has_k8s mode h).1
  unfolding setup_controller_auth
  setup_controller_auth-Keeps a b c mode =
      bind-Keeps (demand a empty_token)
        (λ u. demand b no_client >> (demand c no_client >> configure_all port mode))
        (demand-Keeps a empty_token)
        (λ u.
          bind-Keeps (demand b no_client) (λ u. demand c no_client >> configure_all port mode)
            (demand-Keeps b no_client)
            (λ u.
              bind-Keeps (demand c no_client) (λ u. configure_all port mode)
                (demand-Keeps c no_client) (λ u. configure_all-Keeps mode)))
