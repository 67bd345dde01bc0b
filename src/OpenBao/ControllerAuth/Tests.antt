-- ===== src/OpenBao/ControllerAuth/Tests.antt =====
-- A run in which the CA is there and each call succeeds but the last role.
use kube_dc_public.Prelude.{◌≡◌, refl, Bool, true, false, some, List, []}
use kube_dc_public.Prelude.Text.{codes}
use kube_dc_public.Prelude.Engine.{Outcome, err, Each}
use kube_dc_public.OpenBao.ControllerAuth.{
  SetupError, snapshot, refresh_full, Call, write_role, call_failed, make_call, load_ca,
  enable_and_configure, apply_tier, stamps_of, configure_all, setup_controller_auth,
}
use kube_dc_public.OpenBao.ControllerAuth.Order.{
  Event, alone, Guard, Ended, setup_controller_auth-Ended,
}

abbrev answer : List Event → Call → Bool
answer h (write_role snapshot) = false
answer h _ = true

abbrev run : Outcome SetupError (Unit {0}) × List Event
run = setup_controller_auth (alone (λ h. some (codes "ca")) answer) true true true refresh_full []

not_stamped : run.0 ≡ err (call_failed (write_role snapshot))
unfolding setup_controller_auth configure_all make_call load_ca enable_and_configure apply_tier
    stamps_of
not_stamped = refl

setup_controller_auth-Ended_example :
    Each (Guard refresh_full) run.1 × Ended refresh_full run.0 run.1
setup_controller_auth-Ended_example =
    setup_controller_auth-Ended (λ h. some (codes "ca")) answer true true true refresh_full
