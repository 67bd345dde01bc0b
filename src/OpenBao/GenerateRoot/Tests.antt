-- ===== src/OpenBao/GenerateRoot/Tests.antt =====
-- A run of `GenerateRoot`, and instances of the theorems.
use kube_dc_public.Prelude.{◌≡◌, refl, true, false, some, []}
use kube_dc_public.Prelude.Text.{codes}
use kube_dc_public.Prelude.Engine.{err, Each}
use kube_dc_public.OpenBao.Shares.{extract_threshold_shares}
use kube_dc_public.OpenBao.GenerateRoot.{
  Options, Env, generate_root, generate, disclose, revoke_failed,
}
use kube_dc_public.OpenBao.GenerateRoot.Audit.{
  Ended, Guard, generate_root-Guard, generate_root-Ended,
}

-- All goes well but the revocation.
abbrev env : Env
env = record {
  decrypt = λ h path.
      some (codes "OPENBAO_UNSEAL_KEY_1: a\nOPENBAO_UNSEAL_KEY_2: b\nOPENBAO_UNSEAL_KEY_3: c\n");
  generate_root = λ h shares. some (codes "s.root");
  revoke_self = λ h token. false;
  now = λ h. codes "2026-01-01T00:00:00Z";
  write_audit = λ h line. true;
  write_out = λ h token. true;
}

abbrev options : Options
options = record {
  cluster_name = codes "dc1";
  fleet_repo = codes "/fleet";
  has_sops = true;
  has_openbao = true;
  consent = true;
  operator_name = [];
  revoke_immediately = true;
  has_out = true;
  has_audit = true;
}

still_live : (generate_root env options []).0 ≡ err revoke_failed
unfolding generate_root generate disclose extract_threshold_shares
still_live = refl

generate_root-Ended_example :
    Ended options (generate_root env options []).0 (generate_root env options []).1
generate_root-Ended_example = generate_root-Ended env options

generate_root-Guard_example : Each (Guard options) (generate_root env options []).1
generate_root-Guard_example = generate_root-Guard env options
