-- ===== src/OpenBao/Reveal/Tests.antt =====
-- A run of `RevealShares`, and an instance of the theorem.
use kube_dc_public.Prelude.{◌≡◌, refl, true, some, []}
use kube_dc_public.Prelude.Text.{codes}
use kube_dc_public.Prelude.Engine.{ok}
use kube_dc_public.OpenBao.Shares.{extract_all_shares}
use kube_dc_public.OpenBao.Reveal.{Options, Env, reveal_shares, prepare, disclose}
use kube_dc_public.OpenBao.Reveal.Audit.{Ended, reveal_shares-Ended}

abbrev env : Env
env = record {
  decrypt = λ h path. some (
      codes
        "OPENBAO_UNSEAL_KEY_1: a\nOPENBAO_UNSEAL_KEY_2: b\nOPENBAO_UNSEAL_KEY_3: c\nOPENBAO_UNSEAL_KEY_4: d\nOPENBAO_UNSEAL_KEY_5: e\n");
  now = λ h. codes "2026-01-01T00:00:00Z";
  write_audit = λ h cluster stamp operator. true;
  write_out = λ h line. true;
}

abbrev options : Options
options = record {
  cluster_name = codes "dc1";
  fleet_repo = codes "/fleet";
  has_sops = true;
  consent = true;
  operator_name = codes "ann";
  has_out = true;
  has_audit = true;
}

all_revealed : (reveal_shares env options []).0 ≡ ok tt
unfolding reveal_shares prepare disclose extract_all_shares
all_revealed = refl

reveal_shares-Ended_example :
    Ended options (reveal_shares env options []).0 (reveal_shares env options []).1
reveal_shares-Ended_example = reveal_shares-Ended env options
