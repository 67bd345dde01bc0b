-- ===== src/OpenBao/Unseal/Tests.antt =====
-- Runs of `Unseal` on a small cluster, and instances of the theorems.
use kube_dc_public.Prelude.{◌≡◌, refl, true, some, [], ◌∷◌}
use kube_dc_public.Prelude.Text.{Text, codes, text_eq}
use kube_dc_public.Prelude.Engine.{ok, Each}
use kube_dc_public.OpenBao.Shares.{extract_threshold_shares}
use kube_dc_public.OpenBao.Unseal.{
  Options, Env, unseal_all, unseal_pods, unseal_pod, unseal_sealed, join_leader, apply_shares,
  count_pod,
}
use kube_dc_public.OpenBao.Unseal.Order.{Guard, unseal_all-Guard}
use kube_dc_public.OpenBao.Unseal.Success.{Unsealed, unseal_all-Unsealed}

abbrev file : Text
file = codes "OPENBAO_UNSEAL_KEY_1: a\nOPENBAO_UNSEAL_KEY_2: b\nOPENBAO_UNSEAL_KEY_3: c\n"

-- Two sealed pods, the second of which has not joined the first.
abbrev env : Env
env = record {
  decrypt = λ h path. some file;
  pod_list = λ h. some (codes "openbao-0" ∷ codes "openbao-1" ∷ []);
  status =
      λ h pod. some (record { initialized = text_eq pod (codes "openbao-0"); is_sealed = true });
  raft_join = λ h pod url. true;
  unseal = λ h pod share. true;
}

abbrev options : Options
options = record {
  cluster_name = codes "dc1";
  fleet_repo = codes "/fleet";
  has_sops = true;
  has_openbao = true;
}

both_unsealed : (unseal_all env options []).0 ≡ ok (record { unsealed = 2; already_unsealed = 0 })
unfolding unseal_all unseal_pods unseal_pod unseal_sealed join_leader apply_shares count_pod
    extract_threshold_shares text_eq
both_unsealed = refl

unseal_all-Guard_example : Each Guard (unseal_all env options []).1
unseal_all-Guard_example = unseal_all-Guard env options

unseal_all-Unsealed_example :
    Unsealed options (record { unsealed = 2; already_unsealed = 0 }) (unseal_all env options []).1
unseal_all-Unsealed_example =
    unseal_all-Unsealed env options (record { unsealed = 2; already_unsealed = 0 }) both_unsealed
