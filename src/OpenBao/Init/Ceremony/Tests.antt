-- ===== src/OpenBao/Init/Ceremony/Tests.antt =====
-- Runs of `init`, and instances of the theorems.
use kube_dc_public.Prelude.{Bool, true, false, if◌then◌else◌, none, some, [], ◌∷◌}
use kube_dc_public.Prelude.Text.{codes}
use kube_dc_public.Prelude.Engine.{ok, err, Each}
use kube_dc_public.Drain.{exit}
use kube_dc_public.OpenBao.Init.{Options, done, BaoInitJson, Env}
use kube_dc_public.OpenBao.Init.Ceremony.{init}
use kube_dc_public.OpenBao.Init.Guard.{Guard}
use kube_dc_public.OpenBao.Init.Ceremony.Ends.{Ended, OfRun, init-Guard, init-Ended}
use kube_dc_public.OpenBao.Init.Capture.{capture}
use kube_dc_public.OpenBao.Init.Keep.Keys.{Carried, capture-Carried}

abbrev payload : BaoInitJson
payload = record {
  unseal_keys = codes "s1" ∷ codes "s2" ∷ codes "s3" ∷ codes "s4" ∷ codes "s5" ∷ [];
  root_token = codes "hvs.root";
}

-- All goes well; the push is refused if `push` is false.
abbrev env : Bool → Env
env push = record {
  see_secrets = λ h path. true;
  absolute = λ h path. some path;
  is_git_dir = λ h path. false;
  diff = λ h. some [];
  annotation = λ h. none;
  head = λ h. true;
  script = λ h. some (record {
    payloads = codes "{}" ∷ [];
    lines = record { stream = exit; text = codes "0" } ∷ [];
  });
  home = λ h. some (codes "/home/op");
  file = λ h op. done;
  encrypt = λ h i s. true;
  decrypt = λ h. some (codes "s1 s2 s3 s4 s5");
  commit = λ h no_push message. if push then ok (codes "abc") else err (codes "abc");
  remove_custody = λ h path. true;
  pod_list = λ h. some (codes "openbao-0" ∷ []);
  unseal = λ h pod s. true;
  auth_call = λ h c. true;
  read_ca = λ h. some (codes "ca");
  revoke_self = λ h token. true;
  decode = λ text. some payload;
}

abbrev options : Options
options = record {
  cluster_name = codes "dc1";
  fleet_repo = codes "/fleet";
  has_runner = true;
  has_sops = true;
  has_git = true;
  has_openbao = true;
  has_k8s = true;
  skip_controller_auth = false;
  no_push = false;
  shares_out_path = [];
}

init-Guard_example : Each Guard (init (env true) options []).1
init-Guard_example = init-Guard (env true) options

init-Ended_example :
    Ended options.cluster_name
      (OfRun (env false) options)
      (init (env false) options []).0
      (init (env false) options []).1
init-Ended_example = init-Ended (env false) options

capture-Carried_example :
    Carried (env true) [] (capture (env true) options []).0 (capture (env true) options []).1
capture-Carried_example = capture-Carried (env true) options []
