-- ===== src/KubeConfig/Tests.antt =====
-- A kubeconfig with the entries of two clusters and one of another's, and runs of the manager
-- (cli/internal/kubeconfig/manager.go).
use kube_dc_public.Prelude.{
  ◌≡◌, refl, if◌then◌else◌, inr, true, false, Option, none, some, List, [], ◌∷◌, arith,
}
use native.Mathlib.Decide.{ℕ_discrete}
use kube_dc_public.Prelude.Text.{Text, codes, text_eq, has_prefix}
use kube_dc_public.KubeConfig.{
  Config, Named, AddContextParams, put, named, without, collect, cluster_still_referenced,
  user_still_referenced, new_cluster, new_user, new_context, exec_args, add_context, victim_of,
  drop_context, remove_context, clusters_left, unprefixed, first_name, remove_server,
}
use kube_dc_public.KubeConfig.File.{Disk, Yaml, IsDisk, IsYaml, content}
use kube_dc_public.KubeConfig.Calls.{added, removed, change, step}
use kube_dc_public.KubeConfig.Current.{IsCurrent, step-IsCurrent}
use kube_dc_public.KubeConfig.Closed.{IsClosed, step-IsClosed}
use kube_dc_public.KubeConfig.Frame.{IsFresh, remove_context-add_context}
use kube_dc_public.KubeConfig.Ended.{IsEnded, call, call-IsEnded}

abbrev encode : Text → Text
encode t = 0 ∷ t

abbrev cloud : AddContextParams
cloud = record {
  server = codes "https://cloud:6443";
  cluster_name = codes "kube-dc-cloud";
  user_name = codes "kube-dc@cloud";
  context_name = codes "kube-dc/cloud/org";
  namespace = codes "org-dev";
  ca_cert = codes "PEM";
  insecure = false;
  set_current = true;
  realm = codes "org";
}

abbrev stage : AddContextParams
stage = record cloud {
  server = codes "https://stage:6443";
  cluster_name = codes "kube-dc-stage";
  user_name = codes "kube-dc@stage";
  context_name = codes "kube-dc/stage/org";
  set_current = false;
}

abbrev own : Config
own = record {
  api_version = codes "v1";
  kind = codes "Config";
  current_context = codes "own";
  clusters =
      record {
        name = codes "own";
        body = record {
          server = codes "https://own";
          certificate_authority_data = [];
          insecure_skip_tls_verify = false;
        };
      }
      ∷ [];
  contexts =
      record {
        name = codes "own";
        body = record { cluster = codes "own"; user = codes "own"; namespace = [] };
      }
      ∷ [];
  users = record { name = codes "own"; body = record { exec = none } } ∷ [];
  preferences = [];
}

abbrev both : Config
both = add_context encode stage (add_context encode cloud own)

abbrev map_names : {A : Type 0} → List (Named A) → List Text
map_names [] = []
map_names (e ∷ es) = e.name ∷ map_names es

-- The removal for one server takes the contexts and the users of the other, and leaves its cluster.
remove_server_all :
    let c = remove_server (codes "https://cloud:6443") both in
    (map_names c.contexts ≡ codes "own" ∷ [])
    × (map_names c.users ≡ codes "own" ∷ [])
    × (map_names c.clusters ≡ codes "own" ∷ codes "kube-dc-stage" ∷ [])
    × (c.current_context ≡ codes "own")
unfolding remove_server clusters_left unprefixed first_name add_context put text_eq has_prefix
    new_cluster new_user new_context exec_args
remove_server_all = (refl, refl, refl, refl)

-- The removal of the context of one cluster takes that cluster and its user only.
remove_one :
    remove_context (codes "kube-dc/cloud/org") both
    ≡ some (record (add_context encode stage own) { current_context = [] })
unfolding remove_context drop_context victim_of collect without cluster_still_referenced
    user_still_referenced add_context put text_eq has_prefix new_cluster new_user new_context
    exec_args
remove_one = refl

own-IsCurrent : IsCurrent own
unfolding named text_eq
own-IsCurrent = inr refl

own-IsClosed : IsClosed own
unfolding named text_eq
own-IsClosed = ((refl, refl), tt)

step-IsCurrent_example : IsCurrent (step encode (added cloud) own)
step-IsCurrent_example = step-IsCurrent encode (added cloud) own own-IsCurrent

step-IsClosed_example : IsClosed (step encode (removed (codes "own")) own)
step-IsClosed_example = step-IsClosed encode (removed (codes "own")) own tt own-IsClosed

cloud-IsFresh : IsFresh cloud own
unfolding named text_eq cluster_still_referenced user_still_referenced
cloud-IsFresh = record {
  new_context_name = refl;
  new_cluster_name = refl;
  new_user_name = refl;
  some_cluster = refl;
  some_user = refl;
  unused_cluster = refl;
  unused_user = refl;
  not_current = refl;
}

remove_context-add_context_example :
    remove_context cloud.context_name (add_context encode cloud own)
    ≡ some (record own { current_context = if cloud.set_current then [] else own.current_context })
remove_context-add_context_example = remove_context-add_context encode cloud own cloud-IsFresh

-- A disk that always writes, and a YAML library that knows the text of two configurations.
abbrev disk : Disk Text
disk = record { read = λ d. content d; write = λ t d. (true, t) }

disk-IsDisk : IsDisk disk
disk-IsDisk = record { read_back = λ t d h. refl }

Config-discrete : Discrete Config
Config-discrete = hlevel (ℕ_discrete)

abbrev printed : {c : Config} → Dec (c ≡ both) → Option Text
printed (yes p) = some (1 ∷ [])
printed (no p) = none

abbrev parsed : Text → Option Config
parsed [] = some (add_context encode cloud own)
parsed (_ ∷ t) = some both

abbrev yaml : Yaml
yaml = record { parse = parsed; print = λ c. printed (Config-discrete c both) }

parse-printed :
    (c : Config) (t : Text) (d : Dec (c ≡ both)) → printed d ≡ some t → parsed t ≡ some c
parse-printed c t (yes p) h = rw p (ground arith)
parse-printed c t (no p) h = absurd (ground arith)

yaml-IsYaml : IsYaml yaml
yaml-IsYaml = record { parse_back = λ c t h. parse-printed c t (Config-discrete c both) h }

call-IsEnded_example :
    IsEnded disk yaml encode
      (change encode (added stage))
      []
      (call disk yaml encode (added stage) []).0
      (call disk yaml encode (added stage) []).1
call-IsEnded_example = call-IsEnded disk yaml encode disk-IsDisk yaml-IsYaml (added stage) []
