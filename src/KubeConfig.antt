-- ===== src/KubeConfig.antt =====
-- The kubeconfig that the command line keeps for kubectl (cli/internal/kubeconfig/manager.go): its
-- entries, and what each operation of the manager makes of them.
pub mod Ended
pub mod Entries
pub mod File
pub mod Calls
pub mod Current
pub mod Closed
pub mod Frame
pub mod Tests
use kube_dc_public.Prelude.{
  ℕ, Bool, true, false, not, ◌&&◌, Option, none, some, List, [], ◌∷◌, ◌++◌, any, if◌then◌else◌,
}
use kube_dc_public.Prelude.Text.{Text, codes, text_eq, has_prefix}

pub record Cluster : Type 0 where
  pub server : Text
  pub certificate_authority_data : Text
  pub insecure_skip_tls_verify : Bool

pub record Context : Type 0 where
  pub cluster : Text
  pub user : Text
  pub namespace : Text

pub record ExecConfig : Type 0 where
  pub api_version : Text
  pub command : Text
  pub args : List Text
  pub interactive_mode : Text

-- A user has an exec plugin or none.
pub record User : Type 0 where
  pub exec : Option ExecConfig

-- An entry of one of the three lists.
pub record Named (A : Type 0) : Type 0 where
  pub name : Text
  pub body : A

-- The preferences are the text of their YAML.
pub record Config : Type 0 where
  pub api_version : Text
  pub kind : Text
  pub current_context : Text
  pub clusters : List (Named Cluster)
  pub contexts : List (Named Context)
  pub users : List (Named User)
  pub preferences : Text

pub record AddContextParams : Type 0 where
  pub server : Text
  pub cluster_name : Text
  pub user_name : Text
  pub context_name : Text
  pub namespace : Text
  pub ca_cert : Text
  pub insecure : Bool
  pub set_current : Bool
  pub realm : Text

unfoldable pub empty_config : Config
empty_config = record {
  api_version = codes "v1";
  kind = codes "Config";
  current_context = [];
  clusters = [];
  contexts = [];
  users = [];
  preferences = [];
}

-- The loop that updates the first entry with a name, and the append when it found none.
unfoldable pub put : {A : Type 0} → Text → A → List (Named A) → List (Named A)
put n a [] = record { name = n; body = a } ∷ []
put n a (e ∷ es) =
    let rest = put n a es in if text_eq e.name n then record e { body = a } ∷ es else e ∷ rest

-- Whether an entry has a name.
unfoldable pub named : {A : Type 0} → Text → List (Named A) → Bool
named n [] = false
named n (e ∷ es) = if text_eq e.name n then true else named n es

-- The loop that keeps the entries with another name.
unfoldable pub without : {A : Type 0} → Text → List (Named A) → List (Named A)
without n [] = []
without n (e ∷ es) = if text_eq e.name n then without n es else e ∷ without n es

-- No CA certificate beside the waiver of verification. `encode` is the base64 encoding.
unfoldable pub new_cluster : (Text → Text) → AddContextParams → Cluster
new_cluster encode p = record {
  server = p.server;
  certificate_authority_data =
      if not (text_eq p.ca_cert []) && not p.insecure then encode p.ca_cert else [];
  insecure_skip_tls_verify = p.insecure;
}

unfoldable pub exec_args : AddContextParams → List Text
exec_args p =
    let args = codes "credential" ∷ codes "--server" ∷ p.server ∷ [] in
    if text_eq p.realm [] then args else args ++ (codes "--realm" ∷ p.realm ∷ [])

unfoldable pub new_user : AddContextParams → User
unfolding exec_args
new_user p = record {
  exec = some (record {
    api_version = codes "client.authentication.k8s.io/v1";
    command = codes "kube-dc";
    args = exec_args p;
    interactive_mode = codes "IfAvailable";
  });
}

unfoldable pub new_context : AddContextParams → Context
new_context p = record { cluster = p.cluster_name; user = p.user_name; namespace = p.namespace }

-- AddKubeDCContext, between its load and its save.
unfoldable pub add_context : (Text → Text) → AddContextParams → Config → Config
unfolding put new_cluster new_user new_context
add_context encode p c = record c {
  clusters = put p.cluster_name (new_cluster encode p) c.clusters;
  users = put p.user_name (new_user p) c.users;
  contexts = put p.context_name (new_context p) c.contexts;
  current_context = if p.set_current then p.context_name else c.current_context;
}

-- What the last context with the name refers to.
unfoldable pub victim_of : Text → List (Named Context) → Option Context
victim_of name [] = none
victim_of name (e ∷ es) =
    let rest = victim_of name es in
    elim rest [ some v ↦ some v | none ↦ if text_eq e.name name then some e.body else none ]

unfoldable pub cluster_still_referenced : Text → List (Named Context) → Bool
cluster_still_referenced n [] = false
cluster_still_referenced n (e ∷ es) =
    if text_eq e.body.cluster n then true else cluster_still_referenced n es

unfoldable pub user_still_referenced : Text → List (Named Context) → Bool
user_still_referenced n [] = false
user_still_referenced n (e ∷ es) =
    if text_eq e.body.user n then true else user_still_referenced n es

-- The entries that are left when one has lost a context that referred to it.
unfoldable pub collect : {A : Type 0} → Text → Bool → List (Named A) → List (Named A)
unfolding without
collect n referenced es = if not (text_eq n []) && not referenced then without n es else es

unfoldable pub drop_context : Text → Context → Config → Config
unfolding without collect cluster_still_referenced user_still_referenced
drop_context name v c =
    let left = without name c.contexts in
    record c {
      contexts = left;
      clusters = collect v.cluster (cluster_still_referenced v.cluster left) c.clusters;
      users = collect v.user (user_still_referenced v.user left) c.users;
      current_context = if text_eq c.current_context name then [] else c.current_context;
    }

-- RemoveContext, between its load and its save; none: there is no such context, and no save.
unfoldable pub remove_context : Text → Config → Option Config
unfolding victim_of drop_context
remove_context name c = elim (victim_of name c.contexts) [
  | none ↦ none
  | some v ↦ some (drop_context name v c)
]

-- The loops of RemoveKubeDCContexts.
unfoldable pub clusters_left : Text → List (Named Cluster) → List (Named Cluster)
clusters_left server [] = []
clusters_left server (e ∷ es) =
    if text_eq e.body.server server && has_prefix (codes "kube-dc-") e.name
    then clusters_left server es
    else e ∷ clusters_left server es

unfoldable pub unprefixed : {A : Type 0} → Text → List (Named A) → List (Named A)
unprefixed p [] = []
unprefixed p (e ∷ es) = if has_prefix p e.name then unprefixed p es else e ∷ unprefixed p es

unfoldable pub first_name : List (Named Context) → Text
first_name [] = []
first_name (e ∷ es) = e.name

-- RemoveKubeDCContexts, between its load and its save.
unfoldable pub remove_server : Text → Config → Config
unfolding clusters_left unprefixed first_name
remove_server server c =
    let left = unprefixed (codes "kube-dc/") c.contexts in
    record c {
      clusters = clusters_left server c.clusters;
      users = unprefixed (codes "kube-dc@") c.users;
      contexts = left;
      current_context =
          if has_prefix (codes "kube-dc/") c.current_context
          then first_name left
          else c.current_context;
    }

-- SetCurrentContext; none: there is no such context.
unfoldable pub set_current_context : Text → Config → Option Config
unfolding named
set_current_context name c =
    if named name c.contexts then some (record c { current_context = name }) else none

-- The loop of SetNamespace; none: no context has the name.
unfoldable pub renamespace : Text → Text → List (Named Context) → Option (List (Named Context))
renamespace name ns [] = none
renamespace name ns (e ∷ es) =
    let rest = renamespace name ns es in
    if text_eq e.name name
    then some (record e { body = record e.body { namespace = ns } } ∷ es)
    else elim rest [ none ↦ none | some r ↦ some (e ∷ r) ]

-- SetNamespace; none: there is no current context.
unfoldable pub set_namespace : Text → Config → Option Config
unfolding renamespace
set_namespace ns c = elim (renamespace c.current_context ns c.contexts) [
  | none ↦ none
  | some contexts ↦ some (record c { contexts = contexts })
]

-- ListKubeDCContexts, behind its load.
unfoldable pub kube_dc_contexts : List (Named Context) → List (Named Context)
kube_dc_contexts [] = []
kube_dc_contexts (e ∷ es) =
    if has_prefix (codes "kube-dc/") e.name then e ∷ kube_dc_contexts es else kube_dc_contexts es
