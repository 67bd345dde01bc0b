-- ===== src/OpenBao/Unseal.antt =====
-- cli/internal/bootstrap/openbao/unseal.go, `Unseal`: unsealing the OpenBao pods with the three
-- shares of the file. SOPS and the OpenBao client are the fields of `Env`. Lines printed for the
-- operator are left out, but for the counts of the last one.
pub mod Order
pub mod Success
mod Tests
use kube_dc_public.Prelude.{
  ℕ, ◌+◌, Bool, true, false, not, ◌&&◌, Option, none, some, List, [], ◌∷◌, ◌++◌, is_empty,
  if◌then◌else◌,
}
use kube_dc_public.Prelude.Text.{Text, codes, text_eq}
use kube_dc_public.Prelude.Engine.{Outcome, ok, err, M, return, throw, ◌>>=◌, ◌>>◌, perform}
use kube_dc_public.OpenBao.Shares.{extract_threshold_shares}

-- ports.OpenBaoStatus, the fields that are read.
pub record Status : Type 0 where
  pub initialized : Bool
  pub is_sealed : Bool

pub record Options : Type 0 where
  pub cluster_name : Text
  pub fleet_repo : Text
  pub has_sops : Bool
  pub has_openbao : Bool

pub data Event : Type 0 where
  decrypted : Text → Option Text → Event
  pods_listed : Option (List Text) → Event
  status_read : Text → Option Status → Event
  raft_joined : Text → Text → Bool → Event
  share_applied : Text → Text → Bool → Event

pub data Error : Type 0 where
  missing_dependency decrypt_failed list_failed no_pods : Error
  missing_shares : List ℕ → Error
  status_failed join_failed : Text → Error
  unseal_failed : Text → ℕ → Error

-- A call that fails returns `none` or `false`.
pub record Env : Type 0 where
  pub decrypt : List Event → Text → Option Text
  pub pod_list : List Event → Option (List Text)
  pub status : List Event → Text → Option Status
  pub raft_join : List Event → Text → Text → Bool
  pub unseal : List Event → Text → Text → Bool

-- The pods unsealed now, and those found unsealed.
pub record Counts : Type 0 where
  pub unsealed : ℕ
  pub already_unsealed : ℕ

abbrev pub Run : Type 0 → Type 0
Run A = M Event Error A

pub or_throw : {A : Type 0} → Option A → Error → Run A
or_throw (some a) e = return a
or_throw none e = throw e

pub require : Bool → Error → Run (Unit {0})
require true e = return tt
require false e = throw e

pub validate_options : Options → Run (Unit {0})
unfolding require
validate_options o = do
  require (not (is_empty o.cluster_name)) missing_dependency
  require (not (is_empty o.fleet_repo)) missing_dependency
  require o.has_sops missing_dependency
  require o.has_openbao missing_dependency

-- filepath.Join(repo, "clusters", name, "secrets.enc.yaml"), for parts that it has nothing to clean in.
pub secrets_path : Text → Text → Text
secrets_path repo name = repo ++ (codes "/clusters/" ++ (name ++ codes "/secrets.enc.yaml"))

pub leader_url : Text → Text
leader_url leader = codes "http://" ++ (leader ++ codes ".openbao-internal:8200")

-- The shares of one pod, the first to be applied being number `i`.
pub apply_shares : Env → Text → ℕ → List Text → Run (Unit {0})
unfolding require
apply_shares env pod i [] = return tt
apply_shares env pod i (s ∷ ss) = do
  done ← perform (λ h. env.unseal h pod s) (share_applied pod s)
  require done (unseal_failed pod i)
  apply_shares env pod (i + 1) ss

-- A follower that has not seen the cluster joins it.
pub join_leader : Env → Text → Status → Text → Run (Unit {0})
unfolding require
join_leader env leader st pod =
    if not st.initialized && not (text_eq pod leader)
    then (do
      done ←
          perform (λ h. env.raft_join h pod (leader_url leader))
            (raft_joined pod (leader_url leader))
      require done (join_failed pod))
    else return tt

pub unseal_sealed : Env → List Text → Text → Text → Status → Run Bool
unseal_sealed env shares leader pod st = do
  join_leader env leader st pod
  apply_shares env pod 1 shares
  return true

-- One pod: whether it had to be unsealed.
pub unseal_pod : Env → List Text → Text → Text → Run Bool
unfolding or_throw
unseal_pod env shares leader pod = do
  r ← perform (λ h. env.status h pod) (status_read pod)
  st ← or_throw r (status_failed pod)
  if st.is_sealed then unseal_sealed env shares leader pod st else return false

pub count_pod : Bool → Counts → Counts
count_pod true c = record c { unsealed = c.unsealed + 1 }
count_pod false c = record c { already_unsealed = c.already_unsealed + 1 }

pub unseal_pods : Env → List Text → Text → List Text → Counts → Run Counts
unseal_pods env shares leader [] c = return c
unseal_pods env shares leader (pod ∷ pods) c = do
  sealed ← unseal_pod env shares leader pod
  unseal_pods env shares leader pods (count_pod sealed c)

pub read_shares : {A : Type 0} → Outcome (List ℕ) A → Run A
read_shares (ok a) = return a
read_shares (err js) = throw (missing_shares js)

-- What is read before the pods are visited.
pub gather : Env → Options → Run (List Text × List Text)
unfolding validate_options or_throw read_shares secrets_path
gather env o = do
  validate_options o
  d ←
      perform (λ h. env.decrypt h (secrets_path o.fleet_repo o.cluster_name))
        (decrypted (secrets_path o.fleet_repo o.cluster_name))
  file ← or_throw d decrypt_failed
  shares ← read_shares (extract_threshold_shares file)
  p ← perform env.pod_list pods_listed
  pods ← or_throw p list_failed
  return (shares, pods)

pub visit : Env → List Text × List Text → Run Counts
visit env (shares, []) = throw no_pods
visit env (shares, leader ∷ pods) =
    unseal_pods env shares leader (leader ∷ pods) (record { unsealed = 0; already_unsealed = 0 })

pub unseal_all : Env → Options → Run Counts
unfolding gather visit
unseal_all env o = do got ← gather env o; visit env got
