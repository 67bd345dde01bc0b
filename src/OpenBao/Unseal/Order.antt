-- ===== src/OpenBao/Unseal/Order.antt =====
-- The calls of `Unseal` (cli/internal/bootstrap/openbao/unseal.go).
use kube_dc_public.Prelude.{
  ℕ, ◌+◌, ◌≡◌, ◌≢◌, true, false, Option, some, List, [], ◌∷◌, arith, ◌⊎◌, inl, inr, Option-cases,
}
use kube_dc_public.Prelude.Text.{Text, text_eq→eq, text_eq_refl}
use kube_dc_public.Prelude.Engine.{bind_post, Outcome, ok, err, Each, ◌>>◌, return}
use kube_dc_public.OpenBao.Unseal.{
  Status, Options, Event, pods_listed, status_read, raft_joined, share_applied, Error, Env, Counts,
  leader_url, apply_shares, join_leader, unseal_sealed, unseal_pod, unseal_pods, count_pod, gather,
  visit, unseal_all,
}

-- The pod that a list of pods puts first.
abbrev leader_in : Option (List Text) → Text
leader_in (some (l ∷ ps)) = l
leader_in _ = []

abbrev pub leader_of : List Event → Text
leader_of [] = []
leader_of (pods_listed r ∷ h) = leader_in r
leader_of (_ ∷ h) = leader_of h

-- The pod was just seen sealed; it is the leader, or initialised, or has just joined the leader;
-- and nothing but shares applied to it with success has come since.
abbrev pub IsReady : Text → List Event → Type 0
IsReady p [] = ⊥
IsReady p (status_read q (some st) ∷ h) =
    (q ≡ p) × (st.is_sealed ≡ true) × ((st.initialized ≡ true) ⊎ (p ≡ leader_of h))
IsReady p (raft_joined q url r ∷ h) = (q ≡ p) × (r ≡ true)
IsReady p (share_applied q s r ∷ h) = (q ≡ p) × (r ≡ true) × IsReady p h
IsReady p (_ ∷ h) = ⊥

-- The pod was just seen sealed and not initialised.
abbrev pub IsEmptyPod : Text → List Event → Type 0
IsEmptyPod p (status_read q (some st) ∷ h) =
    (q ≡ p) × (st.is_sealed ≡ true) × (st.initialized ≡ false)
IsEmptyPod p _ = ⊥

-- What must hold when a call is made.
abbrev pub Guard : Event → List Event → Type 0
Guard (share_applied p s r) h = IsReady p h
Guard (raft_joined p url r) h =
    IsEmptyPod p h × (p ≢ leader_of h) × (url ≡ leader_url (leader_of h))
Guard _ h = Unit {0}

abbrev Kept : {A : Type 0} → Text → Outcome Error A → List Event → Type 0
Kept leader r h = Each Guard h × (leader_of h ≡ leader)

module _ (env : Env) (leader : Text) where
  apply_shares-Kept :
      (pod : Text) (i : ℕ) (ss : List Text) (h : List Event)
      → Kept {A = Text} leader (ok pod) h
      → IsReady pod h
      → Kept leader (apply_shares env pod i ss h).0 (apply_shares env pod i ss h).1
  unfolding apply_shares
  apply_shares-Kept pod i [] h k r = k
  apply_shares-Kept pod i (s ∷ ss) h k r =
      ground
        (arith, apply_shares-Kept pod (i + 1) ss (share_applied pod s (env.unseal h pod s) ∷ h))

  -- A pod that was just seen sealed, and after it has joined where it has to.
  abbrev Joined : {A : Type 0} → Text → Outcome Error A → List Event → Type 0
  Joined pod (ok a) h = Kept {A = Text} leader (ok pod) h × IsReady pod h
  Joined pod (err e) h = Kept {A = Text} leader (ok pod) h

  join_leader-Joined :
      (st : Status) (pod : Text) (h : List Event)
      → Kept {A = Text} leader (ok pod) h
      → st.is_sealed ≡ true
      → Joined pod
          (join_leader env leader st pod (status_read pod (some st) ∷ h)).0
          (join_leader env leader st pod (status_read pod (some st) ∷ h)).1
  unfolding join_leader
  join_leader-Joined st pod h k s = ground (arith, text_eq→eq pod leader, text_eq_refl pod)

  unseal_sealed-Kept :
      (shares : List Text) (pod : Text) (st : Status) (h : List Event)
      → Kept {A = Text} leader (ok pod) h
      → st.is_sealed ≡ true
      → Kept leader
          (unseal_sealed env shares leader pod st (status_read pod (some st) ∷ h)).0
          (unseal_sealed env shares leader pod st (status_read pod (some st) ∷ h)).1
  unfolding unseal_sealed
  unseal_sealed-Kept shares pod st h k s =
      bind_post (Joined pod) (Kept leader) (join_leader env leader st pod)
        (λ u. apply_shares env pod 1 shares >> return true) (status_read pod (some st) ∷ h)
        (join_leader-Joined st pod h k s)
        (λ a h' j.
          bind_post (Kept leader) (Kept leader) (apply_shares env pod 1 shares) (λ u. return true)
            h' (apply_shares-Kept pod 1 shares h' j.0 j.1) (λ b k' q. q) (λ x k' q. q))
        (λ x h' q. q)

  unseal_pod-Kept :
      (shares : List Text) (pod : Text) (h : List Event)
      → Kept {A = Text} leader (ok pod) h
      → Kept leader (unseal_pod env shares leader pod h).0 (unseal_pod env shares leader pod h).1
  unfolding unseal_pod
  unseal_pod-Kept shares pod h k = elim (Option-cases (env.status h pod)) [
    | inl e ↦ ground (arith, e)
    | inr (st, e) ↦ ground (arith, e, unseal_sealed-Kept shares pod st h k)
  ]

  unseal_pods-Kept :
      (shares : List Text) (pods : List Text) (c : Counts) (h : List Event)
      → Kept {A = Text} leader (ok leader) h
      → Kept leader
          (unseal_pods env shares leader pods c h).0
          (unseal_pods env shares leader pods c h).1
  unfolding unseal_pods
  unseal_pods-Kept shares [] c h k = k
  unseal_pods-Kept shares (pod ∷ pods) c h k =
      bind_post (Kept leader) (Kept leader) (unseal_pod env shares leader pod)
        (λ b. unseal_pods env shares leader pods (count_pod b c)) h (unseal_pod-Kept shares pod h k)
        (λ b h' q. unseal_pods-Kept shares pods (count_pod b c) h' q) (λ x h' q. q)

-- What has been read when the pods are visited.
abbrev Gathered : Outcome Error (List Text × List Text) → List Event → Type 0
Gathered (ok got) h = Each Guard h × (leader_of h ≡ leader_in (some got.1))
Gathered (err e) h = Each Guard h

gather-Gathered : (env : Env) (o : Options) → Gathered (gather env o []).0 (gather env o []).1
unfolding gather
gather-Gathered env o = ground arith

visit-Guard :
    (env : Env) (got : List Text × List Text) (h : List Event)
    → Gathered (ok got) h
    → Each Guard (visit env got h).1
unfolding visit
visit-Guard env (shares, []) h g = g.0
visit-Guard env (shares, l ∷ ps) h g =
    (unseal_pods-Kept env l shares (l ∷ ps) (record { unsealed = 0; already_unsealed = 0 }) h g).0

-- Whatever SOPS and the pods answer, and however the run ends: a pod is given a share only after it
-- was seen sealed, and if it is neither initialised nor the first pod of the list, only after it
-- has joined that first pod; nothing but shares that it took stands between. A pod is told to join
-- only if it was just seen sealed and not initialised, never the first pod, and at its address.
pub unseal_all-Guard : (env : Env) (o : Options) → Each Guard (unseal_all env o []).1
unfolding unseal_all
unseal_all-Guard env o =
    bind_post Gathered (λ r. Each Guard) (gather env o) (visit env) [] (gather-Gathered env o)
      (λ got h g. visit-Guard env got h g) (λ x h g. g)
