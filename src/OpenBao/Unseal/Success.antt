-- ===== src/OpenBao/Unseal/Success.antt =====
-- What a successful `Unseal` has done (cli/internal/bootstrap/openbao/unseal.go).
use kube_dc_public.Prelude.{
  ℕ, ◌+◌, ◌≡◌, ◌≢◌, refl, if◌then◌else◌, Bool, true, false, some, List, [], ◌∷◌, arith, ◌⊎◌, inl,
  inr, Option-cases,
}
use kube_dc_public.Prelude.Text.{Text, text_eq→eq, text_eq_refl}
use kube_dc_public.Prelude.Engine.{bind_post, Outcome, M, ok, err, ◌>>◌, return}
use kube_dc_public.OpenBao.Shares.{extract_threshold_shares}
use kube_dc_public.OpenBao.Unseal.{
  Status, Options, Event, decrypted, pods_listed, status_read, raft_joined, share_applied, Error,
  Env, Counts, leader_url, apply_shares, join_leader, unseal_sealed, unseal_pod, unseal_pods,
  count_pod, gather, visit, unseal_all, secrets_path,
}

-- The calls that give a pod every share, in order, each with success.
abbrev pub share_log : Text → List Text → List Event → List Event
share_log pod [] h = h
share_log pod (s ∷ ss) h = share_log pod ss (share_applied pod s true ∷ h)

-- The calls for one pod: its status alone, if it is unsealed; else also a join, if it is a follower
-- that is not initialised, and every share.
abbrev pub Opened : Text → List Text → Text → Bool → List Event → List Event → Type 0
Opened leader shares pod false h k =
    (st : Status) × (st.is_sealed ≡ false) × (k ≡ status_read pod (some st) ∷ h)
Opened leader shares pod true h k =
    (st : Status) × (st.is_sealed ≡ true)
    × ((((st.initialized ≡ true) ⊎ (pod ≡ leader))
          × (k ≡ share_log pod shares (status_read pod (some st) ∷ h)))
        ⊎ ((st.initialized ≡ false)
            × (pod ≢ leader)
            × (k
                ≡ share_log pod shares
                    (raft_joined pod (leader_url leader) true ∷ status_read pod (some st) ∷ h))))

-- Every pod of the list in turn, with the counts before and after.
abbrev pub AllOpened :
    Text → List Text → List Text → Counts → Counts → List Event → List Event → Type 0
AllOpened leader shares [] c d h k = (d ≡ c) × (k ≡ h)
AllOpened leader shares (pod ∷ pods) c d h k =
    (b : Bool) × (m : List Event) × Opened leader shares pod b h m
    × AllOpened leader shares pods (count_pod b c) d m k

module _ (env : Env) (leader : Text) (shares : List Text) where
  abbrev Logged : Text → List Text → List Event → Outcome Error (Unit {0}) → List Event → Type 0
  Logged pod ss h (ok u) k = k ≡ share_log pod ss h
  Logged pod ss h (err e) k = Unit {0}

  apply_shares-Logged :
      (pod : Text) (i : ℕ) (ss : List Text) (h : List Event)
      → Logged pod ss h (apply_shares env pod i ss h).0 (apply_shares env pod i ss h).1
  unfolding apply_shares
  apply_shares-Logged pod i [] h = refl
  apply_shares-Logged pod i (s ∷ ss) h =
      ground
        (arith, apply_shares-Logged pod (i + 1) ss (share_applied pod s (env.unseal h pod s) ∷ h))

  -- After the join, where one is due.
  abbrev Joined : Status → Text → List Event → Outcome Error (Unit {0}) → List Event → Type 0
  Joined st pod h (ok u) k =
      (((st.initialized ≡ true) ⊎ (pod ≡ leader)) × (k ≡ h))
      ⊎ ((st.initialized ≡ false)
          × (pod ≢ leader)
          × (k ≡ raft_joined pod (leader_url leader) true ∷ h))
  Joined st pod h (err e) k = Unit {0}

  join_leader-Joined :
      (st : Status) (pod : Text) (h : List Event)
      → Joined st pod h (join_leader env leader st pod h).0 (join_leader env leader st pod h).1
  unfolding join_leader
  join_leader-Joined st pod h = ground (arith, text_eq→eq pod leader, text_eq_refl pod)

  abbrev Done : Text → List Event → Outcome Error Bool → List Event → Type 0
  Done pod h (ok b) k = Opened leader shares pod b h k
  Done pod h (err e) k = Unit {0}

  opened :
      (st : Status) (pod : Text) (h m k : List Event)
      → st.is_sealed ≡ true
      → Joined st pod (status_read pod (some st) ∷ h) (ok tt) m
      → k ≡ share_log pod shares m
      → Opened leader shares pod true h k
  opened st pod h m k s (inl (i, e)) l = (st, s, inl (i, rw e at l))
  opened st pod h m k s (inr (n, p, e)) l = (st, s, inr (n, p, rw e at l))

  unseal_sealed-Done :
      (st : Status) (pod : Text) (h : List Event)
      → st.is_sealed ≡ true
      → Done pod h
          (unseal_sealed env shares leader pod st (status_read pod (some st) ∷ h)).0
          (unseal_sealed env shares leader pod st (status_read pod (some st) ∷ h)).1
  unfolding unseal_sealed
  unseal_sealed-Done st pod h s =
      bind_post (Joined st pod (status_read pod (some st) ∷ h)) (Done pod h)
        (join_leader env leader st pod) (λ u. apply_shares env pod 1 shares >> return true)
        (status_read pod (some st) ∷ h) (join_leader-Joined st pod (status_read pod (some st) ∷ h))
        (λ u m j.
          bind_post (Logged pod shares m) (Done pod h) (apply_shares env pod 1 shares)
            (λ w. return true) m (apply_shares-Logged pod 1 shares m)
            (λ w k l. opened st pod h m k s j l) (λ x k l. tt))
        (λ x m j. tt)

  treated :
      (st : Status) (pod : Text) (h : List Event) (b : Bool)
      → st.is_sealed ≡ b
      → let m : M Event Error Bool =
          if b then unseal_sealed env shares leader pod st else return false in
        Done pod h (m (status_read pod (some st) ∷ h)).0 (m (status_read pod (some st) ∷ h)).1
  treated st pod h true s = unseal_sealed-Done st pod h s
  treated st pod h false s = (st, s, refl)

  unseal_pod-Done :
      (pod : Text) (h : List Event)
      → Done pod h (unseal_pod env shares leader pod h).0 (unseal_pod env shares leader pod h).1
  unfolding unseal_pod
  unseal_pod-Done pod h = elim (Option-cases (env.status h pod)) [
    | inl e ↦ ground (arith, e)
    | inr (st, e) ↦ rw e (treated st pod h st.is_sealed refl)
  ]

  abbrev AllDone : List Text → Counts → List Event → Outcome Error Counts → List Event → Type 0
  AllDone pods c h (ok d) k = AllOpened leader shares pods c d h k
  AllDone pods c h (err e) k = Unit {0}

  AllDone-cons :
      (pod : Text) (pods : List Text) (c : Counts) (h : List Event) (b : Bool) (m : List Event)
      (r : Outcome Error Counts) (k : List Event)
      → Opened leader shares pod b h m
      → AllDone pods (count_pod b c) m r k
      → AllDone (pod ∷ pods) c h r k
  AllDone-cons pod pods c h b m (ok d) k o a = (b, m, o, a)
  AllDone-cons pod pods c h b m (err e) k o a = tt

  unseal_pods-AllDone :
      (pods : List Text) (c : Counts) (h : List Event)
      → AllDone pods c h
          (unseal_pods env shares leader pods c h).0
          (unseal_pods env shares leader pods c h).1
  unfolding unseal_pods
  unseal_pods-AllDone [] c h = (refl, refl)
  unseal_pods-AllDone (pod ∷ pods) c h =
      bind_post (Done pod h) (AllDone (pod ∷ pods) c h) (unseal_pod env shares leader pod)
        (λ b. unseal_pods env shares leader pods (count_pod b c)) h (unseal_pod-Done pod h)
        (λ b m o.
          AllDone-cons pod pods c h b m (unseal_pods env shares leader pods (count_pod b c) m).0
            (unseal_pods env shares leader pods (count_pod b c) m).1 o
            (unseal_pods-AllDone pods (count_pod b c) m))
        (λ x m o. tt)

-- The two reads of a run: the file, whose shares are these, and the list of these pods.
abbrev pub IsGathered : Options → List Text → List Text → List Event → Type 0
IsGathered o shares pods (pods_listed (some ps) ∷ decrypted path (some file) ∷ []) =
    (ps ≡ pods)
    × (path ≡ secrets_path o.fleet_repo o.cluster_name)
    × (extract_threshold_shares file ≡ ok shares)
IsGathered o shares pods _ = ⊥

-- The calls of a successful run: the two reads, and then each pod.
abbrev pub Unsealed : Options → Counts → List Event → Type 0
Unsealed o d k =
    (shares : List Text) × (leader : Text) × (pods : List Text) × (h : List Event) × IsGathered o
      shares (leader ∷ pods) h
    × AllOpened leader shares (leader ∷ pods) (record { unsealed = 0; already_unsealed = 0 }) d h k

abbrev Gathered : Options → Outcome Error (List Text × List Text) → List Event → Type 0
Gathered o (ok got) h = IsGathered o got.0 got.1 h
Gathered o (err e) h = Unit {0}

abbrev Ended : Options → Outcome Error Counts → List Event → Type 0
Ended o (ok d) k = Unsealed o d k
Ended o (err e) k = Unit {0}

module _ (env : Env) (o : Options) where
  gather-Gathered : Gathered o (gather env o []).0 (gather env o []).1
  unfolding gather
  gather-Gathered = ground arith

  ended :
      (shares : List Text) (l : Text) (ps : List Text) (h : List Event)
      → IsGathered o shares (l ∷ ps) h
      → (r : Outcome Error Counts) (k : List Event)
      → AllDone env l shares (l ∷ ps) (record { unsealed = 0; already_unsealed = 0 }) h r k
      → Ended o r k
  ended shares l ps h g (ok d) k a = (shares, l, ps, h, g, a)
  ended shares l ps h g (err e) k a = tt

  visit-Ended :
      (got : List Text × List Text) (h : List Event)
      → Gathered o (ok got) h
      → Ended o (visit env got h).0 (visit env got h).1
  unfolding visit
  visit-Ended (shares, []) h g = tt
  visit-Ended (shares, l ∷ ps) h g =
      ended shares l ps h g _ _ (
        unseal_pods-AllDone env l shares (l ∷ ps) (record { unsealed = 0; already_unsealed = 0 }) h)

  unseal_all-Ended : Ended o (unseal_all env o []).0 (unseal_all env o []).1
  unfolding unseal_all
  unseal_all-Ended =
      bind_post (Gathered o) (Ended o) (gather env o) (visit env) [] gather-Gathered visit-Ended
        (λ x h g. tt)

-- The calls of a run that succeeds are, in order: the decryption of the cluster's file and the list
-- of pods, which is not empty; and for each pod of the list its status, and if that is sealed the
-- three shares of the file, all taken by it, after a join to the first pod if the pod is another
-- one and not initialised. The two counts that are reported are those of the pods.
pub unseal_all-Unsealed :
    (env : Env) (o : Options) (d : Counts)
    → (unseal_all env o []).0 ≡ ok d
    → Unsealed o d (unseal_all env o []).1
unseal_all-Unsealed env o d e = rw e at (unseal_all-Ended env o)
