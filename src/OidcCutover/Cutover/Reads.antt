-- ===== src/OidcCutover/Cutover/Reads.antt =====
-- Which files the cutover has read, and which of them had to change
-- (cli/internal/bootstrap/oidccutover/run.go).
use kube_dc_public.Prelude.{
  ℕ, zero, suc, ◌≡◌, refl, Bool, true, false, Option, none, some, List, [], ◌∷◌, arith,
  if◌then◌else◌,
}
use kube_dc_public.Prelude.Text.{Text}
use kube_dc_public.Prelude.Engine.{bind_post, Outcome, ok, err, ◌>>◌, ◌>>=◌, return}
use kube_dc_public.NodeRemove.{SshHost}
use kube_dc_public.OidcCutover.Config.{patch_config}
use kube_dc_public.OidcCutover.Cutover.{
  Node, Options, Event, config_read, clock_read, Error, Env, probe, poll_ready,
  wait_api_server_ready, verify_flag_live, check_port, write_and_restart, change_node, wire_node,
  read_node, wire, cut_over_node, check_authenticator, missing_kubeconfigs, test_kubeconfig,
  none_missing, preflight,
}

-- The hosts whose file was read, newest first, each with whether the file had to change.
abbrev pub reads_of : List Event → List (SshHost × Bool)
reads_of [] = []
reads_of (config_read p (some body) ∷ h) = elim (patch_config body) [
  | ok (text, w) ↦ (p, w) ∷ reads_of h
  | err e ↦ reads_of h
]
reads_of (_ ∷ h) = reads_of h

-- The reads are these, however the step ended.
abbrev pub Same : {X A : Type 0} → List (SshHost × Bool) → Outcome X A → List Event → Type 0
Same rs r h = reads_of h ≡ rs

-- A node that passes was read once more, and is said to be wired if its file had to change.
abbrev pub Read :
    {X : Type 0} → List (SshHost × Bool) → SshHost → Outcome X Bool → List Event → Type 0
Read rs p (ok w) h = reads_of h ≡ (p, w) ∷ rs
Read rs p (err e) h = Unit {0}

module _ (env : Env) (o : Options) where
  probe-Same :
      (n : Node) (deadline : ℕ) (h : List Event) (rs : List (SshHost × Bool))
      → reads_of h ≡ rs
      → Same rs (probe env o n deadline h).0 (probe env o n deadline h).1
  unfolding probe
  probe-Same n deadline h rs g = ground arith

  poll_ready-Same :
      (fuel : ℕ) (n : Node) (deadline : ℕ) (h : List Event) (rs : List (SshHost × Bool))
      → reads_of h ≡ rs
      → Same rs (poll_ready fuel env o n deadline h).0 (poll_ready fuel env o n deadline h).1
  unfolding poll_ready
  poll_ready-Same zero n deadline h rs g = g
  poll_ready-Same (suc fuel) n deadline h rs g =
      bind_post (Same rs) (Same rs) (probe env o n deadline)
        (elim [ true ↦ return tt | false ↦ poll_ready fuel env o n deadline ]) h
        (probe-Same n deadline h rs g)
        (elim [ true ↦ λ k q. q | false ↦ λ k q. poll_ready-Same fuel n deadline k rs q ])
        (λ x k q. q)

  wait-Same :
      (fuel : ℕ) (n : Node) (h : List Event) (rs : List (SshHost × Bool))
      → reads_of h ≡ rs
      → Same rs (wait_api_server_ready fuel env o n h).0 (wait_api_server_ready fuel env o n h).1
  unfolding wait_api_server_ready
  wait-Same fuel n h rs g = poll_ready-Same fuel n _ (clock_read (env.now h) ∷ h) rs g

  verify-Same :
      (n : Node) (h : List Event) (rs : List (SshHost × Bool))
      → reads_of h ≡ rs
      → Same rs (verify_flag_live env n h).0 (verify_flag_live env n h).1
  unfolding verify_flag_live
  verify-Same n h rs g = ground arith

  write_and_restart-Same :
      (n : Node) (patched : Text) (h : List Event) (rs : List (SshHost × Bool))
      → reads_of h ≡ rs
      → Same rs (write_and_restart env n patched h).0 (write_and_restart env n patched h).1
  unfolding write_and_restart
  write_and_restart-Same n patched h rs g = ground arith

  change_node-Same :
      (fuel : ℕ) (n : Node) (patched : Text) (h : List Event) (rs : List (SshHost × Bool))
      → reads_of h ≡ rs
      → Same rs (change_node fuel env o n patched h).0 (change_node fuel env o n patched h).1
  unfolding change_node
  change_node-Same fuel n patched h rs g =
      bind_post (Same rs) (Same rs) (write_and_restart env n patched)
        (λ u. wait_api_server_ready fuel env o n >> verify_flag_live env n) h
        (write_and_restart-Same n patched h rs g)
        (λ u k q.
          bind_post (Same rs) (Same rs) (wait_api_server_ready fuel env o n)
            (λ v. verify_flag_live env n) k (wait-Same fuel n k rs q)
            (λ v j r. verify-Same n j rs r) (λ x j r. r))
        (λ x k q. q)

  check_port-Same :
      (n : Node) (h : List Event) (rs : List (SshHost × Bool))
      → reads_of h ≡ rs
      → Same rs (check_port env n h).0 (check_port env n h).1
  unfolding check_port
  check_port-Same n h rs g = ground arith

  wire_node-Same :
      (fuel : ℕ) (n : Node) (patched : Text) (h : List Event) (rs : List (SshHost × Bool))
      → reads_of h ≡ rs
      → Same rs (wire_node fuel env o n patched h).0 (wire_node fuel env o n patched h).1
  unfolding wire_node
  wire_node-Same fuel n patched h rs g =
      bind_post (Same rs) (Same rs) (check_port env n)
        (λ u. if o.dry_run then return tt else change_node fuel env o n patched) h
        (check_port-Same n h rs g) (λ u k q. ground (arith, change_node-Same fuel n patched k rs q))
        (λ x k q. q)

  abbrev Found : List (SshHost × Bool) → SshHost → Outcome Error (Option Text) → List Event → Type 0
  Found rs p (ok none) h = reads_of h ≡ (p, false) ∷ rs
  Found rs p (ok (some text)) h = reads_of h ≡ (p, true) ∷ rs
  Found rs p (err e) h = Unit {0}

  read_node-Found :
      (n : Node) (h : List Event) (rs : List (SshHost × Bool))
      → reads_of h ≡ rs
      → Found rs n.host (read_node env n h).0 (read_node env n h).1
  unfolding read_node
  read_node-Found n h rs g = ground arith

  wire-Read :
      (fuel : ℕ) (n : Node) (w : Option Text) (h : List Event) (rs : List (SshHost × Bool))
      → Found rs n.host (ok w) h
      → Read rs n.host (wire fuel env o n w h).0 (wire fuel env o n w h).1
  unfolding wire
  wire-Read fuel n none h rs c = c
  wire-Read fuel n (some patched) h rs c =
      bind_post (Same ((n.host, true) ∷ rs)) (Read rs n.host) (wire_node fuel env o n patched)
        (λ u. return true) h (wire_node-Same fuel n patched h ((n.host, true) ∷ rs) c) (λ u k q. q)
        (λ x k q. tt)

  pub cut_over_node-Read :
      (fuel : ℕ) (n : Node) (h : List Event) (rs : List (SshHost × Bool))
      → reads_of h ≡ rs
      → Read rs n.host (cut_over_node fuel env o n h).0 (cut_over_node fuel env o n h).1
  unfolding cut_over_node
  cut_over_node-Read fuel n h rs g =
      bind_post (Found rs n.host) (Read rs n.host) (read_node env n) (wire fuel env o n) h
        (read_node-Found n h rs g) (λ w k c. wire-Read fuel n w k rs c) (λ x k q. tt)

  check_authenticator-Same :
      (h : List Event)
      → reads_of h ≡ []
      → Same [] (check_authenticator env o h).0 (check_authenticator env o h).1
  unfolding check_authenticator
  check_authenticator-Same h g = ground arith

  test_kubeconfig-Same :
      (n : Node) (h : List Event)
      → reads_of h ≡ []
      → Same [] (test_kubeconfig env n h).0 (test_kubeconfig env n h).1
  unfolding test_kubeconfig
  test_kubeconfig-Same n h g = ground arith

  missing-Same :
      (ns : List Node) (h : List Event)
      → reads_of h ≡ []
      → Same [] (missing_kubeconfigs env ns h).0 (missing_kubeconfigs env ns h).1
  unfolding missing_kubeconfigs
  missing-Same [] h g = g
  missing-Same (n ∷ ns) h g =
      bind_post (Same []) (Same []) (test_kubeconfig env n)
        (λ present.
          missing_kubeconfigs env ns >>= λ rest. return (if present then rest else n.name ∷ rest))
        h (test_kubeconfig-Same n h g)
        (λ present k q.
          bind_post (Same []) (Same []) (missing_kubeconfigs env ns)
            (λ rest. return (if present then rest else n.name ∷ rest)) k (missing-Same ns k q)
            (λ rest j r. r) (λ x j r. r))
        (λ x k q. q)

  none_missing-Same :
      (ms : List Text) (h : List Event)
      → reads_of h ≡ []
      → Same [] (none_missing ms h).0 (none_missing ms h).1
  unfolding none_missing
  none_missing-Same [] h s = s
  none_missing-Same (m ∷ ms) h s = s

  pub preflight-Same : Same [] (preflight env o []).0 (preflight env o []).1
  unfolding preflight
  preflight-Same =
      bind_post (Same []) (Same []) (check_authenticator env o)
        (λ u. missing_kubeconfigs env o.nodes >>= none_missing) []
        (check_authenticator-Same [] refl)
        (λ u k q.
          bind_post (Same []) (Same []) (missing_kubeconfigs env o.nodes) none_missing k
            (missing-Same o.nodes k q) (λ ms j r. none_missing-Same ms j r) (λ x j r. r))
        (λ x k q. q)
