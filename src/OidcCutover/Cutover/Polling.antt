-- ===== src/OidcCutover/Cutover/Polling.antt =====
-- The readiness loop of the cutover ends by itself (cli/internal/bootstrap/oidccutover/run.go).
use kube_dc_public.Prelude.{
  ℕ, zero, suc, ◌+◌, ◌-◌, ◌≤◌, ◌<◌, ◌≡◌, ◌≢◌, Bool, true, false, List, [], ◌∷◌, arith,
  if◌then◌else◌,
}
use kube_dc_public.Prelude.Text.{Text}
use kube_dc_public.Prelude.Engine.{bind_post, Outcome, ok, err, ◌>>=◌, return}
use kube_dc_public.OidcCutover.Cutover.{
  Node, Options, Event, clock_read, waited, readyz_read, Error, out_of_fuel, Env,
  check_authenticator, missing_kubeconfigs, test_kubeconfig, none_missing, preflight, probe,
  poll_ready, wait_api_server_ready, verify_flag_live, check_port, write_and_restart, read_node,
  restore_and_restart,
}

-- time.Now does not go back, and a wait that is not cancelled lasts as long as it was told to.
pub record Clocked (env : Env) : Type 0 where
  pub steady : (e : Event) (h : List Event) → env.now h ≤ env.now (e ∷ h)
  pub passes :
      (d : ℕ) (h : List Event) → env.wait h d ≡ true → env.now h + d ≤ env.now (waited d true ∷ h)

abbrev pub Fuelled : {A : Type 0} → Outcome Error A → List Event → Type 0
Fuelled (ok a) h = Unit {0}
Fuelled (err e) h = e ≢ out_of_fuel

module _ (env : Env) (o : Options) (clocked : Clocked env) (moves : 0 < o.poll_interval) where
  -- After a round that does not fail the clock has moved, and stood before the deadline.
  abbrev Probed : ℕ → ℕ → Outcome Error Bool → List Event → Type 0
  Probed deadline begun (ok b) h = (begun < env.now h) × (begun < deadline)
  Probed deadline begun (err e) h = e ≢ out_of_fuel

  probe-Probed :
      (n : Node) (deadline : ℕ) (h : List Event)
      → Probed deadline (env.now h) (probe env o n deadline h).0 (probe env o n deadline h).1
  unfolding probe
  probe-Probed n deadline h = ground (
    arith,
    clocked.steady (clock_read (env.now h)) h,
    clocked.passes o.poll_interval (clock_read (env.now h) ∷ h),
    clocked.steady
        (readyz_read n.host
          (env.read_ready (waited o.poll_interval true ∷ clock_read (env.now h) ∷ h) n.host))
        (waited o.poll_interval true ∷ clock_read (env.now h) ∷ h),
  )

  poll_ready-Fuelled :
      (fuel : ℕ) (n : Node) (deadline : ℕ) (h : List Event)
      → deadline - env.now h < fuel
      → Fuelled (poll_ready fuel env o n deadline h).0 (poll_ready fuel env o n deadline h).1
  unfolding poll_ready
  poll_ready-Fuelled zero n deadline h l = absurd (omega arith)
  poll_ready-Fuelled (suc fuel) n deadline h l =
      bind_post (Probed deadline (env.now h)) Fuelled (probe env o n deadline)
        (elim [ true ↦ return tt | false ↦ poll_ready fuel env o n deadline ]) h
        (probe-Probed n deadline h)
        (elim [
          | true ↦ λ k q. tt
          | false ↦ λ k q. poll_ready-Fuelled fuel n deadline k (omega (arith, q, l))
        ])
        (λ x k q. q)

  pub wait-Fuelled :
      (fuel : ℕ) (n : Node) (h : List Event)
      → o.ready_timeout + 1 ≤ fuel
      → Fuelled (wait_api_server_ready fuel env o n h).0 (wait_api_server_ready fuel env o n h).1
  unfolding wait_api_server_ready
  wait-Fuelled fuel n h l =
      poll_ready-Fuelled fuel n (env.now h + o.ready_timeout) (clock_read (env.now h) ∷ h)
        (omega (arith, clocked.steady (clock_read (env.now h)) h))

module _ (env : Env) where
  pub verify-Fuelled :
      (n : Node) (h : List Event)
      → Fuelled (verify_flag_live env n h).0 (verify_flag_live env n h).1
  unfolding verify_flag_live
  verify-Fuelled n h = ground arith

  pub write_and_restart-Fuelled :
      (n : Node) (patched : Text) (h : List Event)
      → Fuelled (write_and_restart env n patched h).0 (write_and_restart env n patched h).1
  unfolding write_and_restart
  write_and_restart-Fuelled n patched h = ground arith

  pub check_port-Fuelled :
      (n : Node) (h : List Event) → Fuelled (check_port env n h).0 (check_port env n h).1
  unfolding check_port
  check_port-Fuelled n h = ground arith

  pub read_node-Fuelled :
      (n : Node) (h : List Event) → Fuelled (read_node env n h).0 (read_node env n h).1
  unfolding read_node
  read_node-Fuelled n h = ground arith

  pub restore-Fuelled :
      (n : Node) (h : List Event)
      → Fuelled (restore_and_restart env n h).0 (restore_and_restart env n h).1
  unfolding restore_and_restart
  restore-Fuelled n h = ground arith

  test_kubeconfig-Fuelled :
      (n : Node) (h : List Event) → Fuelled (test_kubeconfig env n h).0 (test_kubeconfig env n h).1
  unfolding test_kubeconfig
  test_kubeconfig-Fuelled n h = ground arith

  missing-Fuelled :
      (ns : List Node) (h : List Event)
      → Fuelled (missing_kubeconfigs env ns h).0 (missing_kubeconfigs env ns h).1
  unfolding missing_kubeconfigs
  missing-Fuelled [] h = tt
  missing-Fuelled (n ∷ ns) h =
      bind_post Fuelled Fuelled (test_kubeconfig env n)
        (λ present.
          missing_kubeconfigs env ns >>= λ rest. return (if present then rest else n.name ∷ rest))
        h (test_kubeconfig-Fuelled n h)
        (λ b k q.
          bind_post Fuelled Fuelled (missing_kubeconfigs env ns)
            (λ rest. return (if b then rest else n.name ∷ rest)) k (missing-Fuelled ns k)
            (λ rest j r. tt) (λ x j r. r))
        (λ x k q. q)

  none_missing-Fuelled :
      (ms : List Text) (h : List Event) → Fuelled (none_missing ms h).0 (none_missing ms h).1
  unfolding none_missing
  none_missing-Fuelled [] h = tt
  none_missing-Fuelled (m ∷ ms) h = ground arith

  check_authenticator-Fuelled :
      (o : Options) (h : List Event)
      → Fuelled (check_authenticator env o h).0 (check_authenticator env o h).1
  unfolding check_authenticator
  check_authenticator-Fuelled o h = ground arith

  pub preflight-Fuelled :
      (o : Options) (h : List Event) → Fuelled (preflight env o h).0 (preflight env o h).1
  unfolding preflight
  preflight-Fuelled o h =
      bind_post Fuelled Fuelled (check_authenticator env o)
        (λ u. missing_kubeconfigs env o.nodes >>= none_missing) h (check_authenticator-Fuelled o h)
        (λ u k q.
          bind_post Fuelled Fuelled (missing_kubeconfigs env o.nodes) none_missing k
            (missing-Fuelled o.nodes k) (λ ms j r. none_missing-Fuelled ms j) (λ x j r. r))
        (λ x k q. q)
