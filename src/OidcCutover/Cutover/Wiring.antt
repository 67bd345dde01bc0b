-- ===== src/OidcCutover/Cutover/Wiring.antt =====
-- The cutover of the nodes, call by call (cli/internal/bootstrap/oidccutover/run.go).
use kube_dc_public.Prelude.{
  ℕ, zero, suc, ◌≡◌, true, false, Option, none, some, List, [], ◌∷◌, arith, if◌then◌else◌,
}
use kube_dc_public.Prelude.Text.{Text}
use kube_dc_public.Prelude.Engine.{
  bind_post, map_err_post, map_err, Outcome, ok, err, Each, ◌>>◌, return,
}
use kube_dc_public.NodeRemove.{SshHost}
use kube_dc_public.OidcCutover.Config.{patch_config}
use kube_dc_public.OidcCutover.Cutover.{
  Node, Options, Event, config_read, clock_read, Result, Error, Env, probe, poll_ready,
  wait_api_server_ready, verify_flag_live, check_port, write_and_restart, change_node, wire_node,
  read_node, wire, cut_over_node, cut_over_nodes, note_skipped, note_wired, label_of,
}
use kube_dc_public.OidcCutover.Cutover.Guards.{
  IsFree, LastRestarted, Guard, Tested, Between, Going, Restarted, Passed,
}

module _ (env : Env) (o : Options) where
  probe-Going :
      (n : Node) (p : SshHost) (deadline : ℕ) (h : List Event)
      → Tested o h × LastRestarted p h
      → Going o p (probe env o n deadline h).0 (probe env o n deadline h).1
  unfolding probe
  probe-Going n p deadline h g = ground arith

  poll_ready-Going :
      (fuel : ℕ) (n : Node) (p : SshHost) (deadline : ℕ) (h : List Event)
      → Tested o h × LastRestarted p h
      → Going o p (poll_ready fuel env o n deadline h).0 (poll_ready fuel env o n deadline h).1
  unfolding poll_ready
  poll_ready-Going zero n p deadline h g = g
  poll_ready-Going (suc fuel) n p deadline h g =
      bind_post (Going o p) (Going o p) (probe env o n deadline)
        (elim [ true ↦ return tt | false ↦ poll_ready fuel env o n deadline ]) h
        (probe-Going n p deadline h g)
        (elim [ true ↦ λ h' q. q | false ↦ λ h' q. poll_ready-Going fuel n p deadline h' q ])
        (λ x h' q. q)

  wait-Going :
      (fuel : ℕ) (n : Node) (p : SshHost) (h : List Event)
      → Tested o h × LastRestarted p h
      → Going o p (wait_api_server_ready fuel env o n h).0 (wait_api_server_ready fuel env o n h).1
  unfolding wait_api_server_ready
  wait-Going fuel n p h g =
      poll_ready-Going fuel n p _ (clock_read (env.now h) ∷ h) (((tt, g.0.0), g.0.1), g.1)

  verify-Passed :
      (n : Node) (h : List Event)
      → Tested o h × LastRestarted n.host h
      → Passed o (verify_flag_live env n h).0 (verify_flag_live env n h).1
  unfolding verify_flag_live
  verify-Passed n h g = ground arith

  write_and_restart-Restarted :
      (n : Node) (patched : Text) (h : List Event)
      → Tested o h
      → o.dry_run ≡ false
      → IsFree n.host patched h
      → Restarted o n.host
          (write_and_restart env n patched h).0
          (write_and_restart env n patched h).1
  unfolding write_and_restart
  write_and_restart-Restarted n patched h g d f = ground arith

  change_node-Passed :
      (fuel : ℕ) (n : Node) (patched : Text) (h : List Event)
      → Tested o h
      → o.dry_run ≡ false
      → IsFree n.host patched h
      → Passed o (change_node fuel env o n patched h).0 (change_node fuel env o n patched h).1
  unfolding change_node
  change_node-Passed fuel n patched h g d f =
      bind_post (Restarted o n.host) (Passed o) (write_and_restart env n patched)
        (λ u. wait_api_server_ready fuel env o n >> verify_flag_live env n) h
        (write_and_restart-Restarted n patched h g d f)
        (λ u k q.
          bind_post (Going o n.host) (Passed o) (wait_api_server_ready fuel env o n)
            (λ v. verify_flag_live env n) k (wait-Going fuel n n.host k q)
            (λ v j r. verify-Passed n j r) (λ x j r. r.0.0))
        (λ x k q. q)

  -- The file of the node was just read, and has to become this text.
  abbrev IsRead : SshHost → Text → List Event → Type 0
  IsRead p text (config_read q (some body) ∷ h) = (q ≡ p) × (patch_config body ≡ ok (text, true))
  IsRead p text _ = ⊥

  abbrev Open : SshHost → Text → Outcome Error (Unit {0}) → List Event → Type 0
  Open p text (ok u) h = Between o h × IsFree p text h
  Open p text (err e) h = Each (Guard o) h

  check_port-Open :
      (n : Node) (patched : Text) (h : List Event)
      → Between o h
      → IsRead n.host patched h
      → Open n.host patched (check_port env n h).0 (check_port env n h).1
  unfolding check_port
  check_port-Open n patched h g r = ground arith

  wire_node-Passed :
      (fuel : ℕ) (n : Node) (patched : Text) (h : List Event)
      → Between o h
      → IsRead n.host patched h
      → Passed o (wire_node fuel env o n patched h).0 (wire_node fuel env o n patched h).1
  unfolding wire_node
  wire_node-Passed fuel n patched h g r =
      bind_post (Open n.host patched) (Passed o) (check_port env n)
        (λ u. if o.dry_run then return tt else change_node fuel env o n patched) h
        (check_port-Open n patched h g r)
        (λ u k q. ground (arith, change_node-Passed fuel n patched k q.0.0)) (λ x k q. q)

  abbrev Chosen : SshHost → Outcome Error (Option Text) → List Event → Type 0
  Chosen p (ok none) h = Between o h
  Chosen p (ok (some text)) h = Between o h × IsRead p text h
  Chosen p (err e) h = Each (Guard o) h

  read_node-Chosen :
      (n : Node) (h : List Event)
      → Between o h
      → Chosen n.host (read_node env n h).0 (read_node env n h).1
  unfolding read_node
  read_node-Chosen n h g = ground arith

  wire-Passed :
      (fuel : ℕ) (n : Node) (w : Option Text) (h : List Event)
      → Chosen n.host (ok w) h
      → Passed o (wire fuel env o n w h).0 (wire fuel env o n w h).1
  unfolding wire
  wire-Passed fuel n none h c = c
  wire-Passed fuel n (some patched) h c =
      bind_post (Passed o) (Passed o) (wire_node fuel env o n patched) (λ u. return true) h
        (wire_node-Passed fuel n patched h c.0 c.1) (λ u k q. q) (λ x k q. q)

  cut_over_node-Passed :
      (fuel : ℕ) (n : Node) (h : List Event)
      → Between o h
      → Passed o (cut_over_node fuel env o n h).0 (cut_over_node fuel env o n h).1
  unfolding cut_over_node
  cut_over_node-Passed fuel n h g =
      bind_post (Chosen n.host) (Passed o) (read_node env n) (wire fuel env o n) h
        (read_node-Chosen n h g) (λ w k c. wire-Passed fuel n w k c) (λ x k q. q)

  pub cut_over_nodes-Passed :
      (fuel : ℕ) (ns : List Node) (res : Result) (h : List Event)
      → Between o h
      → Passed o (cut_over_nodes fuel env o ns res h).0 (cut_over_nodes fuel env o ns res h).1
  unfolding cut_over_nodes
  cut_over_nodes-Passed fuel [] res h g = g
  cut_over_nodes-Passed fuel (n ∷ ns) res h g =
      bind_post (Passed o) (Passed o) (map_err (note_skipped res) (cut_over_node fuel env o n))
        (λ w. cut_over_nodes fuel env o ns (note_wired w (label_of n) res)) h
        (map_err_post (Passed o) (Passed o) (note_skipped res) (cut_over_node fuel env o n) h
          (cut_over_node-Passed fuel n h g) (λ w k q. q) (λ x k q. q))
        (λ w k q. cut_over_nodes-Passed fuel ns (note_wired w (label_of n) res) k q) (λ x k q. q)
