-- ===== src/OidcCutover/Cutover/Order.antt =====
-- The calls of a whole cutover or rollback (cli/internal/bootstrap/oidccutover/run.go).
use kube_dc_public.Prelude.{
  ℕ, zero, suc, ◌≡◌, true, false, List, [], ◌∷◌, arith, is_empty, Bool-cases, inl, inr,
}
use kube_dc_public.Prelude.Engine.{bind_post, map_err_post, map_err, Outcome, ok, err, Each, return}
use kube_dc_public.OidcCutover.Cutover.{
  Node, Options, Event, clock_read, Env, preflight, probe, poll_ready, wait_api_server_ready,
  cut_over_nodes, restore_and_restart, roll_back_node, roll_back, apply_all, undo_all, cut_over,
  with_defaults, start,
}
use kube_dc_public.OidcCutover.Cutover.Guards.{Guard, Kept, Passed}
use kube_dc_public.OidcCutover.Cutover.Wiring.{cut_over_nodes-Passed}
use kube_dc_public.OidcCutover.Cutover.Preflight.{preflight-Passed}

module _ (env : Env) (o : Options) where
  Passed-Kept : {X A : Type 0} (r : Outcome X A) (h : List Event) → Passed o r h → Kept o r h
  Passed-Kept (ok a) h p = p.0.0
  Passed-Kept (err x) h p = p

  apply_all-Kept : (fuel : ℕ) → Kept o (apply_all fuel env o []).0 (apply_all fuel env o []).1
  unfolding apply_all
  apply_all-Kept fuel =
      bind_post (Passed o) (Kept o) (map_err (λ e. (start, e)) (preflight env o))
        (λ u. cut_over_nodes fuel env o o.nodes start) []
        (map_err_post (Passed o) (Passed o) (λ e. (start, e)) (preflight env o) []
          (preflight-Passed env o) (λ u k q. q) (λ x k q. q))
        (λ u k q. Passed-Kept _ _ (cut_over_nodes-Passed env o fuel o.nodes start k q)) (λ x k q. q)

  restore_and_restart-Kept :
      (n : Node) (h : List Event)
      → o.dry_run ≡ false
      → o.rollback ≡ true
      → Each (Guard o) h
      → Kept o (restore_and_restart env n h).0 (restore_and_restart env n h).1
  unfolding restore_and_restart
  restore_and_restart-Kept n h d b g = ground arith

  probe-Kept :
      (n : Node) (deadline : ℕ) (h : List Event)
      → Each (Guard o) h
      → Kept o (probe env o n deadline h).0 (probe env o n deadline h).1
  unfolding probe
  probe-Kept n deadline h g = ground arith

  -- A rollback polls between the restarts; `Guard` asks nothing of its polling.
  poll-Kept :
      (fuel : ℕ) (n : Node) (deadline : ℕ) (h : List Event)
      → Each (Guard o) h
      → Kept o (poll_ready fuel env o n deadline h).0 (poll_ready fuel env o n deadline h).1
  unfolding poll_ready
  poll-Kept zero n deadline h g = g
  poll-Kept (suc fuel) n deadline h g =
      bind_post (Kept o) (Kept o) (probe env o n deadline)
        (elim [ true ↦ return tt | false ↦ poll_ready fuel env o n deadline ]) h
        (probe-Kept n deadline h g)
        (elim [ true ↦ λ h' q. q | false ↦ λ h' q. poll-Kept fuel n deadline h' q ]) (λ x h' q. q)

  wait-Kept :
      (fuel : ℕ) (n : Node) (h : List Event)
      → Each (Guard o) h
      → Kept o (wait_api_server_ready fuel env o n h).0 (wait_api_server_ready fuel env o n h).1
  unfolding wait_api_server_ready
  wait-Kept fuel n h g = poll-Kept fuel n _ (clock_read (env.now h) ∷ h) (tt, g)

  roll_back_node-Kept :
      (fuel : ℕ) (n : Node) (h : List Event)
      → o.rollback ≡ true
      → Each (Guard o) h
      → Kept o (roll_back_node fuel env o n h).0 (roll_back_node fuel env o n h).1
  unfolding roll_back_node
  roll_back_node-Kept fuel n h b g = elim (Bool-cases o.dry_run) [
    | inl d ↦ ground (arith, d)
    | inr d ↦ ground (
      arith,
      d,
      bind_post (Kept o) (Kept o) (restore_and_restart env n)
          (λ u. wait_api_server_ready fuel env o n) h (restore_and_restart-Kept n h d b g)
          (λ u k q. wait-Kept fuel n k q) (λ x k q. q),
    )
  ]

  roll_back-Kept :
      (fuel : ℕ) (ns : List Node) (h : List Event)
      → o.rollback ≡ true
      → Each (Guard o) h
      → Kept o (roll_back fuel env o ns h).0 (roll_back fuel env o ns h).1
  unfolding roll_back
  roll_back-Kept fuel [] h b g = g
  roll_back-Kept fuel (n ∷ ns) h b g =
      bind_post (Kept o) (Kept o) (roll_back_node fuel env o n) (λ u. roll_back fuel env o ns) h
        (roll_back_node-Kept fuel n h b g) (λ u k q. roll_back-Kept fuel ns k b q) (λ x k q. q)

  undo_all-Kept :
      (fuel : ℕ) → o.rollback ≡ true → Kept o (undo_all fuel env o []).0 (undo_all fuel env o []).1
  unfolding undo_all
  undo_all-Kept fuel b =
      bind_post (Kept o) (Kept o) (map_err (λ e. (start, e)) (roll_back fuel env o o.nodes))
        (λ u. return start) []
        (map_err_post (Kept o) (Kept o) (λ e. (start, e)) (roll_back fuel env o o.nodes) []
          (roll_back-Kept fuel o.nodes [] b tt) (λ u k q. q) (λ x k q. q))
        (λ u k q. q) (λ x k q. q)

-- Whatever the nodes, the cluster and the clock answer, and however the run ends, each call of a
-- cutover or a rollback comes when it may:
-- a node's file is read only when every node was seen with the webhook's kubeconfig, and the API
-- server restarted last, if any, was seen running with the webhook's flag; the snapshot is taken,
-- the file written and the server restarted only in a run that is no dry run, in this order, each
-- directly after the success of the one before, the snapshot after no process but the API server
-- was found to hold the port, and with the text that the file just read has to become; a snapshot
-- is put back only in a rollback, directly after it was seen there, and the server restarted
-- directly after that.
pub cut_over-Guard :
    (fuel : ℕ) (env : Env) (o : Options) → Each (Guard o) (cut_over fuel env o []).1
unfolding cut_over with_defaults
cut_over-Guard fuel env o = elim (Bool-cases (is_empty o.nodes)) [
  | inl e ↦ ground (arith, e)
  | inr e ↦ elim (Bool-cases o.rollback) [
    | inl b ↦ ground (arith, e, b, undo_all-Kept env (with_defaults o) fuel b)
    | inr b ↦ ground (arith, e, b, apply_all-Kept env (with_defaults o) fuel)
  ]
]
