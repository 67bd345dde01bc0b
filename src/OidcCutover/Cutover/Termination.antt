-- ===== src/OidcCutover/Cutover/Termination.antt =====
-- The cutover and the rollback end by themselves (cli/internal/bootstrap/oidccutover/run.go).
use kube_dc_public.Prelude.{
  ℕ, ◌+◌, ◌≤◌, ◌<◌, ◌≢◌, true, Option, none, some, List, [], ◌∷◌, arith, if◌then◌else◌,
}
use kube_dc_public.Prelude.Text.{Text}
use kube_dc_public.Prelude.Engine.{bind_post, map_err_post, map_err, Outcome, ok, err, ◌>>◌, return}
use kube_dc_public.OidcCutover.Cutover.{
  Node, Options, Event, Result, Error, out_of_fuel, Env, preflight, wait_api_server_ready,
  verify_flag_live, check_port, write_and_restart, change_node, wire_node, read_node, wire,
  cut_over_node, cut_over_nodes, note_skipped, note_wired, label_of, restore_and_restart,
  roll_back_node, roll_back, apply_all, undo_all, cut_over, with_defaults, start,
}
use kube_dc_public.OidcCutover.Cutover.Polling.{
  Clocked, Fuelled, wait-Fuelled, verify-Fuelled, write_and_restart-Fuelled, check_port-Fuelled,
  read_node-Fuelled, restore-Fuelled, preflight-Fuelled,
}

abbrev pub Summed : {A : Type 0} → Outcome (Result × Error) A → List Event → Type 0
Summed (ok a) h = Unit {0}
Summed (err (r, e)) h = e ≢ out_of_fuel

note_skipped-Summed :
    (res : Result) (e : Error) → e ≢ out_of_fuel → (note_skipped res e).1 ≢ out_of_fuel
unfolding note_skipped
note_skipped-Summed res e n = ground arith

module _ (fuel : ℕ) (env : Env) (o : Options) (clocked : Clocked env) (moves : 0 < o.poll_interval)
    (enough : o.ready_timeout + 1 ≤ fuel) where
  change_node-Fuelled :
      (n : Node) (patched : Text) (h : List Event)
      → Fuelled (change_node fuel env o n patched h).0 (change_node fuel env o n patched h).1
  unfolding change_node
  change_node-Fuelled n patched h =
      bind_post Fuelled Fuelled (write_and_restart env n patched)
        (λ u. wait_api_server_ready fuel env o n >> verify_flag_live env n) h
        (write_and_restart-Fuelled env n patched h)
        (λ u k q.
          bind_post Fuelled Fuelled (wait_api_server_ready fuel env o n)
            (λ v. verify_flag_live env n) k (wait-Fuelled env o clocked moves fuel n k enough)
            (λ v j r. verify-Fuelled env n j) (λ x j r. r))
        (λ x k q. q)

  wire_node-Fuelled :
      (n : Node) (patched : Text) (h : List Event)
      → Fuelled (wire_node fuel env o n patched h).0 (wire_node fuel env o n patched h).1
  unfolding wire_node
  wire_node-Fuelled n patched h =
      bind_post Fuelled Fuelled (check_port env n)
        (λ u. if o.dry_run then return tt else change_node fuel env o n patched) h
        (check_port-Fuelled env n h) (λ u k q. ground (arith, change_node-Fuelled n patched k))
        (λ x k q. q)

  wire-Fuelled :
      (n : Node) (w : Option Text) (h : List Event)
      → Fuelled (wire fuel env o n w h).0 (wire fuel env o n w h).1
  unfolding wire
  wire-Fuelled n none h = tt
  wire-Fuelled n (some patched) h =
      bind_post Fuelled Fuelled (wire_node fuel env o n patched) (λ u. return true) h
        (wire_node-Fuelled n patched h) (λ u k q. tt) (λ x k q. q)

  cut_over_node-Fuelled :
      (n : Node) (h : List Event)
      → Fuelled (cut_over_node fuel env o n h).0 (cut_over_node fuel env o n h).1
  unfolding cut_over_node
  cut_over_node-Fuelled n h =
      bind_post Fuelled Fuelled (read_node env n) (wire fuel env o n) h (read_node-Fuelled env n h)
        (λ w k q. wire-Fuelled n w k) (λ x k q. q)

  cut_over_nodes-Summed :
      (ns : List Node) (res : Result) (h : List Event)
      → Summed (cut_over_nodes fuel env o ns res h).0 (cut_over_nodes fuel env o ns res h).1
  unfolding cut_over_nodes
  cut_over_nodes-Summed [] res h = tt
  cut_over_nodes-Summed (n ∷ ns) res h =
      bind_post Summed Summed (map_err (note_skipped res) (cut_over_node fuel env o n))
        (λ w. cut_over_nodes fuel env o ns (note_wired w (label_of n) res)) h
        (map_err_post Fuelled Summed (note_skipped res) (cut_over_node fuel env o n) h
          (cut_over_node-Fuelled n h) (λ w k q. tt) (λ x k q. note_skipped-Summed res x q))
        (λ w k q. cut_over_nodes-Summed ns (note_wired w (label_of n) res) k) (λ x k q. q)

  apply_all-Summed : Summed (apply_all fuel env o []).0 (apply_all fuel env o []).1
  unfolding apply_all
  apply_all-Summed =
      bind_post Summed Summed (map_err (λ e. (start, e)) (preflight env o))
        (λ u. cut_over_nodes fuel env o o.nodes start) []
        (map_err_post Fuelled Summed (λ e. (start, e)) (preflight env o) []
          (preflight-Fuelled env o []) (λ u k q. tt) (λ x k q. q))
        (λ u k q. cut_over_nodes-Summed o.nodes start k) (λ x k q. q)

  roll_back_node-Fuelled :
      (n : Node) (h : List Event)
      → Fuelled (roll_back_node fuel env o n h).0 (roll_back_node fuel env o n h).1
  unfolding roll_back_node
  roll_back_node-Fuelled n h = ground (
    arith,
    bind_post Fuelled Fuelled (restore_and_restart env n) (λ u. wait_api_server_ready fuel env o n)
        h (restore-Fuelled env n h) (λ u k q. wait-Fuelled env o clocked moves fuel n k enough)
        (λ x k q. q),
  )

  roll_back-Fuelled :
      (ns : List Node) (h : List Event)
      → Fuelled (roll_back fuel env o ns h).0 (roll_back fuel env o ns h).1
  unfolding roll_back
  roll_back-Fuelled [] h = tt
  roll_back-Fuelled (n ∷ ns) h =
      bind_post Fuelled Fuelled (roll_back_node fuel env o n) (λ u. roll_back fuel env o ns) h
        (roll_back_node-Fuelled n h) (λ u k q. roll_back-Fuelled ns k) (λ x k q. q)

  undo_all-Summed : Summed (undo_all fuel env o []).0 (undo_all fuel env o []).1
  unfolding undo_all
  undo_all-Summed =
      bind_post Summed Summed (map_err (λ e. (start, e)) (roll_back fuel env o o.nodes))
        (λ u. return start) []
        (map_err_post Fuelled Summed (λ e. (start, e)) (roll_back fuel env o o.nodes) []
          (roll_back-Fuelled o.nodes []) (λ u k q. tt) (λ x k q. q))
        (λ u k q. tt) (λ x k q. q)

default_interval : (o : Options) → 0 < (with_defaults o).poll_interval
unfolding with_defaults
default_interval o = ground arith

-- Fuel for one round more than the timeout has nanoseconds is enough for every cutover and every
-- rollback, if the clock does not go back and each wait takes as long as asked: the loop ends by its
-- own tests.
pub cut_over_fuel :
    (fuel : ℕ) (env : Env) (o : Options)
    → Clocked env
    → (with_defaults o).ready_timeout + 1 ≤ fuel
    → Summed (cut_over fuel env o []).0 (cut_over fuel env o []).1
unfolding cut_over
cut_over_fuel fuel env o clocked l = ground (
  arith,
  apply_all-Summed fuel env (with_defaults o) clocked (default_interval o) l,
  undo_all-Summed fuel env (with_defaults o) clocked (default_interval o) l,
)
