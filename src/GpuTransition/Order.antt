-- ===== src/GpuTransition/Order.antt =====
-- The order of the calls of a transition (cli/internal/bootstrap/gputransition/transition.go).
use kube_dc_public.Prelude.{
  ℕ, zero, suc, ◌+◌, ◌≡◌, refl, Bool, true, false, ◌&&◌, ◌||◌, some, List, [], ◌∷◌, arith, ◌⊎◌,
  is_empty,
}
use kube_dc_public.Prelude.Text.{Text}
use kube_dc_public.Prelude.Engine.{bind_post, Outcome, ok, err, Each}
use kube_dc_public.GpuTransition.{
  State, Options, Event, observed, set_schedulable, fleet_applied, clock_read, Error, out_of_fuel,
  Result, Env, target_ready, poll, pause, transition, checked, run, with_defaults, preflight,
  proceed, is_resumed, enter, leave, await, look, look_and_run,
}

-- The newest call observed the node with a state that passes the test.
abbrev pub JustSaw : (State → Bool) → List Event → Type 0
JustSaw p (observed (some s) ∷ h) = p s ≡ true
JustSaw p _ = ⊥

-- A successful uncordon is on record.
abbrev pub uncordoned : List Event → Bool
uncordoned [] = false
uncordoned (set_schedulable b r ∷ h) = (b && r) || uncordoned h
uncordoned (_ ∷ h) = uncordoned h

-- What must hold when a call is made.
abbrev pub Guard : Options → Event → List Event → Type 0
Guard o (fleet_applied from to r) h =
    JustSaw (λ s. s.unschedulable && is_empty s.holders) h
    × (from ≡ o.from)
    × (to ≡ o.to)
    × (o.dry_run ≡ false)
Guard o (set_schedulable true r) h = JustSaw (λ s. target_ready s o.to) h × (o.dry_run ≡ false)
Guard o (set_schedulable false r) h = o.dry_run ≡ false
Guard o _ h = Unit {0}

-- How the loop ends: with a ready state that it has just observed, or with no change made.
abbrev Polled : Options → Outcome Error State → List Event → Type 0
Polled o (ok s) h = Each (Guard o) h × JustSaw (λ s. target_ready s o.to) h × (uncordoned h ≡ false)
Polled o (err e) h = Each (Guard o) h × (uncordoned h ≡ false)

-- A step that keeps the guards and uncordons nothing, however it ends.
abbrev Quiet : {A : Type 0} → Options → Outcome Error A → List Event → Type 0
Quiet o r h = Each (Guard o) h × (uncordoned h ≡ false)

module _ (env : Env) (o : Options) (deadline : ℕ) where
  pause-Quiet :
      (h : List Event)
      → Each (Guard o) h
      → uncordoned h ≡ false
      → Quiet o (pause env o deadline h).0 (pause env o deadline h).1
  unfolding pause
  pause-Quiet h g u = ground arith

  poll-Polled :
      (fuel : ℕ) (h : List Event)
      → Each (Guard o) h
      → uncordoned h ≡ false
      → Polled o (poll env o deadline fuel h).0 (poll env o deadline fuel h).1
  unfolding poll
  poll-Polled zero h g u = (g, u)
  poll-Polled (suc fuel) h g u = ground (
    arith,
    bind_post (Quiet o) (Polled o) (pause env o deadline) (λ w. poll env o deadline fuel)
        (observed (env.node_state h o.node) ∷ h)
        (pause-Quiet (observed (env.node_state h o.node) ∷ h) (tt, g) u)
        (λ w h' q. poll-Polled fuel h' q.0 q.1) (λ x h' q. q),
  )

-- How a run ends: a success that is no dry run either changed nothing or uncordoned the node last;
-- after a failure the node has not been uncordoned.
abbrev pub UncordonedLast : List Event → Type 0
UncordonedLast (set_schedulable true true ∷ h) = Unit {0}
UncordonedLast _ = ⊥

abbrev Left : Options → Outcome Error Result → List Event → Type 0
Left o (ok r) h = Each (Guard o) h × UncordonedLast h
Left o (err e) h = Each (Guard o) h × (uncordoned h ≡ false)

module _ (env : Env) (o : Options) where
  await-Polled :
      (fuel : ℕ) (h : List Event)
      → Each (Guard o) h
      → uncordoned h ≡ false
      → Polled o (await fuel env o h).0 (await fuel env o h).1
  unfolding await
  await-Polled fuel h g u =
      poll-Polled env o (env.now h + o.timeout) fuel (clock_read (env.now h) ∷ h) (tt, g) u

  enter-Quiet :
      (s : State) (resumed : Bool) (h : List Event)
      → Each (Guard o) h
      → uncordoned h ≡ false
      → o.dry_run ≡ false
      → Quiet o (enter env o s resumed h).0 (enter env o s resumed h).1
  unfolding enter
  enter-Quiet s resumed h g u d = ground arith

  leave-Left :
      (revision : _) (resumed : Bool) (s : State) (h : List Event)
      → o.dry_run ≡ false
      → Polled o (ok s) h
      → Left o (leave env o revision resumed s h).0 (leave env o revision resumed s h).1
  unfolding leave
  leave-Left revision resumed s h d p = ground arith

  transition-Left :
      (fuel : ℕ) (s : State) (resumed : Bool) (h : List Event)
      → o.dry_run ≡ false
      → Each (Guard o) h
      → uncordoned h ≡ false
      → Left o (transition fuel env o s resumed h).0 (transition fuel env o s resumed h).1
  unfolding transition
  transition-Left fuel s resumed h d g u =
      bind_post (Quiet o) (Left o) (enter env o s resumed) _ h (enter-Quiet s resumed h g u d)
        (λ revision h' q.
          bind_post (Polled o) (Left o) (await fuel env o) (leave env o revision resumed) h'
            (await-Polled fuel h' q.0 q.1) (λ s' k p. leave-Left revision resumed s' k d p)
            (λ x k p. p))
        (λ x h' q. q)

-- No call has changed the node or the fleet.
abbrev pub IsUnchanged : List Event → Type 0
IsUnchanged [] = Unit {0}
IsUnchanged (set_schedulable b r ∷ h) = ⊥
IsUnchanged (fleet_applied from to r ∷ h) = ⊥
IsUnchanged (_ ∷ h) = IsUnchanged h

abbrev pub Ended : Options → Outcome Error Result → List Event → Type 0
Ended o (ok r) h = (o.dry_run ≡ true → IsUnchanged h) × (IsUnchanged h ⊎ UncordonedLast h)
Ended o (err e) h = uncordoned h ≡ false

abbrev Closed : Options → Outcome Error Result → List Event → Type 0
Closed o r h = Each (Guard o) h × Ended o r h

abbrev Looked : {A : Type 0} → Options → Outcome Error A → List Event → Type 0
Looked o r h = Each (Guard o) h × (uncordoned h ≡ false) × IsUnchanged h

module _ (env : Env) (o : Options) where
  look-Looked :
      (h : List Event)
      → Looked {A = State} o (err out_of_fuel) h
      → Looked o (look env o h).0 (look env o h).1
  unfolding look
  look-Looked h p = ground arith

  preflight-Looked :
      (s : State) (fleet_mode : Text) (h : List Event)
      → Looked {A = State} o (err out_of_fuel) h
      → Looked o (preflight o s fleet_mode h).0 (preflight o s fleet_mode h).1
  unfolding preflight
  preflight-Looked s fleet_mode h p = ground arith

  proceed-Closed :
      (fuel : ℕ) (s : State) (fleet_mode : Text) (h : List Event)
      → Looked {A = State} o (err out_of_fuel) h
      → Closed o (proceed fuel env o s fleet_mode h).0 (proceed fuel env o s fleet_mode h).1
  unfolding proceed
  proceed-Closed fuel s fleet_mode h p =
      ground (arith, transition-Left env o fuel s (is_resumed o s fleet_mode) h)

  checked-Closed :
      (fuel : ℕ) (s : State) (fleet_mode : Text) (h : List Event)
      → Looked {A = State} o (err out_of_fuel) h
      → Closed o (checked fuel env o s fleet_mode h).0 (checked fuel env o s fleet_mode h).1
  unfolding checked
  checked-Closed fuel s fleet_mode h p =
      bind_post (Looked o) (Closed o) (preflight o s fleet_mode) _ h
        (preflight-Looked s fleet_mode h p) (λ w k q. proceed-Closed fuel s fleet_mode k q)
        (λ x k q. (q.0, q.1))

  look_and_run-Closed :
      (fuel : ℕ) → Closed o (look_and_run fuel env o []).0 (look_and_run fuel env o []).1
  unfolding look_and_run
  look_and_run-Closed fuel =
      bind_post (Looked o) (Closed o) (look env o) _ [] (look-Looked [] (tt, refl, tt))
        (λ seen k q. checked-Closed fuel seen.0 seen.1 k q) (λ x k q. (q.0, q.1))

-- Whatever the cluster, the fleet and the clock answer, and however the run ends: the fleet is
-- written, with the two modes of the request, only right after the node was seen cordoned and
-- without GPU holders; the node is uncordoned only right after it was seen ready for the target
-- mode; and a dry run cordons, writes and uncordons nothing.
pub run-Guard : (fuel : ℕ) (env : Env) (o : Options) → Each (Guard o) (run fuel env o []).1
unfolding run
run-Guard fuel env o = ground (arith, look_and_run-Closed env (with_defaults o) fuel)

-- A run that fails has not uncordoned the node. A run that succeeds has changed nothing, which is
-- so for each dry run, or has uncordoned the node by its last call.
pub run-Ended :
    (fuel : ℕ) (env : Env) (o : Options) → Ended o (run fuel env o []).0 (run fuel env o []).1
unfolding run
run-Ended fuel env o = ground (arith, look_and_run-Closed env (with_defaults o) fuel)
