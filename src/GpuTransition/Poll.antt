-- ===== src/GpuTransition/Poll.antt =====
-- The polling loop ends by itself (cli/internal/bootstrap/gputransition/transition.go).
use kube_dc_public.Prelude.{
  ℕ, zero, suc, ◌+◌, ◌-◌, ◌≤◌, ◌<◌, ◌≡◌, Bool, true, List, [], ◌∷◌, arith, ◌≢◌,
}
use kube_dc_public.Prelude.Text.{Text}
use kube_dc_public.Prelude.Engine.{bind_post, Outcome, ok, err}
use kube_dc_public.GpuTransition.{
  State, Options, Event, observed, clock_read, waited, Error, out_of_fuel, Env, poll, pause,
  look_and_run, look, transition, enter, await, leave, checked, preflight, proceed, run,
  with_defaults, is_resumed,
}

-- time.Now does not go back, and a wait that ends without an error lasts as long as it was told to.
pub record Clocked (env : Env) : Type 0 where
  pub steady : (e : Event) (h : List Event) → env.now h ≤ env.now (e ∷ h)
  pub passes :
      (d : ℕ) (h : List Event) → env.wait h d ≡ true → env.now h + d ≤ env.now (waited d true ∷ h)

module _ (env : Env) (o : Options) (clocked : Clocked env) (moves : 0 < o.poll_interval) where
  -- After a pause that lets the loop go on, the clock has moved, and stood at the deadline at most.
  abbrev Paused : ℕ → ℕ → Outcome Error (Unit {0}) → List Event → Type 0
  Paused deadline start (ok u) h = (start < env.now h) × (start ≤ deadline)
  Paused deadline start (err e) h = e ≢ out_of_fuel

  abbrev Fuelled : {A : Type 0} → Outcome Error A → List Event → Type 0
  Fuelled (ok a) h = Unit {0}
  Fuelled (err e) h = e ≢ out_of_fuel

  pause-Paused :
      (deadline : ℕ) (h : List Event)
      → Paused deadline (env.now h) (pause env o deadline h).0 (pause env o deadline h).1
  unfolding pause
  pause-Paused deadline h = ground (
    arith,
    clocked.steady (clock_read (env.now h)) h,
    clocked.passes o.poll_interval (clock_read (env.now h) ∷ h),
  )

  poll-Fuelled :
      (deadline fuel : ℕ) (h : List Event)
      → deadline + 1 - env.now h < fuel
      → Fuelled (poll env o deadline fuel h).0 (poll env o deadline fuel h).1
  unfolding poll
  poll-Fuelled deadline zero h l = absurd (omega arith)
  poll-Fuelled deadline (suc fuel) h l = ground (
    arith,
    bind_post (Paused deadline (env.now seen)) Fuelled (pause env o deadline)
        (λ w. poll env o deadline fuel) seen (pause-Paused deadline seen)
        (λ w k p. poll-Fuelled deadline fuel k (omega (arith, p, clocked.steady r h))) (λ x k p. p),
  )
    where
      r : Event
      r = observed (env.node_state h o.node)

      seen : List Event
      seen = r ∷ h

  await-Fuelled :
      (fuel : ℕ) (h : List Event)
      → o.timeout + 2 ≤ fuel
      → Fuelled (await fuel env o h).0 (await fuel env o h).1
  unfolding await
  await-Fuelled fuel h l =
      poll-Fuelled (env.now h + o.timeout) fuel (clock_read (env.now h) ∷ h)
        (omega (arith, clocked.steady (clock_read (env.now h)) h))

  enter-Fuelled :
      (s : State) (resumed : Bool) (h : List Event)
      → Fuelled (enter env o s resumed h).0 (enter env o s resumed h).1
  unfolding enter
  enter-Fuelled s resumed h = ground arith

  leave-Fuelled :
      (revision : Text) (resumed : Bool) (s : State) (h : List Event)
      → Fuelled (leave env o revision resumed s h).0 (leave env o revision resumed s h).1
  unfolding leave
  leave-Fuelled revision resumed s h = ground arith

  transition-Fuelled :
      (fuel : ℕ) (s : State) (resumed : Bool) (h : List Event)
      → o.timeout + 2 ≤ fuel
      → Fuelled (transition fuel env o s resumed h).0 (transition fuel env o s resumed h).1
  unfolding transition
  transition-Fuelled fuel s resumed h l =
      bind_post Fuelled Fuelled (enter env o s resumed) _ h (enter-Fuelled s resumed h)
        (λ revision k p.
          bind_post Fuelled Fuelled (await fuel env o) (leave env o revision resumed) k
            (await-Fuelled fuel k l) (λ s' j q. leave-Fuelled revision resumed s' j) (λ x j q. q))
        (λ x k p. p)

  preflight-Fuelled :
      (s : State) (fleet_mode : Text) (h : List Event)
      → Fuelled (preflight o s fleet_mode h).0 (preflight o s fleet_mode h).1
  unfolding preflight
  preflight-Fuelled s fleet_mode h = ground arith

  proceed-Fuelled :
      (fuel : ℕ) (s : State) (fleet_mode : Text) (h : List Event)
      → o.timeout + 2 ≤ fuel
      → Fuelled (proceed fuel env o s fleet_mode h).0 (proceed fuel env o s fleet_mode h).1
  unfolding proceed
  proceed-Fuelled fuel s fleet_mode h l =
      ground (arith, transition-Fuelled fuel s (is_resumed o s fleet_mode) h)

  checked-Fuelled :
      (fuel : ℕ) (s : State) (fleet_mode : Text) (h : List Event)
      → o.timeout + 2 ≤ fuel
      → Fuelled (checked fuel env o s fleet_mode h).0 (checked fuel env o s fleet_mode h).1
  unfolding checked
  checked-Fuelled fuel s fleet_mode h l =
      bind_post Fuelled Fuelled (preflight o s fleet_mode) _ h (preflight-Fuelled s fleet_mode h)
        (λ w k q. proceed-Fuelled fuel s fleet_mode k l) (λ x k q. q)

  look-Fuelled : (h : List Event) → Fuelled (look env o h).0 (look env o h).1
  unfolding look
  look-Fuelled h = ground arith

  look_and_run-Fuelled :
      (fuel : ℕ)
      → o.timeout + 2 ≤ fuel
      → Fuelled (look_and_run fuel env o []).0 (look_and_run fuel env o []).1
  unfolding look_and_run
  look_and_run-Fuelled fuel l =
      bind_post Fuelled Fuelled (look env o) _ [] (look-Fuelled [])
        (λ seen k q. checked-Fuelled fuel seen.0 seen.1 k l) (λ x k q. q)

-- Fuel for two rounds more than the timeout has nanoseconds is enough for every run, if the clock
-- does not go back and each wait takes as long as asked: the loop ends by its own tests.
pub run_fuel :
    (fuel : ℕ) (env : Env) (o : Options)
    → Clocked env
    → (with_defaults o).timeout + 2 ≤ fuel
    → (run fuel env o []).0 ≢ err out_of_fuel
unfolding run
run_fuel fuel env o clocked l =
    ground (arith, look_and_run-Fuelled env (with_defaults o) clocked (ground arith) fuel)
