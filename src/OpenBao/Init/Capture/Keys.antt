-- ===== src/OpenBao/Init/Capture/Keys.antt =====
-- What a capture that succeeds holds (cli/internal/bootstrap/openbao/init.go).
use kube_dc_public.Prelude.{◌≡◌, refl, true, Option, none, some, List, [], ◌∷◌, arith}
use kube_dc_public.Prelude.Text.{Text}
use kube_dc_public.Prelude.Decimal.{ℤ}
use kube_dc_public.Prelude.Engine.{Outcome, ok, err, bind_post, attempt_post, return, ◌>>=◌}
use kube_dc_public.Secrets.{new_buffer}
use kube_dc_public.Drain.{StreamError, drain}
use kube_dc_public.OpenBao.Init.{
  Options, Script, Event, script_run, PayloadError, BaoInitJson, Error, Env, Run,
}
use kube_dc_public.OpenBao.Init.Payload.{load_buffer_from_json}
use kube_dc_public.OpenBao.Init.Payload.Held.{IsOpen, Holds, load_buffer_from_json-Holds}
use kube_dc_public.OpenBao.Init.Capture.{
  Capture, caught, nothing_captured, capture_one, stop_or, capture_all, custody, refuse_payload,
  cost_or, exit_checked, require, check_shares, accept, run_script, capture,
}
use kube_dc_public.OpenBao.Init.Files.{emergency_dump}

abbrev Loaded : (Text → Option BaoInitJson) → List Text → Capture → Type 0
Loaded decode ts c = IsOpen c.buffer × (c.refused ≡ none → Holds decode ts c.buffer)

abbrev LoadedOk :
    (Text → Option BaoInitJson) → List Text → Outcome Error Capture → List Event → Type 0
LoadedOk decode ts (ok c) h = Loaded decode ts c
LoadedOk decode ts (err e) h = Unit {0}

module _ (env : Env) (o : Options) where
  capture_one-Loaded :
      (c : Capture) (t : Text) (h : List Event)
      → IsOpen c.buffer
      → LoadedOk env.decode (t ∷ []) (capture_one env o c t h).0 (capture_one env o c t h).1
  unfolding capture_one
  capture_one-Loaded c t h p =
      let loaded = load_buffer_from_json env.decode t c.buffer in
      attempt_post (λ r h'. Unit {0}) (LoadedOk env.decode (t ∷ []))
        (emergency_dump env o.cluster_name loaded.0) (λ dumped. return (caught loaded dumped)) h tt
        (λ r h' u. load_buffer_from_json-Holds env.decode t c.buffer p)

  stopped :
      (t : Text) (ts : List Text) (c : Capture) (bad : PayloadError)
      → c.refused ≡ some bad
      → Loaded env.decode (t ∷ []) c
      → Loaded env.decode (t ∷ ts) c
  stopped t ts c bad e l = (l.0, λ n. absurd (cc (e, n)))

  stop_or-Loaded :
      (bad : Option PayloadError) (t : Text) (ts : List Text) (c : Capture) (next : Run Capture)
      (h : List Event)
      → c.refused ≡ bad
      → Loaded env.decode (t ∷ []) c
      → LoadedOk env.decode (t ∷ ts) (next h).0 (next h).1
      → LoadedOk env.decode (t ∷ ts) (stop_or bad c next h).0 (stop_or bad c next h).1
  unfolding stop_or
  stop_or-Loaded (some bad) t ts c next h e l n = stopped t ts c bad e l
  stop_or-Loaded none t ts c next h e l n = n

  later :
      (t u : Text) (us : List Text) (r : Outcome Error Capture) (h : List Event)
      → LoadedOk env.decode (u ∷ us) r h
      → LoadedOk env.decode (t ∷ u ∷ us) r h
  later t u us (ok c) h l = l
  later t u us (err e) h l = l

  capture_all-Loaded :
      (c : Capture) (t : Text) (ts : List Text) (h : List Event)
      → IsOpen c.buffer
      → LoadedOk env.decode
          (t ∷ ts)
          (capture_all env o c (t ∷ ts) h).0
          (capture_all env o c (t ∷ ts) h).1
  unfolding capture_all
  capture_all-Loaded c t [] h p =
      bind_post (LoadedOk env.decode (t ∷ [])) (LoadedOk env.decode (t ∷ []))
        (capture_one env o c t) (λ c'. stop_or c'.refused c' (return c')) h
        (capture_one-Loaded c t h p)
        (λ c' h' l. stop_or-Loaded c'.refused t [] c' (return c') h' refl l l) (λ e h' u. tt)
  capture_all-Loaded c t (u ∷ us) h p =
      bind_post (LoadedOk env.decode (t ∷ [])) (LoadedOk env.decode (t ∷ u ∷ us))
        (capture_one env o c t) (λ c'. stop_or c'.refused c' (capture_all env o c' (u ∷ us))) h
        (capture_one-Loaded c t h p)
        (λ c' h' l.
          stop_or-Loaded c'.refused t (u ∷ us) c' (capture_all env o c' (u ∷ us)) h' refl l (
            later t u us _ (capture_all env o c' (u ∷ us) h').1
              (capture_all-Loaded c' u us h' l.0)))
        (λ e h' u. tt)

  abbrev Accepted : Capture → Outcome Error Capture → List Event → Type 0
  Accepted c (ok c') h = (c' ≡ c) × (c.refused ≡ none) × (c.captured ≡ true)
  Accepted c (err e) h = Unit {0}

  accept-Accepted :
      (c : Capture) (status : Outcome StreamError ℤ) (h : List Event)
      → Accepted c (accept c status h).0 (accept c status h).1
  unfolding accept refuse_payload exit_checked check_shares cost_or require custody
  accept-Accepted c status h = ground arith

  abbrev HoldsOk : List Text → Outcome Error Capture → List Event → Type 0
  HoldsOk ts (ok c) h = Holds env.decode ts c.buffer
  HoldsOk ts (err e) h = Unit {0}

  accept_all :
      (ts : List Text) (c : Capture) (status : Outcome StreamError ℤ) (h : List Event)
      → (c.refused ≡ none → c.captured ≡ true → Holds env.decode ts c.buffer)
      → HoldsOk ts (accept c status h).0 (accept c status h).1
  accept_all ts c status h t =
      chosen (accept c status h).0 (accept c status h).1 (accept-Accepted c status h)
    where
      chosen : (r : Outcome Error Capture) (k : List Event) → Accepted c r k → HoldsOk ts r k
      chosen (ok c') k (e, n, g) = rw e (t n g)
      chosen (err x) k u = tt

  captured-HoldsOk :
      (ts : List Text) (status : Outcome StreamError ℤ) (h : List Event)
      → let m : Run Capture = capture_all env o nothing_captured ts >>= λ c. accept c status in
        HoldsOk ts (m h).0 (m h).1
  unfolding capture_all nothing_captured new_buffer
  captured-HoldsOk [] status h =
      accept_all [] nothing_captured status h (λ n g. absurd (ground arith))
  captured-HoldsOk (t ∷ ts) status h =
      bind_post (LoadedOk env.decode (t ∷ ts)) (HoldsOk (t ∷ ts))
        (capture_all env o nothing_captured (t ∷ ts)) (λ c. accept c status) h
        (capture_all-Loaded nothing_captured t ts h (refl, refl))
        (λ c h' l. accept_all (t ∷ ts) c status h' (λ n g. l.1 n)) (λ e h' u. tt)

  -- The keys that a capture holds are those of the script's last payload, which passes the check.
  abbrev pub FromScript : Option Script → Outcome Error Capture → List Event → Type 0
  FromScript found (ok c) h = (s : Script) × (found ≡ some s) × Holds env.decode s.payloads c.buffer
  FromScript found (err e) h = Unit {0}

  run_script-FromScript :
      (found : Option Script) (h : List Event)
      → FromScript found (run_script env o found h).0 (run_script env o found h).1
  unfolding run_script
  run_script-FromScript none h = tt
  run_script-FromScript (some s) h =
      let m : Run Capture =
        capture_all env o nothing_captured s.payloads >>= λ c. accept c (drain s.lines).1 in
      held (m h).0 (m h).1 (captured-HoldsOk s.payloads (drain s.lines).1 h)
    where
      held :
          (r : Outcome Error Capture) (k : List Event)
          → HoldsOk s.payloads r k
          → FromScript (some s) r k
      held (ok c) k l = (s, refl, l)
      held (err e) k u = tt

  pub capture-FromScript :
      (h : List Event) → FromScript (env.script h) (capture env o h).0 (capture env o h).1
  unfolding capture
  capture-FromScript h = run_script-FromScript (env.script h) (script_run (env.script h) ∷ h)
