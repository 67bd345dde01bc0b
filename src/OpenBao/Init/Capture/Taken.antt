-- ===== src/OpenBao/Init/Capture/Taken.antt =====
-- The buffer that the payloads of a script leave
-- (cli/internal/bootstrap/openbao/init.go, cli/internal/bootstrap/secrets/buffer.go).
use kube_dc_public.Prelude.{◌≡◌, refl, Option, none, some, List, [], ◌∷◌}
use kube_dc_public.Prelude.Text.{Text}
use kube_dc_public.Prelude.Engine.{Outcome, ok, err, bind_post, attempt_post, return}
use kube_dc_public.Secrets.{Buffer, new_buffer}
use kube_dc_public.OpenBao.Init.{Options, Script, Event, PayloadError, BaoInitJson, Error, Env, Run}
use kube_dc_public.OpenBao.Init.Payload.{load_buffer_from_json}
use kube_dc_public.OpenBao.Init.Payload.Overlay.{Loads, load_buffer_from_json-Loads}
use kube_dc_public.OpenBao.Init.Capture.{Capture, caught, capture_one, stop_or, capture_all}
use kube_dc_public.OpenBao.Init.Files.{emergency_dump}

-- The payloads, from the buffer `b` on, leave the buffer `b'`: each is loaded into what the ones
-- before it left, up to the first that is refused, which is loaded too.
abbrev pub Taken : (Text → Option BaoInitJson) → List Text → Buffer → Buffer → Type 0
Taken decode [] b b' = b' ≡ b
Taken decode (t ∷ ts) b b' =
    (m : Buffer × Option PayloadError) × Loads decode t b m
    × (elim m.1 [ none ↦ Taken decode ts m.0 b' | some bad ↦ b' ≡ m.0 ])

abbrev pub TakenOk : Env → List Text → Buffer → Outcome Error Capture → List Event → Type 0
TakenOk env ts b (ok c) h = Taken env.decode ts b c.buffer
TakenOk env ts b (err e) h = Unit {0}

-- The buffer that a script leaves.
abbrev pub Left : Env → Option Script → Buffer → Type 0
Left env found b = (s : Script) × (found ≡ some s) × Taken env.decode s.payloads new_buffer b

module _ (env : Env) (o : Options) where
  abbrev OneTaken : Capture → Text → Outcome Error Capture → List Event → Type 0
  OneTaken c t (ok c') h = Loads env.decode t c.buffer (c'.buffer, c'.refused)
  OneTaken c t (err e) h = Unit {0}

  capture_one-Taken :
      (c : Capture) (t : Text) (h : List Event)
      → OneTaken c t (capture_one env o c t h).0 (capture_one env o c t h).1
  unfolding capture_one
  capture_one-Taken c t h =
      let loaded = load_buffer_from_json env.decode t c.buffer in
      attempt_post (λ r h'. Unit {0}) (OneTaken c t) (emergency_dump env o.cluster_name loaded.0)
        (λ dumped. return (caught loaded dumped)) h tt
        (λ r h' u. load_buffer_from_json-Loads env.decode t c.buffer)

  stop_or-Taken :
      (t : Text) (ts : List Text) (b : Buffer) (bad : Option PayloadError) (c : Capture)
      (next : Run Capture) (h : List Event)
      → Loads env.decode t b (c.buffer, bad)
      → TakenOk env ts c.buffer (next h).0 (next h).1
      → TakenOk env (t ∷ ts) b (stop_or bad c next h).0 (stop_or bad c next h).1
  unfolding stop_or
  stop_or-Taken t ts b (some bad) c next h l n = ((c.buffer, some bad), l, refl)
  stop_or-Taken t ts b none c next h l n = later (next h).0 (next h).1 n
    where
      later :
          (r : Outcome Error Capture) (k : List Event)
          → TakenOk env ts c.buffer r k
          → TakenOk env (t ∷ ts) b r k
      later (ok c') k n = ((c.buffer, none), l, n)
      later (err e) k n = tt

  pub capture_all-Taken :
      (c : Capture) (ts : List Text) (h : List Event)
      → TakenOk env ts c.buffer (capture_all env o c ts h).0 (capture_all env o c ts h).1
  unfolding capture_all
  capture_all-Taken c [] h = refl
  capture_all-Taken c (t ∷ ts) h =
      bind_post (OneTaken c t) (TakenOk env (t ∷ ts) c.buffer) (capture_one env o c t)
        (λ c'. stop_or c'.refused c' (capture_all env o c' ts)) h (capture_one-Taken c t h)
        (λ c' h' l.
          stop_or-Taken t ts c.buffer c'.refused c' (capture_all env o c' ts) h' l
            (capture_all-Taken c' ts h'))
        (λ e h' u. tt)
