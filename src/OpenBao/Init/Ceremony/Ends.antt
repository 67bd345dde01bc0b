-- ===== src/OpenBao/Init/Ceremony/Ends.antt =====
-- What `Init` guarantees however the systems answer
-- (cli/internal/bootstrap/openbao/init.go).
use kube_dc_public.Prelude.{◌≡◌, refl, sym, subst, List, [], arith}
use kube_dc_public.Prelude.Text.{Text}
use kube_dc_public.Prelude.Engine.{Outcome, ok, err, Each, bind_post, ◌>>=◌, ◌>>◌}
use kube_dc_public.OpenBao.Init.{Options, Event, Error, Env, Run}
use kube_dc_public.OpenBao.Init.Preflight.{preflight}
use kube_dc_public.OpenBao.Init.Capture.{Capture, capture}
use kube_dc_public.OpenBao.Init.Keep.{keep}
use kube_dc_public.OpenBao.Init.Finish.{finish}
use kube_dc_public.OpenBao.Init.Ceremony.{init}
use kube_dc_public.OpenBao.Init.Guard.{Guard, IsCommitted, IsJustRevoked}
use kube_dc_public.OpenBao.Init.Preflight.Order.{Cleared, preflight-Cleared}
use kube_dc_public.OpenBao.Init.Capture.Ends.{Explained, Closed-weaken, Ready, capture-Ready}
use kube_dc_public.OpenBao.Init.Capture.Taken.{Left}
use kube_dc_public.Secrets.{Buffer}
use kube_dc_public.OpenBao.Init.Keep.Ends.{Kept, keep-Kept}
use kube_dc_public.OpenBao.Init.Finish.Ends.{Finished, finish-Finished}

abbrev pub Ended : Text → (Buffer → Type 0) → Outcome Error (Unit {0}) → List Event → Type 0
Ended cluster B (ok u) h = IsCommitted h × IsJustRevoked h
Ended cluster B (err e) h = Explained cluster B e h

-- The buffer that the script of this run leaves.
abbrev pub OfRun : Env → Options → Buffer → Type 0
OfRun env o b = Left env (env.script (preflight env o []).1) b

abbrev Sound : Env → Options → Outcome Error (Unit {0}) → List Event → Type 0
Sound env o r h = Each Guard h × Ended o.cluster_name (OfRun env o) r h

module _ (env : Env) (o : Options) where
  free : (e : Error) (h : List Event) → Cleared (err e) h → Sound env o (err e) h
  free e h c = ground arith

  last : (r : Outcome Error (Unit {0})) (h : List Event) → Finished r h → Sound env o r h
  last r h f = ground arith

  captured :
      (h : List Event)
      → h ≡ (preflight env o []).1
      → (b : Buffer) → Left env (env.script h) b
      → OfRun env o b
  captured h e b l = subst (λ g. Left env (env.script g) b) e l

  init-Sound : Sound env o (init env o []).0 (init env o []).1
  unfolding init
  init-Sound =
      let cl = o.cluster_name in
      let close : Capture → Run (Unit {0}) = λ c. finish env o c.buffer in
      let hold : Capture → Run (Unit {0}) = λ c. keep env o c >> close c in
      bind_post (λ r h. Cleared r h × (h ≡ (preflight env o []).1)) (Sound env o) (preflight env o)
        (λ u. capture env o >>= hold) [] (preflight-Cleared env o, refl)
        (λ u h t.
          bind_post (Ready env o (Left env (env.script h))) (Sound env o) (capture env o) hold h
            (capture-Ready env o h t.0.0 t.0.1 t.0.2)
            (λ c h' t'.
              bind_post (Kept cl c) (Sound env o) (keep env o c) (λ v. close c) h'
                (keep-Kept env o c h' t'.0)
                (λ v h'' t''.
                  last (close c h'').0 (close c h'').1
                    (finish-Finished env o c.buffer h'' t''.0 t''.1 t''.2))
                (λ e h'' t''.
                  Closed-weaken cl (λ b. b ≡ c.buffer) (OfRun env o) e h''
                    (λ b p. captured h t.1 b (subst (Left env (env.script h)) (sym p) t'.1)) t''))
            (λ e h' t'.
              Closed-weaken cl (Left env (env.script h)) (OfRun env o) e h' (captured h t.1) t'))
        (λ e h t. free e h t.0)

-- Whatever the other systems answer, and however the run ends: the script runs only right after the
-- tree was found clean, the vault was not seen finalised (an annotation that cannot be read stops
-- nothing) and the head was there; a file gets its name only when its path was found outside every
-- git tree and its text was written, made the owner's only, synced and closed; the commit is made
-- only when five texts, under the numbers one to five in order, were put into the encrypted file and
-- each was found right after in the file decrypted; a file is removed only right after a commit
-- without an error, and only one that was linked since the last look for a home directory; no share
-- is applied, no access set up and no token revoked before a commit without an error.
pub init-Guard : (env : Env) (o : Options) → Each Guard (init env o []).1
init-Guard env o = (init-Sound env o).0

-- What each outcome says of the shares and the root token. Success: a commit was made without an
-- error, and the last call asked the vault to revoke the root token, whatever it answered. An error
-- `preserved` names a file that was linked with the rendering of the buffer that the script's
-- payloads left, whose count of shares held it gives, and not removed since. An error `lost` gives
-- that count, and the last try made no file. The buffer is that of each payload's keys laid at their
-- places over what was there, up to and with the first payload that is refused. An error after the
-- commit comes with the commit made, and its cause tells whether the root token was asked to be
-- revoked or was not. With any other error no payload was handed over and nothing was committed.
pub init-Ended :
    (env : Env) (o : Options)
    → Ended o.cluster_name (OfRun env o) (init env o []).0 (init env o []).1
init-Ended env o = (init-Sound env o).1
