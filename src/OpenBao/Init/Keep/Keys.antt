-- ===== src/OpenBao/Init/Keep/Keys.antt =====
-- The way of the keys from the script's output into the encrypted file
-- (cli/internal/bootstrap/openbao/init.go).
use kube_dc_public.Prelude.{
  ◌≡◌, refl, ℕ, suc, true, false, Option, none, some, List, [], ◌∷◌, map, length, arith, subst,
  ◌==◌,
}
use kube_dc_public.Prelude.Text.{Text, contains}
use kube_dc_public.Prelude.Engine.{Outcome, ok, err, bind_post, ◌>>◌}
use kube_dc_public.Secrets.{Buffer, get_at, share}
use kube_dc_public.OpenBao.Init.{
  Options, Script, Event, share_encrypted, decrypted, ShareError, BaoInitJson, Error, Env,
}
use kube_dc_public.OpenBao.Init.Payload.{check_payload}
use kube_dc_public.OpenBao.Init.Payload.Held.{IsLast, accepted}
use kube_dc_public.OpenBao.Init.Capture.{Capture, capture}
use kube_dc_public.OpenBao.Init.Capture.Keys.{FromScript, capture-FromScript}
use kube_dc_public.OpenBao.Init.Keep.{ShareRun, present, write_and_verify, write_and_verify_shares}

-- After `h` the texts, and nothing else, were put into the encrypted file under the numbers from
-- `i + 1` on, in order, and each was found in the file decrypted right after.
abbrev pub Encrypted : ℕ → List Text → List Event → List Event → Type 0
Encrypted i [] h k = k ≡ h
Encrypted i (s ∷ ss) h k =
    (file : Text) × (contains s file ≡ true)
    × Encrypted (suc i) ss (decrypted (some file) ∷ share_encrypted (suc i) s true ∷ h) k

abbrev One : ℕ → Text → List Event → Outcome ShareError (Unit {0}) → List Event → Type 0
One i s h (ok u) k =
    (file : Text) × (contains s file ≡ true)
    × (k ≡ decrypted (some file) ∷ share_encrypted (suc i) s true ∷ h)
One i s h (err e) k = Unit {0}

write_and_verify-One :
    (env : Env) (b : Buffer) (i : ℕ) (s : Text) (h : List Event)
    → share b i ≡ ok (some s)
    → One i s h (write_and_verify env b i h).0 (write_and_verify env b i h).1
unfolding write_and_verify present
write_and_verify-One env b i s h e = ground (arith, e)

abbrev pub Put : ℕ → List Text → List Event → Outcome ShareError (Unit {0}) → List Event → Type 0
Put i ss h (ok u) k = Encrypted i ss h k
Put i ss h (err e) k = Unit {0}

glued :
    (i : ℕ) (s : Text) (ss : List Text) (h m : List Event) (r : Outcome ShareError (Unit {0}))
    (k : List Event)
    → One i s h (ok tt) m
    → Put (suc i) ss m r k
    → Put i (s ∷ ss) h r k
glued i s ss h m (ok u) k (file, c, e) p = (file, c, subst (λ x. Encrypted (suc i) ss x k) e p)
glued i s ss h m (err x) k o p = tt

last :
    (i : ℕ) (s : Text) (h : List Event) (r : Outcome ShareError (Unit {0})) (k : List Event)
    → One i s h r k
    → Put i (s ∷ []) h r k
last i s h (ok u) k o = o
last i s h (err e) k o = tt

module _ (env : Env) (b : Buffer) where
  then :
      (i : ℕ) (s : Text) (ss : List Text) (next : ShareRun (Unit {0})) (h : List Event)
      → share b i ≡ ok (some s)
      → ((m : List Event) → Put (suc i) ss m (next m).0 (next m).1)
      → Put i
          (s ∷ ss)
          h
          ((write_and_verify env b i >> next) h).0
          ((write_and_verify env b i >> next) h).1
  then i s ss next h e n =
      bind_post (One i s h) (Put i (s ∷ ss) h) (write_and_verify env b i) (λ u. next) h
        (write_and_verify-One env b i s h e)
        (λ u m o. glued i s ss h m (next m).0 (next m).1 o (n m)) (λ x m o. tt)

  share_at :
      (i : ℕ) (places : List (Option Text)) (s : Text)
      → b.scrubbed ≡ false
      → b.shares ≡ places
      → get_at places i ≡ some s
      → share b i ≡ ok (some s)
  unfolding share
  share_at i places s n e g = ground (arith, n, e, g)

  write_and_verify_shares-Put :
      (ks : List Text) (h : List Event)
      → (length ks == 5) ≡ true
      → b.scrubbed ≡ false
      → b.shares ≡ map some ks
      → Put 0 ks h (write_and_verify_shares env b h).0 (write_and_verify_shares env b h).1
  unfolding write_and_verify_shares get_at
  write_and_verify_shares-Put (k0 ∷ k1 ∷ k2 ∷ k3 ∷ k4 ∷ []) h l n e =
      let w : ℕ → ShareRun (Unit {0}) = write_and_verify env b in
      let at : (i : ℕ) (s : Text)
          → get_at (some k0 ∷ some k1 ∷ some k2 ∷ some k3 ∷ some k4 ∷ []) i ≡ some s
          → share b i ≡ ok (some s) =
        λ i s g. share_at i (some k0 ∷ some k1 ∷ some k2 ∷ some k3 ∷ some k4 ∷ []) s n e g in
      then 0 k0 (k1 ∷ k2 ∷ k3 ∷ k4 ∷ []) (w 1 >> (w 2 >> (w 3 >> w 4))) h (at 0 k0 refl) (λ h1.
        then 1 k1 (k2 ∷ k3 ∷ k4 ∷ []) (w 2 >> (w 3 >> w 4)) h1 (at 1 k1 refl) (λ h2.
          then 2 k2 (k3 ∷ k4 ∷ []) (w 3 >> w 4) h2 (at 2 k2 refl) (λ h3.
            then 3 k3 (k4 ∷ []) (w 4) h3 (at 3 k3 refl)
              (λ h4. last 4 k4 h4 _ _ (write_and_verify-One env b 4 k4 h4 (at 4 k4 refl))))))
  write_and_verify_shares-Put ks h l n e = absurd (ground arith)

-- What becomes of the keys of the script that was run at `h`: a capture that succeeds is followed
-- by the step that puts them into the file.
abbrev pub Carried : Env → List Event → Outcome Error Capture → List Event → Type 0
Carried env h (ok c) k =
    (s : Script) × (env.script h ≡ some s)
    × ((q : BaoInitJson) × IsLast env.decode s.payloads q
        × (check_payload q ≡ none)
        × Put 0 q.unseal_keys k (write_and_verify_shares env c.buffer k).0
            (write_and_verify_shares env c.buffer k).1)
Carried env h (err e) k = Unit {0}

-- When the capture succeeds, the last payload of the script decodes and passes the check; and when
-- the five shares are then written and verified without an error, the calls made for it are just
-- these: each key of that payload, in order, is put into the encrypted file under its number, and
-- is found right after in the file decrypted.
pub capture-Carried :
    (env : Env) (o : Options) (h : List Event)
    → Carried env h (capture env o h).0 (capture env o h).1
capture-Carried env o h =
    carried (capture env o h).0 (capture env o h).1 (capture-FromScript env o h)
  where
    carried :
        (r : Outcome Error Capture) (k : List Event)
        → FromScript env o (env.script h) r k
        → Carried env h r k
    carried (ok c) k (s, e, (q, l, p, (shares, token, n))) = (
      s,
      e,
      (q, l, p, write_and_verify_shares-Put env c.buffer q.unseal_keys k (accepted q p).0 n shares),
    )
    carried (err x) k u = tt
