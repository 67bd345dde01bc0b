-- ===== src/OpenBao/Init/Payload/Held.antt =====
-- An accepted payload in a buffer that may hold others
-- (cli/internal/bootstrap/openbao/init.go, cli/internal/bootstrap/secrets/buffer.go).
use kube_dc_public.Prelude.{
  ◌≡◌, refl, ℕ, zero, suc, ◌+◌, Bool, true, false, Option, none, some, List, [], ◌∷◌, length, map,
  is_empty, ◌==◌, arith, if◌then◌else◌,
}
use kube_dc_public.Prelude.Text.{Text, trim_space}
use kube_dc_public.Secrets.{Buffer, set_share, set_root_token, put_at}
use kube_dc_public.OpenBao.Init.{BaoInitJson}
use kube_dc_public.OpenBao.Init.Payload.{
  store_keys, store_payload, first_empty, check_payload, load_decoded, load_buffer_from_json,
}

-- A buffer that can be written to.
abbrev pub IsOpen : Buffer → Type 0
IsOpen b = (b.scrubbed ≡ false) × (length b.shares ≡ 5)

-- The buffer holds the keys of the payload at their places, and its token.
abbrev pub IsHeld : BaoInitJson → Buffer → Type 0
IsHeld q b =
    (b.shares ≡ map some q.unseal_keys) × (b.root_token ≡ some q.root_token) × (b.scrubbed ≡ false)

-- The last of the texts is this payload.
abbrev pub IsLast : (Text → Option BaoInitJson) → List Text → BaoInitJson → Type 0
IsLast decode [] q = ⊥
IsLast decode (t ∷ []) q = decode (trim_space t) ≡ some q
IsLast decode (t ∷ u ∷ ts) q = IsLast decode (u ∷ ts) q

length-put_at :
    (xs : List (Option Text)) (i : ℕ) (v : Option Text) → length (put_at xs i v) ≡ length xs
unfolding put_at
length-put_at [] i v = refl
length-put_at (x ∷ xs) zero v = refl
length-put_at (x ∷ xs) (suc i) v = omega (arith, length-put_at xs i v)

set_share-IsOpen : (i : ℕ) (v : Option Text) (b : Buffer) → IsOpen b → IsOpen (set_share i v b)
unfolding set_share
set_share-IsOpen i v b o = ground (arith, length-put_at b.shares i v)

store_keys-IsOpen : (i : ℕ) (ks : List Text) (b : Buffer) → IsOpen b → IsOpen (store_keys i ks b)
unfolding store_keys
store_keys-IsOpen i [] b o = o
store_keys-IsOpen i (k ∷ ks) b o =
    store_keys-IsOpen (i + 1) ks (if is_empty k then b else set_share i (some k) b)
      (ground (arith, set_share-IsOpen i (some k) b o))

store_payload-IsOpen : (q : BaoInitJson) (b : Buffer) → IsOpen b → IsOpen (store_payload q b)
unfolding store_payload set_root_token
store_payload-IsOpen q b o = ground (arith, store_keys-IsOpen 0 q.unseal_keys b o)

-- An accepted payload takes the place of all that an open buffer had.
filled :
    (keys : List Text) (token : Text) (places : List (Option Text)) (t : Option Text)
    → (length keys == 5) ≡ true
    → first_empty 0 keys ≡ none
    → is_empty token ≡ false
    → length places ≡ 5
    → let q : BaoInitJson = record { unseal_keys = keys; root_token = token } in
      IsHeld q (store_payload q (record { shares = places; root_token = t; scrubbed = false }))
unfolding first_empty store_payload store_keys set_share set_root_token put_at
filled ((p ∷ a) ∷ (q ∷ b) ∷ (r ∷ c) ∷ (s ∷ d) ∷ (u ∷ e) ∷ []) (z ∷ w) (_ ∷ _ ∷ _ ∷ _ ∷ _ ∷ []) t l n
      f g =
    (refl, refl, refl)
filled keys token places t l n f g = absurd (ground arith)

pub accepted :
    (q : BaoInitJson)
    → check_payload q ≡ none
    → ((length q.unseal_keys == 5) ≡ true)
      × (first_empty 0 q.unseal_keys ≡ none)
      × (is_empty q.root_token ≡ false)
unfolding check_payload
accepted q e = ground arith

store_payload-IsHeld :
    (q : BaoInitJson) (b : Buffer)
    → IsOpen b
    → check_payload q ≡ none
    → IsHeld q (store_payload q b)
store_payload-IsHeld q b o e = unscrubbed b.scrubbed o.0
  where
    unscrubbed :
        (k : Bool)
        → k ≡ false
        → IsHeld q (
            store_payload q (record { shares = b.shares; root_token = b.root_token; scrubbed = k }))
    unscrubbed true n = absurd (ground arith)
    unscrubbed false n =
        let a = accepted q e in
        filled q.unseal_keys q.root_token b.shares b.root_token a.0 a.1 a.2 o.1

-- A capture that refused no payload holds the last one, which passes the check.
abbrev pub Holds : (Text → Option BaoInitJson) → List Text → Buffer → Type 0
Holds decode ts b = (q : BaoInitJson) × IsLast decode ts q × (check_payload q ≡ none) × IsHeld q b

load_decoded-Holds :
    (decode : Text → Option BaoInitJson) (t : Text) (d : Option BaoInitJson) (b : Buffer)
    → IsOpen b
    → decode (trim_space t) ≡ d
    → IsOpen (load_decoded d b).0
      × ((load_decoded d b).1 ≡ none → Holds decode (t ∷ []) (load_decoded d b).0)
unfolding load_decoded
load_decoded-Holds decode t none b o e = (o, λ n. absurd (ground arith))
load_decoded-Holds decode t (some q) b o e =
    (store_payload-IsOpen q b o, λ n. (q, e, n, store_payload-IsHeld q b o n))

-- A payload that is not refused is the one that the buffer then holds, whatever it held before.
pub load_buffer_from_json-Holds :
    (decode : Text → Option BaoInitJson) (t : Text) (b : Buffer)
    → IsOpen b
    → IsOpen (load_buffer_from_json decode t b).0
      × ((load_buffer_from_json decode t b).1 ≡ none
          → Holds decode (t ∷ []) (load_buffer_from_json decode t b).0)
unfolding load_buffer_from_json
load_buffer_from_json-Holds decode t b o =
    ground (arith, load_decoded-Holds decode t (decode (trim_space t)) b o refl)
