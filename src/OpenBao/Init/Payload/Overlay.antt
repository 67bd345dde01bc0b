-- ===== src/OpenBao/Init/Payload/Overlay.antt =====
-- What one payload, accepted or refused, leaves in a buffer
-- (cli/internal/bootstrap/openbao/init.go, cli/internal/bootstrap/secrets/buffer.go).
use kube_dc_public.Prelude.{
  ◌≡◌, ◌≢◌, ◌⊎◌, inl, inr, Bool-cases, refl, sym, ap, ℕ, zero, suc, ◌+◌, Bool, true, false, Option,
  none, some, List, [], ◌∷◌, is_empty, if◌then◌else◌, arith,
}
use kube_dc_public.Prelude.Text.{Text, trim_space}
use kube_dc_public.Secrets.{Buffer, set_share, set_root_token, put_at}
use kube_dc_public.OpenBao.Init.{PayloadError, empty_payload, BaoInitJson}
use kube_dc_public.OpenBao.Init.Payload.{
  store_keys, store_payload, check_payload, load_decoded, load_buffer_from_json,
}

-- The keys over the places, each at its own: one that is empty leaves what was there.
abbrev pub overlay : List Text → List (Option Text) → List (Option Text)
overlay [] places = places
overlay (k ∷ ks) [] = []
overlay (k ∷ ks) (p ∷ ps) = (if is_empty k then p else some k) ∷ overlay ks ps

-- The buffer after a payload: its keys over the places, and its token, if it has one. One that was
-- scrubbed takes nothing.
abbrev pub overlaid : BaoInitJson → Buffer → Buffer
overlaid q b = if b.scrubbed then b else record b {
  shares = overlay q.unseal_keys b.shares;
  root_token = if is_empty q.root_token then b.root_token else some q.root_token;
}

-- A text that is blank or no JSON is refused and leaves the buffer as it was; any other is laid over
-- it, whether or not its payload is refused.
abbrev pub Loads :
    (Text → Option BaoInitJson) → Text → Buffer → Buffer × Option PayloadError → Type 0
Loads decode t b (b', bad) =
    (((is_empty (trim_space t) ≡ true) ⊎ (decode (trim_space t) ≡ none)) × (b' ≡ b) × (bad ≢ none))
    ⊎ ((q : BaoInitJson) × (decode (trim_space t) ≡ some q)
        × (b' ≡ overlaid q b)
        × (bad ≡ check_payload q))

overlay_at : ℕ → List Text → List (Option Text) → List (Option Text)
overlay_at zero ks ps = overlay ks ps
overlay_at (suc i) ks [] = []
overlay_at (suc i) ks (p ∷ ps) = p ∷ overlay_at i ks ps

overlay_nothing : (i : ℕ) (ps : List (Option Text)) → overlay_at i [] ps ≡ ps
unfolding overlay_at
overlay_nothing zero ps = refl
overlay_nothing (suc i) [] = refl
overlay_nothing (suc i) (p ∷ ps) = ap (λ qs. p ∷ qs) (overlay_nothing i ps)

overlay_none : (i : ℕ) (ks : List Text) → overlay_at i ks [] ≡ []
unfolding overlay_at
overlay_none zero [] = refl
overlay_none zero (k ∷ ks) = refl
overlay_none (suc i) ks = refl

overlay_kept :
    (i : ℕ) (k : Text) (ks : List Text) (ps : List (Option Text))
    → is_empty k ≡ true
    → overlay_at (suc i) ks ps ≡ overlay_at i (k ∷ ks) ps
unfolding overlay_at
overlay_kept i k ks [] e = sym (overlay_none i (k ∷ ks))
overlay_kept zero k ks (p ∷ ps) e = rw e refl
overlay_kept (suc i) k ks (p ∷ ps) e = ap (λ qs. p ∷ qs) (overlay_kept i k ks ps e)

overlay_put :
    (i : ℕ) (k : Text) (ks : List Text) (ps : List (Option Text))
    → is_empty k ≡ false
    → overlay_at (suc i) ks (put_at ps i (some k)) ≡ overlay_at i (k ∷ ks) ps
unfolding overlay_at put_at
overlay_put i k ks [] e = sym (overlay_none i (k ∷ ks))
overlay_put zero k ks (p ∷ ps) e = rw e refl
overlay_put (suc i) k ks (p ∷ ps) e = ap (λ qs. p ∷ qs) (overlay_put i k ks ps e)

store_keys-overlay_at :
    (i : ℕ) (ks : List Text) (places : List (Option Text)) (token : Option Text)
    → store_keys i ks (record { shares = places; root_token = token; scrubbed = false })
      ≡ record { shares = overlay_at i ks places; root_token = token; scrubbed = false }
unfolding store_keys set_share
store_keys-overlay_at i [] places token =
    ap (λ ps. record { shares = ps; root_token = token; scrubbed = false })
      (sym (overlay_nothing i places))
store_keys-overlay_at i (k ∷ ks) places token =
    let step : i + 1 ≡ suc i = omega arith in
    elim (Bool-cases (is_empty k)) [
      | inl e ↦
          rw (e, store_keys-overlay_at (i + 1) ks places token, step)
            (ap (λ ps. record { shares = ps; root_token = token; scrubbed = false })
              (overlay_kept i k ks places e))
      | inr e ↦
          rw (e, store_keys-overlay_at (i + 1) ks (put_at places i (some k)) token, step)
            (ap (λ ps. record { shares = ps; root_token = token; scrubbed = false })
              (overlay_put i k ks places e))
    ]

store_keys_scrubbed :
    (i : ℕ) (ks : List Text) (b : Buffer) → b.scrubbed ≡ true → store_keys i ks b ≡ b
unfolding store_keys set_share
store_keys_scrubbed i [] b s = refl
store_keys_scrubbed i (k ∷ ks) b s =
    let same : (if is_empty k then b else set_share i (some k) b) ≡ b = ground (arith, s) in
    rw (same, store_keys_scrubbed (i + 1) ks b s) refl

store_payload-overlaid : (q : BaoInitJson) (b : Buffer) → store_payload q b ≡ overlaid q b
unfolding store_payload set_root_token overlay_at
store_payload-overlaid q b = of_scrubbed b.scrubbed
  where
    held : Bool → Buffer
    held k = record { shares = b.shares; root_token = b.root_token; scrubbed = k }

    of_scrubbed : (k : Bool) → store_payload q (held k) ≡ overlaid q (held k)
    of_scrubbed true = ground (arith, store_keys_scrubbed 0 q.unseal_keys (held true) refl)
    of_scrubbed false = ground (arith, store_keys-overlay_at 0 q.unseal_keys b.shares b.root_token)

load_decoded-Loads :
    (decode : Text → Option BaoInitJson) (t : Text) (d : Option BaoInitJson) (b : Buffer)
    → decode (trim_space t) ≡ d
    → Loads decode t b (load_decoded d b)
unfolding load_decoded
load_decoded-Loads decode t none b e = inl (inr e, refl, λ n. absurd (ground arith))
load_decoded-Loads decode t (some q) b e = inr (q, e, store_payload-overlaid q b, refl)

pub load_buffer_from_json-Loads :
    (decode : Text → Option BaoInitJson) (t : Text) (b : Buffer)
    → Loads decode t b (load_buffer_from_json decode t b)
unfolding load_buffer_from_json
load_buffer_from_json-Loads decode t b = chosen (is_empty (trim_space t)) refl
  where
    chosen :
        (k : Bool)
        → is_empty (trim_space t) ≡ k
        → Loads decode t b
            (if k then (b, some empty_payload) else load_decoded (decode (trim_space t)) b)
    chosen true e = inl (inl e, refl, λ n. absurd (ground arith))
    chosen false e = load_decoded-Loads decode t (decode (trim_space t)) b refl
