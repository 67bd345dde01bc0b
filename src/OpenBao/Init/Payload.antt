-- ===== src/OpenBao/Init/Payload.antt =====
-- The shares between the script's output, the buffer and a file
-- (cli/internal/bootstrap/openbao/init.go).
pub mod Whole
pub mod Held
pub mod Overlay
mod Tests
use kube_dc_public.Prelude.{
  ℕ, zero, suc, ◌+◌, Bool, true, false, not, Option, none, some, List, [], ◌∷◌, ◌++◌, length,
  is_empty, ◌==◌, if◌then◌else◌,
}
use kube_dc_public.Prelude.Text.{Text, codes, trim_space}
use kube_dc_public.Prelude.Engine.{Outcome, ok, err}
use kube_dc_public.Secrets.{Buffer, set_share, set_root_token, get_at, share, share_count}
use kube_dc_public.OpenBao.Init.{
  BaoInitJson, PayloadError, empty_payload, not_json, key_count, key_empty, root_token_absent,
}

-- The keys from number `i` on; an empty one leaves a hole.
pub store_keys : ℕ → List Text → Buffer → Buffer
unfolding set_share
store_keys i [] b = b
store_keys i (k ∷ ks) b = store_keys (i + 1) ks (if is_empty k then b else set_share i (some k) b)

pub store_payload : BaoInitJson → Buffer → Buffer
unfolding store_keys set_root_token
store_payload p b =
    let b' = store_keys 0 p.unseal_keys b in
    if is_empty p.root_token then b' else set_root_token (some p.root_token) b'

pub first_empty : ℕ → List Text → Option ℕ
first_empty i [] = none
first_empty i (k ∷ ks) = let rest = first_empty (i + 1) ks in if is_empty k then some i else rest

pub check_payload : BaoInitJson → Option PayloadError
unfolding first_empty
check_payload p =
    if not (length p.unseal_keys == 5)
    then some (key_count (length p.unseal_keys))
    else elim (first_empty 0 p.unseal_keys) [
      | some i ↦ some (key_empty i)
      | none ↦ (if is_empty p.root_token then some root_token_absent else none)
    ]

pub load_decoded : Option BaoInitJson → Buffer → Buffer × Option PayloadError
unfolding store_payload check_payload
load_decoded none b = (b, some not_json)
load_decoded (some p) b = (store_payload p b, check_payload p)

-- The payload is stored first and checked then.
pub load_buffer_from_json :
    (Text → Option BaoInitJson) → Text → Buffer → Buffer × Option PayloadError
unfolding load_decoded trim_space
load_buffer_from_json decode payload b =
    if is_empty (trim_space payload)
    then (b, some empty_payload)
    else load_decoded (decode (trim_space payload)) b

abbrev header : Text → Text
header provenance =
    codes "# kube-dc OpenBao Shamir shares (5/3) — KEEP THIS FILE SAFE.\n# "
    ++ (provenance
        ++ codes
            "\n# Mode 0600 + outside any git tree.\n# The root token is NOT recorded — Init revokes it after capture.\n")

abbrev warning : ℕ → Text
warning n =
    if n == 5
    then []
    else codes "# WARNING: PARTIAL CAPTURE — "
      ++ ((b'0' + n) ∷ codes " of 5 shares. Unsealing needs 3.\n")

-- The shares that the loop writes, of those at the places `i` and the `left` next ones.
pub listed : List (Option Text) → ℕ → ℕ → List Text
unfolding get_at
listed places i zero = []
listed places i (suc left) =
    let rest = listed places (i + 1) left in
    elim (get_at places i) [ none ↦ rest | some s ↦ (if is_empty s then rest else s ∷ rest) ]

pub items : List Text → Text
items [] = []
items (s ∷ ss) = codes "    - " ++ (s ++ (10 ∷ items ss))

-- The loop runs to the number of the shares held. A buffer that was scrubbed has none.
pub written_shares : Buffer → List Text
unfolding listed share_count
written_shares b = listed b.shares 0 (share_count b)

pub render_shares : Buffer → Text → Option Text
unfolding written_shares items share_count
render_shares b provenance =
    let ss = written_shares b in
    if is_empty ss
    then none
    else some (
        header provenance
        ++ (warning (share_count b) ++ (codes "openbao:\n  shares:\n" ++ items ss)))
