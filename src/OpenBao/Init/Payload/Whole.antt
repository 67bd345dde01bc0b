-- ===== src/OpenBao/Init/Payload/Whole.antt =====
-- An accepted payload between the script's output and a file
-- (cli/internal/bootstrap/openbao/init.go: `loadBufferFromJSON`, `renderSharesYAML`).
use kube_dc_public.Prelude.{
  ◌≡◌, refl, ℕ, true, false, none, some, List, [], ◌∷◌, length, is_empty, ◌==◌, arith,
}
use kube_dc_public.Prelude.Text.{Text}
use kube_dc_public.Secrets.{
  Buffer, new_buffer, set_share, set_root_token, put_at, get_at, count_set, share_count,
  root_token_of,
}
use kube_dc_public.Prelude.Engine.{ok}
use kube_dc_public.OpenBao.Init.{BaoInitJson}
use kube_dc_public.OpenBao.Init.Payload.{
  store_keys, store_payload, first_empty, check_payload, listed, written_shares,
}

-- All of a payload is in the buffer, and a file of the buffer's shares has them in order.
abbrev pub IsWhole : BaoInitJson → Buffer → Type 0
IsWhole payload b =
    (written_shares b ≡ payload.unseal_keys)
    × (share_count b ≡ 5)
    × (root_token_of b ≡ ok (some payload.root_token))

abbrev pub stored : List Text → Text → Buffer
stored keys token = store_payload (record { unseal_keys = keys; root_token = token }) new_buffer

five :
    (a b c d e w : Text) (p q r s t z : ℕ)
    → let keys = (p ∷ a) ∷ (q ∷ b) ∷ (r ∷ c) ∷ (s ∷ d) ∷ (t ∷ e) ∷ [] in
      IsWhole (record { unseal_keys = keys; root_token = z ∷ w }) (stored keys (z ∷ w))
unfolding written_shares store_payload store_keys listed new_buffer set_share set_root_token put_at
    get_at share_count count_set root_token_of
five a b c d e w p q r s t z = (refl, refl, refl)

whole :
    (keys : List Text) (token : Text)
    → (length keys == 5) ≡ true
    → first_empty 0 keys ≡ none
    → is_empty token ≡ false
    → IsWhole (record { unseal_keys = keys; root_token = token }) (stored keys token)
unfolding first_empty
whole ((p ∷ a) ∷ (q ∷ b) ∷ (r ∷ c) ∷ (s ∷ d) ∷ (t ∷ e) ∷ []) (z ∷ w) l n f =
    five a b c d e w p q r s t z
whole keys token l n f = absurd (ground arith)

accepted :
    (p : BaoInitJson)
    → check_payload p ≡ none
    → ((length p.unseal_keys == 5) ≡ true)
      × (first_empty 0 p.unseal_keys ≡ none)
      × (is_empty p.root_token ≡ false)
unfolding check_payload
accepted p e = ground arith

-- A payload that passes the check is held whole: the file of the shares has its five keys in its
-- order and no other, five shares are counted, and its root token is there.
pub check_payload-IsWhole :
    (p : BaoInitJson) → check_payload p ≡ none → IsWhole p (store_payload p new_buffer)
check_payload-IsWhole p e = let a = accepted p e in whole p.unseal_keys p.root_token a.0 a.1 a.2
