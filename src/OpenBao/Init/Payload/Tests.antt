-- ===== src/OpenBao/Init/Payload/Tests.antt =====
-- A payload with holes, and an instance of the theorem.
use kube_dc_public.Prelude.{◌≡◌, refl, [], ◌∷◌}
use kube_dc_public.Prelude.Text.{codes}
use kube_dc_public.Secrets.{new_buffer, set_share, put_at, get_at, share_count, count_set}
use kube_dc_public.OpenBao.Init.{BaoInitJson}
use kube_dc_public.OpenBao.Init.Payload.{
  store_keys, store_payload, first_empty, check_payload, listed, written_shares,
}
use kube_dc_public.OpenBao.Init.Payload.Whole.{IsWhole, stored, check_payload-IsWhole}

-- Three shares are held, and one is written.
two_lost :
    written_shares (stored ([] ∷ [] ∷ codes "s3" ∷ codes "s4" ∷ codes "s5" ∷ []) [])
    ≡ codes "s3" ∷ []
unfolding written_shares store_payload store_keys listed new_buffer set_share put_at get_at
    share_count count_set
two_lost = refl

abbrev payload : BaoInitJson
payload = record {
  unseal_keys = codes "s1" ∷ codes "s2" ∷ codes "s3" ∷ codes "s4" ∷ codes "s5" ∷ [];
  root_token = codes "hvs.root";
}

check_payload-IsWhole_example : IsWhole payload (store_payload payload new_buffer)
check_payload-IsWhole_example =
    check_payload-IsWhole payload (unfold check_payload first_empty in refl)
