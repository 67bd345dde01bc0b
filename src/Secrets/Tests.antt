-- ===== src/Secrets/Tests.antt =====
-- A buffer with one share and the token, before and after it is scrubbed.
use kube_dc_public.Prelude.{◌≡◌, refl, some, List, [], ◌∷◌}
use kube_dc_public.Prelude.Text.{codes}
use kube_dc_public.Secrets.{
  share_count, set_share, set_root_token, new_buffer, count_set, put_at, scrub,
}
use kube_dc_public.Secrets.History.{
  Call, share_set, root_token_set, scrub_called, after, Reads, after-Reads,
}

abbrev calls : List Call
calls = root_token_set (some (codes "s.root")) ∷ share_set 3 (some (codes "abc")) ∷ []

one_share : share_count (after calls) ≡ 1
unfolding share_count set_share set_root_token new_buffer count_set put_at
one_share = refl

none_left : share_count (after (scrub_called ∷ calls)) ≡ 0
unfolding share_count scrub set_root_token set_share new_buffer
none_left = refl

after-Reads_example : Reads (share_set 1 (some (codes "late")) ∷ scrub_called ∷ calls)
after-Reads_example = after-Reads (share_set 1 (some (codes "late")) ∷ scrub_called ∷ calls)
