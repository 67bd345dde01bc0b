-- ===== src/OidcCutover/Config/Tests.antt =====
-- Configurations with and without the API server's flags.
use kube_dc_public.Prelude.{◌≡◌, refl, true, List, [], ◌∷◌}
use kube_dc_public.Prelude.Text.{Text, codes, split, is_blank, text_eq, join}
use kube_dc_public.Prelude.Engine.{ok, err}
use kube_dc_public.OidcCutover.Config.{
  patch_config, inline_value, find_api_server_arg_block, find_block_from, opens_block,
  strip_comment, leading_spaces, unquote, cut_colon, managed_flags, spaces, webhook_flag,
  cache_ttl_flag, is_inline, patch_lines,
}
use kube_dc_public.OidcCutover.Config.Kept.{Stayed, patch_lines-Stayed}

no_block :
    patch_config (codes "token: x\n\n")
    ≡ ok (
      codes
          "token: x\nkube-apiserver-arg:\n  - authentication-token-webhook-config-file=/etc/rancher/oidc-webhook-kubeconfig.yaml\n  - authentication-token-webhook-cache-ttl=2m\n",
      true,
    )
unfolding patch_config find_api_server_arg_block find_block_from split opens_block is_blank
    strip_comment leading_spaces text_eq unquote cut_colon join managed_flags spaces webhook_flag
    cache_ttl_flag
no_block = refl

inline_list : patch_config (codes "token: x\nkube-apiserver-arg: [a=1]\n") ≡ err (inline_value 1)
unfolding patch_config find_api_server_arg_block find_block_from split opens_block is_blank
    strip_comment leading_spaces text_eq unquote cut_colon is_inline
inline_list = refl

abbrev audited : List Text
audited = codes "token: x" ∷ codes "kube-apiserver-arg:" ∷ codes "- audit-log-maxage=30" ∷ [] ∷ []

patch_lines-Stayed_example : Stayed audited (patch_lines audited)
patch_lines-Stayed_example = patch_lines-Stayed audited
