-- ===== src/OpenBao/Shares/Tests.antt =====
-- Runs of the extraction on small files, and instances of the theorems.
use kube_dc_public.Prelude.{◌≡◌, refl, List, [], ◌∷◌, All, map}
use kube_dc_public.Prelude.Text.{Text, codes}
use kube_dc_public.Prelude.Engine.{ok, err}
use kube_dc_public.OpenBao.Shares.{matches, extract_threshold_shares, extract_all_shares}
use kube_dc_public.OpenBao.Shares.Scan.{IsEntry, Entry, print, seen, written, matches-print}
use kube_dc_public.OpenBao.Shares.Extract.{
  Extracted, last_value, five, extract_threshold_shares-Extracted,
}

abbrev secrets : Text
secrets =
    codes
      "stringData:\n  OPENBAO_UNSEAL_KEY_1: a+/=\n\n  OPENBAO_UNSEAL_KEY_3:\n c\n OPENBAO_UNSEAL_KEY_2: b \nX_OPENBAO_UNSEAL_KEY_4: d\nOPENBAO_UNSEAL_KEY_5: e"

threshold_read : extract_threshold_shares secrets ≡ ok (codes "a+/=" ∷ codes "b" ∷ codes "c" ∷ [])
unfolding extract_threshold_shares
threshold_read = refl

fourth_missing : extract_all_shares secrets ≡ err (4 ∷ [])
unfolding extract_all_shares
fourth_missing = refl

-- The key number is read into 64 bits, so 2 ^ 64 + 1 passes for 1.
wrapped_number :
    extract_threshold_shares (
      codes
        "OPENBAO_UNSEAL_KEY_18446744073709551617: x\nOPENBAO_UNSEAL_KEY_2: y\nOPENBAO_UNSEAL_KEY_3: z")
    ≡ ok (codes "x" ∷ codes "y" ∷ codes "z" ∷ [])
unfolding extract_threshold_shares
wrapped_number = refl

abbrev lines : List Entry
lines = five (codes "Aa0") (codes "b/") (codes "c+") (codes "d=") (codes "e_-")

lines-IsEntry : All IsEntry lines
lines-IsEntry = (
  record { digit_ok = refl; some_share = refl; share_ok = refl },
  (
    record { digit_ok = refl; some_share = refl; share_ok = refl },
    (
      record { digit_ok = refl; some_share = refl; share_ok = refl },
      (
        record { digit_ok = refl; some_share = refl; share_ok = refl },
        (record { digit_ok = refl; some_share = refl; share_ok = refl }, tt),
      ),
    ),
  ),
)

matches-print_example : map seen (matches (print lines)) ≡ map written lines
matches-print_example = matches-print lines lines-IsEntry

extract_threshold_shares-Extracted_example :
    Extracted 3 (λ j. last_value j (matches secrets)) (extract_threshold_shares secrets)
extract_threshold_shares-Extracted_example = extract_threshold_shares-Extracted secrets
