-- ===== src/Prelude/Decimal.antt =====
-- Decimal integers in Go's `int`, of 64 bits.
use Prim.Native.Nat.{ℕ, zero, suc, ◌+◌, ◌-◌, ◌*◌, ◌^◌}
use mathlib.Core.Bool.{◌&&◌}
use mathlib.Core.Option.{Option, none, some}
use mathlib.Core.List.{[], ◌∷◌}
use kube_dc_public.Prelude.Tests.{leb, ◌==◌, if◌then◌else◌}
use kube_dc_public.Prelude.Text.{Text}

-- `negsuc n` is -(n + 1).
pub data ℤ : Type 0 where
  pos : ℕ → ℤ
  negsuc : ℕ → ℤ

-- The value of digits behind those that gave `n`.
unfoldable pub digits_from : ℕ → Text → Option ℕ
digits_from n [] = some n
digits_from n (c ∷ s) =
    let rest = digits_from (n * 10 + (c - b'0')) s in
    if leb b'0' c && leb c b'9' then rest else none

unfoldable pub digits : Text → Option ℕ
unfolding digits_from
digits [] = none
digits (c ∷ s) = digits_from 0 (c ∷ s)

abbrev pub max_int : ℕ
max_int = 2 ^ 63 - 1

unfoldable pub to_positive : Option ℕ → Option ℤ
to_positive none = none
to_positive (some n) = if leb n max_int then some (pos n) else none

unfoldable pub to_negative : Option ℕ → Option ℤ
to_negative none = none
to_negative (some zero) = some (pos 0)
to_negative (some (suc n)) = if leb n max_int then some (negsuc n) else none

-- strconv.Atoi; none is its error.
unfoldable pub atoi : Text → Option ℤ
unfolding digits to_positive to_negative
atoi [] = none
atoi (c ∷ s) =
    if c == b'-'
    then to_negative (digits s)
    else if c == b'+'
    then to_positive (digits s)
    else to_positive (digits (c ∷ s))
