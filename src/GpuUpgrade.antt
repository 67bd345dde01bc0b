-- ===== src/GpuUpgrade.antt =====
-- cli/internal/bootstrap/gpuupgrade/gate.go: the gate of an upgrade of GPU nodes. The record comes
-- decoded. Times are nanoseconds on one clock; a duration of zero stands for one that is not
-- positive. Problems are values, without the texts that name them.
pub mod Load
pub mod Gate
use kube_dc_public.Prelude.{
  ℕ, zero, suc, ◌+◌, ◌-◌, ◌*◌, min, Bool, true, false, not, Option, none, some, List, [], ◌∷◌, ◌++◌,
  length, any, all, is_empty, leb, ltb, ◌==◌, ◌||◌, ◌&&◌, if◌then◌else◌,
}
use kube_dc_public.Prelude.Text.{
  Text, codes, text_eq, is_blank, trim_space, has_prefix, remove_prefix, cut_at, join,
}
use kube_dc_public.Prelude.Decimal.{digits, max_int}
use kube_dc_public.Prelude.Engine.{Outcome, ok, err}

pub record Target : Type 0 where
  pub kernel : Text
  pub rke2 : Text
  pub driver : Text
  pub gpu_operator : Text
  pub dcgm_exporter : Text

pub record Canary : Type 0 where
  pub completed_at : Text
  pub allocation_passed : Bool
  pub monitoring_passed : Bool
  pub rollback_passed : Bool
  pub evidence : Text

pub record Qualification : Type 0 where
  pub api_version : Text
  pub kind : Text
  pub id : Text
  pub state : Text
  pub approved_by : Text
  pub source_revision : Text
  pub hardware : List Text
  pub target : Target
  pub canary : Canary

pub record Request : Type 0 where
  pub current : Target
  pub target : Target
  pub hardware : List Text
  pub now : Option ℕ
  pub max_age : ℕ

pub record Result : Type 0 where
  pub qualification_id : Text
  pub completed_at : ℕ
  pub source_revision : Text
  pub approved_by : Text

pub data Rke2Problem : Type 0 where
  not_a_version downgrade skips_a_minor : Rke2Problem

pub data Problem : Type 0 where
  wrong_kind bad_id not_qualified not_approved bad_revision : Problem
  malformed_hardware duplicated_hardware : Text → Problem
  no_hardware : Problem
  in_record : Problem → Problem
  hardware_mismatch : Problem
  value_missing value_unqualified : Text → Problem
  nothing_changes : Problem
  bad_step : Rke2Problem → Problem
  bad_time in_the_future too_old canary_failed no_evidence : Problem

pub is_digit : ℕ → Bool
is_digit c = leb b'0' c && leb c b'9'

pub is_lower : ℕ → Bool
is_lower c = leb b'a' c && leb c b'z'

pub is_id_end : ℕ → Bool
unfolding is_lower is_digit
is_id_end c = is_lower c || is_digit c

pub is_id_rest : Text → Bool
unfolding is_id_end
is_id_rest [] = true
is_id_rest (c ∷ []) = is_id_end c
is_id_rest (c ∷ d ∷ s) =
    let rest = is_id_rest (d ∷ s) in (is_id_end c || c == b'.' || c == b'-') && rest

-- idPattern.
pub is_id : Text → Bool
unfolding is_id_rest is_id_end
is_id [] = false
is_id (c ∷ s) = is_id_end c && is_id_rest s

pub is_hex : ℕ → Bool
unfolding is_digit
is_hex c = is_digit c || (leb b'a' c && leb c b'f')

pub is_any_hex : ℕ → Bool
unfolding is_hex
is_any_hex c = is_hex c || (leb b'A' c && leb c b'F')

-- revisionPattern.
pub is_revision : Text → Bool
unfolding is_any_hex
is_revision s = length s == 40 && all is_any_hex s

-- `n` hexadecimal digits at the start, and what comes after them.
pub after_hex : ℕ → Text → Option Text
unfolding is_hex
after_hex zero s = some s
after_hex (suc n) [] = none
after_hex (suc n) (c ∷ s) = let rest = after_hex n s in if is_hex c then rest else none

pub after_sign : ℕ → Option Text → Option Text
after_sign q none = none
after_sign q (some []) = none
after_sign q (some (c ∷ s)) = if c == q then after_hex 4 s else none

-- pciPattern.
pub is_pci : Text → Bool
unfolding after_hex after_sign
is_pci s = elim (after_sign b':' (after_sign b'/' (after_sign b':' (after_hex 4 s)))) [
  | some [] ↦ true
  | _ ↦ false
]

-- strings.ToLower on ASCII.
pub to_lower : Text → Text
to_lower [] = []
to_lower (c ∷ s) = let rest = to_lower s in (if leb b'A' c && leb c b'Z' then c + 32 else c) ∷ rest

-- The order of strings.
pub text_leb : Text → Text → Bool
text_leb [] t = true
text_leb (c ∷ s) [] = false
text_leb (c ∷ s) (d ∷ t) = let rest = text_leb s t in ltb c d || (c == d && rest)

pub insert : Text → List Text → List Text
unfolding text_leb
insert s [] = s ∷ []
insert s (t ∷ ts) = let rest = insert s ts in if text_leb s t then s ∷ t ∷ ts else t ∷ rest

-- sort.Strings.
pub sort : List Text → List Text
unfolding insert
sort [] = []
sort (s ∷ ss) = insert s (sort ss)

pub canonical_value : Text → Text
unfolding to_lower trim_space
canonical_value raw = to_lower (trim_space raw)

-- The values found, the newest first, and the problems in order.
pub scan_hardware : List Text → List Text → List Text × List Problem
unfolding canonical_value is_pci text_eq
scan_hardware seen [] = (seen, [])
scan_hardware seen (raw ∷ raws) =
    let value = canonical_value raw in
    let bad = scan_hardware seen raws in
    let new = scan_hardware (value ∷ seen) raws in
    if not (is_pci value)
    then (bad.0, malformed_hardware raw ∷ bad.1)
    else if any (text_eq value) seen
    then (bad.0, duplicated_hardware raw ∷ bad.1)
    else new

pub canonical_hardware : List Text → List Text × List Problem
unfolding scan_hardware sort
canonical_hardware values =
    let (out, problems) = scan_hardware [] values in
    (sort out, problems ++ (if is_empty out then no_hardware ∷ [] else []))
