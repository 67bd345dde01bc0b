-- ===== src/GpuUpgrade/Gate/Tests.antt =====
-- A record that qualifies an upgrade, and instances of the theorems.
use kube_dc_public.Prelude.{◌≡◌, refl, true, none, some, [], ◌∷◌}
use kube_dc_public.Prelude.Text.{
  codes, text_eq, is_blank, trim_space, trim_left, is_space, has_prefix, remove_prefix, cut_at,
  join,
}
use kube_dc_public.Prelude.Decimal.{digits, digits_from}
use kube_dc_public.Prelude.Engine.{ok}
use kube_dc_public.GpuUpgrade.{
  Target, Qualification, Request, canonical_hardware, scan_hardware, sort, insert, text_leb,
  canonical_value, to_lower, is_pci, after_hex, after_sign, is_hex, is_any_hex, is_revision, is_id,
  is_id_rest, is_id_end, is_lower, is_digit,
}
use kube_dc_public.GpuUpgrade.Gate.{
  atoi_digits, version_of, patch_and_revision, minor_and_rest, rke2_version, validate_rke2_step,
  is_downgrade, step_problem, problems, verdict, record_problems, hardware_problems, in_records,
  target_problems, field_problems, target_eq, step_problems, time_problems, canary_problems, check,
  result_of,
}
use kube_dc_public.GpuUpgrade.Gate.Passed.{IsQualified, check-IsQualified}

abbrev current : Target
current = record {
  kernel = codes "6.8";
  rke2 = codes "v1.30.4+rke2r1";
  driver = codes "550";
  gpu_operator = codes "24.6";
  dcgm_exporter = codes "3.3";
}

abbrev next : Target
next = record current { rke2 = codes "v1.31.1+rke2r1" }

abbrev record_of : Qualification
record_of = record {
  api_version = codes "kube-dc.io/v1alpha1";
  kind = codes "GPUUpgradeQualification";
  id = codes "a100.1";
  state = codes "qualified";
  approved_by = codes "ops";
  source_revision = codes "0123456789abcdef0123456789abcdef01234567";
  hardware = codes "10DE:20b5/10de:1533" ∷ [];
  target = next;
  canary = record {
    completed_at = codes "2026-01-01T00:00:00Z";
    allocation_passed = true;
    monitoring_passed = true;
    rollback_passed = true;
    evidence = codes "run 12";
  };
}

abbrev request : Request
request = record {
  current = current;
  target = next;
  hardware = codes "10de:20b5/10de:1533 " ∷ [];
  now = some 1000;
  max_age = 0;
}

let_through : check (λ t. some 500) 0 record_of request ≡ ok (result_of record_of (some 500))
unfolding check problems verdict record_problems hardware_problems in_records target_problems
    field_problems target_eq step_problems validate_rke2_step step_problem is_downgrade rke2_version
    minor_and_rest patch_and_revision version_of atoi_digits time_problems canary_problems
    canonical_hardware scan_hardware sort insert text_leb canonical_value to_lower is_pci after_hex
    after_sign is_hex is_any_hex is_revision is_id is_id_rest is_id_end is_lower is_digit is_blank
    trim_space trim_left is_space has_prefix remove_prefix cut_at join text_eq digits digits_from
let_through = refl

check-IsQualified_example : IsQualified (λ t. some 500) 0 record_of request
check-IsQualified_example =
    ((check-IsQualified (λ t. some 500) 0 record_of request (result_of record_of (some 500))).0
      let_through).0

one_minor : validate_rke2_step current.rke2 next.rke2 ≡ none
unfolding validate_rke2_step step_problem is_downgrade rke2_version minor_and_rest
    patch_and_revision version_of atoi_digits has_prefix remove_prefix cut_at digits digits_from
one_minor = refl

-- Minors out of range are taken for the same.
lower_minor :
    validate_rke2_step
      (codes "v1.99999999999999999999.0+rke2r1")
      (codes "v1.88888888888888888888.0+rke2r1")
    ≡ none
unfolding validate_rke2_step step_problem is_downgrade rke2_version minor_and_rest
    patch_and_revision version_of atoi_digits has_prefix remove_prefix cut_at digits digits_from
lower_minor = refl
