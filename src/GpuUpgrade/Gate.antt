-- ===== src/GpuUpgrade/Gate.antt =====
-- The versions, and `Check` (cli/internal/bootstrap/gpuupgrade/gate.go).
pub mod Hardware
pub mod Parts
pub mod Passed
pub mod Step
mod Tests
use kube_dc_public.Prelude.{
  ℕ, zero, suc, ◌+◌, ◌-◌, ◌*◌, min, Bool, true, false, not, Option, none, some, List, [], ◌∷◌, ◌++◌,
  all, is_empty, leb, ltb, ◌==◌, ◌||◌, ◌&&◌, if◌then◌else◌,
}
use kube_dc_public.Prelude.Text.{
  Text, codes, text_eq, is_blank, has_prefix, remove_prefix, cut_at, join,
}
use kube_dc_public.Prelude.Decimal.{digits, max_int}
use kube_dc_public.Prelude.Engine.{Outcome, ok, err}
use kube_dc_public.GpuUpgrade.{
  Target, Canary, Qualification, Request, Result, Rke2Problem, not_a_version, downgrade,
  skips_a_minor, Problem, wrong_kind, bad_id, not_qualified, not_approved, bad_revision, in_record,
  hardware_mismatch, value_missing, value_unqualified, nothing_changes, bad_step, bad_time,
  in_the_future, too_old, canary_failed, no_evidence, is_id, is_revision, to_lower,
  canonical_hardware,
}

-- strconv.Atoi on digits, whose error is passed over: a number out of range is the largest.
pub atoi_digits : Text → Option ℕ
unfolding digits
atoi_digits s = elim (digits s) [ none ↦ none | some n ↦ some (min n max_int) ]

-- The minor, the patch and the revision.
pub record Version : Type 0 where
  pub minor : ℕ
  pub patch : ℕ
  pub revision : ℕ

pub version_of : Option ℕ → Option ℕ → Option ℕ → Option Version
version_of (some a) (some b) (some c) = some (record { minor = a; patch = b; revision = c })
version_of _ _ _ = none

pub patch_and_revision : Option ℕ → Option (Text × Text) → Option Version
unfolding version_of atoi_digits
patch_and_revision minor none = none
patch_and_revision minor (some (b, c)) = version_of minor (atoi_digits b) (atoi_digits c)

pub minor_and_rest : Option (Text × Text) → Option Version
unfolding patch_and_revision atoi_digits cut_at
minor_and_rest none = none
minor_and_rest (some (a, rest)) = patch_and_revision (atoi_digits a) (cut_at (codes "+rke2r") rest)

abbrev pub without_v : Text → Text
without_v s = if has_prefix (codes "v") s then remove_prefix (codes "v") s else s

-- rke2Pattern and its numbers.
pub rke2_version : Text → Option Version
unfolding minor_and_rest cut_at has_prefix remove_prefix
rke2_version s =
    let t = without_v s in
    if has_prefix (codes "1.") t
    then minor_and_rest (cut_at (codes ".") (remove_prefix (codes "1.") t))
    else none

pub is_downgrade : Version → Version → Bool
is_downgrade from to =
    ltb to.minor from.minor
    || (to.minor == from.minor && ltb to.patch from.patch)
    || (to.minor == from.minor && to.patch == from.patch && ltb to.revision from.revision)

-- The difference of the minors is not negative where it is tested.
pub step_problem : Option Version → Option Version → Option Rke2Problem
unfolding is_downgrade
step_problem (some from) (some to) =
    if is_downgrade from to
    then some downgrade
    else if ltb 1 (to.minor - from.minor)
    then some skips_a_minor
    else none
step_problem _ _ = some not_a_version

pub validate_rke2_step : Text → Text → Option Rke2Problem
unfolding step_problem rke2_version
validate_rke2_step current target = step_problem (rke2_version current) (rke2_version target)

-- A problem unless a test holds.
abbrev pub unless : Bool → Problem → List Problem
unless b p = if b then [] else p ∷ []

abbrev pub commas : List Text → Text
commas ss = join ss (codes ",")

pub in_records : List Problem → List Problem
in_records [] = []
in_records (p ∷ ps) = in_record p ∷ in_records ps

pub hardware_problems : List Text → List Text → List Problem
unfolding canonical_hardware in_records join text_eq
hardware_problems requested recorded =
    let (want, want_problems) = canonical_hardware requested in
    let (got, got_problems) = canonical_hardware recorded in
    want_problems
    ++ (in_records got_problems
        ++ unless (is_empty want || text_eq (commas want) (commas got)) hardware_mismatch)

pub field_problems : Text → Text → Text → Text → List Problem
unfolding text_eq is_blank
field_problems name current target qualified =
    unless (not (is_blank current) && not (is_blank target)) (value_missing name)
    ++ unless (text_eq target qualified) (value_unqualified name)

pub target_problems : Target → Target → Target → List Problem
unfolding field_problems
target_problems c t q =
    field_problems (codes "kernel") c.kernel t.kernel q.kernel
    ++ (field_problems (codes "rke2") c.rke2 t.rke2 q.rke2
        ++ (field_problems (codes "driver") c.driver t.driver q.driver
            ++ (field_problems (codes "gpuOperator") c.gpu_operator t.gpu_operator q.gpu_operator
                ++ field_problems (codes "dcgmExporter") c.dcgm_exporter t.dcgm_exporter
                    q.dcgm_exporter)))

pub target_eq : Target → Target → Bool
unfolding text_eq
target_eq a b =
    text_eq a.kernel b.kernel
    && text_eq a.rke2 b.rke2
    && text_eq a.driver b.driver
    && text_eq a.gpu_operator b.gpu_operator
    && text_eq a.dcgm_exporter b.dcgm_exporter

pub step_problems : Text → Text → List Problem
unfolding validate_rke2_step
step_problems current target = elim (validate_rke2_step current target) [
  | none ↦ []
  | some p ↦ bad_step p ∷ []
]

abbrev pub second : ℕ
second = 1000000000

abbrev pub default_max_age : ℕ
default_max_age = 30 * 24 * 3600 * second

abbrev pub age_limit : ℕ → ℕ
age_limit max_age = if max_age == 0 then default_max_age else max_age

pub time_problems : ℕ → ℕ → Option ℕ → List Problem
time_problems now max_age none = bad_time ∷ []
time_problems now max_age (some completed) =
    if ltb (now + 300 * second) completed
    then in_the_future ∷ []
    else unless (leb now (completed + age_limit max_age)) too_old

pub record_problems : Qualification → List Problem
unfolding is_id is_revision text_eq is_blank
record_problems q =
    unless
      (text_eq q.api_version (codes "kube-dc.io/v1alpha1")
        && text_eq q.kind (codes "GPUUpgradeQualification"))
      wrong_kind
    ++ (unless (is_id q.id) bad_id
        ++ (unless (text_eq q.state (codes "qualified")) not_qualified
            ++ (unless (not (is_blank q.approved_by)) not_approved
                ++ unless (is_revision q.source_revision) bad_revision)))

pub canary_problems : Canary → List Problem
unfolding is_blank
canary_problems c =
    unless (c.allocation_passed && c.monitoring_passed && c.rollback_passed) canary_failed
    ++ unless (not (is_blank c.evidence)) no_evidence

-- The clock is read if the request has no time.
abbrev pub now_of : ℕ → Request → ℕ
now_of clock r = elim r.now [ none ↦ clock | some t ↦ t ]

-- `parse_time` is time.Parse with RFC3339.
pub problems : (Text → Option ℕ) → ℕ → Qualification → Request → List Problem
unfolding record_problems hardware_problems target_problems target_eq step_problems time_problems
    canary_problems
problems parse_time clock q r =
    record_problems q
    ++ (hardware_problems r.hardware q.hardware
        ++ (target_problems r.current r.target q.target
            ++ (unless (not (target_eq r.current r.target)) nothing_changes
                ++ (step_problems r.current.rke2 r.target.rke2
                    ++ (time_problems (now_of clock r) r.max_age (parse_time q.canary.completed_at)
                        ++ canary_problems q.canary)))))

pub result_of : Qualification → Option ℕ → Result
unfolding to_lower
result_of q completed = record {
  qualification_id = q.id;
  completed_at = elim completed [ none ↦ 0 | some t ↦ t ];
  source_revision = to_lower q.source_revision;
  approved_by = q.approved_by;
}

pub verdict : List Problem → Result → Outcome (List Problem) Result
verdict [] r = ok r
verdict (p ∷ ps) r = err (p ∷ ps)

pub check : (Text → Option ℕ) → ℕ → Qualification → Request → Outcome (List Problem) Result
unfolding problems verdict result_of
check parse_time clock q r =
    verdict (problems parse_time clock q r) (result_of q (parse_time q.canary.completed_at))
