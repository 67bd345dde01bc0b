-- ===== src/GpuUpgrade/Gate/Parts.antt =====
-- The problems of each part of a request against its conditions (cli/internal/bootstrap/gpuupgrade/gate.go).
use kube_dc_public.Prelude.{
  ℕ, ◌+◌, ◌*◌, ◌≤◌, ◌≡◌, refl, subst, true, false, some, List, [], ◌∷◌, ◌++◌, is_empty, ◌||◌, arith,
}
use kube_dc_public.Prelude.Text.{Text, codes, text_eq, text_eq→eq, text_eq_refl, is_blank}
use kube_dc_public.GpuUpgrade.{
  Target, Canary, Qualification, Problem, hardware_mismatch, is_id, is_revision, canonical_hardware,
  sort,
}
use kube_dc_public.GpuUpgrade.Gate.Hardware.{
  values, IsList, sort_there, values_some, canonical_hardware-IsList, IsList-canonical_hardware,
}
use kube_dc_public.GpuUpgrade.Gate.{
  unless, commas, in_records, hardware_problems, field_problems, target_problems, second, age_limit,
  time_problems, record_problems, canary_problems,
}

append_nil : {A : Type 0} (xs ys : List A) → xs ++ ys ≡ [] → (xs ≡ []) × (ys ≡ [])
append_nil [] ys e = (refl, e)
append_nil (x ∷ xs) ys e = cc

pub record IsRecord (q : Qualification) : Type 0 where
  pub version : q.api_version ≡ codes "kube-dc.io/v1alpha1"
  pub kind : q.kind ≡ codes "GPUUpgradeQualification"
  pub id : is_id q.id ≡ true
  pub state : q.state ≡ codes "qualified"
  pub approved : is_blank q.approved_by ≡ false
  pub revision : is_revision q.source_revision ≡ true

-- A value that is there before and after, and is the qualified one.
pub record IsField (current target qualified : Text) : Type 0 where
  pub was : is_blank current ≡ false
  pub will_be : is_blank target ≡ false
  pub same : target ≡ qualified

pub record_problems-IsRecord : (q : Qualification) → record_problems q ≡ [] → IsRecord q
unfolding record_problems
record_problems-IsRecord q e = record {
  version = text_eq→eq q.api_version (codes "kube-dc.io/v1alpha1") (ground (arith, e));
  kind = text_eq→eq q.kind (codes "GPUUpgradeQualification") (ground (arith, e));
  id = ground (arith, e);
  state = text_eq→eq q.state (codes "qualified") (ground (arith, e));
  approved = ground (arith, e);
  revision = ground (arith, e);
}

pub field_problems-IsField : (n c t q : Text) → field_problems n c t q ≡ [] → IsField c t q
unfolding field_problems
field_problems-IsField n c t q e = record {
  was = ground (arith, e);
  will_be = ground (arith, e);
  same = text_eq→eq t q (ground (arith, e));
}

eq_text : (s t : Text) → s ≡ t → text_eq s t ≡ true
eq_text s t e = subst (λ x. text_eq s x ≡ true) e (text_eq_refl s)

pub IsRecord-record_problems : (q : Qualification) → IsRecord q → record_problems q ≡ []
unfolding record_problems
IsRecord-record_problems q i =
    let v = eq_text q.api_version (codes "kube-dc.io/v1alpha1") i.version in
    let k = eq_text q.kind (codes "GPUUpgradeQualification") i.kind in
    let s = eq_text q.state (codes "qualified") i.state in
    ground (arith, v, k, s, i.id, i.approved, i.revision)

pub IsField-field_problems : (n c t q : Text) → IsField c t q → field_problems n c t q ≡ []
unfolding field_problems
IsField-field_problems n c t q i = let e = eq_text t q i.same in ground (arith, i.was, i.will_be, e)

-- The hardware of the request and of the record, in canonical form, is well formed and the same.
-- Both lists are well formed, and sorted they have the same text.
pub record IsHardware (requested recorded : List Text) : Type 0 where
  pub requested_well : IsList requested
  pub recorded_well : IsList recorded
  pub same : commas (sort (values [] requested)) ≡ commas (sort (values [] recorded))

record IsMatched (requested recorded : List Text) : Type 0 where
  requested_well : (canonical_hardware requested).1 ≡ []
  recorded_well : (canonical_hardware recorded).1 ≡ []
  same :
      (is_empty (canonical_hardware requested).0
        || text_eq
            (commas (canonical_hardware requested).0)
            (commas (canonical_hardware recorded).0))
      ≡ true

-- Each value of the target is the qualified one, and the tuple is not the one there is.
pub record IsTarget (c t q : Target) : Type 0 where
  pub kernel : IsField c.kernel t.kernel q.kernel
  pub rke2 : IsField c.rke2 t.rke2 q.rke2
  pub driver : IsField c.driver t.driver q.driver
  pub gpu_operator : IsField c.gpu_operator t.gpu_operator q.gpu_operator
  pub dcgm_exporter : IsField c.dcgm_exporter t.dcgm_exporter q.dcgm_exporter

-- The evidence is at most five minutes in the future, and not older than the limit.
pub record IsTimely (now max_age completed : ℕ) : Type 0 where
  pub not_ahead : completed ≤ now + 300 * second
  pub not_old : now ≤ completed + age_limit max_age

pub record IsProven (c : Canary) : Type 0 where
  pub allocation : c.allocation_passed ≡ true
  pub monitoring : c.monitoring_passed ≡ true
  pub rollback : c.rollback_passed ≡ true
  pub evidence : is_blank c.evidence ≡ false

in_records_nil : (ps : List Problem) → in_records ps ≡ [] → ps ≡ []
unfolding in_records
in_records_nil [] e = refl
in_records_nil (p ∷ ps) e = cc

hardware_problems-IsMatched : (w g : List Text) → hardware_problems w g ≡ [] → IsMatched w g
unfolding hardware_problems
hardware_problems-IsMatched w g e =
    let (a, r) =
      append_nil (canonical_hardware w).1
        (in_records (canonical_hardware g).1
          ++ unless
              (is_empty (canonical_hardware w).0
                || text_eq (commas (canonical_hardware w).0) (commas (canonical_hardware g).0))
              hardware_mismatch)
        e in
    let (b, c) =
      append_nil (in_records (canonical_hardware g).1)
        (unless
          (is_empty (canonical_hardware w).0
            || text_eq (commas (canonical_hardware w).0) (commas (canonical_hardware g).0))
          hardware_mismatch)
        r in
    record {
      requested_well = a;
      recorded_well = in_records_nil (canonical_hardware g).1 b;
      same = ground (arith, c);
    }

IsMatched-hardware_problems : (w g : List Text) → IsMatched w g → hardware_problems w g ≡ []
unfolding hardware_problems in_records
IsMatched-hardware_problems w g i = ground (arith, i.requested_well, i.recorded_well, i.same)

pub hardware_problems-IsHardware : (w g : List Text) → hardware_problems w g ≡ [] → IsHardware w g
hardware_problems-IsHardware w g e =
    let m = hardware_problems-IsMatched w g e in
    let (p, a) = canonical_hardware-IsList w m.requested_well in
    let (q, b) = canonical_hardware-IsList g m.recorded_well in
    let there = sort_there (values [] w) (values_some w p.some_value) in
    record {
      requested_well = p;
      recorded_well = q;
      same =
          text_eq→eq (commas (sort (values [] w))) (commas (sort (values [] g)))
            (ground (arith, m.same, a, b, there));
    }

pub IsHardware-hardware_problems : (w g : List Text) → IsHardware w g → hardware_problems w g ≡ []
unfolding hardware_problems in_records
IsHardware-hardware_problems w g i =
    let a = IsList-canonical_hardware w i.requested_well in
    let b = IsList-canonical_hardware g i.recorded_well in
    let same = eq_text (commas (sort (values [] w))) (commas (sort (values [] g))) i.same in
    ground (arith, a, b, same)

five_nil :
    {A : Type 0} (a b c d e : List A)
    → a ++ (b ++ (c ++ (d ++ e))) ≡ []
    → (a ≡ []) × (b ≡ []) × (c ≡ []) × (d ≡ []) × (e ≡ [])
five_nil [] [] [] [] e h = (refl, refl, refl, refl, h)
five_nil a b c d e h = absurd (ground arith)

pub target_problems-IsTarget : (c t q : Target) → target_problems c t q ≡ [] → IsTarget c t q
unfolding target_problems
target_problems-IsTarget c t q h =
    let (k, r, d, g, x) =
      five_nil (field_problems (codes "kernel") c.kernel t.kernel q.kernel)
        (field_problems (codes "rke2") c.rke2 t.rke2 q.rke2)
        (field_problems (codes "driver") c.driver t.driver q.driver)
        (field_problems (codes "gpuOperator") c.gpu_operator t.gpu_operator q.gpu_operator)
        (field_problems (codes "dcgmExporter") c.dcgm_exporter t.dcgm_exporter q.dcgm_exporter) h in
    record {
      kernel = field_problems-IsField (codes "kernel") c.kernel t.kernel q.kernel k;
      rke2 = field_problems-IsField (codes "rke2") c.rke2 t.rke2 q.rke2 r;
      driver = field_problems-IsField (codes "driver") c.driver t.driver q.driver d;
      gpu_operator =
          field_problems-IsField (codes "gpuOperator") c.gpu_operator t.gpu_operator q.gpu_operator
            g;
      dcgm_exporter =
          field_problems-IsField (codes "dcgmExporter") c.dcgm_exporter t.dcgm_exporter
            q.dcgm_exporter x;
    }

pub IsTarget-target_problems : (c t q : Target) → IsTarget c t q → target_problems c t q ≡ []
unfolding target_problems
IsTarget-target_problems c t q i = ground (
  arith,
  IsField-field_problems (codes "kernel") c.kernel t.kernel q.kernel i.kernel,
  IsField-field_problems (codes "rke2") c.rke2 t.rke2 q.rke2 i.rke2,
  IsField-field_problems (codes "driver") c.driver t.driver q.driver i.driver,
  IsField-field_problems (codes "gpuOperator") c.gpu_operator t.gpu_operator q.gpu_operator
      i.gpu_operator,
  IsField-field_problems (codes "dcgmExporter") c.dcgm_exporter t.dcgm_exporter q.dcgm_exporter
      i.dcgm_exporter,
)

pub time_problems-IsTimely :
    (now max_age completed : ℕ)
    → time_problems now max_age (some completed) ≡ []
    → IsTimely now max_age completed
unfolding time_problems
time_problems-IsTimely now max_age completed e = record {
  not_ahead = ground (arith, e);
  not_old = ground (arith, e);
}

pub IsTimely-time_problems :
    (now max_age completed : ℕ)
    → IsTimely now max_age completed
    → time_problems now max_age (some completed) ≡ []
unfolding time_problems
IsTimely-time_problems now max_age completed i = ground (arith, i.not_ahead, i.not_old)

pub canary_problems-IsProven : (c : Canary) → canary_problems c ≡ [] → IsProven c
unfolding canary_problems
canary_problems-IsProven c e = record {
  allocation = ground (arith, e);
  monitoring = ground (arith, e);
  rollback = ground (arith, e);
  evidence = ground (arith, e);
}

pub IsProven-canary_problems : (c : Canary) → IsProven c → canary_problems c ≡ []
unfolding canary_problems
IsProven-canary_problems c i = ground (arith, i.allocation, i.monitoring, i.rollback, i.evidence)
