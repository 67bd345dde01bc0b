-- ===== src/GpuUpgrade/Gate/Passed.antt =====
-- What the gate lets through (cli/internal/bootstrap/gpuupgrade/gate.go).
use kube_dc_public.Prelude.{
  ℕ, ◌≡◌, ◌↔◌, refl, sym, ap, ◌∙◌, false, not, Option, none, some, List, [], ◌∷◌, ◌++◌, arith,
}
use kube_dc_public.Prelude.Text.{Text}
use kube_dc_public.Prelude.Engine.{ok}
use kube_dc_public.GpuUpgrade.{Qualification, Request, Result, Problem, nothing_changes}
use kube_dc_public.GpuUpgrade.Gate.{
  rke2_version, validate_rke2_step, unless, hardware_problems, target_problems, target_eq,
  step_problems, time_problems, record_problems, canary_problems, problems, now_of, result_of,
  verdict, check,
}
use kube_dc_public.GpuUpgrade.Gate.Step.{Allowed, validate_rke2_step-IsStep}
use kube_dc_public.GpuUpgrade.Gate.Parts.{
  IsRecord, record_problems-IsRecord, IsRecord-record_problems, IsHardware, IsTarget, IsTimely,
  IsProven, hardware_problems-IsHardware, IsHardware-hardware_problems, target_problems-IsTarget,
  IsTarget-target_problems, time_problems-IsTimely, IsTimely-time_problems,
  canary_problems-IsProven, IsProven-canary_problems,
}

-- What the gate asks for.
pub record IsQualified (parse_time : Text → Option ℕ) (clock : ℕ) (q : Qualification) (r : Request)
    : Type 0 where
  pub recorded : IsRecord q
  pub hardware : IsHardware r.hardware q.hardware
  pub target : IsTarget r.current r.target q.target
  pub changes : target_eq r.current r.target ≡ false
  pub step : Allowed (rke2_version r.current.rke2) (rke2_version r.target.rke2)
  pub timely :
      (t : ℕ) × (parse_time q.canary.completed_at ≡ some t) × IsTimely (now_of clock r) r.max_age t
  pub proven : IsProven q.canary

seven_nil :
    {A : Type 0} (a b c d e f g : List A)
    → a ++ (b ++ (c ++ (d ++ (e ++ (f ++ g))))) ≡ []
    → (a ≡ []) × (b ≡ []) × (c ≡ []) × (d ≡ []) × (e ≡ []) × (f ≡ []) × (g ≡ [])
seven_nil [] [] [] [] [] [] g h = (refl, refl, refl, refl, refl, refl, h)
seven_nil a b c d e f g h = absurd (ground arith)

step_problems-none : (c t : Text) → step_problems c t ≡ [] → validate_rke2_step c t ≡ none
unfolding step_problems
step_problems-none c t e = ground (arith, e)

timely :
    (now max_age : ℕ) (parsed : Option ℕ)
    → time_problems now max_age parsed ≡ []
    → (t : ℕ) × (parsed ≡ some t) × IsTimely now max_age t
unfolding time_problems
timely now max_age none e = cc
timely now max_age (some t) e = (t, refl, time_problems-IsTimely now max_age t e)

verdict_ok : (ps : List Problem) (v w : Result) → verdict ps v ≡ ok w → (ps ≡ []) × (w ≡ v)
unfolding verdict
verdict_ok [] v w e = ground (arith, e)
verdict_ok (p ∷ ps) v w e = absurd (ground (arith, e))

module _ (parse_time : Text → Option ℕ) (clock : ℕ) (q : Qualification) (r : Request) where
  no_problems : problems parse_time clock q r ≡ [] → IsQualified parse_time clock q r
  unfolding problems
  no_problems e =
      let (a, b, c, d, s, t, p) =
        seven_nil (record_problems q) (hardware_problems r.hardware q.hardware)
          (target_problems r.current r.target q.target)
          (unless (not (target_eq r.current r.target)) nothing_changes)
          (step_problems r.current.rke2 r.target.rke2)
          (time_problems (now_of clock r) r.max_age (parse_time q.canary.completed_at))
          (canary_problems q.canary) e in
      record {
        recorded = record_problems-IsRecord q a;
        hardware = hardware_problems-IsHardware r.hardware q.hardware b;
        target = target_problems-IsTarget r.current r.target q.target c;
        changes = ground (arith, d);
        step =
            (validate_rke2_step-IsStep r.current.rke2 r.target.rke2).0
              (step_problems-none r.current.rke2 r.target.rke2 s);
        timely = timely (now_of clock r) r.max_age (parse_time q.canary.completed_at) t;
        proven = canary_problems-IsProven q.canary p;
      }

  qualified : IsQualified parse_time clock q r → problems parse_time clock q r ≡ []
  unfolding problems step_problems
  qualified i =
      let (t, parsed, near) = i.timely in
      let time = IsTimely-time_problems (now_of clock r) r.max_age t near in
      ground (
        arith,
        IsRecord-record_problems q i.recorded,
        IsHardware-hardware_problems r.hardware q.hardware i.hardware,
        IsTarget-target_problems r.current r.target q.target i.target,
        i.changes,
        (validate_rke2_step-IsStep r.current.rke2 r.target.rke2).1 i.step,
        parsed,
        time,
        IsProven-canary_problems q.canary i.proven,
      )

-- An upgrade passes just when all of these hold, and the result then names the record: the record is
-- of the kind, with its identifier, approval and revision, and qualified; the hardware asked for and
-- the hardware recorded are not empty, each value has the form of a PCI identity, trimmed and in
-- lower case, and is there once, and the sorted values, with commas between them, are the same text;
-- each value of the target is there and is the qualified one; the target is not the tuple there is;
-- the RKE2 versions, in which a number out of range is read as the largest, are not a step back in
-- the order of minor, patch and revision, and the minor grows by at most one; the canary has a time that is
-- read, at most five minutes ahead and not older than the limit; its three checks have passed, and
-- it has evidence.
pub check-IsQualified :
    (parse_time : Text → Option ℕ) (clock : ℕ) (q : Qualification) (r : Request) (w : Result)
    → (check parse_time clock q r ≡ ok w)
      ↔ (IsQualified parse_time clock q r × (w ≡ result_of q (parse_time q.canary.completed_at)))
unfolding check verdict
check-IsQualified parse_time clock q r w = (
  λ e.
      let v =
        verdict_ok (problems parse_time clock q r) (result_of q (parse_time q.canary.completed_at))
          w e in
      (no_problems parse_time clock q r v.0, v.1),
  λ i.
      ap (λ ps. verdict ps (result_of q (parse_time q.canary.completed_at)))
        (qualified parse_time clock q r i.0)
      ∙ ap ok (sym i.1),
)
