-- ===== src/GpuUpgrade/Gate/Step.antt =====
-- Which steps of RKE2 are allowed (cli/internal/bootstrap/gpuupgrade/gate.go).
use kube_dc_public.Prelude.{◌+◌, ◌≤◌, ◌<◌, ◌≡◌, ◌↔◌, ◌⊎◌, refl, Option, none, some, arith}
use kube_dc_public.Prelude.Text.{Text}
use kube_dc_public.GpuUpgrade.Gate.{
  Version, rke2_version, is_downgrade, step_problem, validate_rke2_step,
}

-- Not before, in the order of minor, patch and revision, and at most one minor on.
pub record IsStep (from to : Version) : Type 0 where
  pub not_before :
      (from.minor < to.minor)
      ⊎ ((from.minor ≡ to.minor)
          × ((from.patch < to.patch) ⊎ ((from.patch ≡ to.patch) × (from.revision ≤ to.revision))))
  pub not_far : to.minor ≤ from.minor + 1

-- The versions of a step, and that it is allowed.
abbrev pub Allowed : Option Version → Option Version → Type 0
Allowed c t = (from to : Version) × (c ≡ some from) × (t ≡ some to) × IsStep from to

allowed : (c t : Option Version) → step_problem c t ≡ none → Allowed c t
unfolding step_problem is_downgrade
allowed (some from) (some to) e =
    (from, to, refl, refl, record { not_before = ground (arith, e); not_far = ground (arith, e) })
allowed none t e = cc
allowed (some from) none e = cc

no_problem : (from to : Version) → IsStep from to → step_problem (some from) (some to) ≡ none
unfolding step_problem is_downgrade
no_problem from to i = ground (arith, i.not_before, i.not_far)

-- A step passes just when both texts are versions of the form `v1.minor.patch+rke2r` with a revision,
-- the target is not before the current one in the order of minor, patch and revision, and its minor
-- is at most one more.
pub validate_rke2_step-IsStep :
    (current target : Text)
    → (validate_rke2_step current target ≡ none)
      ↔ Allowed (rke2_version current) (rke2_version target)
unfolding validate_rke2_step
validate_rke2_step-IsStep current target = (
  allowed (rke2_version current) (rke2_version target),
  λ (from, to, c, t, i). ground (arith, c, t, no_problem from to i),
)
