-- ===== src/Adopt/Gate.antt =====
-- The gate that an adopting installation passes (cli/internal/bootstrap/clusterinit/adoptgate.go).
pub mod Safe
pub mod After
mod Tests
use kube_dc_public.Prelude.{
  ℕ, Bool, true, false, not, ◌&&◌, Option, none, some, List, [], ◌∷◌, ◌++◌, map, is_empty, length,
  if◌then◌else◌,
}
use kube_dc_public.Prelude.Text.{Text, codes, text_eq, join}
use kube_dc_public.Prelude.Engine.{Outcome, ok, err}
use kube_dc_public.Adopt.{Inspector, AdoptError}
use kube_dc_public.Adopt.Pin.{PinChange, PinResult, no_options, has_unresolved, pin_versions}

pub record GateOptions : Type 0 where
  pub inspector : Option Inspector
  pub env : Option (Text → Text)
  pub allow : Bool
  pub overlay_missing : Bool
  pub cluster_name : Text

-- What is printed.
pub data Note : Type 0 where
  no_overlay_note : Text → Note
  unpinnable : List Text → Note
  scaffold_first : Note
  proceeding : Note
  adopt_safe : ℕ → Note
  not_pinned : ℕ → Note
  problem : Text → Note
  pin_first : Text → Note

pub data GateError : Type 0 where
  preflight : AdoptError → GateError
  no_overlay : Text → GateError
  unpinned : List Text → Text → GateError

abbrev pub Gated : Type 0
Gated = List Note × Outcome GateError (Unit {0})

unfoldable pub names_of : List PinChange → List Text
names_of [] = []
names_of (p ∷ ps) = p.component ∷ names_of ps

unfoldable pub unpinned_names : PinResult → List Text
unfolding names_of
unpinned_names r = names_of r.pins ++ r.undetected

unfoldable pub pin_problems : List PinChange → List Note
pin_problems [] = []
pin_problems (p ∷ ps) =
    problem (
      p.component
      ++ (codes ": "
          ++ (p.version_key
              ++ (codes "="
                  ++ ((if text_eq p.current [] then codes "(unset)" else p.current)
                      ++ (codes " but live is " ++ p.live))))))
    ∷ pin_problems ps

unfoldable pub undetected_problems : List Text → List Note
undetected_problems [] = []
undetected_problems (u ∷ us) =
    problem (u ++ codes ": live version not readable and not pinned") ∷ undetected_problems us

-- The end of both refusals.
unfoldable pub allowed_or : Bool → List Note → GateError → Gated
allowed_or true notes x = (notes ++ (proceeding ∷ []), ok tt)
allowed_or false notes x = (notes, err x)

unfoldable pub target_of : Text → Text
target_of [] = codes "<cluster>"
target_of (c ∷ n) = c ∷ n

unfoldable pub no_overlay_gate : Bool → Text → PinResult → Gated
unfolding allowed_or unpinned_names
no_overlay_gate allow target r =
    let names = unpinned_names r in
    let found = if is_empty names then [] else unpinnable names ∷ [] in
    allowed_or allow (no_overlay_note target ∷ (found ++ (scaffold_first ∷ []))) (no_overlay target)

unfoldable pub safe_notes : List Text → List Note
safe_notes [] = []
safe_notes (t ∷ ts) = adopt_safe (length (t ∷ ts)) ∷ []

unfoldable pub drift_gate : Bool → Text → PinResult → Gated
unfolding allowed_or unpinned_names pin_problems undetected_problems
drift_gate allow target r =
    let problems = pin_problems r.pins ++ undetected_problems r.undetected in
    allowed_or allow (not_pinned (length problems) ∷ (problems ++ (pin_first target ∷ [])))
      (unpinned (unpinned_names r) target)

unfoldable pub overlay_gate : Bool → Text → PinResult → Gated
unfolding safe_notes drift_gate has_unresolved
overlay_gate allow target r =
    if is_empty r.pins && not (has_unresolved r)
    then (safe_notes r.already_pinned, ok tt)
    else drift_gate allow target r

unfoldable pub gate_result : GateOptions → Outcome AdoptError PinResult → Gated
unfolding no_overlay_gate overlay_gate target_of
gate_result o (err x) = ([], err (preflight x))
gate_result o (ok r) =
    if o.overlay_missing
    then no_overlay_gate o.allow (target_of o.cluster_name) r
    else overlay_gate o.allow (target_of o.cluster_name) r

unfoldable pub check_with : GateOptions → Option Inspector → Option (Text → Text) → Gated
unfolding gate_result pin_versions
check_with o none env = ([], ok tt)
check_with o (some i) none = ([], ok tt)
check_with o (some i) (some env) = gate_result o (pin_versions i env no_options)

-- CheckAdoptPinned.
unfoldable pub check_adopt_pinned : GateOptions → Gated
unfolding check_with
check_adopt_pinned o = check_with o o.inspector o.env
