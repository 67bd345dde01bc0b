-- ===== src/Adopt/Pin.antt =====
-- The versions to pin before components are adopted (cli/internal/bootstrap/adopt/pin.go).
pub mod Strip
pub mod Filed
use mathlib.Core.List.{reverse}
use kube_dc_public.Prelude.{
  ℕ, Bool, true, false, not, ◌&&◌, ◌||◌, ◌==◌, Option, none, some, List, [], ◌∷◌, ◌++◌, is_empty,
  if◌then◌else◌,
}
use kube_dc_public.Prelude.Text.{Text, codes, text_eq}
use kube_dc_public.Prelude.Sort.{sort_by}
use kube_dc_public.Prelude.Engine.{Outcome, ok, err}
use kube_dc_public.Adopt.{
  CrVersionSource, Component, Finding, Inventory, Inspector, AdoptError, charts_failed,
  version_failed, missing_inspector, detect,
}

pub record PinChange : Type 0 where
  pub component : Text
  pub version_key : Text
  pub current : Text
  pub live : Text
  pub manual : Bool

pub record PinResult : Type 0 where
  pub pins : List PinChange
  pub already_pinned : List Text
  pub undetected : List Text
  pub skipped : List Text
  pub unused_manual : List Text

-- The names of the map of skipped components, and the entries of the map of manual pins.
pub record PinOptions : Type 0 where
  pub skip : List Text
  pub manual : List (Text × Text)

abbrev pub no_options : PinOptions
no_options = record { skip = []; manual = [] }

-- PinResult.HasUnresolved.
unfoldable pub has_unresolved : PinResult → Bool
has_unresolved r = not (is_empty r.undetected)

abbrev is_ws : ℕ → Bool
is_ws c = c == b' ' || c == 9

unfoldable pub drop_ws : Text → Text
drop_ws [] = []
drop_ws (c ∷ s) = let rest = drop_ws s in if is_ws c then rest else c ∷ s

-- The loop that shortens the text at its end.
unfoldable pub trim_trailing_ws : Text → Text
unfolding drop_ws
trim_trailing_ws s = reverse (drop_ws (reverse s))

-- The loop over the bytes: `before` are those in front of the place, the last one first.
unfoldable pub scan_comment : Text → Text → Text
unfolding trim_trailing_ws
scan_comment before [] = trim_trailing_ws (reverse before)
scan_comment [] (c ∷ s) = scan_comment (c ∷ []) s
scan_comment (p ∷ before) (c ∷ s) =
    let rest = scan_comment (c ∷ p ∷ before) s in
    if c == b'#' && is_ws p then trim_trailing_ws (reverse (p ∷ before)) else rest

unfoldable pub strip_inline_comment : Text → Text
unfolding scan_comment
strip_inline_comment v = scan_comment [] v

unfoldable pub contains_name : Text → List Text → Bool
contains_name n [] = false
contains_name n (m ∷ ms) = if text_eq m n then true else contains_name n ms

-- The value of a key, empty when there is none.
unfoldable pub value_of : Text → List (Text × Text) → Text
value_of k [] = []
value_of k (e ∷ es) = if text_eq e.0 k then e.1 else value_of k es

unfoldable pub cr_version_of : Inspector → Option CrVersionSource → Outcome AdoptError Text
cr_version_of i none = ok []
cr_version_of i (some source) = elim (i.cr_field source) [
  | none ↦ err version_failed
  | some v ↦ ok v
]

-- The version of the release, or of the custom resource when there is none.
unfoldable pub live_version : Inspector → Component → Text → Outcome AdoptError Text
unfolding cr_version_of
live_version i c [] = cr_version_of i c.cr_version
live_version i c (d ∷ v) = ok (d ∷ v)

unfoldable pub chart_of : (Text → Text) → Component → Text
chart_of charts c = charts (c.helm_release_ns ++ (codes "/" ++ c.helm_release))

-- What one finding comes to.
pub data Verdict : Type 0 where
  is_skipped : Text → Verdict
  unkeyed : Verdict
  is_undetected : Text → Verdict
  already : Text → Text → Bool → Text → Verdict
  pinned : PinChange → Verdict

-- The comparison with the value that is set.
unfoldable pub compare_pin : (Text → Text) → Component → Bool → Text → Verdict
unfolding strip_inline_comment
compare_pin env c manual [] = is_undetected c.name
compare_pin env c manual (d ∷ v) =
    let current = strip_inline_comment (env c.version_key) in
    if text_eq current (d ∷ v)
    then already c.name c.version_key manual (d ∷ v)
    else pinned (record {
      component = c.name;
      version_key = c.version_key;
      current = current;
      live = d ∷ v;
      manual = manual;
    })

unfoldable pub compare_live :
    (Text → Text) → Component → Outcome AdoptError Text → Outcome AdoptError Verdict
unfolding compare_pin
compare_live env c (err x) = err x
compare_live env c (ok v) = ok (compare_pin env c false v)

-- A manual pin before the live version.
unfoldable pub choose_version :
    Inspector → (Text → Text) → (Text → Text) → Component → Text → Outcome AdoptError Verdict
unfolding compare_live live_version chart_of
choose_version i charts env c [] = compare_live env c (live_version i c (chart_of charts c))
choose_version i charts env c (d ∷ v) = ok (compare_pin env c true (d ∷ v))

-- The body of the loop over the findings.
unfoldable pub verdict :
    Inspector → (Text → Text) → (Text → Text) → PinOptions → Component → Outcome AdoptError Verdict
unfolding choose_version contains_name value_of
verdict i charts env opts c =
    if contains_name c.name opts.skip
    then ok (is_skipped c.name)
    else if text_eq c.version_key []
    then ok unkeyed
    else choose_version i charts env c (value_of c.version_key opts.manual)

-- The result so far, and the keys of the manual pins that were used.
pub record Filing : Type 0 where
  pub result : PinResult
  pub used : List Text

abbrev used_by : Bool → Text → List Text → List Text
used_by manual key used = if manual then key ∷ used else used

unfoldable pub file : Verdict → Filing → Filing
file (is_skipped n) f = record f {
  result = record f.result { skipped = f.result.skipped ++ (n ∷ []) };
}
file unkeyed f = f
file (is_undetected n) f = record f {
  result = record f.result { undetected = f.result.undetected ++ (n ∷ []) };
}
file (already n key manual live) f = record {
  result = record f.result {
    already_pinned =
        f.result.already_pinned
        ++ ((n ++ (codes " (" ++ (key ++ (codes "=" ++ (live ++ codes ")"))))) ∷ []);
  };
  used = used_by manual key f.used;
}
file (pinned p) f = record {
  result = record f.result { pins = f.result.pins ++ (p ∷ []) };
  used = used_by p.manual p.version_key f.used;
}

-- The loop over the findings.
unfoldable pub pin_from :
    Inspector
    → (Text → Text)
    → (Text → Text)
    → PinOptions
    → List Finding
    → Filing
    → Outcome AdoptError Filing
unfolding verdict file
pin_from i charts env opts [] r = ok r
pin_from i charts env opts (f ∷ fs) r = elim (verdict i charts env opts f.component) [
  | err x ↦ err x
  | ok v ↦ pin_from i charts env opts fs (file v r)
]

unfoldable pub unused_of : List Text → List (Text × Text) → List Text
unused_of used [] = []
unused_of used (e ∷ es) =
    if contains_name e.0 used then unused_of used es else e.0 ∷ unused_of used es

abbrev itself : Text → Text
itself t = t

abbrev pub pin_key : PinChange → Text
pin_key p = p.version_key

-- The sorting at the end.
unfoldable pub finished : PinOptions → Filing → PinResult
unfolding sort_by unused_of contains_name
finished opts f = record {
  pins = sort_by pin_key f.result.pins;
  already_pinned = sort_by itself f.result.already_pinned;
  undetected = sort_by itself f.result.undetected;
  skipped = sort_by itself f.result.skipped;
  unused_manual = sort_by itself (unused_of f.used opts.manual);
}

abbrev pub nothing_filed : Filing
nothing_filed = record {
  result = record {
    pins = [];
    already_pinned = [];
    undetected = [];
    skipped = [];
    unused_manual = [];
  };
  used = [];
}

unfoldable pub finish_outcome :
    PinOptions → Outcome AdoptError Filing → Outcome AdoptError PinResult
unfolding finished
finish_outcome opts (err x) = err x
finish_outcome opts (ok f) = ok (finished opts f)

unfoldable pub pin_findings :
    Inspector
    → (Text → Text)
    → PinOptions
    → List Finding
    → Option (Text → Text)
    → Outcome AdoptError PinResult
unfolding finish_outcome pin_from
pin_findings i env opts fs none = err charts_failed
pin_findings i env opts fs (some charts) =
    finish_outcome opts (pin_from i charts env opts fs nothing_filed)

unfoldable pub pin_detected :
    Inspector
    → (Text → Text)
    → PinOptions
    → Outcome AdoptError Inventory
    → Outcome AdoptError PinResult
unfolding pin_findings
pin_detected i env opts (err x) = err x
pin_detected i env opts (ok r) = pin_findings i env opts r.findings i.chart_versions

-- PinVersions. `env` is `GetOr` with an empty fallback.
unfoldable pub pin_versions : Inspector → (Text → Text) → PinOptions → Outcome AdoptError PinResult
unfolding pin_detected detect
pin_versions i env opts = pin_detected i env opts (detect (some i))
