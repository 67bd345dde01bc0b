-- ===== src/Adopt/Gate/After.antt =====
-- A cluster whose components are pinned passes the gate (cli/internal/bootstrap/adopt/pin.go,
-- cli/internal/bootstrap/clusterinit/adoptgate.go, and the writes of the pins in
-- cli/cmd/kube-dc/bootstrap_adopt.go).
pub mod Assigned
pub mod Grown
pub mod Passes
use kube_dc_public.Prelude.{
  ◌≡◌, refl, Bool, true, false, Option, none, some, List, [], ◌∷◌, ◌++◌, ◌||◌, is_empty,
  if◌then◌else◌, ◌⊎◌,
}
use kube_dc_public.Prelude.Text.{Text, text_eq}
use kube_dc_public.Prelude.Engine.{Outcome, ok, err}
use kube_dc_public.Adopt.{Component, Finding, Inspector, AdoptError, catalog}
use kube_dc_public.Adopt.Pin.{PinChange, strip_inline_comment, live_version, chart_of}
use kube_dc_public.FleetConfig.{Kv}

-- The assignments of runAdoptPinVersions.
unfoldable pub kvs_of : List PinChange → List Kv
kvs_of [] = []
kvs_of (p ∷ ps) = record { key = p.version_key; value = p.live } ∷ kvs_of ps

-- Whether a key is pinned.
unfoldable pub pins_key : Text → List PinChange → Bool
pins_key k [] = false
pins_key k (p ∷ ps) = if text_eq k p.version_key then true else pins_key k ps

unfoldable pub keyed_in : Text → List Component → Option Component
keyed_in k [] = none
keyed_in k (c ∷ cs) = if text_eq k c.version_key then some c else keyed_in k cs

-- The component whose version a key pins.
unfoldable pub component_of : Text → Option Component
unfolding keyed_in catalog
component_of k = keyed_in k catalog

-- A key pins the version of one component.
abbrev pub IsKeyed : Component → Type 0
IsKeyed c = text_eq c.version_key [] ≡ false → component_of c.version_key ≡ some c

module _ (i : Inspector) (charts : Text → Text) where
  -- A pin to the live version of the component that its key is for.
  abbrev pub IsPin : PinChange → Type 0
  IsPin p =
      (c : Component) × (component_of p.version_key ≡ some c)
      × (live_version i c (chart_of charts c) ≡ ok p.live)

  -- A component that has no version to pin, is pinned, or has a pin among those to be made.
  abbrev pub IsCovered : (Text → Text) → List PinChange → Component → Type 0
  IsCovered env pins c =
      (text_eq c.version_key [] ≡ true)
      ⊎ ((v : Text) × (live_version i c (chart_of charts c) ≡ ok v)
          × (is_empty v ≡ false)
          × ((strip_inline_comment (env c.version_key) ≡ v) ⊎ (pins_key c.version_key pins ≡ true)))
