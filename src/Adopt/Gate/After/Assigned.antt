-- ===== src/Adopt/Gate/After/Assigned.antt =====
-- The assignments that pins become (cli/internal/bootstrap/adopt/pin.go,
-- cli/cmd/kube-dc/bootstrap_adopt.go).
use kube_dc_public.Prelude.{
  ◌≡◌, refl, true, false, none, some, List, [], ◌∷◌, All, if◌then◌else◌, ◌⊎◌, inl, inr, arith,
  Bool-cases, Option-cases,
}
use kube_dc_public.Prelude.Text.{Text, text_eq, text_eq→eq}
use kube_dc_public.Prelude.Sort.{sort_by, insert_by}
use kube_dc_public.Prelude.Engine.{ok}
use kube_dc_public.FleetConfig.Applied.{last_for}
use kube_dc_public.Adopt.{Component, Inspector}
use kube_dc_public.Adopt.Pin.{PinChange, live_version, chart_of, pin_key}
use kube_dc_public.Adopt.Gate.After.{kvs_of, pins_key, component_of, IsPin}

pins_key-insert_by :
    (k : Text) (p : PinChange) (ps : List PinChange)
    → pins_key k (insert_by pin_key p ps)
      ≡ (if text_eq k p.version_key then true else pins_key k ps)
unfolding pins_key insert_by
pins_key-insert_by k p [] = refl
pins_key-insert_by k p (q ∷ ps) = ground (arith, pins_key-insert_by k p ps)

pub pins_key-sort_by :
    (k : Text) (ps : List PinChange) → pins_key k (sort_by pin_key ps) ≡ pins_key k ps
unfolding pins_key sort_by
pins_key-sort_by k [] = refl
pins_key-sort_by k (p ∷ ps) =
    ground (arith, pins_key-insert_by k p (sort_by pin_key ps), pins_key-sort_by k ps)

-- A key that is pinned is assigned.
pub assigned_key :
    (k : Text) (ps : List PinChange) → last_for k (kvs_of ps) ≡ none → pins_key k ps ≡ false
unfolding last_for kvs_of pins_key
assigned_key k [] h = refl
assigned_key k (p ∷ ps) h = elim (Option-cases (last_for k (kvs_of ps))) [
  | inl q ↦ ground (arith, assigned_key k ps q)
  | inr (v, q) ↦ absurd (ground arith)
]

module _ (i : Inspector) (charts : Text → Text) where
  -- What is assigned to a key is the live version of the component that the key is for.
  pub assigned_live :
      (k v : Text) (ps : List PinChange)
      → All (IsPin i charts) ps
      → last_for k (kvs_of ps) ≡ some v
      → (c : Component) × (component_of k ≡ some c) × (live_version i c (chart_of charts c) ≡ ok v)
  unfolding last_for kvs_of
  assigned_live k v [] h e = absurd (ground arith)
  assigned_live k v (p ∷ ps) h e = elim (Option-cases (last_for k (kvs_of ps))) [
    | inl q ↦ here q (Bool-cases (text_eq k p.version_key))
    | inr (w, q) ↦ assigned_live k v ps h.1 (ground arith)
  ]
    where
      here :
          last_for k (kvs_of ps) ≡ none
          → ((text_eq k p.version_key ≡ true) ⊎ (text_eq k p.version_key ≡ false))
          → (c : Component) × (component_of k ≡ some c)
            × (live_version i c (chart_of charts c) ≡ ok v)
      here q (inr s) = absurd (ground arith)
      here q (inl s) =
          let (c, a, b) = h.0 in (c, rw (text_eq→eq k p.version_key s) a, ground (arith, b))
