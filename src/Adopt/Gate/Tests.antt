-- ===== src/Adopt/Gate/Tests.antt =====
-- A cluster that runs cert-manager and KubeVirt (cli/internal/bootstrap/adopt/pin.go,
-- cli/internal/bootstrap/clusterinit/adoptgate.go).
use mathlib.Core.Path.{fun_ext}
use kube_dc_public.Prelude.{
  ◌≡◌, refl, ap, subst, Bool, true, false, Option, none, some, List, [], ◌∷◌, ◌++◌, ◌↔◌, is_empty,
  if◌then◌else◌,
}
use kube_dc_public.Prelude.Text.{Text, codes, text_eq}
use kube_dc_public.Prelude.Sort.{sort_by, insert_by, text_le}
use kube_dc_public.Prelude.Engine.{Outcome, ok, err}
use kube_dc_public.EnvFile.{get_or}
use kube_dc_public.EnvFile.Store.{store, store-Reads}
use kube_dc_public.FleetConfig
use kube_dc_public.FleetConfig.{Change, plan, set_all}
use kube_dc_public.Adopt.{
  CrVersionSource, AdoptError, Inspector, catalog, recommend_for, first_of, or_else, detect_one,
  detect_all, has_nodes, inventory, detect,
}
use kube_dc_public.Adopt.Pin.{
  PinResult, no_options, drop_ws, trim_trailing_ws, scan_comment, strip_inline_comment,
  contains_name, value_of, cr_version_of, live_version, chart_of, compare_pin, compare_live,
  choose_version, verdict, file, pin_from, unused_of, finished, finish_outcome, pin_findings,
  pin_detected, pin_versions,
}
use kube_dc_public.Adopt.Pin.Strip.{strip_inline_comment-agrees}
use kube_dc_public.Adopt.Gate.{GateOptions, check_adopt_pinned}
use kube_dc_public.Adopt.Gate.Safe.{IsRead, IsCatalogSafe, check_adopt_pinned_iff}
use kube_dc_public.Adopt.Gate.After.{kvs_of}
use kube_dc_public.Adopt.Gate.After.Passes.{IsBareLive, file_env, file_after, pin_versions-check}

abbrev crds : List Text
crds = codes "kubevirts.kubevirt.io" ∷ codes "certificates.cert-manager.io" ∷ []

abbrev charts : Text → Text
charts k = if text_eq k (codes "cert-manager/cert-manager") then codes "v1.14.4" else []

abbrev cluster : Option Text → Inspector
cluster version = record {
  list_crds = some crds;
  list_namespaces = some [];
  flux_nodes = none;
  chart_versions = some charts;
  cr_field = λ source. version;
}

abbrev no_file : Text → Text
no_file k = []

abbrev needed : PinResult
needed = record {
  pins =
      record {
        component = codes "cert-manager";
        version_key = codes "CERT_MANAGER_VERSION";
        current = [];
        live = codes "v1.14.4";
        manual = false;
      }
      ∷ record {
        component = codes "kubevirt";
        version_key = codes "KUBEVIRT_VERSION";
        current = [];
        live = codes "v1.8.1";
        manual = false;
      }
      ∷ [];
  already_pinned = [];
  undetected = [];
  skipped = [];
  unused_manual = [];
}

two_pins : pin_versions (cluster (some (codes "v1.8.1"))) no_file no_options ≡ ok needed
unfolding pin_versions pin_detected pin_findings finish_outcome finished unused_of pin_from file
    verdict choose_version compare_live compare_pin live_version cr_version_of chart_of
    contains_name value_of strip_inline_comment scan_comment trim_trailing_ws drop_ws detect
    inventory has_nodes detect_all detect_one or_else first_of recommend_for catalog sort_by
    insert_by text_le text_eq
two_pins = refl

-- A pin by hand resolves what is not read.
by_hand :
    let r =
      pin_versions
        (cluster (some []))
        no_file
        (record no_options { manual = (codes "KUBEVIRT_VERSION", codes "v1.8.1") ∷ [] }) in
    elim r [ err x ↦ false | ok res ↦ is_empty res.undetected ] ≡ true
unfolding pin_versions pin_detected pin_findings finish_outcome finished unused_of pin_from file
    verdict choose_version compare_live compare_pin live_version cr_version_of chart_of
    contains_name value_of strip_inline_comment scan_comment trim_trailing_ws drop_ws detect
    inventory has_nodes detect_all detect_one or_else first_of recommend_for catalog sort_by
    insert_by text_le text_eq
by_hand = refl

cluster-IsRead : (v : Option Text) → IsRead (cluster v) charts crds []
cluster-IsRead v = record { crds_read = refl; namespaces_read = refl; charts_read = refl }

cluster-IsBareLive : IsBareLive (cluster (some (codes "v1.8.1"))) charts
unfolding live_version cr_version_of chart_of strip_inline_comment scan_comment trim_trailing_ws
    drop_ws
cluster-IsBareLive c v h =
    release (text_eq (c.helm_release_ns ++ (codes "/" ++ c.helm_release)) known) h
  where
    known : Text
    known = codes "cert-manager/cert-manager"

    i : Inspector
    i = cluster (some (codes "v1.8.1"))

    same : (t : Text) → Path (Outcome AdoptError Text) (ok t) (ok v) → t ≡ v
    same t p = cc

    bare : (t : Text) → strip_inline_comment t ≡ t → t ≡ v → strip_inline_comment v ≡ v
    bare t p q = subst (λ x. strip_inline_comment x ≡ x) q p

    resource : (s : Option CrVersionSource) → cr_version_of i s ≡ ok v → strip_inline_comment v ≡ v
    resource none p = bare [] refl (same [] p)
    resource (some source) p = bare (codes "v1.8.1") refl (same (codes "v1.8.1") p)

    release :
        (b : Bool)
        → live_version i c (if b then codes "v1.14.4" else []) ≡ ok v
        → strip_inline_comment v ≡ v
    release true p = bare (codes "v1.14.4") refl (same (codes "v1.14.4") p)
    release false p = resource c.cr_version p

nothing_got : (k : Text) → get_or (store [] []) k [] ≡ []
unfolding get_or
nothing_got k =
    ap (λ (o : Option Text). elim o [ none ↦ [] | some v ↦ v ]) ((store-Reads [] [] k).got)

-- An empty file sets nothing.
nothing_set : file_env (cluster (some (codes "v1.8.1"))) charts crds [] [] [] ≡ no_file
nothing_set = fun_ext nothing_got

two_pins_of_file :
    pin_versions
      (cluster (some (codes "v1.8.1")))
      (file_env (cluster (some (codes "v1.8.1"))) charts crds [] [] [])
      no_options
    ≡ ok needed
two_pins_of_file = rw nothing_set two_pins

pin_versions-check_example :
    let i = cluster (some (codes "v1.8.1")) in
    (changes : List Change) × (plan (store [] []) (kvs_of needed.pins) true ≡ ok changes)
    × ((o : GateOptions)
        → o.inspector ≡ some i
        → o.env ≡ some (file_after i charts crds [] [] [] changes)
        → o.allow ≡ false
        → o.overlay_missing ≡ false
        → (check_adopt_pinned o).1 ≡ ok tt)
pin_versions-check_example =
    pin_versions-check (cluster (some (codes "v1.8.1"))) charts crds [] [] []
      (cluster-IsRead (some (codes "v1.8.1"))) cluster-IsBareLive needed two_pins_of_file refl

abbrev unread : GateOptions
unread = record {
  inspector = some (cluster (some []));
  env = some no_file;
  allow = false;
  overlay_missing = false;
  cluster_name = codes "cloud";
}

check_adopt_pinned_iff_example :
    ((check_adopt_pinned unread).1 ≡ ok tt)
    ↔ ((unread.overlay_missing ≡ false) × IsCatalogSafe (cluster (some [])) charts no_file crds [])
check_adopt_pinned_iff_example =
    check_adopt_pinned_iff (cluster (some [])) charts no_file crds [] (cluster-IsRead (some []))
      unread refl refl refl

strip_inline_comment-agrees_example :
    strip_inline_comment (codes "v1.8.1  # live")
    ≡ FleetConfig.strip_inline_comment (codes "v1.8.1  # live")
strip_inline_comment-agrees_example = strip_inline_comment-agrees (codes "v1.8.1  # live")
