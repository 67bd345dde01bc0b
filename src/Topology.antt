-- ===== src/Topology.antt =====
-- cli/internal/bootstrap/topology/topology.go: the class of a cluster's external network, from the
-- signals of the probes, which are in Probes. The fixed sentences on the reason and the next step, one
-- for each branch, are left out.
pub mod Probes
use kube_dc_public.Prelude.{
  ℕ, ◌+◌, Bool, true, false, ◌&&◌, ◌||◌, Option, none, some, List, [], ◌∷◌, leb, ltb, if◌then◌else◌,
}
use kube_dc_public.Prelude.Text.{Text, codes, text_eq, contains}

pub data Class : Type 0 where
  class_a class_b class_c class_unknown : Class

pub data Verdict : Type 0 where
  required not_needed already_enabled ambiguous : Verdict

-- `unset` is the empty text.
pub data Confidence : Type 0 where
  high medium low unset : Confidence

-- A hint that is empty is `none`.
pub record Signal : Type 0 where
  pub probe : Text
  pub detail : Text
  pub hint : Option Class
  pub confidence : Confidence

pub record Result : Type 0 where
  pub class : Class
  pub verdict : Verdict
  pub confidence : Confidence

pub probe_name_fork_e : Text
probe_name_fork_e = codes "platform endpoints"

pub probe_name_cloud_provider : Text
probe_name_cloud_provider = codes "cloud-provider"

pub probe_name_envoy_ext_ips : Text
probe_name_envoy_ext_ips = codes "Envoy externalIPs"

pub probe_name_host_network : Text
probe_name_host_network = codes "Envoy hostNetwork"

pub is_enabled : Signal → Bool
unfolding probe_name_fork_e text_eq contains
is_enabled s =
    text_eq s.probe probe_name_fork_e
    && (contains (codes "kube-api-platform") s.detail
        || contains (codes "envoy-gateway-platform") s.detail)

pub found_enabled : List Signal → Bool
unfolding is_enabled
found_enabled [] = false
found_enabled (s ∷ ss) = is_enabled s || found_enabled ss

pub same_class : Class → Class → Bool
same_class class_a class_a = true
same_class class_b class_b = true
same_class class_c class_c = true
same_class class_unknown class_unknown = true
same_class _ _ = false

pub hinted : Class → Option Class → Bool
unfolding same_class
hinted c none = false
hinted c (some d) = same_class c d

-- The entry of a class in the map of hints.
pub hints : Class → List Signal → ℕ
unfolding hinted
hints c [] = 0
hints c (s ∷ ss) = let rest = hints c ss in if hinted c s.hint then rest + 1 else rest

pub classify : List Signal → Result
unfolding found_enabled hints
classify ss =
    if found_enabled ss
    then record { class = class_a; verdict = already_enabled; confidence = high }
    else if ltb 0 (hints class_c ss)
    then record { class = class_c; verdict = not_needed; confidence = medium }
    else if ltb 0 (hints class_b ss) && leb (hints class_a ss) (hints class_b ss)
    then record { class = class_b; verdict = not_needed; confidence = high }
    else if ltb 0 (hints class_a ss)
    then record { class = class_a; verdict = required; confidence = medium }
    else record { class = class_unknown; verdict = ambiguous; confidence = low }
