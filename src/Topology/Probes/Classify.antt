-- ===== src/Topology/Probes/Classify.antt =====
-- The verdict on a cluster against the rule that comes with it
-- (cli/internal/bootstrap/topology/topology.go, `classify`).
use kube_dc_public.Prelude.{
  ◌≡◌, refl, Bool, true, false, not, ◌&&◌, ◌||◌, Option, none, some, List, [], ◌∷◌, arith, any,
  is_empty, ◌⊎◌, if◌then◌else◌, Bool-cases, inl, inr,
}
use kube_dc_public.Prelude.Text.{
  Text, codes, text_eq, trim_space, is_blank, contains, split, has_prefix,
}
use kube_dc_public.Prelude.Engine.{Outcome, ok, err}
use kube_dc_public.Topology.{
  Result, Class, class_a, class_b, class_c, class_unknown, Verdict, required, not_needed,
  already_enabled, ambiguous, Signal, probe_name_fork_e, probe_name_cloud_provider,
  probe_name_envoy_ext_ips, probe_name_host_network, is_enabled, found_enabled, hinted, hints,
  same_class, classify,
}
use kube_dc_public.Topology.Probes.{
  Proxy, Replies, probe_fork_e_services, first_id, probe_cloud_provider, equal_fold, envoy_signal,
  probe_shape, probe_decoded, probe_envoy_external_ips, host_network_signal,
  probe_envoy_host_network, signals, probe,
}

-- A node has a provider id.
abbrev pub is_cloud : Outcome Text Text → Bool
is_cloud (ok out) = any (λ l. not (is_blank l)) (split (trim_space out) (10 ∷ []))
is_cloud (err e) = false

abbrev is_bound : Outcome Text Proxy → Bool
is_bound (ok p) = not (is_empty p.ext_ips)
is_bound (err e) = false

-- The proxy has external addresses.
abbrev pub has_external_ips : (Text → Outcome Text Proxy) → Outcome Text Text → Bool
has_external_ips decode (ok out) = is_bound (decode out)
has_external_ips decode (err e) = false

abbrev is_hairpin : Outcome Text Proxy → Bool
is_hairpin (ok p) =
    not p.has_daemon_set
    && (equal_fold p.svc_type (codes "clusterip")
        || (equal_fold p.svc_type (codes "loadbalancer") && text_eq p.lb_class (codes "metallb")))
is_hairpin (err e) = false

-- The proxy is no daemon set, and its Service is of an internal type or of MetalLB's.
abbrev pub has_hairpin_shape : (Text → Outcome Text Proxy) → Outcome Text Text → Bool
has_hairpin_shape decode (ok out) = is_hairpin (decode out)
has_hairpin_shape decode (err e) = false

abbrev pub is_on_host_network : Outcome Text Text → Bool
is_on_host_network (ok out) = text_eq (trim_space out) (codes "true")
is_on_host_network (err e) = false

-- The order of precedence.
abbrev pub first_of : Bool → Bool → Bool → Bool → Class × Verdict
first_of enabled cloud bound hairpin =
    if enabled
    then (class_a, already_enabled)
    else if cloud
    then (class_c, not_needed)
    else if bound
    then (class_b, not_needed)
    else if hairpin
    then (class_a, required)
    else (class_unknown, ambiguous)

abbrev pub rule : (Text → Outcome Text Proxy) → Replies → Class × Verdict
rule decode r =
    first_of (r.api_service || r.envoy_service) (is_cloud r.provider_ids)
      (has_external_ips decode r.envoy_proxy)
      (has_hairpin_shape decode r.envoy_proxy || is_on_host_network r.host_network)

abbrev pub class_and_verdict : Result → Class × Verdict
class_and_verdict r = (r.class, r.verdict)

enabled_iff : (a e : Bool) → is_enabled (probe_fork_e_services a e) ≡ a || e
unfolding is_enabled probe_fork_e_services probe_name_fork_e text_eq contains has_prefix
enabled_iff true true = refl
enabled_iff true false = refl
enabled_iff false true = refl
enabled_iff false false = refl

first_id-any :
    (ls : List Text)
    → (any (λ l. not (is_blank l)) ls ≡ false) × (first_id ls ≡ none)
      ⊎ (id : Text) × (any (λ l. not (is_blank l)) ls ≡ true) × (first_id ls ≡ some id)
unfolding first_id
first_id-any [] = inl (refl, refl)
first_id-any (l ∷ ls) = elim (Bool-cases (is_blank l)) [
  | inl e ↦ ground (arith, e, first_id-any ls)
  | inr e ↦ inr (trim_space l, ground (arith, e), ground (arith, e))
]

-- A signal that says nothing on the Services.
abbrev Hints : Option Class → Signal → Type 0
Hints c s = (is_enabled s ≡ false) × (s.hint ≡ c)

cloud-Hints :
    (r : Outcome Text Text)
    → Hints (if is_cloud r then some class_c else none) (probe_cloud_provider r)
unfolding probe_cloud_provider is_enabled probe_name_fork_e text_eq probe_name_cloud_provider
cloud-Hints (err e) = (refl, refl)
cloud-Hints (ok out) = ground (arith, first_id-any (split (trim_space out) (10 ∷ [])))

shape-Hints :
    (p : Proxy)
    → Hints
        (if is_bound (ok p) then some class_b else if is_hairpin (ok p) then some class_a else none)
        (probe_shape p)
unfolding probe_shape envoy_signal is_enabled probe_name_fork_e text_eq probe_name_envoy_ext_ips
shape-Hints p = ground arith

host-Hints :
    (r : Outcome Text Text)
    → Hints (if is_on_host_network r then some class_a else none) (probe_envoy_host_network r)
unfolding probe_envoy_host_network host_network_signal is_enabled probe_name_fork_e text_eq
    probe_name_host_network
host-Hints (err e) = (refl, refl)
host-Hints (ok out) = ground arith

decoded-Hints :
    (p : Outcome Text Proxy)
    → Hints
        (if is_bound p then some class_b else if is_hairpin p then some class_a else none)
        (probe_decoded p)
unfolding probe_decoded envoy_signal is_enabled probe_name_fork_e text_eq probe_name_envoy_ext_ips
decoded-Hints (err e) = (refl, refl)
decoded-Hints (ok p) = shape-Hints p

envoy-Hints :
    (decode : Text → Outcome Text Proxy) (r : Outcome Text Text)
    → Hints
        (if has_external_ips decode r
          then some class_b
          else if has_hairpin_shape decode r
          then some class_a
          else none)
        (probe_envoy_external_ips decode r)
unfolding probe_envoy_external_ips envoy_signal is_enabled probe_name_fork_e text_eq
    probe_name_envoy_ext_ips
envoy-Hints decode (err e) = (refl, refl)
envoy-Hints decode (ok out) = decoded-Hints (decode out)

services-hint :
    (a e : Bool) → (probe_fork_e_services a e).hint ≡ (if a || e then some class_a else none)
unfolding probe_fork_e_services
services-hint true true = refl
services-hint true false = refl
services-hint false true = refl
services-hint false false = refl

-- The class of four signals of which the first says whether the Services are there.
four_signals :
    (s c v n : Signal) (enabled cloud bound hairpin host : Bool)
    → is_enabled s ≡ enabled
    → s.hint ≡ (if enabled then some class_a else none)
    → Hints (if cloud then some class_c else none) c
    → Hints (if bound then some class_b else if hairpin then some class_a else none) v
    → Hints (if host then some class_a else none) n
    → class_and_verdict (classify (s ∷ c ∷ v ∷ n ∷ []))
      ≡ first_of enabled cloud bound (hairpin || host)
unfolding classify found_enabled hints hinted same_class
four_signals s c v n enabled cloud bound hairpin host es hs hc hv hn = ground arith

-- The class and the verdict of a cluster are those of the rule, on all replies of kubectl and however
-- the proxy's JSON is decoded: Services in place come first, then a provider id on some node, then
-- external addresses of the proxy, then the shapes of a hairpin; a read that fails counts as a no.
pub probe-rule :
    (decode : Text → Outcome Text Proxy) (r : Replies)
    → class_and_verdict (probe decode r) ≡ rule decode r
unfolding probe signals
probe-rule decode r =
    four_signals _ _ _ _ (r.api_service || r.envoy_service) (is_cloud r.provider_ids)
      (has_external_ips decode r.envoy_proxy) (has_hairpin_shape decode r.envoy_proxy)
      (is_on_host_network r.host_network) (enabled_iff r.api_service r.envoy_service)
      (services-hint r.api_service r.envoy_service) (cloud-Hints r.provider_ids)
      (envoy-Hints decode r.envoy_proxy) (host-Hints r.host_network)
