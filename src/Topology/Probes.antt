-- ===== src/Topology/Probes.antt =====
-- cli/internal/bootstrap/topology/topology.go: the four probes and `Probe`. The replies of kubectl
-- are an argument, and so is the decoding of the EnvoyProxy's JSON.
pub mod Classify
mod Tests
use kube_dc_public.Prelude.{
  ℕ, zero, suc, ◌+◌, Bool, true, false, not, ◌&&◌, Option, none, some, List, [], ◌∷◌, ◌++◌, length,
  is_empty, leb, ltb, ◌==◌, if◌then◌else◌,
}
use kube_dc_public.Prelude.Text.{Text, codes, text_eq, trim_space, is_blank, split, join, cut_at}
use kube_dc_public.Prelude.Engine.{Outcome, ok, err}
use kube_dc_public.Topology.{
  Class, class_a, class_b, class_c, high, medium, low, unset, Confidence, Signal, Result,
  probe_name_fork_e, probe_name_cloud_provider, probe_name_envoy_ext_ips, probe_name_host_network,
  classify,
}

pub take : ℕ → Text → Text
take zero s = []
take (suc n) [] = []
take (suc n) (c ∷ s) = c ∷ take n s

pub first_line : Text → Text
first_line s = elim (cut_at (10 ∷ []) s) [ none ↦ s | some r ↦ (if is_empty r.0 then s else r.0) ]

-- The length is that of the text; Go takes the number of its bytes.
pub shorten_err : Text → Text
unfolding first_line take
shorten_err e = let s = first_line e in if ltb 100 (length s) then take 97 s ++ (0x2026 ∷ []) else s

pub if_blank : Text → Text → Text
if_blank s fallback = if is_blank s then fallback else s

-- Whether each of the two Services is there.
pub probe_fork_e_services : Bool → Bool → Signal
unfolding probe_name_fork_e
probe_fork_e_services true true = record {
  probe = probe_name_fork_e;
  detail = codes "both kube-api-platform + envoy-gateway-platform deployed";
  hint = some class_a;
  confidence = high;
}
probe_fork_e_services true false = record {
  probe = probe_name_fork_e;
  detail = codes "kube-api-platform deployed (envoy-gateway-platform not yet)";
  hint = some class_a;
  confidence = high;
}
probe_fork_e_services false true = record {
  probe = probe_name_fork_e;
  detail = codes "envoy-gateway-platform deployed (kube-api-platform not yet)";
  hint = some class_a;
  confidence = high;
}
probe_fork_e_services false false = record {
  probe = probe_name_fork_e;
  detail = codes "neither platform-endpoint Service present";
  hint = none;
  confidence = high;
}

pub first_id : List Text → Option Text
first_id [] = none
first_id (l ∷ ls) = let rest = first_id ls in if is_blank l then rest else some (trim_space l)

pub scheme_of : Text → Text
scheme_of id = elim (cut_at (codes "://") id) [
  | none ↦ id
  | some r ↦ (if is_empty r.0 then id else r.0)
]

-- The nodes' provider ids, one on a line.
pub probe_cloud_provider : Outcome Text Text → Signal
unfolding probe_name_cloud_provider shorten_err first_id scheme_of
probe_cloud_provider (err e) = record {
  probe = probe_name_cloud_provider;
  detail = codes "probe error: " ++ shorten_err e;
  hint = none;
  confidence = unset;
}
probe_cloud_provider (ok out) = elim (first_id (split (trim_space out) (10 ∷ []))) [
  | some id ↦ record {
    probe = probe_name_cloud_provider;
    detail = codes "providerID scheme: " ++ scheme_of id;
    hint = some class_c;
    confidence = medium;
  }
  | none ↦ record {
    probe = probe_name_cloud_provider;
    detail = codes "no providerID on any node";
    hint = none;
    confidence = high;
  }
]

-- What is read of the EnvoyProxy: whether it has a daemon set, and its Service.
pub record Proxy : Type 0 where
  pub has_daemon_set : Bool
  pub svc_type : Text
  pub ext_ips : List Text
  pub lb_class : Text

-- strings.EqualFold with a text of lower-case letters, by Unicode's simple folding of these.
pub fold : ℕ → ℕ
fold c =
    if leb 65 c && leb c 90
    then c + 32
    else if c == 0x17f
    then 115
    else if c == 0x212a
    then 107
    else c

pub equal_fold : Text → Text → Bool
unfolding fold
equal_fold [] [] = true
equal_fold (c ∷ s) (d ∷ t) = fold c == d && equal_fold s t
equal_fold _ _ = false

pub shape_of : Proxy → Text
unfolding if_blank
shape_of p =
    codes "type="
    ++ (if_blank p.svc_type (codes "default")
        ++ (codes " lb-class=" ++ if_blank p.lb_class (codes "default")))

pub envoy_signal : Text → Option Class → Confidence → Signal
unfolding probe_name_envoy_ext_ips
envoy_signal detail hint confidence = record {
  probe = probe_name_envoy_ext_ips;
  detail = detail;
  hint = hint;
  confidence = confidence;
}

pub probe_shape : Proxy → Signal
unfolding shape_of envoy_signal equal_fold
probe_shape p =
    if p.has_daemon_set && is_empty p.ext_ips
    then envoy_signal
        (codes "ingress-v2 data plane (envoyDaemonSet, "
          ++ (shape_of p
              ++ codes
                  "): the Envoy shape is uniform fleet-wide and no longer distinguishes Class A from B — classify by whether the platform address is on-link on a node (see PRD §6.E alignment note)"))
        none low
    else if not (is_empty p.ext_ips)
    then envoy_signal
        (codes "externalIPs=["
          ++ (join p.ext_ips (codes " ") ++ (codes "] (svc " ++ (shape_of p ++ codes ")"))))
        (some class_b) high
    else if equal_fold p.svc_type (codes "clusterip")
    then envoy_signal (codes "type=ClusterIP (probable hostNetwork bypass — Class A shape)")
        (some class_a) medium
    else if equal_fold p.svc_type (codes "loadbalancer") && text_eq p.lb_class (codes "metallb")
    then envoy_signal
        (codes "type=LoadBalancer, lb-class=metallb (MetalLB exposure — Class A shape)")
        (some class_a) medium
    else envoy_signal (shape_of p ++ codes ", no externalIPs") none unset

pub probe_decoded : Outcome Text Proxy → Signal
unfolding envoy_signal shorten_err
probe_decoded (err e) = envoy_signal (codes "decode EnvoyProxy CR: " ++ shorten_err e) none unset
probe_decoded (ok p) = probe_shape p

pub probe_envoy_external_ips : (Text → Outcome Text Proxy) → Outcome Text Text → Signal
unfolding envoy_signal
probe_envoy_external_ips decode (err e) =
    envoy_signal (codes "EnvoyProxy CR not found (cluster may be mid-bootstrap)") none unset
probe_envoy_external_ips decode (ok out) = probe_decoded (decode out)

pub host_network_signal : Text → Option Class → Confidence → Signal
unfolding probe_name_host_network
host_network_signal detail hint confidence = record {
  probe = probe_name_host_network;
  detail = detail;
  hint = hint;
  confidence = confidence;
}

pub probe_envoy_host_network : Outcome Text Text → Signal
unfolding host_network_signal shorten_err
probe_envoy_host_network (err e) =
    host_network_signal (codes "probe error: " ++ shorten_err e) none unset
probe_envoy_host_network (ok out) =
    if text_eq (trim_space out) (codes "true")
    then host_network_signal (codes "true (Envoy on host network — Class A shape)") (some class_a)
        medium
    else host_network_signal (codes "false or unset (standard pod networking)") none unset

-- What kubectl replies to the five reads, with the text of its error.
pub record Replies : Type 0 where
  pub api_service : Bool
  pub envoy_service : Bool
  pub provider_ids : Outcome Text Text
  pub envoy_proxy : Outcome Text Text
  pub host_network : Outcome Text Text

pub signals : (Text → Outcome Text Proxy) → Replies → List Signal
signals decode r =
    probe_fork_e_services r.api_service r.envoy_service
    ∷ probe_cloud_provider r.provider_ids
    ∷ probe_envoy_external_ips decode r.envoy_proxy
    ∷ probe_envoy_host_network r.host_network
    ∷ []

pub probe : (Text → Outcome Text Proxy) → Replies → Result
unfolding signals
probe decode r = classify (signals decode r)
