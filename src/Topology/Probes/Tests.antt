-- ===== src/Topology/Probes/Tests.antt =====
-- Clusters on bare metal, with addresses on their nodes and without.
use kube_dc_public.Prelude.{◌≡◌, false, [], ◌∷◌, if◌then◌else◌}
use kube_dc_public.Prelude.Text.{Text, codes, text_eq}
use kube_dc_public.Prelude.Engine.{Outcome, ok}
use kube_dc_public.Topology.Probes.{Proxy, Replies, probe}
use kube_dc_public.Topology.Probes.Classify.{class_and_verdict, rule, probe-rule}

-- The JSON of a Service without and with an address, stood for by a word.
abbrev decode : Text → Outcome Text Proxy
decode s = ok (record {
  has_daemon_set = false;
  svc_type = codes "ClusterIP";
  ext_ips = if text_eq s (codes "bound") then codes "192.0.2.1" ∷ [] else [];
  lb_class = [];
})

abbrev replies : Text → Replies
replies proxy = record {
  api_service = false;
  envoy_service = false;
  provider_ids = ok (codes "\n\n");
  envoy_proxy = ok proxy;
  host_network = ok (codes "true\n");
}

probe-rule_example :
    class_and_verdict (probe decode (replies (codes "bound")))
    ≡ rule decode (replies (codes "bound"))
probe-rule_example = probe-rule decode (replies (codes "bound"))
