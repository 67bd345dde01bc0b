-- ===== src/Adopt.antt =====
-- What a cluster that already runs has of what would be installed
-- (cli/internal/bootstrap/adopt/detect.go). The notes of the components, which are only printed, are
-- left out.
pub mod Pin
pub mod Gate
use kube_dc_public.Prelude.{
  ℕ, ltb, Bool, true, false, ◌||◌, Option, none, some, List, [], ◌∷◌, ◌++◌, if◌then◌else◌,
}
use kube_dc_public.Prelude.Text.{Text, codes, text_eq}
use kube_dc_public.Prelude.Sort.{sort_by}
use kube_dc_public.Prelude.Engine.{Outcome, ok, err}

pub data Decision : Type 0 where
  adopt skip : Decision

pub record CrVersionSource : Type 0 where
  pub group : Text
  pub version : Text
  pub resource : Text
  pub namespace : Text
  pub name : Text
  pub fields : List Text

pub record Component : Type 0 where
  pub name : Text
  pub crds : List Text
  pub namespaces : List Text
  pub fleet_path : Text
  pub version_key : Text
  pub helm_release : Text
  pub helm_release_ns : Text
  pub cr_version : Option CrVersionSource

pub record Finding : Type 0 where
  pub component : Component
  pub via : Text
  pub recommend : Decision

pub record Inventory : Type 0 where
  pub flux_installed : Bool
  pub findings : List Finding

-- What the cluster answers in one run; none is an error. A release that is not there has no version.
pub record Inspector : Type 0 where
  pub list_crds : Option (List Text)
  pub list_namespaces : Option (List Text)
  pub flux_nodes : Option ℕ
  pub chart_versions : Option (Text → Text)
  pub cr_field : CrVersionSource → Option Text

pub data AdoptError : Type 0 where
  missing_inspector crds_failed namespaces_failed charts_failed version_failed : AdoptError

-- A row of the catalog whose release and its namespace have names of their own.
abbrev row : Text → List Text → List Text → Text → Text → Text → Text → Component
row name crds namespaces path key release ns = record {
  name = name;
  crds = crds;
  namespaces = namespaces;
  fleet_path = path;
  version_key = key;
  helm_release = release;
  helm_release_ns = ns;
  cr_version = none;
}

abbrev kubevirt_source : CrVersionSource
kubevirt_source = record {
  group = codes "kubevirt.io";
  version = codes "v1";
  resource = codes "kubevirts";
  namespace = codes "kubevirt";
  name = codes "kubevirt";
  fields = codes "status.observedKubeVirtVersion" ∷ codes "spec.imageTag" ∷ [];
}

abbrev cdi_source : CrVersionSource
cdi_source = record {
  group = codes "cdi.kubevirt.io";
  version = codes "v1beta1";
  resource = codes "cdis";
  namespace = [];
  name = codes "cdi";
  fields =
      codes "status.observedVersion" ∷ codes "status.operatorVersion" ∷ codes "spec.imageTag" ∷ [];
}

abbrev pub kubevirt : Component
kubevirt =
    record (row (codes "kubevirt") (codes "kubevirts.kubevirt.io" ∷ []) (codes "kubevirt" ∷ [])
      (codes "platform/kubevirt") (codes "KUBEVIRT_VERSION") (codes "kubevirt")
      (codes "kubevirt")) { cr_version = some kubevirt_source }

unfoldable pub catalog : List Component
catalog =
    row (codes "cert-manager")
      (codes "certificates.cert-manager.io" ∷ codes "clusterissuers.cert-manager.io" ∷ [])
      (codes "cert-manager" ∷ []) (codes "infrastructure/cert-manager")
      (codes "CERT_MANAGER_VERSION") (codes "cert-manager") (codes "cert-manager")
    ∷ row (codes "kube-ovn (CNI)") (codes "subnets.kubeovn.io" ∷ codes "vpcs.kubeovn.io" ∷ []) []
        (codes "infrastructure/cni") (codes "KUBE_OVN_VERSION") (codes "kube-ovn")
        (codes "kube-system")
    ∷ row (codes "envoy-gateway") (codes "envoyproxies.gateway.envoyproxy.io" ∷ [])
        (codes "envoy-gateway-system" ∷ []) (codes "infrastructure/envoy-gateway")
        (codes "ENVOY_GATEWAY_VERSION") (codes "envoy-gateway") (codes "envoy-gateway-system")
    ∷ kubevirt
    ∷ record (row (codes "cdi")
        (codes "datavolumes.cdi.kubevirt.io" ∷ codes "cdis.cdi.kubevirt.io" ∷ []) (codes "cdi" ∷ [])
        (codes "platform/kubevirt") (codes "KUBEVIRT_CDI_VERSION") (codes "cdi") (codes "cdi")) {
          cr_version = some cdi_source;
        }
    ∷ row (codes "kamaji") (codes "tenantcontrolplanes.kamaji.clastix.io" ∷ [])
        (codes "kamaji-system" ∷ []) (codes "platform/kamaji") (codes "KAMAJI_VERSION")
        (codes "kamaji") (codes "kamaji-system")
    ∷ row (codes "rook-ceph") (codes "cephclusters.ceph.rook.io" ∷ []) (codes "rook-ceph" ∷ [])
        (codes "infrastructure/rook-ceph") (codes "ROOK_CEPH_VERSION") (codes "rook-ceph")
        (codes "rook-ceph")
    ∷ row (codes "monitoring (prometheus-operator)")
        (codes "prometheuses.monitoring.coreos.com" ∷ []) (codes "monitoring" ∷ [])
        (codes "platform/monitoring") (codes "PROM_OPERATOR_VERSION") (codes "prom-operator")
        (codes "monitoring")
    ∷ row (codes "cnpg") (codes "clusters.postgresql.cnpg.io" ∷ []) (codes "cnpg-system" ∷ [])
        (codes "infrastructure/cnpg") (codes "CNPG_VERSION") (codes "cnpg") (codes "cnpg-system")
    ∷ row (codes "metallb") (codes "ipaddresspools.metallb.io" ∷ []) (codes "metallb-system" ∷ [])
        (codes "addons/metallb") (codes "METALLB_VERSION") (codes "metallb")
        (codes "metallb-system")
    ∷ row (codes "keycloak") (codes "keycloaks.k8s.keycloak.org" ∷ []) (codes "keycloak" ∷ [])
        (codes "platform/keycloak") (codes "KEYCLOAK_VERSION") (codes "keycloak") (codes "keycloak")
    ∷ row (codes "ingress-nginx") [] (codes "ingress-nginx" ∷ []) (codes "(none)") [] [] []
    ∷ []

unfoldable pub recommend_for : Component → Decision
recommend_for c =
    if text_eq c.fleet_path (codes "(none)") || text_eq c.fleet_path [] then skip else adopt

-- The first of the names that the cluster has, behind a word.
unfoldable pub first_of : Text → List Text → List Text → Option Text
first_of word [] there = none
first_of word (n ∷ ns) there = if has_name n there then some (word ++ n) else first_of word ns there
  where
    has_name : Text → List Text → Bool
    has_name n [] = false
    has_name n (t ∷ ts) = text_eq t n || has_name n ts

unfoldable pub or_else : Option Text → Option Text → Option Text
or_else (some v) o = some v
or_else none o = o

-- A CRD before a namespace.
unfoldable pub detect_one : Component → List Text → List Text → Option Text
unfolding first_of or_else
detect_one c crds nss =
    or_else (first_of (codes "CRD ") c.crds crds) (first_of (codes "namespace ") c.namespaces nss)

-- The loop over the components.
unfoldable pub detect_all : List Component → List Text → List Text → List Finding
unfolding detect_one recommend_for
detect_all [] crds nss = []
detect_all (c ∷ cs) crds nss =
    let rest = detect_all cs crds nss in
    elim (detect_one c crds nss) [
      | none ↦ rest
      | some via ↦ record { component = c; via = via; recommend = recommend_for c } ∷ rest
    ]

abbrev pub finding_name : Finding → Text
finding_name f = f.component.name

unfoldable pub has_nodes : Option ℕ → Bool
has_nodes none = false
has_nodes (some n) = ltb 0 n

unfoldable pub inventory :
    Inspector → Option (List Text) → Option (List Text) → Outcome AdoptError Inventory
unfolding detect_all has_nodes sort_by catalog
inventory i none nss = err crds_failed
inventory i (some crds) none = err namespaces_failed
inventory i (some crds) (some nss) = ok (record {
  flux_installed = has_nodes i.flux_nodes;
  findings = sort_by finding_name (detect_all catalog crds nss);
})

-- Detect.
unfoldable pub detect : Option Inspector → Outcome AdoptError Inventory
unfolding inventory
detect none = err missing_inspector
detect (some i) = inventory i i.list_crds i.list_namespaces
