-- ===== src/IngressCidr/Nodes.antt =====
-- The prefix for nodes by name (cli/internal/bootstrap/clusterinit/ingresscidr.go:
-- `IngressHostCIDRFor`, `cidrIsWiderThanNeeded`).
use kube_dc_public.Prelude.{
  ℕ, ◌*◌, ◌-◌, ◌^◌, Bool, false, Option, none, some, List, [], ◌∷◌, is_empty, ltb, ◌==◌,
  if◌then◌else◌,
}
use kube_dc_public.Prelude.Text.{Text}
use kube_dc_public.Prelude.Engine.{Outcome, ok, err}
use kube_dc_public.GpuUpgrade.{sort}
use kube_dc_public.IngressCidr.{Address, DeriveError, Cidr, derive_ingress_host_cidr}

-- An error of the derivation comes with the addresses.
pub data NodesError : Type 0 where
  no_connection no_nodes not_listed : NodesError
  no_internal_ip : List Text → NodesError
  not_derived : DeriveError → List Text → NodesError

pub add_node : Text → Option Text → List Text × List Text → List Text × List Text
add_node n none (addrs, missing) = (addrs, n ∷ missing)
add_node n (some []) (addrs, missing) = (addrs, n ∷ missing)
add_node n (some (c ∷ ip)) (addrs, missing) = ((c ∷ ip) ∷ addrs, missing)

-- The addresses of the nodes, and the nodes that have none.
pub look_up : (Text → Option Text) → List Text → List Text × List Text
unfolding add_node
look_up all_ips [] = ([], [])
look_up all_ips (n ∷ ns) = add_node n (all_ips n) (look_up all_ips ns)

pub with_addresses : List Text → Outcome DeriveError Cidr → Outcome NodesError (Cidr × List Text)
with_addresses addrs (ok c) = ok (c, addrs)
with_addresses addrs (err e) = err (not_derived e addrs)

pub derive_for :
    (Text → Option Address) → List Text × List Text → Outcome NodesError (Cidr × List Text)
unfolding with_addresses
derive_for parse (addrs, []) =
    with_addresses (sort addrs) (derive_ingress_host_cidr parse (sort addrs))
derive_for parse (addrs, n ∷ ns) = err (no_internal_ip (sort (n ∷ ns)))

-- `listed` is the map from nodes to addresses, if the cluster gave it.
pub ingress_host_cidr_for :
    (Text → Option Address)
    → Bool
    → Option (Text → Option Text)
    → List Text
    → Outcome NodesError (Cidr × List Text)
unfolding derive_for look_up
ingress_host_cidr_for parse has_k8s listed nodes =
    if has_k8s
    then if is_empty nodes
      then err no_nodes
      else elim listed [ none ↦ err not_listed | some ips ↦ derive_for parse (look_up ips nodes) ]
    else err no_connection

-- The text of a prefix is given by its length and that of its family.
pub cidr_is_wider_than_needed : Option (ℕ × ℕ) → ℕ → Bool
cidr_is_wider_than_needed none count = false
cidr_is_wider_than_needed (some (ones, bits)) count =
    if count == 0 then false else ltb (4 * count) (2 ^ (bits - ones))
