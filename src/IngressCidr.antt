-- ===== src/IngressCidr.antt =====
-- cli/internal/bootstrap/clusterinit/ingresscidr.go: the smallest prefix that covers the addresses
-- of the ingress nodes. An address is the number of its bytes; which texts are addresses, of which
-- family and number, is the function `parse`, net.ParseIP with To4.
pub mod Nodes
pub mod Longest
pub mod Smallest
mod Tests
use kube_dc_public.Prelude.{
  ℕ, zero, suc, ◌-◌, ◌*◌, ◌/◌, ◌^◌, Bool, true, false, Option, none, some, List, [], ◌∷◌, all,
  is_empty, ◌==◌, ◌&&◌, not, if◌then◌else◌,
}
use kube_dc_public.Prelude.Text.{Text, trim_space}
use kube_dc_public.Prelude.Engine.{Outcome, ok, err}

pub data Address : Type 0 where
  v4 v6 : ℕ → Address

pub record Addresses : Type 0 where
  pub v4s : List ℕ
  pub v6s : List ℕ

pub data DeriveError : Type 0 where
  no_addresses : DeriveError
  not_an_address : Text → DeriveError
  dual_stack : DeriveError

-- The base is the first address with the other bits cleared.
pub record Cidr : Type 0 where
  pub bits : ℕ
  pub base : ℕ
  pub prefix : ℕ

-- The number of the network of an address: its first bits.
pub network : ℕ → ℕ → ℕ → ℕ
network bits prefix ip = ip / (2 ^ (bits - prefix))

pub add_address : Address → Addresses → Addresses
add_address (v4 n) a = record a { v4s = n ∷ a.v4s }
add_address (v6 n) a = record a { v6s = n ∷ a.v6s }

pub add_parsed :
    Text → Option Address → Outcome DeriveError Addresses → Outcome DeriveError Addresses
unfolding add_address
add_parsed s none rest = err (not_an_address s)
add_parsed s (some a) (ok found) = ok (add_address a found)
add_parsed s (some a) (err e) = err e

-- The addresses by family, in order; the first text that is none is the error.
pub collect : (Text → Option Address) → List Text → Outcome DeriveError Addresses
unfolding add_parsed trim_space
collect parse [] = ok (record { v4s = []; v6s = [] })
collect parse (s ∷ ss) = let rest = collect parse ss in add_parsed s (parse (trim_space s)) rest

-- That the set of masked addresses has one element.
pub is_one_network : ℕ → ℕ → ℕ → List ℕ → Bool
unfolding network
is_one_network bits prefix first ips =
    all (λ ip. network bits prefix ip == network bits prefix first) ips

pub longest_prefix : ℕ → ℕ → List ℕ → ℕ → ℕ
unfolding is_one_network
longest_prefix bits first ips zero = zero
longest_prefix bits first ips (suc p) =
    let shorter = longest_prefix bits first ips p in
    if is_one_network bits (suc p) first ips then suc p else shorter

pub cidr_of : ℕ → ℕ → List ℕ → Cidr
unfolding longest_prefix network
cidr_of bits first ips =
    let p = longest_prefix bits first (first ∷ ips) bits in
    record { bits = bits; base = network bits p first * 2 ^ (bits - p); prefix = p }

pub derive_from : Addresses → Outcome DeriveError Cidr
unfolding cidr_of
derive_from found = elim found.v6s [
  | [] ↦ elim found.v4s [ [] ↦ err no_addresses | ip ∷ ips ↦ ok (cidr_of 32 ip ips) ]
  | ip ∷ ips ↦ (if is_empty found.v4s then ok (cidr_of 128 ip ips) else err dual_stack)
]

pub derived : Outcome DeriveError Addresses → Outcome DeriveError Cidr
unfolding derive_from
derived (ok found) = derive_from found
derived (err e) = err e

pub derive_ingress_host_cidr : (Text → Option Address) → List Text → Outcome DeriveError Cidr
unfolding collect derived
derive_ingress_host_cidr parse [] = err no_addresses
derive_ingress_host_cidr parse (s ∷ ss) = derived (collect parse (s ∷ ss))
