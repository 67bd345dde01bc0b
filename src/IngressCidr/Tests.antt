-- ===== src/IngressCidr/Tests.antt =====
-- Two addresses of a network, and an instance of the theorem.
use kube_dc_public.Prelude.{◌≡◌, refl, Option, none, some, List, [], ◌∷◌, if◌then◌else◌, arith}
use kube_dc_public.Prelude.Text.{Text, codes, text_eq, trim_space, trim_left, is_space}
use kube_dc_public.Prelude.Engine.{ok}
use kube_dc_public.IngressCidr.{
  Address, v4, Cidr, network, add_address, add_parsed, collect, is_one_network, longest_prefix,
  cidr_of, derive_from, derived, derive_ingress_host_cidr,
}
use kube_dc_public.IngressCidr.Smallest.{IsParser, IsSmallest, derive_ingress_host_cidr-IsSmallest}

-- A parser that knows two addresses.
abbrev parse : Text → Option Address
parse s =
    if text_eq s (codes "10.0.0.1")
    then some (v4 0x0a000001)
    else if text_eq s (codes "10.0.0.6")
    then some (v4 0x0a000006)
    else none

abbrev nodes : List Text
nodes = codes "10.0.0.1" ∷ codes " 10.0.0.6" ∷ []

abbrev found : Cidr
found = record { bits = 32; base = 0x0a000000; prefix = 29 }

eight_wide : derive_ingress_host_cidr parse nodes ≡ ok found
unfolding derive_ingress_host_cidr derived derive_from collect add_parsed add_address cidr_of
    longest_prefix is_one_network network trim_space trim_left is_space text_eq
eight_wide = refl

parse-IsParser : IsParser parse
parse-IsParser = (λ s n e. ground (arith, e), λ s n e. absurd (ground (arith, e)))

derive_ingress_host_cidr-IsSmallest_example : IsSmallest parse nodes found
derive_ingress_host_cidr-IsSmallest_example =
    derive_ingress_host_cidr-IsSmallest parse nodes found parse-IsParser eight_wide
