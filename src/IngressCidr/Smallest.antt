-- ===== src/IngressCidr/Smallest.antt =====
-- That the prefix covers the addresses and is the smallest
-- (cli/internal/bootstrap/clusterinit/ingresscidr.go).
use kube_dc_public.Prelude.{
  ℕ, ◌-◌, ◌*◌, ◌^◌, ◌≤◌, ◌<◌, ◌≡◌, refl, sym, ap, ◌∙◌, subst, if◌then◌else◌, Option, none, some,
  List, [], ◌∷◌, All, ◌==◌, arith,
}
use kube_dc_public.Prelude.Text.{Text, trim_space}
use kube_dc_public.Prelude.Engine.{Outcome, ok, err}
use kube_dc_public.IngressCidr.{
  Address, v4, v6, Addresses, Cidr, DeriveError, network, add_address, add_parsed, collect, cidr_of,
  derive_from, derived, derive_ingress_host_cidr,
}
use kube_dc_public.IngressCidr.Longest.{Agree, cidr_of-IsLongest}

-- The texts are addresses of the family of this many bits, and are in the network with this number.
abbrev pub family : ℕ → ℕ → Address
family bits n = if bits == 32 then v4 n else v6 n

abbrev pub IsIn : (Text → Option Address) → ℕ → ℕ → ℕ → Text → Type 0
IsIn parse bits q m s =
    (n : ℕ) × (parse (trim_space s) ≡ some (family bits n)) × (network bits q n ≡ m)

abbrev pub Covered : (Text → Option Address) → ℕ → ℕ → ℕ → List Text → Type 0
Covered parse bits q m ss = All (IsIn parse bits q m) ss

-- The numbers of the texts, which are all of one family.
abbrev Numbers : (Text → Option Address) → ℕ → List Text → List ℕ → Type 0
Numbers parse bits [] [] = Unit {0}
Numbers parse bits (s ∷ ss) (n ∷ ns) =
    (parse (trim_space s) ≡ some (family bits n)) × Numbers parse bits ss ns
Numbers parse bits _ _ = ⊥

covered :
    (parse : Text → Option Address) (bits q m : ℕ) (ss : List Text) (ns : List ℕ)
    → Numbers parse bits ss ns
    → All (λ n. network bits q n ≡ m) ns
    → Covered parse bits q m ss
covered parse bits q m [] [] p a = tt
covered parse bits q m [] (n ∷ ns) p a = tt
covered parse bits q m (s ∷ ss) [] p a = absurd p
covered parse bits q m (s ∷ ss) (n ∷ ns) p a = ((n, p.0, a.0), covered parse bits q m ss ns p.1 a.1)

numbered :
    (parse : Text → Option Address) (bits q m : ℕ) (ss : List Text) (ns : List ℕ)
    → Numbers parse bits ss ns
    → Covered parse bits q m ss
    → All (λ n. network bits q n ≡ m) ns
numbered parse bits q m ss [] p c = tt
numbered parse bits q m [] (n ∷ ns) p c = absurd p
numbered parse bits q m (s ∷ ss) (n ∷ ns) p ((k, e, i), c) =
    let same : n ≡ k = ground (arith, p.0, e) in
    (ap (network bits q) same ∙ i, numbered parse bits q m ss ns p.1 c)

abbrev Parsed : (Text → Option Address) → List Text → Addresses → Type 0
Parsed parse ss found =
    (found.v6s ≡ [] → Numbers parse 32 ss found.v4s)
    × (found.v4s ≡ [] → Numbers parse 128 ss found.v6s)

abbrev AllParsed : (Text → Option Address) → List Text → Outcome DeriveError Addresses → Type 0
AllParsed parse ss (ok found) = Parsed parse ss found
AllParsed parse ss (err e) = Unit {0}

add_parsed-AllParsed :
    (parse : Text → Option Address) (s : Text) (ss : List Text) (a : Option Address)
    (rest : Outcome DeriveError Addresses)
    → parse (trim_space s) ≡ a
    → AllParsed parse ss rest
    → AllParsed parse (s ∷ ss) (add_parsed s a rest)
unfolding add_parsed add_address
add_parsed-AllParsed parse s ss none rest p r = tt
add_parsed-AllParsed parse s ss (some a) (err e) p r = tt
add_parsed-AllParsed parse s ss (some (v4 n)) (ok found) p r = (λ z. (p, r.0 z), λ z. absurd (cc z))
add_parsed-AllParsed parse s ss (some (v6 n)) (ok found) p r = (λ z. absurd (cc z), λ z. (p, r.1 z))

collect-AllParsed :
    (parse : Text → Option Address) (ss : List Text) → AllParsed parse ss (collect parse ss)
unfolding collect
collect-AllParsed parse [] = (λ z. tt, λ z. tt)
collect-AllParsed parse (s ∷ ss) =
    add_parsed-AllParsed parse s ss (parse (trim_space s)) (collect parse ss) refl
      (collect-AllParsed parse ss)

-- The prefix covers the addresses, and no longer one of the family does.
pub record IsSmallest (parse : Text → Option Address) (addrs : List Text) (c : Cidr) : Type 0 where
  pub number : ℕ
  pub base : c.base ≡ number * 2 ^ (c.bits - c.prefix)
  pub covers : Covered parse c.bits c.prefix number addrs
  pub within : c.prefix ≤ c.bits
  pub smallest : (q m : ℕ) → c.prefix < q → q ≤ c.bits → ¬ Covered parse c.bits q m addrs

abbrev Derived : (Text → Option Address) → List Text → Outcome DeriveError Cidr → Type 0
Derived parse ss (ok c) = IsSmallest parse ss c
Derived parse ss (err e) = Unit {0}

-- Addresses of a family have that many bits.
abbrev pub IsParser : (Text → Option Address) → Type 0
IsParser parse =
    ((s : Text) (n : ℕ) → parse s ≡ some (v4 n) → n < 2 ^ 32)
    × ((s : Text) (n : ℕ) → parse s ≡ some (v6 n) → n < 2 ^ 128)

bounded :
    (parse : Text → Option Address) (bits : ℕ)
    → ((s : Text) (n : ℕ) → parse s ≡ some (family bits n) → n < 2 ^ bits)
    → (ss : List Text) (ns : List ℕ) → Numbers parse bits ss ns
    → All (λ n. n < 2 ^ bits) ns
bounded parse bits w ss [] p = tt
bounded parse bits w [] (n ∷ ns) p = absurd p
bounded parse bits w (s ∷ ss) (n ∷ ns) p = (w (trim_space s) n p.0, bounded parse bits w ss ns p.1)

-- Addresses in one network are in that of the first.
to_first :
    (bits q m first : ℕ) (ns : List ℕ)
    → network bits q first ≡ m
    → All (λ n. network bits q n ≡ m) ns
    → Agree bits q first ns
to_first bits q m first [] f a = tt
to_first bits q m first (n ∷ ns) f a = (a.0 ∙ sym f, to_first bits q m first ns f a.1)

smallest :
    (parse : Text → Option Address) (bits : ℕ)
    → ((s : Text) (n : ℕ) → parse s ≡ some (family bits n) → n < 2 ^ bits)
    → (ss : List Text) (first : ℕ) (ns : List ℕ) → Numbers parse bits ss (first ∷ ns)
    → IsSmallest parse ss (cidr_of bits first ns)
unfolding cidr_of
smallest parse bits w ss first ns p =
    let (l, b) = cidr_of-IsLongest bits first ns (bounded parse bits w ss (first ∷ ns) p) in
    record {
      number = network bits (cidr_of bits first ns).prefix first;
      base = b;
      covers =
          covered parse bits (cidr_of bits first ns).prefix
            (network bits (cidr_of bits first ns).prefix first) ss (first ∷ ns) p l.covers;
      within = l.within;
      smallest = λ q m below above c.
          let a = numbered parse bits q m ss (first ∷ ns) p c in
          l.longest q below above (to_first bits q m first (first ∷ ns) a.0 a);
    }

from_lists :
    (parse : Text → Option Address) (ss : List Text) (v4s v6s : List ℕ)
    → IsParser parse
    → Parsed parse ss (record { v4s = v4s; v6s = v6s })
    → Derived parse ss (derive_from (record { v4s = v4s; v6s = v6s }))
unfolding derive_from
from_lists parse ss [] [] w p = tt
from_lists parse ss (n ∷ ns) [] w p = smallest parse 32 w.0 ss n ns (p.0 refl)
from_lists parse ss [] (n ∷ ns) w p = smallest parse 128 w.1 ss n ns (p.1 refl)
from_lists parse ss (n ∷ ns) (k ∷ ks) w p = tt

from_collected :
    (parse : Text → Option Address) (ss : List Text) (r : Outcome DeriveError Addresses)
    → IsParser parse
    → AllParsed parse ss r
    → Derived parse ss (derived r)
unfolding derived
from_collected parse ss (ok found) w p = from_lists parse ss found.v4s found.v6s w p
from_collected parse ss (err e) w p = tt

derive-Derived :
    (parse : Text → Option Address) (ss : List Text)
    → IsParser parse
    → Derived parse ss (derive_ingress_host_cidr parse ss)
unfolding derive_ingress_host_cidr
derive-Derived parse [] w = tt
derive-Derived parse (s ∷ ss) w =
    from_collected parse (s ∷ ss) (collect parse (s ∷ ss)) w (collect-AllParsed parse (s ∷ ss))

-- Where the addresses of a family have its number of bits, 32 or 128: a prefix that is derived is one
-- of the family of all the addresses given, it covers each of them, its base has its other bits
-- cleared, and no longer prefix covers all of them, whatever its network.
pub derive_ingress_host_cidr-IsSmallest :
    (parse : Text → Option Address) (addrs : List Text) (c : Cidr)
    → IsParser parse
    → derive_ingress_host_cidr parse addrs ≡ ok c
    → IsSmallest parse addrs c
derive_ingress_host_cidr-IsSmallest parse addrs c w e =
    subst (Derived parse addrs) e (derive-Derived parse addrs w)
