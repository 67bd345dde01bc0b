-- ===== src/IngressCidr/Longest.antt =====
-- The search for the longest prefix that numbers share
-- (cli/internal/bootstrap/clusterinit/ingresscidr.go).
use native.Mathlib.Nat.{div-lt_iff_lt-mul}
use kube_dc_public.Prelude.{
  ℕ, zero, suc, ◌-◌, ◌*◌, ◌/◌, ◌^◌, ◌≤◌, ◌<◌, ◌≡◌, refl, sym, ◌∙◌, subst, leb, if◌then◌else◌, Bool,
  true, false, List, [], ◌∷◌, All, arith, Bool-cases, inl, inr,
}
use kube_dc_public.IngressCidr.{network, is_one_network, longest_prefix, cidr_of}

-- The addresses are in one network of this length.
abbrev pub Agree : ℕ → ℕ → ℕ → List ℕ → Type 0
Agree bits p first ips = All (λ ip. network bits p ip ≡ network bits p first) ips

one-Agree :
    (bits p first : ℕ) (ips : List ℕ)
    → is_one_network bits p first ips ≡ true
    → Agree bits p first ips
unfolding is_one_network
one-Agree bits p first [] e = tt
one-Agree bits p first (ip ∷ ips) e = (ground (arith, e), one-Agree bits p first ips (ground arith))

Agree-one :
    (bits p first : ℕ) (ips : List ℕ)
    → Agree bits p first ips
    → is_one_network bits p first ips ≡ true
unfolding is_one_network
Agree-one bits p first [] a = refl
Agree-one bits p first (ip ∷ ips) a = ground (arith, a.0, Agree-one bits p first ips a.1)

-- Of the lengths up to a bound: the addresses agree, and on no longer one.
pub record IsLongest (bits bound first : ℕ) (ips : List ℕ) (p : ℕ) : Type 0 where
  pub covers : Agree bits p first ips
  pub within : p ≤ bound
  pub longest : (q : ℕ) → p < q → q ≤ bound → ¬ Agree bits q first ips

longer :
    (bits b first p : ℕ) (ips : List ℕ) (k : Bool)
    → is_one_network bits (suc b) first ips ≡ k
    → IsLongest bits b first ips p
    → IsLongest bits (suc b) first ips (if k then suc b else p)
longer bits b first p ips true e rest = record {
  covers = one-Agree bits (suc b) first ips e;
  within = omega arith;
  longest = λ q l m. absurd (omega arith);
}
longer bits b first p ips false e rest = record {
  covers = rest.covers;
  within = let w = rest.within in omega arith;
  longest = λ q l m a. elim (Bool-cases (leb q b)) [
    | inl le ↦ rest.longest q l (ground (arith, le)) a
    | inr gt ↦
        let same : q ≡ suc b = ground (arith, gt, m) in
        let one = Agree-one bits (suc b) first ips (subst (λ x. Agree bits x first ips) same a) in
        cc (one, e)
  ];
}

longest_prefix-IsLongest :
    (bits first : ℕ) (ips : List ℕ) (bound : ℕ)
    → Agree bits 0 first ips
    → IsLongest bits bound first ips (longest_prefix bits first ips bound)
unfolding longest_prefix
longest_prefix-IsLongest bits first ips zero a = record {
  covers = a;
  within = omega arith;
  longest = λ q l m. absurd (omega arith);
}
longest_prefix-IsLongest bits first ips (suc b) a =
    longer bits b first (longest_prefix bits first ips b) ips
      (is_one_network bits (suc b) first ips) refl (longest_prefix-IsLongest bits first ips b a)

-- An address of the family has that many bits.
network_zero : (bits ip : ℕ) → ip < 2 ^ bits → network bits 0 ip ≡ 0
unfolding network
network_zero bits ip l =
    let d : ip / (2 ^ bits) < 1 =
      (div-lt_iff_lt-mul {k = 2 ^ bits} {x = ip} {y = 1} (omega arith)).1 (omega arith) in
    let none_off : bits ≡ bits - 0 = omega arith in
    subst (λ x. ip / (2 ^ x) ≡ 0) none_off (omega arith)

Agree-zero :
    (bits first : ℕ) (ips : List ℕ)
    → first < 2 ^ bits
    → All (λ ip. ip < 2 ^ bits) ips
    → Agree bits 0 first ips
Agree-zero bits first [] f a = tt
Agree-zero bits first (ip ∷ ips) f a =
    (network_zero bits ip a.0 ∙ sym (network_zero bits first f), Agree-zero bits first ips f a.1)

-- What is derived from the addresses of a family, each of its number of bits.
pub cidr_of-IsLongest :
    (bits first : ℕ) (ips : List ℕ)
    → All (λ ip. ip < 2 ^ bits) (first ∷ ips)
    → let c = cidr_of bits first ips in
      IsLongest bits bits first (first ∷ ips) c.prefix
      × (c.base ≡ network bits c.prefix first * 2 ^ (bits - c.prefix))
unfolding cidr_of
cidr_of-IsLongest bits first ips a = (
  longest_prefix-IsLongest bits first (first ∷ ips) bits
      (Agree-zero bits first (first ∷ ips) a.0 a),
  refl,
)
