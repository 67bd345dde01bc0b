-- ===== src/KubeConfig/Entries.antt =====
-- The lists of entries (cli/internal/kubeconfig/manager.go): what the loops do to the names and to
-- the first entry with a name.
use kube_dc_public.Prelude.{
  ◌≡◌, refl, inl, inr, Bool, true, false, Option, none, some, List, [], ◌∷◌, if◌then◌else◌, arith,
  Bool-cases, Option-cases, All, All-map,
}
use kube_dc_public.Prelude.Text.{Text, text_eq, text_eq→eq, text_eq_refl, has_prefix}
use kube_dc_public.KubeConfig.{
  Named, Context, put, named, without, unprefixed, renamespace, collect, cluster_still_referenced,
  user_still_referenced,
}

-- What kubectl reads: the first entry with the name.
unfoldable pub find : {A : Type 0} → Text → List (Named A) → Option A
find n [] = none
find n (e ∷ es) = if text_eq e.name n then some e.body else find n es

-- Two texts that are equal to a third are equal.
same_name : (a n m : Text) → text_eq n m ≡ true → text_eq a m ≡ true → text_eq a n ≡ true
same_name a n m p q = ground (arith, text_eq→eq n m, text_eq→eq a m, text_eq_refl n)

module _ {A : Type 0} where
  pub find-put :
      (m n : Text) (a : A) (es : List (Named A))
      → find m (put n a es) ≡ (if text_eq n m then some a else find m es)
  unfolding find put
  find-put m n a [] = ground arith
  find-put m n a (e ∷ es) =
      ground (arith, find-put m n a es, text_eq→eq e.name n, same_name e.name n m)

  pub named-put :
      (m n : Text) (a : A) (es : List (Named A))
      → named m (put n a es) ≡ (if text_eq n m then true else named m es)
  unfolding named put
  named-put m n a [] = ground arith
  named-put m n a (e ∷ es) = ground (arith, named-put m n a es, text_eq→eq e.name n)

  pub put_twice : (n : Text) (a : A) (es : List (Named A)) → put n a (put n a es) ≡ put n a es
  unfolding put
  put_twice n a [] = ground (arith, text_eq_refl n)
  put_twice n a (e ∷ es) = ground (arith, put_twice n a es)

  pub named-without :
      (m n : Text) (es : List (Named A))
      → named m (without n es) ≡ (if text_eq n m then false else named m es)
  unfolding named without
  named-without m n [] = ground arith
  named-without m n (e ∷ es) =
      ground (arith, named-without m n es, text_eq→eq e.name n, same_name e.name n m)

  pub without-put :
      (n : Text) (a : A) (es : List (Named A)) → named n es ≡ false → without n (put n a es) ≡ es
  unfolding named without put
  without-put n a [] h = ground (arith, text_eq_refl n)
  without-put n a (e ∷ es) h = ground (arith, without-put n a es)

  pub named-unprefixed :
      (p m : Text) (es : List (Named A))
      → has_prefix p m ≡ false
      → named m (unprefixed p es) ≡ named m es
  unfolding named unprefixed
  named-unprefixed p m [] h = refl
  named-unprefixed p m (e ∷ es) h = ground (arith, named-unprefixed p m es h, text_eq→eq e.name m)

  pub named-collect :
      (m n : Text) (referenced : Bool) (es : List (Named A))
      → named m es ≡ true
      → (text_eq n m ≡ true → referenced ≡ true)
      → named m (collect n referenced es) ≡ true
  unfolding collect
  named-collect m n true es h r = ground arith
  named-collect m n false es h r = elim (Bool-cases (text_eq n m)) [
    | inl p ↦ absurd (ground (arith, r p))
    | inr p ↦ ground (arith, named-without m n es)
  ]

  pub All-put :
      (P : Named A → Type 0) (n : Text) (a : A) (es : List (Named A))
      → ((e : Named A) → text_eq e.name n ≡ true → P (record e { body = a }))
      → P (record { name = n; body = a })
      → All P es
      → All P (put n a es)
  unfolding put
  All-put P n a [] f p h = (p, tt)
  All-put P n a (e ∷ es) f p h = chosen (text_eq e.name n) refl (All-put P n a es f p h.1)
    where
      chosen :
          (b : Bool)
          → text_eq e.name n ≡ b
          → All P (put n a es)
          → All P (if b then record e { body = a } ∷ es else e ∷ put n a es)
      chosen true q i = (f e q, h.1)
      chosen false q i = (h.0, i)

pub All-without :
    {A : Type 0} (P : Named A → Type 0) (n : Text) (es : List (Named A))
    → All P es
    → All P (without n es)
unfolding without
All-without P n [] h = tt
All-without P n (e ∷ es) h = chosen (text_eq e.name n) (All-without P n es h.1)
  where
    chosen :
        (b : Bool) → All P (without n es) → All P (if b then without n es else e ∷ without n es)
    chosen true i = i
    chosen false i = (h.0, i)

-- A cluster, or a user, that a context refers to is found to be referenced.
pub clusters-referenced :
    (n : Text) (es : List (Named Context))
    → All (λ e. text_eq n e.body.cluster ≡ true → cluster_still_referenced n es ≡ true) es
unfolding cluster_still_referenced
clusters-referenced n [] = tt
clusters-referenced n (e ∷ es) = (
  λ p. ground (arith, text_eq→eq n e.body.cluster, text_eq_refl n),
  All-map _ _ es (λ a h p. ground (arith, h p)) (clusters-referenced n es),
)

pub users-referenced :
    (n : Text) (es : List (Named Context))
    → All (λ e. text_eq n e.body.user ≡ true → user_still_referenced n es ≡ true) es
unfolding user_still_referenced
users-referenced n [] = tt
users-referenced n (e ∷ es) = (
  λ p. ground (arith, text_eq→eq n e.body.user, text_eq_refl n),
  All-map _ _ es (λ a h p. ground (arith, h p)) (users-referenced n es),
)

pub named-renamespace :
    (m name ns : Text) (es r : List (Named Context))
    → renamespace name ns es ≡ some r
    → named m r ≡ named m es
unfolding renamespace named
named-renamespace m name ns [] r h = cc
named-renamespace m name ns (e ∷ es) r h = elim (Option-cases (renamespace name ns es)) [
  | inl p ↦ ground arith
  | inr (s, p) ↦ ground (arith, named-renamespace m name ns es s p)
]

-- What holds of each entry of a list, when there is one.
abbrev pub AllSome : {A : Type 0} → (A → Type 0) → Option (List A) → Type 0
AllSome P none = Unit
AllSome P (some r) = All P r

-- The namespace is all that changes, so what depends on nothing else carries over.
pub All-renamespace :
    (P : Text → Text → Type 0) (name ns : Text) (es : List (Named Context))
    → All (λ e. P e.body.cluster e.body.user) es
    → AllSome (λ e. P e.body.cluster e.body.user) (renamespace name ns es)
unfolding renamespace
All-renamespace P name ns [] a = tt
All-renamespace P name ns (e ∷ es) a =
    chosen (text_eq e.name name) (renamespace name ns es) (All-renamespace P name ns es a.1)
  where
    chosen :
        (b : Bool) (o : Option (List (Named Context)))
        → AllSome (λ k. P k.body.cluster k.body.user) o
        → AllSome
            (λ k. P k.body.cluster k.body.user)
            (if b
              then some (record e { body = record e.body { namespace = ns } } ∷ es)
              else elim o [ none ↦ none | some r ↦ some (e ∷ r) ])
    chosen true o i = (a.0, a.1)
    chosen false none i = tt
    chosen false (some r) i = (a.0, i)
