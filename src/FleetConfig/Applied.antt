-- ===== src/FleetConfig/Applied.antt =====
-- Planned changes, written to a store and planned again (cli/internal/bootstrap/fleetconfig/config.go,
-- cli/internal/bootstrap/config/env.go).
use kube_dc_public.Prelude.{
  ◌≡◌, refl, ap, subst, Bool, true, false, Option, none, some, List, [], ◌∷◌, any, if◌then◌else◌,
  arith, All,
}
use kube_dc_public.Prelude.Text.{Text, text_eq, text_eq→eq, text_eq_refl}
use kube_dc_public.Prelude.Engine.{Outcome, ok, err}
use kube_dc_public.EnvFile.{Env, get}
use kube_dc_public.EnvFile.Store.{Call, assigned, store, current, store-Reads}
use kube_dc_public.FleetConfig.{
  ConfigError, Kv, Change, no_op, change_of, cons_change, plan, has_effective, set_all,
  strip_inline_comment,
}
use kube_dc_public.FleetConfig.Parsed.{IsParsed}

-- The assignments as calls of the store, the last one newest.
abbrev pub assigned_all : List Kv → List Call → List Call
assigned_all [] cs = cs
assigned_all (kv ∷ kvs) cs = assigned_all kvs (assigned kv.key kv.value ∷ cs)

-- What the last assignment for a key gives it.
unfoldable pub last_for : Text → List Kv → Option Text
last_for k [] = none
last_for k (kv ∷ kvs) =
    let rest = last_for k kvs in
    elim rest [ some v ↦ some v | none ↦ if text_eq k kv.key then some kv.value else none ]

pub current-assigned_all :
    (k : Text) (kvs : List Kv) (cs : List Call)
    → current (assigned_all kvs cs) k
      ≡ elim (last_for k kvs) [ some v ↦ some v | none ↦ current cs k ]
unfolding last_for
current-assigned_all k [] cs = refl
current-assigned_all k (kv ∷ kvs) cs =
    ground (arith, current-assigned_all k kvs (assigned kv.key kv.value ∷ cs))

-- The values of a plan are written as the calls of the store say.
abbrev IsWritten : List Kv → Outcome ConfigError (List Change) → Type 0
IsWritten kvs (err x) = Unit
IsWritten kvs (ok changes) =
    (path : Text) (cs : List Call)
    → set_all changes (store path cs) ≡ store path (assigned_all kvs cs)

cons_change-IsWritten :
    (b : Bool) (kv : Kv) (kvs : List Kv) (o : Option Text) (r : Outcome ConfigError (List Change))
    → IsWritten kvs r
    → IsWritten (kv ∷ kvs) (cons_change (change_of b kv o) r)
unfolding cons_change change_of set_all
cons_change-IsWritten b kv kvs (some v) (err x) w = tt
cons_change-IsWritten b kv kvs (some v) (ok cs) w = λ path h. w path (assigned kv.key kv.value ∷ h)
cons_change-IsWritten true kv kvs none (err x) w = tt
cons_change-IsWritten true kv kvs none (ok cs) w = λ path h. w path (assigned kv.key kv.value ∷ h)
cons_change-IsWritten false kv kvs none r w = tt

plan-IsWritten : (e : Env) (kvs : List Kv) (b : Bool) → IsWritten kvs (plan e kvs b)
unfolding plan set_all
plan-IsWritten e [] b = λ path cs. refl
plan-IsWritten e (kv ∷ kvs) b =
    cons_change-IsWritten b kv kvs (get e kv.key) (plan e kvs b) (plan-IsWritten e kvs b)

-- A plan that may add keys is never refused.
pub plan_adding : (e : Env) (kvs : List Kv) → (cs : List Change) × (plan e kvs true ≡ ok cs)
unfolding plan cons_change change_of
plan_adding e [] = ([], refl)
plan_adding e (kv ∷ kvs) = one (get e kv.key) (plan_adding e kvs)
  where
    one :
        (o : Option Text)
        → (cs : List Change) × (plan e kvs true ≡ ok cs)
        → (cs : List Change) × (cons_change (change_of true kv o) (plan e kvs true) ≡ ok cs)
    one none (cs, p) = (
      record { key = kv.key; old = []; new = kv.value; added = true } ∷ cs,
      ap (cons_change (change_of true kv none)) p,
    )
    one (some v) (cs, p) = (
      record { key = kv.key; old = strip_inline_comment v; new = kv.value; added = false } ∷ cs,
      ap (cons_change (change_of true kv (some v))) p,
    )

-- A key that an earlier assignment had is not assigned again.
last_for_seen :
    (k : Text) (seen : List Text) (kvs : List Kv)
    → any (text_eq k) seen ≡ true
    → IsParsed seen kvs
    → last_for k kvs ≡ none
unfolding last_for
last_for_seen k seen [] h p = refl
last_for_seen k seen (kv ∷ kvs) h (p, q, r, ps) =
    ground (arith, last_for_seen k (kv.key ∷ seen) kvs (ground arith) ps, text_eq→eq k kv.key)

-- Each assignment is the last one for its key.
each_is_last :
    (seen : List Text) (kvs : List Kv)
    → IsParsed seen kvs
    → All (λ kv. last_for kv.key kvs ≡ some kv.value) kvs
unfolding last_for
each_is_last seen [] p = tt
each_is_last seen (kv ∷ kvs) (p, q, r, ps) = (
  ground (
    arith,
    last_for_seen kv.key (kv.key ∷ seen) kvs (ground (arith, text_eq_refl kv.key)) ps,
    text_eq_refl kv.key,
  ),
  later kvs (each_is_last (kv.key ∷ seen) kvs ps),
)
  where
    later :
        (ks : List Kv)
        → All (λ k. last_for k.key kvs ≡ some k.value) ks
        → All (λ k. last_for k.key (kv ∷ kvs) ≡ some k.value) ks
    later [] h = tt
    later (k ∷ ks) h = (ground (arith, h.0), later ks h.1)

-- Values that the removal of an inline comment leaves.
abbrev pub IsBare : List Kv → Type 0
IsBare kvs = All (λ kv. strip_inline_comment kv.value ≡ kv.value) kvs

-- A plan with nothing to do.
abbrev pub IsDone : Outcome ConfigError (List Change) → Type 0
IsDone (err x) = ⊥
IsDone (ok changes) = has_effective changes ≡ false

plan-IsDone :
    (e : Env) (kvs : List Kv) (b : Bool)
    → All (λ kv. get e kv.key ≡ some kv.value) kvs
    → IsBare kvs
    → IsDone (plan e kvs b)
unfolding plan has_effective cons_change change_of no_op
plan-IsDone e [] b h s = refl
plan-IsDone e (kv ∷ kvs) b h s = rw h.0 (rest (plan e kvs b) (plan-IsDone e kvs b h.1 s.1))
  where
    rest :
        (r : Outcome ConfigError (List Change))
        → IsDone r
        → IsDone (cons_change (change_of b kv (some kv.value)) r)
    rest (err x) d = d
    rest (ok cs) d = ground (arith, s.0, text_eq_refl kv.value)

got : (path : Text) (cs : List Call) (k : Text) → get (store path cs) k ≡ current cs k
got path cs k = (store-Reads path cs k).got

module _ (path : Text) (cs : List Call) (kvs : List Kv) (b : Bool) (changes : List Change)
    (h : plan (store path cs) kvs b ≡ ok changes) where
  written : IsWritten kvs (ok changes)
  written = subst (IsWritten kvs) h (plan-IsWritten (store path cs) kvs b)

  -- What is read after the changes of a plan are written.
  pub get-set_all :
      (k : Text)
      → get (set_all changes (store path cs)) k
        ≡ elim (last_for k kvs) [ some v ↦ some v | none ↦ get (store path cs) k ]
  get-set_all k = ground (
    arith,
    written path cs,
    got path (assigned_all kvs cs) k,
    current-assigned_all k kvs cs,
    got path cs k,
  )

  -- After the changes of a plan are written to a store, a read of each key gives what the last
  -- assignment for it gives, and what it gave before when there is none; and when no key is assigned
  -- twice and no value has an inline comment, a second plan has nothing to do.
  pub plan-set_all :
      IsParsed [] kvs
      → IsBare kvs
      → let e = set_all changes (store path cs) in
        ((k : Text)
          → get e k ≡ elim (last_for k kvs) [ some v ↦ some v | none ↦ get (store path cs) k ])
        × IsDone (plan e kvs false)
  plan-set_all p s = (
    get-set_all,
    rw (written path cs) (
        plan-IsDone (store path (assigned_all kvs cs)) kvs false (reads kvs (each_is_last [] kvs p))
          s),
  )
    where
      reads :
          (ks : List Kv)
          → All (λ k. last_for k.key kvs ≡ some k.value) ks
          → All (λ k. get (store path (assigned_all kvs cs)) k.key ≡ some k.value) ks
      reads [] a = tt
      reads (k ∷ ks) a = (
        ground
            (arith, a.0, got path (assigned_all kvs cs) k.key, current-assigned_all k.key kvs cs),
        reads ks a.1,
      )
