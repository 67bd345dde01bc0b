-- ===== src/Prelude/Engine.antt =====
-- Procedures that call other systems. A procedure is a function of the calls made so far, newest
-- first, each with its reply; it returns a result or an error, and the longer history. What a
-- system answers is a function of the history as well, so it may answer the same call differently
-- at different times.
use mathlib.Core.Bool.{Bool, true, false}
use mathlib.Core.Option.{Option, none, some}
use mathlib.Core.List.{List, [], ◌∷◌}

pub data Outcome (X A : Type 0) : Type 0 where
  ok : A → Outcome X A
  err : X → Outcome X A

abbrev pub M : Type 0 → Type 0 → Type 0 → Type 0
M E X A = List E → Outcome X A × List E

abbrev pub return : {E X A : Type 0} → A → M E X A
return a h = (ok a, h)

abbrev pub throw : {E X A : Type 0} → X → M E X A
throw x h = (err x, h)

infixl 5 ◌>>=◌ ◌>>◌
abbrev pub ◌>>=◌ : {E X A B : Type 0} → M E X A → (A → M E X B) → M E X B
◌>>=◌ m f h = let (r, h') = m h in elim r [ ok a ↦ f a h' | err x ↦ (err x, h') ]

abbrev pub ◌>>◌ : {E X A B : Type 0} → M E X A → M E X B → M E X B
m >> k = m >>= λ _. k

-- A call whose reply depends on the history, entered in the history with its reply.
abbrev pub perform : {E X R : Type 0} → (List E → R) → (R → E) → M E X R
perform ask entry h = let r = ask h in (ok r, entry r ∷ h)

-- Another form of the error.
abbrev pub map_err : {E X Y A : Type 0} → (X → Y) → M E X A → M E Y A
map_err f m h = let (r, h') = m h in elim r [ ok a ↦ (ok a, h') | err x ↦ (err (f x), h') ]

-- The result of a step as a value, when its failure is not the end.
abbrev pub attempt : {E X Y A : Type 0} → M E X A → M E Y (Outcome X A)
attempt m h = let (r, h') = m h in (ok r, h')

abbrev pub demand : {E X : Type 0} → Bool → X → M E X (Unit {0})
demand true x = return tt
demand false x = throw x

abbrev pub unwrap : {E X A : Type 0} → Option A → X → M E X A
unwrap (some a) x = return a
unwrap none x = throw x

-- Each entry of a history satisfies `P` with the history before it.
abbrev pub Each : {E : Type 0} → (E → List E → Type 0) → List E → Type 0
Each P [] = Unit {0}
Each P (e ∷ h) = P e h × Each P h

-- A property of how a step ends carries over to what follows it.
pub bind_post :
    {E X A B : Type 0} (R : Outcome X A → List E → Type 0) (Q : Outcome X B → List E → Type 0)
    (m : M E X A) (f : A → M E X B) (h : List E)
    → R (m h).0 (m h).1
    → ((a : A) (h' : List E) → R (ok a) h' → Q (f a h').0 (f a h').1)
    → ((x : X) (h' : List E) → R (err x) h' → Q (err x) h')
    → Q ((m >>= f) h).0 ((m >>= f) h).1
bind_post {E} {X} {A} {B} R Q m f h r good bad = go (m h) r
  where
    go :
        (q : Outcome X A × List E)
        → R q.0 q.1
        → Q (((λ (g : List E). q) >>= f) h).0 (((λ (g : List E). q) >>= f) h).1
    go (ok a, h') s = good a h' s
    go (err x, h') s = bad x h' s

pub map_err_post :
    {E X Y A : Type 0} (R : Outcome X A → List E → Type 0) (Q : Outcome Y A → List E → Type 0)
    (f : X → Y) (m : M E X A) (h : List E)
    → R (m h).0 (m h).1
    → ((a : A) (h' : List E) → R (ok a) h' → Q (ok a) h')
    → ((x : X) (h' : List E) → R (err x) h' → Q (err (f x)) h')
    → Q (map_err f m h).0 (map_err f m h).1
map_err_post {E} {X} {Y} {A} R Q f m h r good bad = go (m h) r
  where
    go :
        (q : Outcome X A × List E)
        → R q.0 q.1
        → Q (map_err f (λ (g : List E). q) h).0 (map_err f (λ (g : List E). q) h).1
    go (ok a, h') s = good a h' s
    go (err x, h') s = bad x h' s

-- A step whose failure is a value as well.
pub attempt_post :
    {E X Y A B : Type 0} (R : Outcome X A → List E → Type 0) (Q : Outcome Y B → List E → Type 0)
    (m : M E X A) (f : Outcome X A → M E Y B) (h : List E)
    → R (m h).0 (m h).1
    → ((r : Outcome X A) (h' : List E) → R r h' → Q (f r h').0 (f r h').1)
    → Q ((attempt m >>= f) h).0 ((attempt m >>= f) h).1
attempt_post {E} {X} {Y} {A} {B} R Q m f h r next = go (m h) r
  where
    go :
        (q : Outcome X A × List E)
        → R q.0 q.1
        → Q ((attempt (λ (g : List E). q) >>= f) h).0 ((attempt (λ (g : List E). q) >>= f) h).1
    go (a, h') s = next a h' s
