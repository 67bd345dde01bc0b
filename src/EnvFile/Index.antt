-- ===== src/EnvFile/Index.antt =====
-- The index of the lines (cli/internal/bootstrap/config/env.go).
use kube_dc_public.Prelude.{
  ℕ, zero, suc, ◌≡◌, refl, sym, subst, Bool, true, false, Option, none, some, List, [], ◌∷◌, ◌++◌,
  length, ◌&&◌, if◌then◌else◌, arith, Bool-cases, inl, inr,
}
use kube_dc_public.Prelude.Text.{Text, text_eq, text_eq→eq}
use kube_dc_public.EnvFile.{EnvLine, Env, find, put, value_at, is_kv, assign, assign_at}

abbrev pub holds : Text → EnvLine → Bool
holds k l = is_kv l && text_eq k l.key

-- Where the last line for a key is, and what is in it.
unfoldable pub last_at : Text → List EnvLine → Option ℕ
last_at k [] = none
last_at k (l ∷ ls) = elim (last_at k ls) [
  | some i ↦ some (suc i)
  | none ↦ (if holds k l then some 0 else none)
]

unfoldable pub last_value : Text → List EnvLine → Option Text
last_value k [] = none
last_value k (l ∷ ls) = elim (last_value k ls) [
  | some v ↦ some v
  | none ↦ (if holds k l then some l.value else none)
]

-- For each key, the index has the place of the last line for it, and no more.
abbrev pub IsIndexed : Env → Type 0
IsIndexed e = (k : Text) → find k e.index ≡ last_at k e.lines

pub find-put :
    {A : Type 0} (j k : Text) (i : A) (es : List (Text × A))
    → find j (put k i es) ≡ (if text_eq j k then some i else find j es)
unfolding find put
find-put j k i [] = refl
find-put j k i (e ∷ es) = elim (Bool-cases (text_eq k e.0)) [
  | inl p ↦ elim (Bool-cases (text_eq j k)) [
    | inl q ↦ ground arith
    | inr q ↦
        let r : text_eq j e.0 ≡ false = subst (λ t. text_eq j t ≡ false) (text_eq→eq k e.0 p) q in
        ground arith
  ]
  | inr p ↦ elim (Bool-cases (text_eq j k)) [
    | inl q ↦
        let r : text_eq j e.0 ≡ false =
          subst (λ t. text_eq t e.0 ≡ false) (sym (text_eq→eq j k q)) p in
        ground (arith, find-put j k i es)
    | inr q ↦ ground (arith, find-put j k i es)
  ]
]

pub last_at-append :
    (k : Text) (ls : List EnvLine) (l : EnvLine)
    → last_at k (ls ++ (l ∷ [])) ≡ (if holds k l then some (length ls) else last_at k ls)
unfolding last_at
last_at-append k [] l = refl
last_at-append k (m ∷ ls) l = ground (arith, last_at-append k ls l)

pub last_value-append :
    (k : Text) (ls : List EnvLine) (l : EnvLine)
    → last_value k (ls ++ (l ∷ [])) ≡ (if holds k l then some l.value else last_value k ls)
unfolding last_value
last_value-append k [] l = refl
last_value-append k (m ∷ ls) l = ground (arith, last_value-append k ls l)

abbrev pub is_set {ℓ} : {A : Type ℓ} → Option A → Bool
is_set none = false
is_set (some a) = true

pub is_set-last_at :
    (k : Text) (ls : List EnvLine) → is_set (last_at k ls) ≡ is_set (last_value k ls)
unfolding last_at last_value
is_set-last_at k [] = refl
is_set-last_at k (l ∷ ls) = ground (arith, is_set-last_at k ls)

abbrev pub read_at : List EnvLine → Option ℕ → Option Text
read_at ls none = none
read_at ls (some i) = value_at ls i

pub read_at-last_at : (k : Text) (ls : List EnvLine) → read_at ls (last_at k ls) ≡ last_value k ls
unfolding last_at last_value value_at
read_at-last_at k [] = refl
read_at-last_at k (l ∷ ls) = ground (arith, read_at-last_at k ls, is_set-last_at k ls)

pub last_at-assign_at :
    (j k v : Text) (i : ℕ) (ls : List EnvLine) → last_at j (assign_at i k v ls) ≡ last_at j ls
unfolding last_at assign_at assign
last_at-assign_at j k v i [] = ground arith
last_at-assign_at j k v zero (l ∷ ls) = refl
last_at-assign_at j k v (suc i) (l ∷ ls) = ground (arith, last_at-assign_at j k v i ls)

pub last_value-assign_at :
    (j k v : Text) (i : ℕ) (ls : List EnvLine)
    → last_at k ls ≡ some i
    → last_value j (assign_at i k v ls) ≡ (if text_eq j k then some v else last_value j ls)
unfolding last_at last_value assign_at assign
last_value-assign_at j k v i [] e = absurd (ground arith)
last_value-assign_at j k v zero (l ∷ ls) e =
    let head : holds k l ≡ true = ground arith in
    let tail : last_value k ls ≡ none = ground (arith, is_set-last_at k ls) in
    let same : k ≡ l.key = text_eq→eq k l.key (ground arith) in
    elim (Bool-cases (text_eq j k)) [
      | inl q ↦
          let t : last_value j ls ≡ none =
            subst (λ x. last_value x ls ≡ none) (sym (text_eq→eq j k q)) tail in
          let r : text_eq j l.key ≡ true = subst (λ x. text_eq j x ≡ true) same q in
          ground (arith, t, r)
      | inr q ↦
          let r : text_eq j l.key ≡ false = subst (λ x. text_eq j x ≡ false) same q in
          ground (arith, r)
    ]
last_value-assign_at j k v (suc i) (l ∷ ls) e =
    let rest : last_at k ls ≡ some i = ground arith in
    ground (arith, last_value-assign_at j k v i ls rest)
