-- ===== src/Prelude/Sort.antt =====
-- Texts in the order of their bytes, and lists sorted by a text.
use mathlib.Core.Path.{◌≡◌, refl}
use mathlib.Core.Bool.{Bool, true, false, ◌&&◌, ◌||◌}
use mathlib.Core.List.{List, [], ◌∷◌}
use kube_dc_public.Prelude.Tests.{ltb, ◌==◌, if◌then◌else◌}
use kube_dc_public.Prelude.Lists.{All, is_empty}
use kube_dc_public.Prelude.Text.{Text}

-- Go's `<=` on strings.
unfoldable pub text_le : Text → Text → Bool
text_le [] t = true
text_le (x ∷ s) [] = false
text_le (x ∷ s) (y ∷ t) = ltb x y || (x == y && text_le s t)

module _ {A : Type 0} (key : A → Text) where
  unfoldable pub insert_by : A → List A → List A
  unfolding text_le
  insert_by a [] = a ∷ []
  insert_by a (b ∷ bs) =
      let rest = insert_by a bs in if text_le (key a) (key b) then a ∷ b ∷ bs else b ∷ rest

  -- sort.Slice by a key.
  unfoldable pub sort_by : List A → List A
  unfolding insert_by
  sort_by [] = []
  sort_by (a ∷ xs) = insert_by a (sort_by xs)

  pub All-insert_by :
      (P : A → Type 0) (a : A) (xs : List A) → P a → All P xs → All P (insert_by a xs)
  unfolding insert_by
  All-insert_by P a [] p h = (p, tt)
  All-insert_by P a (b ∷ bs) p h = chosen (text_le (key a) (key b)) (All-insert_by P a bs p h.1)
    where
      chosen :
          (c : Bool) → All P (insert_by a bs) → All P (if c then a ∷ b ∷ bs else b ∷ insert_by a bs)
      chosen true i = (p, h)
      chosen false i = (h.0, i)

  pub All-sort_by : (P : A → Type 0) (xs : List A) → All P xs → All P (sort_by xs)
  unfolding sort_by
  All-sort_by P [] h = tt
  All-sort_by P (a ∷ xs) h = All-insert_by P a (sort_by xs) h.0 (All-sort_by P xs h.1)

  pub All-insert_by_rev :
      (P : A → Type 0) (a : A) (xs : List A) → All P (insert_by a xs) → P a × All P xs
  unfolding insert_by
  All-insert_by_rev P a [] h = h
  All-insert_by_rev P a (b ∷ bs) h = chosen (text_le (key a) (key b)) (All-insert_by_rev P a bs) h
    where
      chosen :
          (c : Bool)
          → (All P (insert_by a bs) → P a × All P bs)
          → All P (if c then a ∷ b ∷ bs else b ∷ insert_by a bs)
          → P a × All P (b ∷ bs)
      chosen true i k = (k.0, k.1)
      chosen false i k = ((i k.1).0, (k.0, (i k.1).1))

  pub All-sort_by_rev : (P : A → Type 0) (xs : List A) → All P (sort_by xs) → All P xs
  unfolding sort_by
  All-sort_by_rev P [] h = tt
  All-sort_by_rev P (a ∷ xs) h =
      let both = All-insert_by_rev P a (sort_by xs) h in (both.0, All-sort_by_rev P xs both.1)

  is_empty-insert_by : (a : A) (xs : List A) → is_empty (insert_by a xs) ≡ false
  unfolding insert_by
  is_empty-insert_by a [] = refl
  is_empty-insert_by a (b ∷ bs) = chosen (text_le (key a) (key b))
    where
      chosen : (c : Bool) → is_empty (if c then a ∷ b ∷ bs else b ∷ insert_by a bs) ≡ false
      chosen true = refl
      chosen false = refl

  pub is_empty-sort_by : (xs : List A) → is_empty (sort_by xs) ≡ is_empty xs
  unfolding sort_by
  is_empty-sort_by [] = refl
  is_empty-sort_by (a ∷ xs) = is_empty-insert_by a (sort_by xs)
