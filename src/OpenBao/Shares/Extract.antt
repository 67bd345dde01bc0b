-- ===== src/OpenBao/Shares/Extract.antt =====
-- Which shares are handed on, and what is reported when some are missing
-- (cli/internal/bootstrap/openbao/unseal.go and reveal.go).
use kube_dc_public.Prelude.{
  ℕ, zero, suc, ◌+◌, ◌≤◌, ◌<◌, ◌≡◌, ◌≢◌, refl, sym, ap, ◌∙◌, true, false, ◌||◌, Option, none, some,
  List, [], ◌∷◌, map, arith, length, is_empty, All, ltb, ◌==◌, if◌then◌else◌,
}
use kube_dc_public.Prelude.Text.{Text}
use kube_dc_public.Prelude.Engine.{Outcome, ok, err}
use kube_dc_public.OpenBao.Shares.{
  Match, number_from, matches, found_from, slot, collect, shares_of, extract,
  extract_threshold_shares, extract_all_shares,
}
use kube_dc_public.OpenBao.Shares.Scan.{Entry, IsEntry, print, seen, written, matches-print}

-- The value of the last match that carries the number.
abbrev pub last_value : ℕ → List Match → Option Text
last_value n [] = none
last_value n (m ∷ ms) = elim (last_value n ms) [
  | some v ↦ some v
  | none ↦ (if number_from 0 m.digits == n then some m.value else none)
]

abbrev or_else : Option Text → Option Text → Option Text
or_else none b = b
or_else (some v) b = some v

slot-found_from :
    (n : ℕ) (acc : List (ℕ × Text)) (ms : List Match)
    → 1 ≤ n
    → n ≤ 5
    → slot n (found_from acc ms) ≡ or_else (last_value n ms) (slot n acc)
unfolding found_from slot
slot-found_from n acc [] a b = refl
slot-found_from n acc (m ∷ ms) a b = ground (
  arith,
  slot-found_from n acc ms a b,
  slot-found_from n ((number_from 0 m.digits, m.value) ∷ acc) ms a b,
)

-- No share of the number that could be handed on.
abbrev pub Absent : Option Text → Type 0
Absent none = Unit {0}
Absent (some v) = is_empty v ≡ true

-- The shares are those of the numbers from `i` on, in order.
abbrev pub InOrder : (ℕ → Option Text) → ℕ → List Text → Type 0
InOrder slots i [] = Unit {0}
InOrder slots i (v ∷ vs) = (slots i ≡ some v) × (is_empty v ≡ false) × InOrder slots (i + 1) vs

-- Numbers between `i` and `last`, each without a share.
abbrev pub AllAbsent : (ℕ → Option Text) → ℕ → ℕ → List ℕ → Type 0
AllAbsent slots i last js = All (λ j. (i ≤ j) × (j < last) × Absent (slots j)) js

AllAbsent-mono :
    (slots : ℕ → Option Text) (i last last' : ℕ) (js : List ℕ)
    → last ≡ last'
    → AllAbsent slots (i + 1) last js
    → AllAbsent slots i last' js
AllAbsent-mono slots i last last' [] e h = tt
AllAbsent-mono slots i last last' (j ∷ js) e h =
    ((omega arith, omega arith, h.0.2), AllAbsent-mono slots i last last' js e h.1)

collect-AllAbsent :
    (count i : ℕ) (found : List (ℕ × Text))
    → AllAbsent (λ j. slot j found) i (i + count) (collect count i found).0
unfolding collect
collect-AllAbsent zero i found = tt
collect-AllAbsent (suc count) i found = ground (
  arith,
  AllAbsent-mono (λ j. slot j found) i (i + 1 + count) (i + suc count)
      (collect count (i + 1) found).0 (omega arith) (collect-AllAbsent count (i + 1) found),
)

-- With nothing missing, every number has its share.
collect-InOrder :
    (count i : ℕ) (found : List (ℕ × Text))
    → is_empty (collect count i found).0 ≡ true
    → InOrder (λ j. slot j found) i (collect count i found).1
      × (length (collect count i found).1 ≡ count)
unfolding collect
collect-InOrder zero i found h = (tt, refl)
collect-InOrder (suc count) i found h = ground (arith, collect-InOrder count (i + 1) found)

abbrev Agree : (f g : ℕ → Option Text) → Type 0
Agree f g = (j : ℕ) → 1 ≤ j → j ≤ 5 → f j ≡ g j

InOrder-cong :
    (f g : ℕ → Option Text) (i : ℕ) (vs : List Text)
    → Agree f g
    → 1 ≤ i
    → i + length vs ≤ 6
    → InOrder f i vs
    → InOrder g i vs
InOrder-cong f g i [] e a b h = tt
InOrder-cong f g i (v ∷ vs) e a b h = (
  sym (e i a (omega arith)) ∙ h.0,
  h.1,
  InOrder-cong f g (i + 1) vs e (omega arith) (omega arith) h.2,
)

Absent-cong : {a b : Option Text} → a ≡ b → Absent a → Absent b
Absent-cong e h = rw e at h

AllAbsent-cong :
    (f g : ℕ → Option Text) (last : ℕ) (js : List ℕ)
    → Agree f g
    → last ≤ 6
    → AllAbsent f 1 last js
    → AllAbsent g 1 last js
AllAbsent-cong f g last [] e b h = tt
AllAbsent-cong f g last (j ∷ js) e b h = (
  (h.0.0, h.0.1, Absent-cong (e j h.0.0 (omega arith)) h.0.2),
  AllAbsent-cong f g last js e b h.1,
)

or_else-none : (a : Option Text) → or_else a none ≡ a
or_else-none none = refl
or_else-none (some v) = refl

found-Agree : (ms : List Match) → Agree (λ j. slot j (found_from [] ms)) (λ j. last_value j ms)
unfolding slot
found-Agree ms j a b = slot-found_from j [] ms a b ∙ or_else-none (last_value j ms)

-- All the shares in order, or some of the numbers that have none.
abbrev pub Extracted : ℕ → (ℕ → Option Text) → Outcome (List ℕ) (List Text) → Type 0
Extracted count slots (ok shares) = InOrder slots 1 shares × (length shares ≡ count)
Extracted count slots (err js) = (js ≢ []) × AllAbsent slots 1 (1 + count) js

extract-Extracted :
    (count : ℕ) (d : Text)
    → count ≤ 5
    → Extracted count (λ j. last_value j (matches d)) (extract count d)
unfolding extract
extract-Extracted count d l = ground (
  arith,
  λ (e : is_empty (collect count 1 (found_from [] (matches d))).0 ≡ true).
      InOrder-cong (λ j. slot j (found_from [] (matches d))) (λ j. last_value j (matches d)) 1
        (collect count 1 (found_from [] (matches d))).1 (found-Agree (matches d)) (omega arith)
        (omega (arith, (collect-InOrder count 1 (found_from [] (matches d)) e).1))
        (collect-InOrder count 1 (found_from [] (matches d)) e).0,
  λ (e : is_empty (collect count 1 (found_from [] (matches d))).0 ≡ true).
      (collect-InOrder count 1 (found_from [] (matches d)) e).1,
  AllAbsent-cong (λ j. slot j (found_from [] (matches d))) (λ j. last_value j (matches d))
      (1 + count) (collect count 1 (found_from [] (matches d))).0 (found-Agree (matches d))
      (omega arith) (collect-AllAbsent count 1 (found_from [] (matches d))),
)

-- The three shares for unsealing are those that the file's last match for 1, 2 and 3 holds, in that
-- order; or the error names, out of 1 to 3, numbers for which the file has none, at least one.
pub extract_threshold_shares-Extracted :
    (d : Text) → Extracted 3 (λ j. last_value j (matches d)) (extract_threshold_shares d)
unfolding extract_threshold_shares
extract_threshold_shares-Extracted d = extract-Extracted 3 d (omega arith)

found_seen : List (ℕ × Text) → List (Text × Text) → List (ℕ × Text)
found_seen acc [] = acc
found_seen acc ((d, v) ∷ ws) =
    let n = number_from 0 d in found_seen (if ltb n 1 || ltb 5 n then acc else (n, v) ∷ acc) ws

found_from-seen :
    (acc : List (ℕ × Text)) (ms : List Match) → found_from acc ms ≡ found_seen acc (map seen ms)
unfolding found_from found_seen
found_from-seen acc [] = refl
found_from-seen acc (m ∷ ms) =
    found_from-seen
      (if ltb (number_from 0 m.digits) 1 || ltb 5 (number_from 0 m.digits)
        then acc
        else (number_from 0 m.digits, m.value) ∷ acc)
      ms

abbrev pub entry : ℕ → Text → Entry
entry d v = record { digit = d; share = v }

abbrev pub five : Text → Text → Text → Text → Text → List Entry
five a b c d e = entry b'1' a ∷ entry b'2' b ∷ entry b'3' c ∷ entry b'4' d ∷ entry b'5' e ∷ []

found_print :
    (es : List Entry)
    → All IsEntry es
    → found_from [] (matches (print es)) ≡ found_seen [] (map written es)
found_print es h = found_from-seen [] (matches (print es)) ∙ ap (found_seen []) (matches-print es h)

five_shares :
    (a b c d e : Text)
    → All IsEntry (five a b c d e)
    → (shares_of 5 (found_seen [] (map written (five a b c d e))) ≡ ok (a ∷ b ∷ c ∷ d ∷ e ∷ []))
      × (shares_of 3 (found_seen [] (map written (five a b c d e))) ≡ ok (a ∷ b ∷ c ∷ []))
unfolding shares_of found_seen number_from
five_shares a b c d e (ha, (hb, (hc, (hd, (he, u))))) =
    (ground (arith, ha, hb, hc, hd, he), ground (arith, ha, hb, hc))

-- A file of five lines with the keys 1 to 5 and shares of the allowed characters gives all five
-- shares back, and the first three for unsealing.
pub extract_all_shares-five :
    (a b c d e : Text)
    → All IsEntry (five a b c d e)
    → (extract_all_shares (print (five a b c d e)) ≡ ok (a ∷ b ∷ c ∷ d ∷ e ∷ []))
      × (extract_threshold_shares (print (five a b c d e)) ≡ ok (a ∷ b ∷ c ∷ []))
unfolding extract_all_shares extract_threshold_shares
extract_all_shares-five a b c d e h = (
  ap (shares_of 5) (found_print (five a b c d e) h) ∙ (five_shares a b c d e h).0,
  ap (shares_of 3) (found_print (five a b c d e) h) ∙ (five_shares a b c d e h).1,
)
