-- ===== src/OpenBao/Shares.antt =====
-- cli/internal/bootstrap/openbao/unseal.go and reveal.go: reading the shares out of the decrypted
-- file. The two regular expressions are one, matched here by hand:
-- (?m)^\s*OPENBAO_UNSEAL_KEY_(\d+):\s*([A-Za-z0-9+/=_-]+)\s*$
-- The clearing of the byte slices after use is left out.
pub mod Scan
pub mod Extract
mod Tests
use kube_dc_public.Prelude.{
  ℕ, zero, suc, ◌+◌, ◌-◌, ◌*◌, ◌%◌, ◌^◌, Bool, true, false, ◌&&◌, ◌||◌, Option, none, some, List,
  [], ◌∷◌, leb, ltb, ◌==◌, if◌then◌else◌, length, is_empty,
}
use kube_dc_public.Prelude.Text.{Text, codes}
use kube_dc_public.Prelude.Engine.{Outcome, ok, err}

-- The class \s.
abbrev pub is_ws : ℕ → Bool
is_ws c = c == 9 || c == 10 || c == 12 || c == 13 || c == 32

-- The class \d.
abbrev pub is_digit : ℕ → Bool
is_digit c = leb b'0' c && leb c b'9'

-- The class [A-Za-z0-9+/=_-].
abbrev pub is_value_char : ℕ → Bool
is_value_char c =
    (leb b'A' c && leb c b'Z')
    || (leb b'a' c && leb c b'z')
    || is_digit c
    || c == b'+'
    || c == b'/'
    || c == b'='
    || c == b'_'
    || c == b'-'

-- A greedy repetition of a class, and what follows it.
pub span : (ℕ → Bool) → Text → Text × Text
span p [] = ([], [])
span p (c ∷ s) = let rest = span p s in if p c then (c ∷ rest.0, rest.1) else ([], c ∷ s)

pub skip_ws : Text → Text
skip_ws [] = []
skip_ws (c ∷ s) = let rest = skip_ws s in if is_ws c then rest else c ∷ s

-- The text after a prefix, if it is one.
pub after : Text → Text → Option Text
after [] s = some s
after (p ∷ ps) [] = none
after (p ∷ ps) (c ∷ s) = if p == c then after ps s else none

-- The end `\s*$`: as much white space as leaves the match at the end of a line or of the text.
pub line_end : Text → Option Text
line_end [] = some []
line_end (c ∷ s) =
    let rest = line_end s in
    if is_ws c
    then elim rest [ some r ↦ some r | none ↦ (if c == 10 then some (c ∷ s) else none) ]
    else none

abbrev pub key_prefix : Text
key_prefix = codes "OPENBAO_UNSEAL_KEY_"

-- The digits of a key as a Go int: `n = n*10 + int(c-'0')`, of 64 bits.
pub number_from : ℕ → Text → ℕ
number_from n [] = n
number_from n (c ∷ s) = number_from ((n * 10 + (c - b'0')) % 2 ^ 64) s

pub record Match : Type 0 where
  pub digits : Text
  pub value : Text
  pub rest : Text

pub match_value : Text → Text → Option Match
unfolding span skip_ws line_end
match_value digits s =
    let v = span is_value_char (skip_ws s) in
    if is_empty v.0 then none else elim (line_end v.1) [
      | none ↦ none
      | some r ↦ some (record { digits = digits; value = v.0; rest = r })
    ]

pub match_number : Text → Option Match
unfolding span match_value
match_number s =
    let d = span is_digit s in
    if is_empty d.0
    then none
    else elim d.1 [ [] ↦ none | c ∷ t ↦ (if c == b':' then match_value d.0 t else none) ]

-- The expression at the start of a line.
pub match_at : Text → Option Match
unfolding skip_ws after match_number
match_at s = elim (after key_prefix (skip_ws s)) [ none ↦ none | some t ↦ match_number t ]

-- FindAllSubmatchIndex. `start` tells whether a line starts here; fuel counts the positions.
pub find_all : ℕ → Bool → Text → List Match
find_all zero start s = []
find_all (suc fuel) start [] = []
find_all (suc fuel) start (c ∷ s) = elim (if start then match_at (c ∷ s) else none) [
  | some m ↦ m ∷ find_all fuel false m.rest
  | none ↦ find_all fuel (c == 10) s
]

pub matches : Text → List Match
unfolding find_all match_at
matches s = find_all (length s) true s

-- `found[n] = dup`, for the numbers 1 to 5: a later match takes an earlier one's place.
pub found_from : List (ℕ × Text) → List Match → List (ℕ × Text)
unfolding number_from
found_from acc [] = acc
found_from acc (m ∷ ms) =
    let n = number_from 0 m.digits in
    found_from (if ltb n 1 || ltb 5 n then acc else (n, m.value) ∷ acc) ms

pub slot : ℕ → List (ℕ × Text) → Option Text
slot i [] = none
slot i ((n, v) ∷ m) = if n == i then some v else slot i m

-- The loop over the wanted numbers: `count` of them from `i` on.
pub collect : ℕ → ℕ → List (ℕ × Text) → List ℕ × List Text
unfolding slot
collect zero i found = ([], [])
collect (suc count) i found =
    let rest = collect count (i + 1) found in
    elim (slot i found) [
      | none ↦ (i ∷ rest.0, rest.1)
      | some v ↦ (if is_empty v then (i ∷ rest.0, rest.1) else (rest.0, v ∷ rest.1))
    ]

-- The shares, or the numbers that are missing.
pub shares_of : ℕ → List (ℕ × Text) → Outcome (List ℕ) (List Text)
unfolding collect
shares_of count found =
    let (missing, shares) = collect count 1 found in
    if is_empty missing then ok shares else err missing

pub extract : ℕ → Text → Outcome (List ℕ) (List Text)
unfolding matches found_from shares_of
extract count decrypted = shares_of count (found_from [] (matches decrypted))

unfoldable pub extract_threshold_shares : Text → Outcome (List ℕ) (List Text)
unfolding extract
extract_threshold_shares decrypted = extract 3 decrypted

unfoldable pub extract_all_shares : Text → Outcome (List ℕ) (List Text)
unfolding extract
extract_all_shares decrypted = extract 5 decrypted
