-- ===== src/OpenBao/Shares/Scan.antt =====
-- The shares are read back from the lines that hold them
-- (cli/internal/bootstrap/openbao/unseal.go and reveal.go).
use kube_dc_public.Prelude.{
  ℕ, zero, suc, ◌+◌, ◌≤◌, ◌≡◌, refl, ap, ◌∙◌, Bool, true, false, some, List, [], ◌∷◌, ◌++◌, map,
  arith, length, is_empty, all, All,
}
use kube_dc_public.Prelude.Text.{Text, codes}
use kube_dc_public.OpenBao.Shares.{
  is_digit, is_value_char, span, skip_ws, after, line_end, Match, match_value, match_number,
  match_at, find_all, matches,
}

-- A line of the file: an indented key of one digit, and a share.
pub record Entry : Type 0 where
  pub digit : ℕ
  pub share : Text

pub record IsEntry (e : Entry) : Type 0 where
  pub digit_ok : is_digit e.digit ≡ true
  pub some_share : is_empty e.share ≡ false
  pub share_ok : all is_value_char e.share ≡ true

abbrev line_tail : Text → Text → Text
line_tail share rest = share ++ (10 ∷ rest)

abbrev pub print : List Entry → Text
print [] = []
print (e ∷ es) = codes "  OPENBAO_UNSEAL_KEY_" ++ (e.digit ∷ 58 ∷ 32 ∷ line_tail e.share (print es))

span_value :
    (v rest : Text)
    → all is_value_char v ≡ true
    → span is_value_char (line_tail v rest) ≡ (v, 10 ∷ rest)
unfolding span
span_value [] rest h = refl
span_value (c ∷ v) rest h = ground (arith, span_value v rest)

-- No white space is skipped in front of a share.
skip_share :
    (v rest : Text)
    → all is_value_char v ≡ true
    → is_empty v ≡ false
    → skip_ws (line_tail v rest) ≡ line_tail v rest
unfolding skip_ws
skip_share [] rest h n = cc
skip_share (c ∷ v) rest h n = ground arith

-- The text after a match on the first line: the line's end, unless the file ends there.
abbrev rest_of : List Entry → Text
rest_of [] = []
rest_of (e ∷ es) = 10 ∷ print (e ∷ es)

line_end-print : (es : List Entry) → line_end (10 ∷ print es) ≡ some (rest_of es)
unfolding line_end
line_end-print [] = refl
line_end-print (e ∷ es) = refl

match_value-print :
    (digits v : Text) (es : List Entry)
    → all is_value_char v ≡ true
    → is_empty v ≡ false
    → match_value digits (32 ∷ line_tail v (print es))
      ≡ some (record { digits = digits; value = v; rest = rest_of es })
unfolding match_value
match_value-print digits v es a n =
    ground (arith, skip_share v (print es) a n, span_value v (print es) a, line_end-print es)

match_at-print :
    (e : Entry) (es : List Entry)
    → IsEntry e
    → match_at (print (e ∷ es))
      ≡ some (record { digits = e.digit ∷ []; value = e.share; rest = rest_of es })
unfolding match_at match_number span after
match_at-print e es h =
    ground (arith, match_value-print (e.digit ∷ []) e.share es h.share_ok h.some_share)

-- The digits and the share of a match.
abbrev pub seen : Match → Text × Text
seen m = (m.digits, m.value)

abbrev pub written : Entry → Text × Text
written e = (e.digit ∷ [], e.share)

length_line : (v rest : Text) → length rest + 1 ≤ length (line_tail v rest)
length_line [] rest = omega arith
length_line (c ∷ v) rest = omega (arith, length_line v rest)

find_all_nil : (fuel : ℕ) (b : Bool) → find_all fuel b [] ≡ []
unfolding find_all
find_all_nil zero b = refl
find_all_nil (suc fuel) b = refl

-- The end of a line, then the lines that follow it.
find_all_rest :
    (es : List Entry) (ws : List (Text × Text)) (fuel : ℕ)
    → length (print es) + 1 ≤ fuel
    → ((k : ℕ) → length (print es) ≤ k → map seen (find_all k true (print es)) ≡ ws)
    → map seen (find_all fuel false (rest_of es)) ≡ ws
unfolding find_all
find_all_rest [] ws zero l ih = absurd (omega arith)
find_all_rest [] ws (suc fuel) l ih = ih (suc fuel) (omega arith)
find_all_rest (e ∷ es) ws zero l ih = absurd (omega arith)
find_all_rest (e ∷ es) ws (suc fuel) l ih = ih fuel (omega arith)

find_all_hit :
    (c : ℕ) (s : Text) (m : Match) (fuel : ℕ)
    → match_at (c ∷ s) ≡ some m
    → find_all (suc fuel) true (c ∷ s) ≡ m ∷ find_all fuel false m.rest
unfolding find_all
find_all_hit c s m fuel h = ground (arith, h)

find_all_step :
    (e : Entry) (es : List Entry) (fuel : ℕ)
    → IsEntry e
    → map seen (find_all (suc fuel) true (print (e ∷ es)))
      ≡ written e ∷ map seen (find_all fuel false (rest_of es))
find_all_step e es fuel h = ap (map seen) (find_all_hit _ _ _ fuel (match_at-print e es h))

find_all-print :
    (es : List Entry) (fuel : ℕ)
    → All IsEntry es
    → length (print es) ≤ fuel
    → map seen (find_all fuel true (print es)) ≡ map written es
find_all-print [] fuel h l = ap (map seen) (find_all_nil fuel true)
find_all-print (e ∷ es) zero h l = absurd (omega arith)
find_all-print (e ∷ es) (suc fuel) h l =
    find_all_step e es fuel h.0
    ∙ ap (λ w. written e ∷ w)
        (find_all_rest es (map written es) fuel (omega (arith, length_line e.share (print es)))
          (λ k le. find_all-print es k h.1 le))

-- From the lines of a file, each with a key of one digit and a share of the allowed characters, the
-- scan reads exactly those digits and shares, in their order.
pub matches-print :
    (es : List Entry) → All IsEntry es → map seen (matches (print es)) ≡ map written es
unfolding matches
matches-print es h = find_all-print es (length (print es)) h (omega arith)
