-- ===== src/Secrets/History.antt =====
-- A buffer against the calls that were made on it (cli/internal/bootstrap/secrets/buffer.go).
use kube_dc_public.Prelude.{
  ℕ, zero, suc, ◌≡◌, refl, Bool, true, false, Option, none, List, [], ◌∷◌, arith, length, ltb, ◌==◌,
  if◌then◌else◌, ◌&&◌,
}
use kube_dc_public.Prelude.Text.{Text}
use kube_dc_public.Prelude.Engine.{ok, err}
use kube_dc_public.Secrets.{
  Buffer, buffer_scrubbed, new_buffer, no_shares, put_at, get_at, set_share, set_root_token, share,
  root_token_of, count_set, clear, scrub,
}

pub data Call : Type 0 where
  share_set : ℕ → Option Text → Call
  root_token_set : Option Text → Call
  scrub_called : Call

abbrev pub step : Call → Buffer → Buffer
step (share_set i s) b = set_share i s b
step (root_token_set t) b = set_root_token t b
step scrub_called b = scrub b

-- The buffer after the calls, the newest first.
abbrev pub after : List Call → Buffer
after [] = new_buffer
after (c ∷ cs) = step c (after cs)

abbrev pub is_over : List Call → Bool
is_over [] = false
is_over (scrub_called ∷ cs) = true
is_over (_ ∷ cs) = is_over cs

-- The last value that was put at a place.
abbrev pub last_share : ℕ → List Call → Option Text
last_share i [] = none
last_share i (share_set j s ∷ cs) = if j == i && ltb j 5 then s else last_share i cs
last_share i (_ ∷ cs) = last_share i cs

abbrev pub last_token : List Call → Option Text
last_token [] = none
last_token (root_token_set t ∷ cs) = t
last_token (_ ∷ cs) = last_token cs

-- Five places; none of them holds anything once the buffer was scrubbed.
pub record IsValid (b : Buffer) : Type 0 where
  pub five : length b.shares ≡ 5
  pub emptied : b.scrubbed ≡ true → (count_set b.shares ≡ 0) × (b.root_token ≡ none)

length-put_at :
    (xs : List (Option Text)) (i : ℕ) (v : Option Text) → length (put_at xs i v) ≡ length xs
unfolding put_at
length-put_at [] i v = refl
length-put_at (x ∷ xs) zero v = refl
length-put_at (x ∷ xs) (suc i) v = ground (arith, length-put_at xs i v)

length-clear : (xs : List (Option Text)) → length (clear xs) ≡ length xs
unfolding clear
length-clear [] = refl
length-clear (x ∷ xs) = ground (arith, length-clear xs)

count_set-clear : (xs : List (Option Text)) → count_set (clear xs) ≡ 0
unfolding clear count_set
count_set-clear [] = refl
count_set-clear (x ∷ xs) = count_set-clear xs

get_at-clear : (xs : List (Option Text)) (i : ℕ) → get_at (clear xs) i ≡ none
unfolding clear get_at
get_at-clear [] i = refl
get_at-clear (x ∷ xs) zero = refl
get_at-clear (x ∷ xs) (suc i) = get_at-clear xs i

get_at-put_at :
    (xs : List (Option Text)) (i j : ℕ) (v : Option Text)
    → get_at (put_at xs j v) i ≡ (if j == i && ltb j (length xs) then v else get_at xs i)
unfolding put_at get_at
get_at-put_at [] i j v = ground arith
get_at-put_at (x ∷ xs) zero zero v = ground arith
get_at-put_at (x ∷ xs) (suc i) zero v = ground arith
get_at-put_at (x ∷ xs) zero (suc j) v = ground arith
get_at-put_at (x ∷ xs) (suc i) (suc j) v = ground (arith, get_at-put_at xs i j v)

step-IsValid : (c : Call) (b : Buffer) → IsValid b → IsValid (step c b)
unfolding set_share set_root_token scrub
step-IsValid (share_set i s) b v = ground (arith, length-put_at b.shares i s)
step-IsValid (root_token_set t) b v = ground arith
step-IsValid scrub_called b v = ground (arith, length-clear b.shares, count_set-clear b.shares)

after-IsValid : (cs : List Call) → IsValid (after cs)
unfolding new_buffer
after-IsValid [] = record { five = refl; emptied = λ e. cc }
after-IsValid (c ∷ cs) = step-IsValid c (after cs) (after-IsValid cs)

-- What a reader sees of the buffer.
pub record Reads (cs : List Call) : Type 0 where
  pub over : (after cs).scrubbed ≡ is_over cs
  pub places :
      (i : ℕ)
      → share (after cs) i ≡ (if is_over cs then err buffer_scrubbed else ok (last_share i cs))
  pub valid : IsValid (after cs)
  pub token :
      root_token_of (after cs) ≡ (if is_over cs then err buffer_scrubbed else ok (last_token cs))

after_over : (cs : List Call) → (after cs).scrubbed ≡ is_over cs
unfolding new_buffer set_share set_root_token scrub
after_over [] = refl
after_over (share_set i s ∷ cs) = ground (arith, after_over cs)
after_over (root_token_set t ∷ cs) = ground (arith, after_over cs)
after_over (scrub_called ∷ cs) = ground arith

after_places :
    (cs : List Call) (i : ℕ) → is_over cs ≡ false → get_at (after cs).shares i ≡ last_share i cs
unfolding set_share set_root_token new_buffer clear
after_places [] i o = get_at-clear no_shares i
after_places (share_set j s ∷ cs) i o = ground (
  arith,
  after_over cs,
  after_places cs i,
  (after-IsValid cs).five,
  get_at-put_at (after cs).shares i j s,
)
after_places (root_token_set t ∷ cs) i o = ground (arith, after_over cs, after_places cs i)
after_places (scrub_called ∷ cs) i o = cc

after_token : (cs : List Call) → is_over cs ≡ false → (after cs).root_token ≡ last_token cs
unfolding set_share set_root_token new_buffer
after_token [] o = refl
after_token (share_set j s ∷ cs) o = ground (arith, after_over cs, after_token cs)
after_token (root_token_set t ∷ cs) o = ground (arith, after_over cs)
after_token (scrub_called ∷ cs) o = cc

-- Whatever calls were made on a new buffer, it has five places; a share or the token reads as the
-- last value that was put there, a place out of bounds as none; and once the buffer was scrubbed it
-- holds nothing, takes nothing and refuses every read.
pub after-Reads : (cs : List Call) → Reads cs
unfolding share root_token_of
after-Reads cs = record {
  over = after_over cs;
  places = λ i. ground (arith, after_over cs, after_places cs i);
  valid = after-IsValid cs;
  token = ground (arith, after_over cs, after_token cs);
}
