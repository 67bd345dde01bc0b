-- ===== src/EnvFile/RoundTrip.antt =====
-- A store that is written and loaded again (cli/internal/bootstrap/config/env.go).
use kube_dc_public.Prelude.{
  ℕ, ◌≡◌, refl, Bool, true, false, not, Option, none, some, List, [], ◌∷◌, ◌++◌, any, ◌==◌, ◌&&◌,
  if◌then◌else◌, arith,
}
use kube_dc_public.Prelude.Text.{
  Text, is_space, trim_left, trim_space, has_prefix, remove_prefix, cut_at,
}
use kube_dc_public.EnvFile.{EnvLine, Env, unquote, parse_line, get, is_kv}
use kube_dc_public.EnvFile.Index.{holds}

pub trim_left-append :
    (s : Text) (c : ℕ) → is_space c ≡ false → trim_left (s ++ (c ∷ [])) ≡ trim_left s ++ (c ∷ [])
unfolding trim_left
trim_left-append [] c n = ground arith
trim_left-append (d ∷ s) c n = ground (arith, trim_left-append s c n)

pub cut_at_key :
    (key value : Text)
    → any (λ c. c == b'=') key ≡ false
    → cut_at (b'=' ∷ []) (key ++ (b'=' ∷ value)) ≡ some (key, value)
unfolding cut_at has_prefix remove_prefix
cut_at_key [] value n = refl
cut_at_key (c ∷ key) value n =
    let rest : any (λ c. c == b'=') key ≡ false = ground arith in
    ground (arith, cut_at_key key value rest)

-- A line that does not start with a space or the sign of a comment.
abbrev pub starts_clear : Text → Bool
starts_clear [] = true
starts_clear (c ∷ s) = not (is_space c) && not (c == b'#')

-- The key and the value of a line with a key come back from the file.
pub record IsPlain (l : EnvLine) : Type 0 where
  pub unsplit : is_kv l ≡ true → any (λ c. c == b'=') l.key ≡ false
  pub clear_start : is_kv l ≡ true → starts_clear l.key ≡ true
  pub trimmed_key : is_kv l ≡ true → trim_space l.key ≡ l.key
  pub trimmed_value : is_kv l ≡ true → trim_space l.value ≡ l.value
  pub unquoted : is_kv l ≡ true → unquote l.value ≡ l.value
  pub no_key : is_kv l ≡ false → is_kv (parse_line l.raw) ≡ false

-- What a line has for a key.
abbrev said : Text → EnvLine → Option Text
said k l = if holds k l then some l.value else none

-- The value for a key, if the file could be read.
abbrev pub reloaded : Option Env → Text → Option (Option Text)
reloaded none k = none
reloaded (some e) k = some (get e k)
