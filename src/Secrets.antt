-- ===== src/Secrets.antt =====
-- cli/internal/bootstrap/secrets/buffer.go: the buffer that holds the unseal shares and the root
-- token of one ceremony. A slice that is nil is `none`; that reads and writes copy is the rule for
-- values here.
pub mod History
mod Tests
use kube_dc_public.Prelude.{
  ℕ, zero, suc, ◌+◌, Bool, true, false, Option, none, some, List, [], ◌∷◌, if◌then◌else◌,
}
use kube_dc_public.Prelude.Text.{Text}
use kube_dc_public.Prelude.Engine.{Outcome, ok, err}

pub record Buffer : Type 0 where
  pub shares : List (Option Text)
  pub root_token : Option Text
  pub scrubbed : Bool

pub data ErrScrubbed : Type 0 where
  buffer_scrubbed : ErrScrubbed

abbrev pub no_shares : List (Option Text)
no_shares = none ∷ none ∷ none ∷ none ∷ none ∷ []

unfoldable pub new_buffer : Buffer
new_buffer = record { shares = no_shares; root_token = none; scrubbed = false }

-- A write out of bounds changes nothing.
unfoldable pub put_at : List (Option Text) → ℕ → Option Text → List (Option Text)
put_at [] i v = []
put_at (x ∷ xs) zero v = v ∷ xs
put_at (x ∷ xs) (suc i) v = x ∷ put_at xs i v

unfoldable pub get_at : List (Option Text) → ℕ → Option Text
get_at [] i = none
get_at (x ∷ xs) zero = x
get_at (x ∷ xs) (suc i) = get_at xs i

unfoldable pub set_share : ℕ → Option Text → Buffer → Buffer
set_share i share b = if b.scrubbed then b else record b { shares = put_at b.shares i share }

unfoldable pub set_root_token : Option Text → Buffer → Buffer
set_root_token token b = if b.scrubbed then b else record b { root_token = token }

unfoldable pub share : Buffer → ℕ → Outcome ErrScrubbed (Option Text)
share b i = if b.scrubbed then err buffer_scrubbed else ok (get_at b.shares i)

unfoldable pub root_token_of : Buffer → Outcome ErrScrubbed (Option Text)
root_token_of b = if b.scrubbed then err buffer_scrubbed else ok b.root_token

unfoldable pub count_set : List (Option Text) → ℕ
count_set [] = 0
count_set (none ∷ xs) = count_set xs
count_set (some s ∷ xs) = count_set xs + 1

unfoldable pub share_count : Buffer → ℕ
share_count b = if b.scrubbed then 0 else count_set b.shares

unfoldable pub clear : List (Option Text) → List (Option Text)
clear [] = []
clear (x ∷ xs) = none ∷ clear xs

unfoldable pub scrub : Buffer → Buffer
scrub b =
    if b.scrubbed then b else record { shares = clear b.shares; root_token = none; scrubbed = true }
