-- ===== src/FleetConfig/Parsed.antt =====
-- The assignments of a command line (cli/internal/bootstrap/fleetconfig/config.go: ParseAssignments).
use mathlib.Core.List.{reverse, reverse-cons, reverse-reverse}
use mathlib.Core.Path.{ap₂}
use kube_dc_public.Prelude.{
  ℕ, ◌≡◌, refl, sym, ◌∙◌, ap, Bool, true, false, not, Option, none, some, List, [], ◌∷◌, ◌++◌, ◌==◌,
  any, all, length, if◌then◌else◌, arith,
}
use kube_dc_public.Prelude.Text.{Text, text_eq, is_space, trim_left, trim_space, cut_at}
use kube_dc_public.Prelude.Engine.{Outcome, ok, err}
use kube_dc_public.EnvFile.RoundTrip.{trim_left-append, cut_at_key}
use kube_dc_public.FleetConfig.{
  ConfigError, bad_key, bad_value, given_twice, Kv, is_upper, is_key_code, key_shape, validate_key,
  is_value, parse_kv, parse_cut, cons_kv, parse_from, parse_assignments,
}

-- Keys of the right shape, values on one line, and no key twice; `seen` are the keys before.
abbrev pub IsParsed : List Text → List Kv → Type 0
IsParsed seen [] = Unit
IsParsed seen (kv ∷ kvs) =
    (key_shape kv.key ≡ true)
    × (is_value kv.value ≡ true)
    × (any (text_eq kv.key) seen ≡ false)
    × IsParsed (kv.key ∷ seen) kvs

abbrev pub IsParsedAll : List Text → ℕ → Outcome ConfigError (List Kv) → Type 0
IsParsedAll seen n (err x) = Unit
IsParsedAll seen n (ok kvs) = IsParsed seen kvs × (length kvs ≡ n)

abbrev IsParsedOne : List Text → Outcome ConfigError Kv → Type 0
IsParsedOne seen (err x) = Unit
IsParsedOne seen (ok kv) =
    (key_shape kv.key ≡ true) × (is_value kv.value ≡ true) × (any (text_eq kv.key) seen ≡ false)

parse_kv-IsParsed :
    (seen : List Text) (key value : Text) → IsParsedOne seen (parse_kv seen key value)
unfolding parse_kv validate_key
parse_kv-IsParsed seen [] value = tt
parse_kv-IsParsed seen (c ∷ key) value =
    chosen (key_shape (c ∷ key)) refl (is_value value) refl (any (text_eq (c ∷ key)) seen) refl
  where
    chosen :
        (b : Bool)
        → key_shape (c ∷ key) ≡ b
        → (v : Bool) → is_value value ≡ v
        → (t : Bool) → any (text_eq (c ∷ key)) seen ≡ t
        → IsParsedOne seen (elim (if b then ok tt else err (bad_key (c ∷ key))) [
          | err x ↦ err x
          | ok _ ↦
              if not v
              then err (bad_value (c ∷ key))
              else if t
              then err (given_twice (c ∷ key))
              else ok (record { key = c ∷ key; value = value })
        ])
    chosen false p v q t r = tt
    chosen true p false q t r = tt
    chosen true p true q true r = tt
    chosen true p true q false r = (p, q, r)

parse_cut-IsParsed :
    (seen : List Text) (a : Text) (o : Option (Text × Text)) → IsParsedOne seen (parse_cut seen a o)
unfolding parse_cut
parse_cut-IsParsed seen a none = tt
parse_cut-IsParsed seen a (some ([], v)) = tt
parse_cut-IsParsed seen a (some (c ∷ k, v)) =
    parse_kv-IsParsed seen (trim_space (c ∷ k)) (trim_space v)

parse_from-IsParsed :
    (seen args : List Text) → IsParsedAll seen (length args) (parse_from seen args)
unfolding parse_from
parse_from-IsParsed seen [] = (tt, refl)
parse_from-IsParsed seen (a ∷ args) =
    parsed (parse_cut seen a (cut_at (b'=' ∷ []) a))
      (parse_cut-IsParsed seen a (cut_at (b'=' ∷ []) a))
      (λ kv. parse_from-IsParsed (kv.key ∷ seen) args)
  where
    rest :
        (kv : Kv)
        → IsParsedOne seen (ok kv)
        → (r : Outcome ConfigError (List Kv)) → IsParsedAll (kv.key ∷ seen) (length args) r
        → IsParsedAll seen (length (a ∷ args)) (cons_kv kv r)
    rest kv p (err x) q = tt
    rest kv p (ok kvs) q = ((p.0, p.1, p.2, q.0), omega (arith, q.1))

    parsed :
        (r : Outcome ConfigError Kv)
        → IsParsedOne seen r
        → ((kv : Kv) → IsParsedAll (kv.key ∷ seen) (length args) (parse_from (kv.key ∷ seen) args))
        → IsParsedAll seen
            (length (a ∷ args))
            (elim r [ err x ↦ err x | ok kv ↦ cons_kv kv (parse_from (kv.key ∷ seen) args) ])
    parsed (err x) p f = tt
    parsed (ok kv) p f = rest kv p (parse_from (kv.key ∷ seen) args) (f kv)

-- When the arguments are accepted, each gives one assignment; its key has the shape of a key and
-- occurs once, and its value is not blank and stands on one line.
pub parse_assignments-IsParsed :
    (args : List Text) → IsParsedAll [] (length args) (parse_assignments args)
unfolding parse_assignments
parse_assignments-IsParsed args = parse_from-IsParsed [] args

-- An assignment as it is written.
abbrev pub argument : Kv → Text
argument kv = kv.key ++ (b'=' ∷ kv.value)

abbrev pub arguments : List Kv → List Text
arguments [] = []
arguments (kv ∷ kvs) = argument kv ∷ arguments kvs

-- Values with no space around them.
abbrev pub IsTrimmed : List Kv → Type 0
IsTrimmed [] = Unit
IsTrimmed (kv ∷ kvs) = (trim_space kv.value ≡ kv.value) × IsTrimmed kvs

-- The code points of a key are neither spaces nor `=`.
key_code_clear : (c : ℕ) → is_key_code c ≡ true → (is_space c ≡ false) × ((c == b'=') ≡ false)
unfolding is_key_code is_upper is_space
key_code_clear c h = (ground arith, ground arith)

trim_left-reverse : (s : Text) → all is_key_code s ≡ true → trim_left (reverse s) ≡ reverse s
unfolding trim_left
trim_left-reverse [] h = refl
trim_left-reverse (c ∷ s) h =
    let rest : all is_key_code s ≡ true = ground arith in
    let clear = key_code_clear c (ground arith) in
    ap trim_left (reverse-cons c s)
    ∙ trim_left-append (reverse s) c clear.0
    ∙ ap (λ t. t ++ (c ∷ [])) (trim_left-reverse s rest)
    ∙ sym (reverse-cons c s)

unsplit_key : (s : Text) → all is_key_code s ≡ true → any (λ c. c == b'=') s ≡ false
unsplit_key [] h = refl
unsplit_key (c ∷ s) h =
    ground (arith, key_code_clear c (ground arith), unsplit_key s (ground arith))

key_shape-all : (k : Text) → key_shape k ≡ true → all is_key_code k ≡ true
unfolding key_shape is_key_code
key_shape-all [] h = cc
key_shape-all (c ∷ s) h = ground arith

trim_space_key : (k : Text) → key_shape k ≡ true → trim_space k ≡ k
unfolding trim_space trim_left
trim_space_key [] h = refl
trim_space_key (c ∷ s) h =
    let keys = key_shape-all (c ∷ s) h in
    let first : trim_left (c ∷ s) ≡ c ∷ s = ground (arith, key_code_clear c (ground arith)) in
    ap (λ t. reverse (trim_left (reverse t))) first
    ∙ ap reverse (trim_left-reverse (c ∷ s) keys)
    ∙ reverse-reverse (c ∷ s)

parse_kv_again :
    (seen : List Text) (kv : Kv)
    → key_shape kv.key ≡ true
    → is_value kv.value ≡ true
    → any (text_eq kv.key) seen ≡ false
    → parse_kv seen kv.key kv.value ≡ ok kv
unfolding parse_kv validate_key
parse_kv_again seen kv p q r = by kv.key kv.value p q r
  where
    by :
        (k v : Text)
        → key_shape k ≡ true
        → is_value v ≡ true
        → any (text_eq k) seen ≡ false
        → parse_kv seen k v ≡ ok (record { key = k; value = v })
    by [] v p q r = cc
    by (c ∷ k) v p q r = ground arith

key_shape_none : key_shape [] ≡ true → ⊥
unfolding key_shape
key_shape_none h = cc

parse_cut_again :
    (seen : List Text) (kv : Kv)
    → key_shape kv.key ≡ true
    → trim_space kv.value ≡ kv.value
    → parse_cut seen (argument kv) (cut_at (b'=' ∷ []) (argument kv))
      ≡ parse_kv seen kv.key kv.value
unfolding parse_cut
parse_cut_again seen kv p t =
    ap (parse_cut seen (argument kv))
      (cut_at_key kv.key kv.value (unsplit_key kv.key (key_shape-all kv.key p)))
    ∙ found kv.key p
  where
    found :
        (k : Text)
        → key_shape k ≡ true
        → parse_cut seen (argument kv) (some (k, kv.value)) ≡ parse_kv seen k kv.value
    found [] q = absurd (key_shape_none q)
    found (c ∷ k) q = ap₂ (parse_kv seen) (trim_space_key (c ∷ k) q) t

parse_from_again :
    (seen : List Text) (kvs : List Kv)
    → IsParsed seen kvs
    → IsTrimmed kvs
    → parse_from seen (arguments kvs) ≡ ok kvs
unfolding parse_from cons_kv
parse_from_again seen [] p t = refl
parse_from_again seen (kv ∷ kvs) (p, q, r, ps) (t, ts) = ground (
  arith,
  parse_cut_again seen kv p t,
  parse_kv_again seen kv p q r,
  parse_from_again (kv.key ∷ seen) kvs ps ts,
)

-- Assignments whose keys have the shape of a key and occur once, and whose values are not blank,
-- stand on one line and have no space around them, are parsed from what they are written as.
pub parse_assignments-arguments :
    (kvs : List Kv) → IsParsed [] kvs → IsTrimmed kvs → parse_assignments (arguments kvs) ≡ ok kvs
unfolding parse_assignments
parse_assignments-arguments kvs p t = parse_from_again [] kvs p t
