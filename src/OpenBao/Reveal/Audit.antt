-- ===== src/OpenBao/Reveal/Audit.antt =====
-- The shares and their audit record (cli/internal/bootstrap/openbao/reveal.go).
use kube_dc_public.Prelude.{
  ℕ, ◌+◌, ◌≡◌, refl, ◌∙◌, Bool, true, false, ◌||◌, some, List, [], ◌∷◌, arith,
}
use kube_dc_public.Prelude.Text.{Text}
use kube_dc_public.Prelude.Engine.{bind_post, Outcome, ok, err, ◌>>◌}
use kube_dc_public.OpenBao.Shares.{extract_all_shares}
use kube_dc_public.OpenBao.Unseal.{secrets_path}
use kube_dc_public.OpenBao.Reveal.{
  Options, Line, header, footer, share_line, Event, decrypted, clock_read, audited, printed, Error,
  missing_dependency, consent_required, decrypt_failed, missing_shares, audit_failed, output_failed,
  Env, prepare, disclose, print_line, print_shares, reveal_shares,
}

-- The five shares of the file that was decrypted, with the audit record behind that.
abbrev pub IsRecorded : Options → List Text → List Event → Type 0
IsRecorded o shares
      (audited cluster stamp operator r ∷ clock_read now ∷ decrypted path (some file) ∷ []) =
    (o.consent ≡ true)
    × (r ≡ true)
    × (cluster ≡ o.cluster_name)
    × (path ≡ secrets_path o.fleet_repo o.cluster_name)
    × (extract_all_shares file ≡ ok shares)
IsRecorded o shares _ = ⊥

-- The lines of the shares, from number `i` on, all written.
abbrev pub share_log : ℕ → List Text → List Event → List Event
share_log i [] h = h
share_log i (s ∷ ss) h = share_log (i + 1) ss (printed (share_line i s) true ∷ h)

abbrev pub is_begun : List Event → Bool
is_begun [] = false
is_begun (printed l r ∷ h) = true
is_begun (_ ∷ h) = is_begun h

-- The whole block: header, shares, footer.
abbrev pub Revealed : Options → List Event → Type 0
Revealed o k =
    (shares : List Text) × (h : List Event) × IsRecorded o shares h
    × (k ≡ printed footer true ∷ share_log 1 shares (printed header true ∷ h))

-- The audit record of a run: it was written.
abbrev pub has_record : List Event → Bool
has_record [] = false
has_record (audited c s p r ∷ h) = r || has_record h
has_record (_ ∷ h) = has_record h

abbrev pub Ended : Options → Outcome Error (Unit {0}) → List Event → Type 0
Ended o (ok u) k = Revealed o k
Ended o (err output_failed) k = (o.consent ≡ true) × (has_record k ≡ true) × (is_begun k ≡ true)
Ended o (err _) k = is_begun k ≡ false

abbrev Prepared : Options → Outcome Error (List Text) → List Event → Type 0
Prepared o (ok shares) h = IsRecorded o shares h
Prepared o (err output_failed) h = ⊥
Prepared o (err _) h = is_begun h ≡ false

-- Printing that stops has stopped in the block, behind the audit record.
abbrev Printed : List Event → Outcome Error (Unit {0}) → List Event → Type 0
Printed m (ok u) k = k ≡ m
Printed m (err output_failed) k = (has_record k ≡ true) × (is_begun k ≡ true)
Printed m (err _) k = ⊥

has_record_of :
    (o : Options) (shares : List Text) (h : List Event)
    → IsRecorded o shares h
    → (has_record h ≡ true) × (o.consent ≡ true)
has_record_of o shares (audited c s p r ∷ clock_read t ∷ decrypted path (some f) ∷ []) g =
    ground arith
has_record_of o shares _ g = ground arith

module _ (env : Env) (o : Options) where
  prepare-Prepared : Prepared o (prepare env o []).0 (prepare env o []).1
  unfolding prepare
  prepare-Prepared = ground arith

  print_line-Printed :
      (l : Line) (h : List Event)
      → has_record h ≡ true
      → Printed (printed l true ∷ h) (print_line env o l h).0 (print_line env o l h).1
  unfolding print_line
  print_line-Printed l h r = ground arith

  print_shares-Printed :
      (i : ℕ) (ss : List Text) (h : List Event)
      → has_record h ≡ true
      → Printed (share_log i ss h) (print_shares env o i ss h).0 (print_shares env o i ss h).1
  unfolding print_shares
  print_shares-Printed i [] h r = refl
  print_shares-Printed i (s ∷ ss) h r =
      ground (arith, print_shares-Printed (i + 1) ss (printed (share_line i s) true ∷ h))

  has_record_log :
      (i : ℕ) (ss : List Text) (h : List Event) → has_record (share_log i ss h) ≡ has_record h
  has_record_log i [] h = refl
  has_record_log i (s ∷ ss) h = has_record_log (i + 1) ss (printed (share_line i s) true ∷ h)

  revealed :
      (shares : List Text) (h : List Event)
      → IsRecorded o shares h
      → (r : Outcome Error (Unit {0})) (k : List Event)
      → Printed (printed footer true ∷ share_log 1 shares (printed header true ∷ h)) r k
      → Ended o r k
  revealed shares h g (ok u) k p = (shares, h, g, p)
  revealed shares h g (err output_failed) k p = ((has_record_of o shares h g).1, p.0, p.1)
  revealed shares h g (err missing_dependency) k p = absurd p
  revealed shares h g (err consent_required) k p = absurd p
  revealed shares h g (err decrypt_failed) k p = absurd p
  revealed shares h g (err (missing_shares js)) k p = absurd p
  revealed shares h g (err audit_failed) k p = absurd p

  -- A step that stops, stops the block.
  stopped :
      (m m' : List Event) (e : Error) (k : List Event) → Printed m (err e) k → Printed m' (err e) k
  stopped m m' output_failed k p = p
  stopped m m' missing_dependency k p = absurd p
  stopped m m' consent_required k p = absurd p
  stopped m m' decrypt_failed k p = absurd p
  stopped m m' (missing_shares js) k p = absurd p
  stopped m m' audit_failed k p = absurd p

  disclose-Printed :
      (shares : List Text) (h : List Event)
      → has_record h ≡ true
      → Printed
          (printed footer true ∷ share_log 1 shares (printed header true ∷ h))
          (disclose env o shares h).0
          (disclose env o shares h).1
  unfolding disclose
  disclose-Printed shares h r =
      bind_post (Printed begun) (Printed whole) (print_line env o header)
        (λ u. print_shares env o 1 shares >> print_line env o footer) h
        (print_line-Printed header h r)
        (λ u k e. rw e (
          bind_post (Printed body) (Printed whole) (print_shares env o 1 shares)
            (λ v. print_line env o footer) begun (print_shares-Printed 1 shares begun r)
            (λ v j q. rw q (print_line-Printed footer body (has_record_log 1 shares begun ∙ r)))
            (λ x j q. stopped body whole x j q)))
        (λ x k q. stopped begun whole x k q)
    where
      begun : List Event
      begun = printed header true ∷ h

      body : List Event
      body = share_log 1 shares begun

      whole : List Event
      whole = printed footer true ∷ body

  not_begun : (e : Error) (h : List Event) → Prepared o (err e) h → Ended o (err e) h
  not_begun output_failed h p = absurd p
  not_begun missing_dependency h p = p
  not_begun consent_required h p = p
  not_begun decrypt_failed h p = p
  not_begun (missing_shares js) h p = p
  not_begun audit_failed h p = p

-- A run that succeeds has written, behind an audit record for the cluster, with consent, the header,
-- the five shares of the cluster's decrypted file in order, and the footer, and nothing else. A run
-- that ends with the output error had consent and its audit record was written. A run that ends
-- with any other error has not begun to print.
pub reveal_shares-Ended :
    (env : Env) (o : Options) → Ended o (reveal_shares env o []).0 (reveal_shares env o []).1
unfolding reveal_shares
reveal_shares-Ended env o =
    bind_post (Prepared o) (Ended o) (prepare env o) (disclose env o) [] (prepare-Prepared env o)
      (λ shares h g.
        revealed env o shares h g _ _
          (disclose-Printed env o shares h (has_record_of o shares h g).0))
      (λ x h g. not_begun env o x h g)
