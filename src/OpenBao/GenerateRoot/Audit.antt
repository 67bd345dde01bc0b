-- ===== src/OpenBao/GenerateRoot/Audit.antt =====
-- The token and its audit record (cli/internal/bootstrap/openbao/generate_root.go).
use kube_dc_public.Prelude.{◌≡◌, Bool, true, false, ◌||◌, none, some, List, [], ◌∷◌, arith, ◌⊎◌}
use kube_dc_public.Prelude.Text.{Text}
use kube_dc_public.Prelude.Engine.{bind_post, Outcome, ok, err, Each}
use kube_dc_public.OpenBao.GenerateRoot.{
  Options, Line, token_generated, revoke_warning, token_revoked, token_live, Event, ceremony,
  audited, printed, revoked, Error, output_failed, revoke_failed, status_audit_failed,
  revoke_and_status_audit_failed, Env, generate, disclose, generate_root,
}

-- The token that the newest ceremony gave.
abbrev pub Minted : Text → List Event → Type 0
Minted token [] = ⊥
Minted token (ceremony ss (some t) ∷ h) = t ≡ token
Minted token (ceremony ss none ∷ h) = ⊥
Minted token (_ ∷ h) = Minted token h

-- The newest call wrote the audit record of the token's making.
abbrev pub IsRecorded : Options → List Event → Type 0
IsRecorded o (audited (token_generated cluster stamp operator) r ∷ h) =
    (cluster ≡ o.cluster_name) × (r ≡ true)
IsRecorded o _ = ⊥

-- What must hold when a call is made.
abbrev pub Guard : Options → Event → List Event → Type 0
Guard o (printed token r) h = (o.consent ≡ true) × IsRecorded o h × Minted token h
Guard o (revoked token r) h = (o.revoke_immediately ≡ true) × Minted token h
Guard o (ceremony ss r) h = o.consent ≡ true
Guard o _ h = Unit {0}

-- The token's line was begun, and was written whole.
abbrev pub is_begun : List Event → Bool
is_begun [] = false
is_begun (printed t r ∷ h) = true
is_begun (_ ∷ h) = is_begun h

abbrev pub is_shown : List Event → Bool
is_shown [] = false
is_shown (printed t r ∷ h) = r || is_shown h
is_shown (_ ∷ h) = is_shown h

abbrev pub is_revoked : List Event → Bool
is_revoked [] = false
is_revoked (revoked t r ∷ h) = r || is_revoked h
is_revoked (_ ∷ h) = is_revoked h

-- The newest call wrote this line to the audit writer, with this result.
abbrev pub LastAudit : Line → Bool → List Event → Type 0
LastAudit line b (audited l r ∷ h) = (l ≡ line) × (r ≡ b)
LastAudit line b _ = ⊥

-- What each outcome says of the token.
abbrev pub Ended : {A : Type 0} → Options → Outcome Error A → List Event → Type 0
Ended o (ok u) h =
    (is_shown h ≡ true)
    × (is_revoked h ≡ o.revoke_immediately)
    × (((o.revoke_immediately ≡ true) × LastAudit token_revoked true h)
        ⊎ ((o.revoke_immediately ≡ false) × LastAudit token_live true h))
Ended o (err output_failed) h = (is_begun h ≡ true) × (is_shown h ≡ false) × (is_revoked h ≡ false)
Ended o (err revoke_failed) h =
    (is_shown h ≡ true) × (is_revoked h ≡ false) × LastAudit revoke_warning true h
Ended o (err revoke_and_status_audit_failed) h =
    (is_shown h ≡ true) × (is_revoked h ≡ false) × LastAudit revoke_warning false h
Ended o (err status_audit_failed) h = (is_shown h ≡ true) × (is_revoked h ≡ o.revoke_immediately)
Ended o (err _) h = is_begun h ≡ false

abbrev Closed : {A : Type 0} → Options → Outcome Error A → List Event → Type 0
Closed o r h = Each (Guard o) h × Ended o r h

abbrev Generated : Options → Outcome Error Text → List Event → Type 0
Generated o (ok token) h =
    Each (Guard o) h
    × (o.consent ≡ true)
    × Minted token h
    × (is_begun h ≡ false)
    × (is_shown h ≡ false)
    × (is_revoked h ≡ false)
Generated o (err e) h = Closed {A = Text} o (err e) h

module _ (env : Env) (o : Options) where
  generate-Generated : Generated o (generate env o []).0 (generate env o []).1
  unfolding generate
  generate-Generated = ground arith

  disclose-Closed :
      (token : Text) (h : List Event)
      → Generated o (ok token) h
      → Closed o (disclose env o token h).0 (disclose env o token h).1
  unfolding disclose
  disclose-Closed token h g = ground arith

  generate_root-Closed : Closed o (generate_root env o []).0 (generate_root env o []).1
  unfolding generate_root
  generate_root-Closed =
      bind_post (Generated o) (Closed o) (generate env o) (disclose env o) [] generate-Generated
        disclose-Closed (λ x h g. g)

-- Whatever the other systems answer, and however the run ends: the ceremony is held only with
-- consent; a token is printed only if the ceremony gave it, with consent, and right after the audit
-- record of it was written; it is revoked only if the request asks for that.
pub generate_root-Guard : (env : Env) (o : Options) → Each (Guard o) (generate_root env o []).1
generate_root-Guard env o = (generate_root-Closed env o).0

-- Each outcome tells what has become of the token. Success: it was printed, it was revoked exactly
-- if that was asked for, and the last audit line says which. A failed revocation, alone or with a
-- lost warning: it was printed and not revoked. A lost trailer: it was printed. A failed print: it
-- was begun, and not revoked. Any other error: not even begun.
pub generate_root-Ended :
    (env : Env) (o : Options) → Ended o (generate_root env o []).0 (generate_root env o []).1
generate_root-Ended env o = (generate_root-Closed env o).1
