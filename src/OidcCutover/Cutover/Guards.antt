-- ===== src/OidcCutover/Cutover/Guards.antt =====
-- What must hold when the cutover makes a call (cli/internal/bootstrap/oidccutover/run.go).
use kube_dc_public.Prelude.{◌≡◌, true, false, none, some, List, [], ◌∷◌, All, if◌then◌else◌, ◌⊎◌}
use kube_dc_public.Prelude.Text.{Text, contains}
use kube_dc_public.Prelude.Engine.{Outcome, ok, err, Each}
use kube_dc_public.NodeRemove.{SshHost}
use kube_dc_public.OidcCutover.Config.{patch_config, webhook_flag}
use kube_dc_public.OidcCutover.Cutover.{
  Node, Options, Event, kubeconfig_tested, config_read, port_read, snapshot_made, config_written,
  restarted, flag_read, snapshot_tested, snapshot_restored, is_present, foreign_port_owner,
}

-- The API server restarted last, if any, is the one on this host.
abbrev pub LastRestarted : SshHost → List Event → Type 0
LastRestarted p [] = Unit {0}
LastRestarted p (restarted q r ∷ h) = q ≡ p
LastRestarted p (_ ∷ h) = LastRestarted p h

-- No API server was restarted, or the last that was runs with the webhook's flag by now, which was
-- read on its host.
abbrev pub IsSettled : List Event → Type 0
IsSettled [] = Unit {0}
IsSettled (restarted p r ∷ h) = ⊥
IsSettled (flag_read p (some out) ∷ h) = (contains webhook_flag out ≡ true) × LastRestarted p h
IsSettled (_ ∷ h) = IsSettled h

-- The nodes whose kubeconfig was seen.
abbrev pub tests_of : List Event → List SshHost
tests_of [] = []
tests_of (kubeconfig_tested p (some out) ∷ h) =
    if is_present out then p ∷ tests_of h else tests_of h
tests_of (_ ∷ h) = tests_of h

abbrev pub IsAmong : SshHost → List SshHost → Type 0
IsAmong p [] = ⊥
IsAmong p (q ∷ ps) = (q ≡ p) ⊎ IsAmong p ps

-- Each of the nodes was seen with the kubeconfig of the webhook.
unfoldable pub AllTested : List Node → List SshHost → Type 0
AllTested ns ps = All (λ n. IsAmong n.host ps) ns

-- The node was just read, its file has to become this text, and nothing but the API server holds
-- its port.
abbrev pub IsFree : SshHost → Text → List Event → Type 0
IsFree p text (port_read q (some out) ∷ config_read q' (some body) ∷ h) =
    (q ≡ p) × (q' ≡ p) × (foreign_port_owner out ≡ none) × (patch_config body ≡ ok (text, true))
IsFree p text _ = ⊥

-- Nothing but the API server holds the node's port.
abbrev pub IsPortFree : SshHost → List Event → Type 0
IsPortFree p (port_read q (some out) ∷ h) = (q ≡ p) × (foreign_port_owner out ≡ none)
IsPortFree p _ = ⊥

abbrev pub IsSaved : SshHost → Text → List Event → Type 0
IsSaved p text (snapshot_made q r ∷ h) = (q ≡ p) × (r ≡ true) × IsFree p text h
IsSaved p text _ = ⊥

-- The node's file was just written, or its snapshot just put back.
abbrev pub IsWritten : SshHost → List Event → Type 0
IsWritten p (config_written q text r ∷ h) = (q ≡ p) × (r ≡ true)
IsWritten p (snapshot_restored q r ∷ h) = (q ≡ p) × (r ≡ true)
IsWritten p _ = ⊥

abbrev pub IsSnapshotSeen : SshHost → List Event → Type 0
IsSnapshotSeen p (snapshot_tested q r ∷ h) = (q ≡ p) × (r ≡ true)
IsSnapshotSeen p _ = ⊥

-- What must hold when a call is made.
abbrev pub Guard : Options → Event → List Event → Type 0
Guard o (config_read p r) h = IsSettled h × AllTested o.nodes (tests_of h)
Guard o (snapshot_made p r) h = (o.dry_run ≡ false) × IsPortFree p h
Guard o (config_written p text r) h = (o.dry_run ≡ false) × IsSaved p text h
Guard o (snapshot_restored p r) h = (o.dry_run ≡ false) × (o.rollback ≡ true) × IsSnapshotSeen p h
Guard o (restarted p r) h = (o.dry_run ≡ false) × IsWritten p h
Guard _ _ h = Unit {0}

abbrev pub Kept : {X A : Type 0} → Options → Outcome X A → List Event → Type 0
Kept o r h = Each (Guard o) h

abbrev pub Tested : Options → List Event → Type 0
Tested o h = Each (Guard o) h × AllTested o.nodes (tests_of h)

abbrev pub Between : Options → List Event → Type 0
Between o h = Tested o h × IsSettled h

-- All nodes were tested, and this one was restarted last.
abbrev pub Going : {X A : Type 0} → Options → SshHost → Outcome X A → List Event → Type 0
Going o p r h = Tested o h × LastRestarted p h

abbrev pub Restarted : {X A : Type 0} → Options → SshHost → Outcome X A → List Event → Type 0
Restarted o p (ok a) h = Tested o h × LastRestarted p h
Restarted o p (err x) h = Each (Guard o) h

-- A node passed, or the procedure stopped at it.
abbrev pub Passed : {X A : Type 0} → Options → Outcome X A → List Event → Type 0
Passed o (ok a) h = Between o h
Passed o (err x) h = Each (Guard o) h
