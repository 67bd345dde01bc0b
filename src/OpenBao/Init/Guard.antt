-- ===== src/OpenBao/Init/Guard.antt =====
-- What must hold when `Init` makes a call, in terms of the calls made before
-- (cli/internal/bootstrap/openbao/init.go).
use kube_dc_public.Prelude.{◌≡◌, ℕ, zero, suc, true, Option, some, List, [], ◌∷◌}
use kube_dc_public.Prelude.Text.{Text, contains}
use kube_dc_public.Prelude.Engine.{ok, err}
use kube_dc_public.OpenBao.Init.{
  write_temp, chmod_temp, sync_temp, close_temp, link_temp, rename_temp, done, outside, Event,
  tree_checked, diff_read, annotation_read, head_read, script_run, home_read, file_op,
  share_encrypted, decrypted, committed, custody_removed, share_applied, auth_called, revoked,
  LateCause, k8s_missing, auth_failed, annotate_failed,
}

abbrev pub IsWritten : List Event → Type 0
IsWritten (file_op (write_temp s) done ∷ h) = Unit {0}
IsWritten _ = ⊥

abbrev pub IsClosedToOthers : List Event → Type 0
IsClosedToOthers (file_op chmod_temp done ∷ h) = IsWritten h
IsClosedToOthers _ = ⊥

abbrev pub IsSynced : List Event → Type 0
IsSynced (file_op sync_temp done ∷ h) = IsClosedToOthers h
IsSynced _ = ⊥

-- The newest calls wrote the temporary file, made it the owner's only, synced it and closed it.
abbrev pub IsDurable : List Event → Type 0
IsDurable (file_op close_temp done ∷ h) = IsSynced h
IsDurable _ = ⊥

-- The newest test for a git tree was of this path, and found none.
abbrev pub IsOutside : Text → List Event → Type 0
IsOutside path (tree_checked p outside ∷ h) = p ≡ path
IsOutside path (tree_checked p _ ∷ h) = ⊥
IsOutside path (_ ∷ h) = IsOutside path h
IsOutside path [] = ⊥

abbrev pub IsUnset : Option Text → Type 0
IsUnset (some (c ∷ s)) = ⊥
IsUnset _ = Unit {0}

abbrev pub IsClean : List Event → Type 0
IsClean (diff_read (some []) ∷ h) = Unit {0}
IsClean _ = ⊥

abbrev pub IsFresh : List Event → Type 0
IsFresh (annotation_read a ∷ h) = IsUnset a × IsClean h
IsFresh _ = ⊥

-- The newest calls found the tree clean, read no mark that the vault is finalised, and found the
-- head.
abbrev pub IsReady : List Event → Type 0
IsReady (head_read true ∷ h) = IsFresh h
IsReady _ = ⊥

-- The newest calls put texts under the numbers up to `k` into the encrypted file, in order, and
-- after each the decrypted file had that text in it.
abbrev pub Verified : ℕ → List Event → Type 0
Verified zero h = Unit {0}
Verified (suc k) (decrypted (some file) ∷ share_encrypted i s true ∷ h) =
    (i ≡ suc k) × (contains s file ≡ true) × Verified k h
Verified (suc k) _ = ⊥

-- So it was, up to calls that write a file.
abbrev pub AllVerified : List Event → Type 0
AllVerified (file_op op r ∷ h) = AllVerified h
AllVerified (tree_checked p t ∷ h) = AllVerified h
AllVerified h = Verified 5 h

-- The newest commit was made without an error.
abbrev pub IsCommitted : List Event → Type 0
IsCommitted (committed (ok sha) ∷ h) = Unit {0}
IsCommitted (committed (err sha) ∷ h) = ⊥
IsCommitted (_ ∷ h) = IsCommitted h
IsCommitted [] = ⊥

abbrev pub IsJustCommitted : List Event → Type 0
IsJustCommitted (committed (ok sha) ∷ h) = Unit {0}
IsJustCommitted _ = ⊥

-- The newest text written to a temporary file.
abbrev pub Wrote : Text → List Event → Type 0
Wrote body (file_op (write_temp s) done ∷ h) = s ≡ body
Wrote body (_ ∷ h) = Wrote body h
Wrote body [] = ⊥

-- The newest file linked has this name and this text, and it was not removed since.
abbrev pub Linked : Text → Text → List Event → Type 0
Linked path body (file_op (link_temp p) done ∷ h) = (p ≡ path) × Wrote body h
Linked path body (custody_removed p r ∷ h) = ⊥
Linked path body (home_read r ∷ h) = ⊥
Linked path body (_ ∷ h) = Linked path body h
Linked path body [] = ⊥

-- The file was linked since the newest look for a home directory, and not removed since.
abbrev pub IsCopy : Text → List Event → Type 0
IsCopy path h = (body : Text) × Linked path body h

abbrev pub Guard : Event → List Event → Type 0
Guard (script_run r) h = IsReady h
Guard (file_op (link_temp path) r) h = IsDurable h × IsOutside path h
Guard (file_op (rename_temp path) r) h = IsDurable h × IsOutside path h
Guard (committed r) h = AllVerified h
Guard (custody_removed path r) h = IsJustCommitted h × IsCopy path h
Guard (share_applied pod s r) h = IsCommitted h
Guard (auth_called c r) h = IsCommitted h
Guard (revoked token r) h = IsCommitted h
Guard _ h = Unit {0}

-- Since the newest look for a home directory, no file was given its name with `link`.
abbrev pub IsUnlinked : List Event → Type 0
IsUnlinked (home_read r ∷ h) = Unit {0}
IsUnlinked (file_op (link_temp path) done ∷ h) = ⊥
IsUnlinked (_ ∷ h) = IsUnlinked h
IsUnlinked [] = ⊥

-- No script was seen to hand over a payload, and nothing was committed.
abbrev pub IsUncaptured : List Event → Type 0
IsUncaptured (script_run (some s) ∷ h) = (s.payloads ≡ []) × IsUncaptured h
IsUncaptured (committed r ∷ h) = ⊥
IsUncaptured (_ ∷ h) = IsUncaptured h
IsUncaptured [] = Unit {0}

-- The last call asked the vault to revoke a token, whatever it answered.
abbrev pub IsJustRevoked : List Event → Type 0
IsJustRevoked (revoked token r ∷ h) = Unit {0}
IsJustRevoked _ = ⊥

-- No such call was made since the newest commit.
abbrev pub IsUnrevoked : List Event → Type 0
IsUnrevoked (revoked token r ∷ h) = ⊥
IsUnrevoked (committed r ∷ h) = Unit {0}
IsUnrevoked (_ ∷ h) = IsUnrevoked h
IsUnrevoked [] = Unit {0}

-- What a failure after the commit says of the token.
abbrev pub IsLate : LateCause → List Event → Type 0
IsLate k8s_missing h = IsJustRevoked h
IsLate (auth_failed e) h = IsJustRevoked h
IsLate annotate_failed h = IsJustRevoked h
IsLate _ h = IsUnrevoked h
