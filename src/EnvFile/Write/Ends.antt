-- ===== src/EnvFile/Write/Ends.antt =====
-- What a write leaves behind (cli/internal/bootstrap/config/env.go).
use kube_dc_public.Prelude.{
  ◌≡◌, refl, Bool, true, false, not, List, [], ◌∷◌, is_empty, if◌then◌else◌, arith,
}
use kube_dc_public.Prelude.Text.{Text}
use kube_dc_public.Prelude.Engine.{Outcome, ok, err, bind_post, return, demand, ◌>>◌}
use kube_dc_public.EnvFile.{Env, env_text}
use kube_dc_public.EnvFile.Write.{
  dir_of, filepath_base, FileOp, create_temp, write_temp, chmod_temp, close_temp, rename_temp,
  remove_temp, Event, called, Run, WriteError, no_path, create_failed, give_up, or_give_up, replace,
  target, write,
}

-- The calls of a write that succeeds, the newest first.
abbrev pub published : Text → Text → List Event
published path text =
    called (rename_temp path) true
    ∷ called close_temp true
    ∷ called chmod_temp true
    ∷ called (write_temp text) true
    ∷ called (create_temp (dir_of path) (filepath_base path)) true
    ∷ []

-- No call put a file in the place of another.
abbrev pub is_untouched : List Event → Bool
is_untouched [] = true
is_untouched (called (rename_temp p) r ∷ h) = if r then false else is_untouched h
is_untouched (_ ∷ h) = is_untouched h

abbrev pub IsRemoved : List Event → Type 0
IsRemoved (called remove_temp r ∷ h) = Unit {0}
IsRemoved _ = ⊥

abbrev pub Replaced : Text → Text → Outcome WriteError (Unit {0}) → List Event → Type 0
Replaced path text (ok u) h = h ≡ published path text
Replaced path text (err create_failed) h =
    h ≡ called (create_temp (dir_of path) (filepath_base path)) false ∷ []
Replaced path text (err no_path) h = ⊥
Replaced path text (err x) h = (is_untouched h ≡ true) × IsRemoved h

abbrev pub Ended : Env → Text → Outcome WriteError Env → List Event → Type 0
Ended e path (ok w) h = (w ≡ record e { path = path }) × (h ≡ published path (env_text e.lines))
Ended e path (err no_path) h = (path ≡ []) × (h ≡ [])
Ended e path (err create_failed) h =
    h ≡ called (create_temp (dir_of path) (filepath_base path)) false ∷ []
Ended e path (err x) h = (is_untouched h ≡ true) × IsRemoved h

module _ (file : List Event → FileOp → Bool) where
  replace-Replaced :
      (path text : Text)
      → Replaced path text (replace file path text []).0 (replace file path text []).1
  unfolding replace or_give_up give_up
  replace-Replaced path text = ground arith

-- What a write leaves behind, whichever calls fail. Success: the store is as it was, with the path
-- written to, and the calls made were just these: a temporary file in the directory of the path was
-- created, given the text of the lines, its mode, and closed, and then put at the path. Without a
-- path nothing was called; a file that could not be created is the only call. After any other
-- failure no file was replaced, and the last call removes the temporary file.
pub write-Ended :
    (file : List Event → FileOp → Bool) (e : Env) (path : Text)
    → Ended e (target file e path) (write file e path []).0 (write file e path []).1
unfolding write
write-Ended file e path = named (target file e path)
  where
    finish : Text → Run Env
    finish p = replace file p (env_text e.lines) >> return (record e { path = p })

    m : Text → Run Env
    m p = demand (not (is_empty p)) no_path >> finish p

    failed :
        (p : Text) (x : WriteError) (h : List Event)
        → Replaced p (env_text e.lines) (err x) h
        → Ended e p (err x) h
    failed p x h s = ground arith

    named : (p : Text) → Ended e p (m p []).0 (m p []).1
    named [] = (refl, refl)
    named (c ∷ p) =
        bind_post (Replaced (c ∷ p) (env_text e.lines)) (Ended e (c ∷ p))
          (replace file (c ∷ p) (env_text e.lines)) (λ u. return (record e { path = c ∷ p })) []
          (replace-Replaced file (c ∷ p) (env_text e.lines)) (λ u h s. (refl, s)) (failed (c ∷ p))
