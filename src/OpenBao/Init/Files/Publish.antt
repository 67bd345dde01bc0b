-- ===== src/OpenBao/Init/Files/Publish.antt =====
-- How a file of shares gets its name (cli/internal/bootstrap/openbao/init.go: `writeSharesFile`).
use kube_dc_public.Prelude.{◌≡◌, refl, sym, subst, Bool, false, List, ◌∷◌, arith}
use kube_dc_public.Prelude.Text.{Text}
use kube_dc_public.Prelude.Engine.{Outcome, ok, err, Each, bind_post, return, perform, ◌>>=◌, ◌>>◌}
use kube_dc_public.OpenBao.Init.{
  FileOp, make_dir, create_temp, write_temp, chmod_temp, sync_temp, close_temp, link_temp,
  rename_temp, remove_temp, sync_dir, Reply, done, already_there, failed, Tree, outside, inside,
  unresolved, Event, tree_checked, file_op, FileError, Env,
}
use kube_dc_public.OpenBao.Init.Files.{
  FileRun, tree_of, check_tree, tree_outside, reply_done, run_op, done_or_remove, op_or_remove,
  fill_temp, publish, name_file, write_shares_file,
}
use kube_dc_public.OpenBao.Init.Guard.{
  Guard, IsWritten, IsClosedToOthers, IsSynced, IsDurable, IsOutside, Wrote, IsUnlinked,
}

-- Not the call that gives a new file its name.
abbrev pub IsQuiet : FileOp → Type 0
IsQuiet (link_temp p) = ⊥
IsQuiet _ = Unit {0}

pub file_op-IsUnlinked :
    (op : FileOp) (r : Reply) (h : List Event)
    → IsQuiet op
    → IsUnlinked h
    → IsUnlinked (file_op op r ∷ h)
file_op-IsUnlinked op r h q l = ground arith

-- `J` holds through calls that link no file.
module _ (env : Env) (J : List Event → Type 0)
    (j_tree : (p : Text) (t : Tree) (h : List Event) → J h → J (tree_checked p t ∷ h))
    (j_op : (op : FileOp) (r : Reply) (h : List Event) → IsQuiet op → J h → J (file_op op r ∷ h))
    (path body : Text) where
  abbrev Done : (List Event → Type 0) → Outcome FileError (Unit {0}) → List Event → Type 0
  Done D (ok u) h = Each Guard h × J h × D h
  Done D (err e) h = Each Guard h × J h

  then :
      (D C : List Event → Type 0) (m k : FileRun (Unit {0})) (h : List Event)
      → Done D (m h).0 (m h).1
      → ((h' : List Event) → Each Guard h' → J h' → D h' → Done C (k h').0 (k h').1)
      → Done C ((m >> k) h).0 ((m >> k) h).1
  then D C m k h s n =
      bind_post (Done D) (Done C) m (λ u. k) h s (λ u h' t. n h' t.0 t.1 t.2) (λ e h' t. t)

  removed_J :
      (r : Reply) (h : List Event)
      → Each Guard h
      → J h
      → Each Guard (file_op remove_temp r ∷ h) × J (file_op remove_temp r ∷ h)
  removed_J r h g j = ((tt, g), j_op remove_temp r h tt j)

  done_or_remove-Done :
      (D : List Event → Type 0) (r : Reply) (h : List Event)
      → Each Guard h
      → J h
      → (r ≡ done → D h)
      → Done D (done_or_remove env r h).0 (done_or_remove env r h).1
  unfolding done_or_remove reply_done
  done_or_remove-Done D done h g j d = (g, j, d refl)
  done_or_remove-Done D already_there h g j d = removed_J (env.file h remove_temp) h g j
  done_or_remove-Done D failed h g j d = removed_J (env.file h remove_temp) h g j

  reply_done-Done :
      (D : List Event → Type 0) (r : Reply) (h : List Event)
      → Each Guard h
      → J h
      → (r ≡ done → D h)
      → Done D (reply_done r h).0 (reply_done r h).1
  unfolding reply_done
  reply_done-Done D done h g j d = (g, j, d refl)
  reply_done-Done D already_there h g j d = (g, j)
  reply_done-Done D failed h g j d = (g, j)

  op_or_remove-Done :
      (D : List Event → Type 0) (op : FileOp) (h : List Event)
      → IsQuiet op
      → ((r : Reply) → Guard (file_op op r) h)
      → Each Guard h
      → J h
      → D (file_op op done ∷ h)
      → Done D (op_or_remove env op h).0 (op_or_remove env op h).1
  unfolding op_or_remove
  op_or_remove-Done D op h q g gs j d =
      done_or_remove-Done D (env.file h op) (file_op op (env.file h op) ∷ h) (g (env.file h op), gs)
        (j_op op (env.file h op) h q j) (λ e. subst (λ r. D (file_op op r ∷ h)) (sym e) d)

  run_op-Done :
      (D : List Event → Type 0) (op : FileOp) (h : List Event)
      → IsQuiet op
      → ((r : Reply) → Guard (file_op op r) h)
      → Each Guard h
      → J h
      → D (file_op op done ∷ h)
      → Done D (run_op env op h).0 (run_op env op h).1
  unfolding run_op
  run_op-Done D op h q g gs j d =
      reply_done-Done D (env.file h op) (file_op op (env.file h op) ∷ h) (g (env.file h op), gs)
        (j_op op (env.file h op) h q j) (λ e. subst (λ r. D (file_op op r ∷ h)) (sym e) d)

  abbrev pub After : (List Event → Type 0) → List Event → Type 0
  After X h = IsOutside path h × Wrote body h × X h

  -- The file has its text and is durable, and has no name yet.
  abbrev pub IsFull : List Event → Type 0
  IsFull = After IsDurable

  fill_temp-Done :
      (h : List Event)
      → Each Guard h
      → J h
      → IsOutside path h
      → Done IsFull (fill_temp env body h).0 (fill_temp env body h).1
  unfolding fill_temp
  fill_temp-Done h g j o =
      let step = op_or_remove env in
      let four = step close_temp in
      let three = step sync_temp >> four in
      let two = step chmod_temp >> three in
      let one = step (write_temp body) >> two in
      let made = run_op env create_temp >> one in
      let O = IsOutside path in
      then O IsFull (run_op env make_dir) made h (run_op-Done O make_dir h tt (λ r. tt) g j o)
        (λ h g j o.
          then O IsFull (run_op env create_temp) one h
            (run_op-Done O create_temp h tt (λ r. tt) g j o)
            (λ h g j o.
              then (After IsWritten) IsFull (step (write_temp body)) two h
                (op_or_remove-Done (After IsWritten) (write_temp body) h tt (λ r. tt) g j
                  (o, refl, tt))
                (λ h g j d.
                  then (After IsClosedToOthers) IsFull (step chmod_temp) three h
                    (op_or_remove-Done (After IsClosedToOthers) chmod_temp h tt (λ r. tt) g j d)
                    (λ h g j d.
                      then (After IsSynced) IsFull (step sync_temp) four h
                        (op_or_remove-Done (After IsSynced) sync_temp h tt (λ r. tt) g j d)
                        (λ h g j d. op_or_remove-Done IsFull close_temp h tt (λ r. tt) g j d)))))

  tree_outside-Done :
      (t : Tree) (h : List Event)
      → Each Guard h
      → J h
      → Done
          (IsOutside path)
          (tree_outside t (tree_checked path t ∷ h)).0
          (tree_outside t (tree_checked path t ∷ h)).1
  unfolding tree_outside
  tree_outside-Done outside h g j = ((tt, g), j_tree path outside h j, refl)
  tree_outside-Done inside h g j = ((tt, g), j_tree path inside h j)
  tree_outside-Done unresolved h g j = ((tt, g), j_tree path unresolved h j)

  check_tree-Done :
      (h : List Event)
      → Each Guard h
      → J h
      → Done (IsOutside path) (check_tree env path h).0 (check_tree env path h).1
  unfolding check_tree
  check_tree-Done h g j = tree_outside-Done (tree_of env h path) h g j

  -- A name in the place of another: `J` holds however it ends.
  abbrev pub Replaced : Outcome FileError (Unit {0}) → List Event → Type 0
  Replaced = Done (λ h. Unit {0})

  publish-Replaced :
      (h : List Event)
      → Each Guard h
      → J h
      → IsFull h
      → Replaced (publish env path false h).0 (publish env path false h).1
  unfolding publish
  publish-Replaced h g j (o, w, d) =
      op_or_remove-Done (λ h. Unit {0}) (rename_temp path) h tt (λ r. (d, o)) g j tt

  pub published :
      (no_clobber : Bool) (R : Outcome FileError (Unit {0}) → List Event → Type 0) (h : List Event)
      → ((e : FileError) (h : List Event) → Each Guard h → J h → R (err e) h)
      → ((h : List Event)
          → Each Guard h
          → J h
          → IsFull h
          → R (name_file env path no_clobber h).0 (name_file env path no_clobber h).1)
      → Each Guard h
      → J h
      → R
          (write_shares_file env path body no_clobber h).0
          (write_shares_file env path body no_clobber h).1
  unfolding write_shares_file
  published no_clobber R h free named g j =
      let name = name_file env path no_clobber in
      bind_post (Done (IsOutside path)) R (check_tree env path) (λ u. fill_temp env body >> name) h
        (check_tree-Done h g j)
        (λ u h s.
          bind_post (Done IsFull) R (fill_temp env body) (λ v. name) h
            (fill_temp-Done h s.0 s.1 s.2) (λ v h t. named h t.0 t.1 t.2)
            (λ e h t. free e h t.0 t.1))
        (λ e h s. free e h s.0 s.1)

  name_file-Replaced :
      (h : List Event)
      → Each Guard h
      → J h
      → IsFull h
      → Replaced (name_file env path false h).0 (name_file env path false h).1
  unfolding name_file
  name_file-Replaced h g j f =
      bind_post Replaced Replaced (publish env path false)
        (λ u. perform (λ h. env.file h sync_dir) (file_op sync_dir) >>= λ r. return tt) h
        (publish-Replaced h g j f)
        (λ u h s. ((tt, s.0), j_op sync_dir (env.file h sync_dir) h tt s.1, tt)) (λ e h s. s)

  pub write_shares_file-Replaced :
      (h : List Event)
      → Each Guard h
      → J h
      → Replaced
          (write_shares_file env path body false h).0
          (write_shares_file env path body false h).1
  write_shares_file-Replaced h g j =
      published false Replaced h (λ e h g j. (g, j)) name_file-Replaced g j
