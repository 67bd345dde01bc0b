-- ===== src/OpenBao/Init/Files/Rewrite.antt =====
-- A shares file that takes the place of another
-- (cli/internal/bootstrap/openbao/init.go: `writeSharesFile` without `noClobber`).
use kube_dc_public.Prelude.{false, List, ◌∷◌, arith}
use kube_dc_public.Prelude.Text.{Text}
use kube_dc_public.Prelude.Engine.{Outcome, ok, err, Each}
use kube_dc_public.Secrets.{Buffer}
use kube_dc_public.OpenBao.Init.{
  FileOp, Reply, Tree, Event, tree_checked, file_op, FileError, Env, DumpError,
}
use kube_dc_public.OpenBao.Init.Files.{write_shares_file}
use kube_dc_public.OpenBao.Init.Files.Publish.{
  IsQuiet, file_op-IsUnlinked, write_shares_file-Replaced,
}
use kube_dc_public.OpenBao.Init.Guard.{Guard, Linked, AllVerified}
use kube_dc_public.OpenBao.Init.Files.Dump.{Stands}

file_op-Linked :
    (path body : Text) (op : FileOp) (r : Reply) (h : List Event)
    → IsQuiet op
    → Linked path body h
    → Linked path body (file_op op r ∷ h)
file_op-Linked path body op r h q l = ground arith

-- The copy made at the capture stays where it is.
file_op-Stands :
    (cluster : Text) (b : Buffer) (c : Outcome DumpError Text) (op : FileOp) (r : Reply)
    (h : List Event)
    → IsQuiet op
    → Stands cluster b c h
    → Stands cluster b c (file_op op r ∷ h)
file_op-Stands cluster b (ok path) op r h q (body, e, l) =
    (body, e, file_op-Linked path body op r h q l)
file_op-Stands cluster b (err e) op r h q u = file_op-IsUnlinked op r h q u

tree_checked-Stands :
    (cluster : Text) (b : Buffer) (c : Outcome DumpError Text) (p : Text) (t : Tree)
    (h : List Event)
    → Stands cluster b c h
    → Stands cluster b c (tree_checked p t ∷ h)
tree_checked-Stands cluster b (ok path) p t h s = s
tree_checked-Stands cluster b (err e) p t h s = s

abbrev Rests : Text → Buffer → Outcome DumpError Text → List Event → Type 0
Rests cluster b c h = AllVerified h × Stands cluster b c h

abbrev Rested :
    Text → Buffer → Outcome DumpError Text → Outcome FileError (Unit {0}) → List Event → Type 0
Rested cluster b c (ok u) h = Each Guard h × Rests cluster b c h × Unit {0}
Rested cluster b c (err e) h = Each Guard h × Rests cluster b c h

either :
    (cluster : Text) (b : Buffer) (c : Outcome DumpError Text) (r : Outcome FileError (Unit {0}))
    (h : List Event)
    → Rested cluster b c r h
    → Each Guard h × AllVerified h × Stands cluster b c h
either cluster b c (ok u) h t = (t.0, t.1.0, t.1.1)
either cluster b c (err e) h t = (t.0, t.1.0, t.1.1)

pub write_shares_file-Stands :
    (env : Env) (path body : Text) (h : List Event) (cluster : Text) (b : Buffer)
    (c : Outcome DumpError Text)
    → Each Guard h
    → AllVerified h
    → Stands cluster b c h
    → Each Guard (write_shares_file env path body false h).1
      × AllVerified (write_shares_file env path body false h).1
      × Stands cluster b c (write_shares_file env path body false h).1
write_shares_file-Stands env path body h cluster b c g v s =
    let q = write_shares_file env path body false h in
    either cluster b c q.0 q.1 (
      write_shares_file-Replaced env (Rests cluster b c)
        (λ p t h j. (j.0, tree_checked-Stands cluster b c p t h j.1))
        (λ op r h i j. (j.0, file_op-Stands cluster b c op r h i j.1)) path body h g (v, s))
