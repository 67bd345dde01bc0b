-- ===== src/OpenBao/Init/Files/Dump.antt =====
-- What the copy made right after the capture is
-- (cli/internal/bootstrap/openbao/init.go: `writeSharesFile`, `emergencyDumpShares`).
use kube_dc_public.Prelude.{◌≡◌, refl, ℕ, zero, suc, ◌+◌, true, Option, none, some, List, ◌∷◌}
use kube_dc_public.Prelude.Text.{Text}
use kube_dc_public.Prelude.Engine.{
  Outcome, ok, err, Each, attempt_post, bind_post, perform, return, ◌>>=◌,
}
use kube_dc_public.Secrets.{Buffer}
use kube_dc_public.OpenBao.Init.{
  Event, home_read, link_temp, remove_temp, sync_dir, Reply, done, already_there, failed, file_op,
  Env, FileError, inside_git_tree, path_unresolved, name_taken, file_failed, DumpError,
}
use kube_dc_public.OpenBao.Init.Payload.{render_shares}
use kube_dc_public.OpenBao.Init.Files.{
  dump_text, dump_under, or_next, provenance, DumpRun, dump_name, dump_from, dump_base,
  max_attempts, emergency_dump, reply_done, op_or_remove, publish, name_file, done_or_remove,
  write_shares_file,
}
use kube_dc_public.OpenBao.Init.Files.Publish.{file_op-IsUnlinked, published}
use kube_dc_public.OpenBao.Init.Guard.{Guard, IsDurable, IsOutside, Wrote, IsUnlinked, Linked}

abbrev Written : Text → Text → Outcome FileError (Unit {0}) → List Event → Type 0
Written path body (ok u) h = Each Guard h × Linked path body h
Written path body (err e) h = Each Guard h × IsUnlinked h

-- Where the copy of the buffer's shares is: in a file made for it, or nowhere.
abbrev pub Stands : Text → Buffer → Outcome DumpError Text → List Event → Type 0
Stands cluster b (ok path) h =
    (body : Text) × (render_shares b (provenance cluster) ≡ some body) × Linked path body h
Stands cluster b (err e) h = IsUnlinked h

abbrev Reached : Text → Buffer → Outcome DumpError Text → List Event → Type 0
Reached cluster b r h = Each Guard h × Stands cluster b r h

module _ (env : Env) where
  removed :
      (r : Reply) (path body : Text) (h : List Event)
      → Each Guard h
      → IsDurable h × IsOutside path h
      → IsUnlinked (file_op (link_temp path) r ∷ h)
      → Each Guard (
          file_op remove_temp (env.file (file_op (link_temp path) r ∷ h) remove_temp)
          ∷ file_op (link_temp path) r
          ∷ h)
        × IsUnlinked (file_op (link_temp path) r ∷ h)
  removed r path body h g d u = ((tt, (d, g)), u)

  linked :
      (r : Reply) (path body : Text) (h : List Event)
      → Each Guard h
      → IsUnlinked h
      → IsOutside path h × Wrote body h × IsDurable h
      → Written path body
          (done_or_remove env r (file_op (link_temp path) r ∷ h)).0
          (done_or_remove env r (file_op (link_temp path) r ∷ h)).1
  unfolding done_or_remove reply_done
  linked done path body h g u (o, w, d) = (((d, o), g), (refl, w))
  linked already_there path body h g u (o, w, d) = removed already_there path body h g (d, o) u
  linked failed path body h g u (o, w, d) = removed failed path body h g (d, o) u

  publish-Written :
      (path body : Text) (h : List Event)
      → Each Guard h
      → IsUnlinked h
      → IsOutside path h × Wrote body h × IsDurable h
      → Written path body (publish env path true h).0 (publish env path true h).1
  unfolding publish op_or_remove
  publish-Written path body h g u f =
      bind_post (Written path body) (Written path body) (op_or_remove env (link_temp path))
        (λ v. perform (λ h. env.file h remove_temp) (file_op remove_temp) >>= λ r. return tt) h
        (linked (env.file h (link_temp path)) path body h g u f) (λ v h s. ((tt, s.0), s.1))
        (λ e h s. s)

  name_file-Written :
      (path body : Text) (h : List Event)
      → Each Guard h
      → IsUnlinked h
      → IsOutside path h × Wrote body h × IsDurable h
      → Written path body (name_file env path true h).0 (name_file env path true h).1
  unfolding name_file
  name_file-Written path body h g u f =
      bind_post (Written path body) (Written path body) (publish env path true)
        (λ v. perform (λ h. env.file h sync_dir) (file_op sync_dir) >>= λ r. return tt) h
        (publish-Written path body h g u f) (λ v h s. ((tt, s.0), s.1)) (λ e h s. s)

  write_shares_file-Written :
      (path body : Text) (h : List Event)
      → Each Guard h
      → IsUnlinked h
      → Written path body
          (write_shares_file env path body true h).0
          (write_shares_file env path body true h).1
  write_shares_file-Written path body h g u =
      published env IsUnlinked (λ p t h j. j) file_op-IsUnlinked path body true (Written path body)
        h (λ e h g j. (g, j)) (name_file-Written path body) g u

  abbrev Dumped : Text → Outcome DumpError Text → List Event → Type 0
  Dumped body (ok path) h = Each Guard h × Linked path body h
  Dumped body (err e) h = Each Guard h × IsUnlinked h

  or_next-Dumped :
      (path body : Text) (next : DumpRun Text)
      → ((h : List Event) → Each Guard h → IsUnlinked h → Dumped body (next h).0 (next h).1)
      → (r : Outcome FileError (Unit {0})) (h : List Event) → Written path body r h
      → Dumped body (or_next path next r h).0 (or_next path next r h).1
  unfolding or_next
  or_next-Dumped path body next n (ok u) h w = w
  or_next-Dumped path body next n (err inside_git_tree) h w = w
  or_next-Dumped path body next n (err path_unresolved) h w = w
  or_next-Dumped path body next n (err name_taken) h w = n h w.0 w.1
  or_next-Dumped path body next n (err file_failed) h w = w

  dump_from-Dumped :
      (base body : Text) (i left : ℕ) (h : List Event)
      → Each Guard h
      → IsUnlinked h
      → Dumped body (dump_from env base body i left h).0 (dump_from env base body i left h).1
  unfolding dump_from
  dump_from-Dumped base body i zero h g u = (g, u)
  dump_from-Dumped base body i (suc left) h g u =
      attempt_post (Written (dump_name base i) body) (Dumped body)
        (write_shares_file env (dump_name base i) body true)
        (or_next (dump_name base i) (dump_from env base body (i + 1) left)) h
        (write_shares_file-Written (dump_name base i) body h g u)
        (or_next-Dumped (dump_name base i) body (dump_from env base body (i + 1) left)
          (dump_from-Dumped base body (i + 1) left))

  dump_text-Reached :
      (cluster home : Text) (b : Buffer) (found : Option Text) (h : List Event)
      → render_shares b (provenance cluster) ≡ found
      → Each Guard h
      → IsUnlinked h
      → Reached cluster b
          (dump_text env cluster home found h).0
          (dump_text env cluster home found h).1
  unfolding dump_text
  dump_text-Reached cluster home b none h e g u = (g, u)
  dump_text-Reached cluster home b (some body) h e g u =
      copied (dump_from env (dump_base home cluster) body 0 max_attempts h)
        (dump_from-Dumped (dump_base home cluster) body 0 max_attempts h g u)
    where
      copied :
          (q : Outcome DumpError Text × List Event)
          → Dumped body q.0 q.1
          → Reached cluster b q.0 q.1
      copied (ok path, h') d = (d.0, (body, e, d.1))
      copied (err x, h') d = d

  dump_under-Reached :
      (cluster : Text) (b : Buffer) (found : Option Text) (h : List Event)
      → Each Guard h
      → IsUnlinked h
      → Reached cluster b (dump_under env cluster b found h).0 (dump_under env cluster b found h).1
  unfolding dump_under
  dump_under-Reached cluster b none h g u = (g, u)
  dump_under-Reached cluster b (some home) h g u =
      dump_text-Reached cluster home b (render_shares b (provenance cluster)) h refl g u

  pub emergency_dump-Stands :
      (cluster : Text) (b : Buffer) (h : List Event)
      → Each Guard h
      → Each Guard (emergency_dump env cluster b h).1
        × Stands cluster b (emergency_dump env cluster b h).0 (emergency_dump env cluster b h).1
  unfolding emergency_dump
  emergency_dump-Stands cluster b h g =
      dump_under-Reached cluster b (env.home h) (home_read (env.home h) ∷ h) (tt, g) tt
