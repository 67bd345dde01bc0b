-- ===== src/OpenBao/Init/Keep/Ends.antt =====
-- Where the shares are while they are put into the repository
-- (cli/internal/bootstrap/openbao/init.go).
use kube_dc_public.Prelude.{
  ℕ, suc, Bool, true, false, is_empty, if◌then◌else◌, Option, none, some, List, ◌∷◌, arith,
}
use kube_dc_public.Prelude.Text.{Text, codes}
use kube_dc_public.Prelude.Engine.{
  Outcome, ok, err, Each, bind_post, attempt_post, return, ◌>>=◌, ◌>>◌,
}
use kube_dc_public.Secrets.{Buffer}
use kube_dc_public.OpenBao.Init.{
  Options, Event, committed, DumpError, ShareError, encryption_failed, commit_failed, Error, Env,
  Run,
}
use kube_dc_public.OpenBao.Init.Capture.{Capture}
use kube_dc_public.OpenBao.Init.Keep.{
  ShareRun, present, write_and_verify, write_and_verify_shares, write_if_any, write_shares_out,
  sha_of, commit_message, commit_and_maybe_push, remove_custody, shares_kept, keep,
}
use kube_dc_public.OpenBao.Init.Payload.{render_shares}
use kube_dc_public.OpenBao.Init.Guard.{
  Guard, IsUnlinked, Linked, IsCopy, Verified, AllVerified, IsCommitted, IsJustCommitted,
  IsUnrevoked,
}
use kube_dc_public.OpenBao.Init.Files.Dump.{Stands}
use kube_dc_public.OpenBao.Init.Files.Rewrite.{write_shares_file-Stands}
use kube_dc_public.OpenBao.Init.Capture.Ends.{Told, Held, custody-Closed}

abbrev Linking : ℕ → Text → Text → Outcome ShareError (Unit {0}) → List Event → Type 0
Linking k path body (ok u) h = Each Guard h × Verified k h × Linked path body h
Linking k path body (err e) h = Each Guard h × Linked path body h

abbrev Unlinking : ℕ → Outcome ShareError (Unit {0}) → List Event → Type 0
Unlinking k (ok u) h = Each Guard h × Verified k h × IsUnlinked h
Unlinking k (err e) h = Each Guard h × IsUnlinked h

module _ (env : Env) (b : Buffer) (i : ℕ) (h : List Event) (g : Each Guard h)
    (v : Verified i h) where
  write_and_verify-Linked :
      (path body : Text)
      → Linked path body h
      → Linking (suc i) path body (write_and_verify env b i h).0 (write_and_verify env b i h).1
  unfolding write_and_verify present
  write_and_verify-Linked path body l = ground arith

  write_and_verify-IsUnlinked :
      IsUnlinked h → Unlinking (suc i) (write_and_verify env b i h).0 (write_and_verify env b i h).1
  unfolding write_and_verify present
  write_and_verify-IsUnlinked l = ground arith

-- `k` shares are in the encrypted file, or an error has come, and the copy is where it was.
abbrev Filled :
    ℕ → Text → Buffer → Outcome DumpError Text → Outcome ShareError (Unit {0}) → List Event → Type 0
Filled k cluster b r (ok u) h = Each Guard h × Verified k h × Stands cluster b r h
Filled k cluster b r (err e) h = Each Guard h × Stands cluster b r h

-- All the shares are there, or an error says where the copy is.
abbrev Passed : Text → Capture → Outcome Error (Unit {0}) → List Event → Type 0
Passed cluster c (ok u) h = Each Guard h × AllVerified h × Stands cluster c.buffer c.custody h
Passed cluster c (err e) h = Told cluster c e h

abbrev Signed : Text → Capture → Outcome Error Text → List Event → Type 0
Signed cluster c (ok sha) h = Each Guard h × IsJustCommitted h × Stands cluster c.buffer c.custody h
Signed cluster c (err e) h = Told cluster c e h

abbrev pub Kept : Text → Capture → Outcome Error (Unit {0}) → List Event → Type 0
Kept cluster c (ok u) h = Each Guard h × IsCommitted h × IsUnrevoked h
Kept cluster c (err e) h = Told cluster c e h

write_and_verify-Filled :
    (env : Env) (cluster : Text) (b : Buffer) (r : Outcome DumpError Text) (i : ℕ) (h : List Event)
    → Filled i cluster b r (ok tt) h
    → Filled (suc i) cluster b r (write_and_verify env b i h).0 (write_and_verify env b i h).1
write_and_verify-Filled env cluster b (err x) i h (g, v, s) =
    unlinked (write_and_verify env b i h) (write_and_verify-IsUnlinked env b i h g v s)
  where
    unlinked :
        (q : Outcome ShareError (Unit {0}) × List Event)
        → Unlinking (suc i) q.0 q.1
        → Filled (suc i) cluster b (err x) q.0 q.1
    unlinked (ok u, h') l = l
    unlinked (err e, h') l = l
write_and_verify-Filled env cluster b (ok path) i h (g, v, (body, t, l)) =
    linked (write_and_verify env b i h) (write_and_verify-Linked env b i h g v path body l)
  where
    linked :
        (q : Outcome ShareError (Unit {0}) × List Event)
        → Linking (suc i) path body q.0 q.1
        → Filled (suc i) cluster b (ok path) q.0 q.1
    linked (ok u, h') l = (l.0, l.1, (body, t, l.2))
    linked (err e, h') l = (l.0, (body, t, l.1))

Verified-AllVerified : (h : List Event) → Verified 5 h → AllVerified h
Verified-AllVerified h v = ground arith

committed-Stands :
    (cluster : Text) (b : Buffer) (r : Outcome DumpError Text) (x : Outcome Text Text)
    (h : List Event)
    → Stands cluster b r h
    → Stands cluster b r (committed x ∷ h)
committed-Stands cluster b (ok path) x h s = s
committed-Stands cluster b (err e) x h s = s

module _ (env : Env) (o : Options) (c : Capture) where
  abbrev Put : ℕ → Outcome ShareError (Unit {0}) → List Event → Type 0
  Put k r h = Filled k o.cluster_name c.buffer c.custody r h

  after :
      (k i : ℕ) (next : ShareRun (Unit {0})) (h : List Event)
      → ((h' : List Event) → Put (suc i) (ok tt) h' → Put k (next h').0 (next h').1)
      → Put i (ok tt) h
      → Put k
          ((write_and_verify env c.buffer i >> next) h).0
          ((write_and_verify env c.buffer i >> next) h).1
  after k i next h n t =
      bind_post (Put (suc i)) (Put k) (write_and_verify env c.buffer i) (λ u. next) h
        (write_and_verify-Filled env o.cluster_name c.buffer c.custody i h t) (λ u h' t'. n h' t')
        (λ e h' t'. t')

  write_and_verify_shares-Put :
      (h : List Event)
      → Held o.cluster_name c h
      → Put 5 (write_and_verify_shares env c.buffer h).0 (write_and_verify_shares env c.buffer h).1
  unfolding write_and_verify_shares
  write_and_verify_shares-Put h s =
      let w : ℕ → ShareRun (Unit {0}) = write_and_verify env c.buffer in
      after 5 0 (w 1 >> (w 2 >> (w 3 >> w 4))) h
        (λ h'. after 5 1 (w 2 >> (w 3 >> w 4)) h' (λ h''. after 5 2 (w 3 >> w 4) h'' (λ h3.
          after 5 3 (w 4) h3
            (λ h4. write_and_verify-Filled env o.cluster_name c.buffer c.custody 4 h4))))
        (s.0, tt, s.1)

  shares_kept-Passed :
      (r : Outcome ShareError (Unit {0})) (h : List Event)
      → Put 5 r h
      → Passed o.cluster_name c (shares_kept c r h).0 (shares_kept c r h).1
  unfolding shares_kept
  shares_kept-Passed (ok u) h t = (t.0, Verified-AllVerified h t.1, t.2)
  shares_kept-Passed (err e) h t =
      custody-Closed env o (Unit {0}) (Passed o.cluster_name c) c (λ e h' t'. t')
        (encryption_failed e) h t

  write_if_any-Passed :
      (path : Text) (text : Option Text) (h : List Event)
      → Passed o.cluster_name c (ok tt) h
      → Passed o.cluster_name c (write_if_any env path text h).0 (write_if_any env path text h).1
  unfolding write_if_any
  write_if_any-Passed path none h t = t
  write_if_any-Passed path (some body) h (g, v, s) =
      write_shares_file-Stands env path body h o.cluster_name c.buffer c.custody g v s

  write_shares_out-Passed :
      (h : List Event)
      → Passed o.cluster_name c (ok tt) h
      → Passed o.cluster_name c
          (write_shares_out env o c.buffer h).0
          (write_shares_out env o c.buffer h).1
  unfolding write_shares_out
  write_shares_out-Passed h t = chosen (is_empty o.shares_out_path)
    where
      text : Option Text
      text =
          render_shares c.buffer
            (codes "Generated by `kube-dc bootstrap openbao init --openbao-shares-out`.")

      m : Bool → Run (Unit {0})
      m k = if k then return tt else write_if_any env o.shares_out_path text

      chosen : (k : Bool) → Passed o.cluster_name c (m k h).0 (m k h).1
      chosen true = t
      chosen false = write_if_any-Passed o.shares_out_path text h t

  sha_of-Signed :
      (r : Outcome Text Text) (h : List Event)
      → Passed o.cluster_name c (ok tt) h
      → Signed o.cluster_name c (sha_of c r (committed r ∷ h)).0 (sha_of c r (committed r ∷ h)).1
  unfolding sha_of
  sha_of-Signed (ok sha) h (g, v, s) =
      ((v, g), tt, committed-Stands o.cluster_name c.buffer c.custody (ok sha) h s)
  sha_of-Signed (err sha) h (g, v, s) =
      custody-Closed env o Text (Signed o.cluster_name c) c (λ e h' t'. t') (commit_failed sha)
        (committed (err sha) ∷ h)
        ((v, g), committed-Stands o.cluster_name c.buffer c.custody (err sha) h s)

  remove_custody-Kept :
      (r : Outcome DumpError Text) (h : List Event)
      → Each Guard h × IsJustCommitted h × Stands o.cluster_name c.buffer r h
      → Kept o.cluster_name c (remove_custody env r h).0 (remove_custody env r h).1
  unfolding remove_custody
  remove_custody-Kept (ok path) h (g, j, (body, e, l)) =
      let copy : IsCopy path h = (body, l) in ground (arith, copy)
  remove_custody-Kept (err e) h (g, j, s) = ground arith

  pub keep-Kept :
      (h : List Event)
      → Held o.cluster_name c h
      → Kept o.cluster_name c (keep env o c h).0 (keep env o c h).1
  unfolding keep commit_and_maybe_push
  keep-Kept h s =
      let cl = o.cluster_name in
      let commit : Run (Unit {0}) =
        commit_and_maybe_push env o c >>= λ sha. remove_custody env c.custody in
      let copy : Run (Unit {0}) = write_shares_out env o c.buffer >> commit in
      attempt_post (Put 5) (Kept cl c) (write_and_verify_shares env c.buffer)
        (λ r. shares_kept c r >> copy) h (write_and_verify_shares-Put h s)
        (λ r h' t.
          bind_post (Passed cl c) (Kept cl c) (shares_kept c r) (λ u. copy) h'
            (shares_kept-Passed r h' t)
            (λ u h'' t'.
              bind_post (Passed cl c) (Kept cl c) (write_shares_out env o c.buffer) (λ v. commit)
                h'' (write_shares_out-Passed h'' t')
                (λ v h3 t3.
                  bind_post (Signed cl c) (Kept cl c) (commit_and_maybe_push env o c)
                    (λ sha. remove_custody env c.custody) h3
                    (sha_of-Signed (env.commit h3 o.no_push (commit_message o)) h3 t3)
                    (λ sha h4 t4. remove_custody-Kept c.custody h4 t4) (λ e h4 t4. t4))
                (λ e h3 t3. t3))
            (λ e h'' t'. t'))
