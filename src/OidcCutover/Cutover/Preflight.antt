-- ===== src/OidcCutover/Cutover/Preflight.antt =====
-- The preflight of the cutover (cli/internal/bootstrap/oidccutover/run.go).
use kube_dc_public.Prelude.{Bool, true, false, List, [], ◌∷◌, arith, if◌then◌else◌, refl, inl, inr}
use kube_dc_public.Prelude.Text.{Text}
use kube_dc_public.Prelude.Engine.{bind_post, Outcome, ok, err, Each, ◌>>=◌, return}
use kube_dc_public.NodeRemove.{SshHost}
use kube_dc_public.OidcCutover.Cutover.{
  Node, Options, Event, Error, Env, check_authenticator, missing_kubeconfigs, test_kubeconfig,
  none_missing, preflight,
}
use kube_dc_public.OidcCutover.Cutover.Guards.{IsSettled, tests_of, AllTested, Guard, Passed}

-- What the preflight has found before the nodes are touched.
abbrev pub Quiet : {A : Type 0} → Options → Outcome Error A → List Event → Type 0
Quiet o r h = Each (Guard o) h × IsSettled h

AllTested-cons :
    (p : SshHost) (ns : List Node) (ps : List SshHost) → AllTested ns ps → AllTested ns (p ∷ ps)
unfolding AllTested
AllTested-cons p [] ps a = tt
AllTested-cons p (n ∷ ns) ps a = (inr a.0, AllTested-cons p ns ps a.1)

AllTested-tested :
    (n : Node) (ns : List Node) (ps : List SshHost)
    → AllTested ns ps
    → AllTested (n ∷ ns) (n.host ∷ ps)
unfolding AllTested
AllTested-tested n ns ps a = (inl refl, AllTested-cons n.host ns ps a)

module _ (env : Env) (o : Options) where
  check_authenticator-Quiet :
      (h : List Event)
      → Quiet o (ok tt) h
      → Quiet o (check_authenticator env o h).0 (check_authenticator env o h).1
  unfolding check_authenticator
  check_authenticator-Quiet h q = ground arith

  -- The nodes `seen` were seen with the kubeconfig, and this one, if it is said to have it.
  abbrev Shown : List Node → Node → Outcome Error Bool → List Event → Type 0
  Shown seen n (ok true) h = Quiet o (ok tt) h × AllTested (n ∷ seen) (tests_of h)
  Shown seen n (ok false) h = Quiet o (ok tt) h × AllTested seen (tests_of h)
  Shown seen n (err e) h = Quiet o (ok tt) h

  test_kubeconfig-Shown :
      (seen : List Node) (n : Node) (h : List Event)
      → Quiet o (ok tt) h
      → AllTested seen (tests_of h)
      → Shown seen n (test_kubeconfig env n h).0 (test_kubeconfig env n h).1
  unfolding test_kubeconfig
  test_kubeconfig-Shown seen n h q a = ground (arith, AllTested-tested n seen (tests_of h) a)

  -- The nodes `seen` were seen with the kubeconfig, and the nodes `ns` too where none is missing.
  abbrev Sought : List Node → List Node → Outcome Error (List Text) → List Event → Type 0
  Sought seen ns (ok []) h =
      Quiet o (ok tt) h × AllTested seen (tests_of h) × AllTested ns (tests_of h)
  Sought seen ns (ok (m ∷ ms)) h = Quiet o (ok tt) h
  Sought seen ns (err e) h = Quiet o (ok tt) h

  missing-Sought :
      (seen ns : List Node) (h : List Event)
      → Quiet o (ok tt) h
      → AllTested seen (tests_of h)
      → Sought seen ns (missing_kubeconfigs env ns h).0 (missing_kubeconfigs env ns h).1
  unfolding missing_kubeconfigs AllTested
  missing-Sought seen [] h q a = (q, a, tt)
  missing-Sought seen (n ∷ ns) h q a =
      bind_post (Shown seen n) (Sought seen (n ∷ ns)) (test_kubeconfig env n)
        (λ present.
          missing_kubeconfigs env ns >>= λ rest. return (if present then rest else n.name ∷ rest))
        h (test_kubeconfig-Shown seen n h q a)
        (elim [
          | true ↦ λ k s.
              bind_post (Sought (n ∷ seen) ns) (Sought seen (n ∷ ns)) (missing_kubeconfigs env ns)
                (λ rest. return rest) k (missing-Sought (n ∷ seen) ns k s.0 s.1)
                (elim [ [] ↦ λ j r. (r.0, r.1.1, (r.1.0, r.2)) | m ∷ ms ↦ λ j r. r ]) (λ x j r. r)
          | false ↦ λ k s.
              bind_post (Sought seen ns) (Sought seen (n ∷ ns)) (missing_kubeconfigs env ns)
                (λ rest. return (n.name ∷ rest)) k (missing-Sought seen ns k s.0 s.1)
                (elim [ [] ↦ λ j r. r.0 | m ∷ ms ↦ λ j r. r ]) (λ x j r. r)
        ])
        (λ x k r. r)

  nothing_seen : (ps : List SshHost) → AllTested [] ps
  unfolding AllTested
  nothing_seen ps = tt

  none_missing-Passed :
      (ms : List Text) (h : List Event)
      → Sought [] o.nodes (ok ms) h
      → Passed o (none_missing ms h).0 (none_missing ms h).1
  unfolding none_missing
  none_missing-Passed [] h s = ((s.0.0, s.2), s.0.1)
  none_missing-Passed (m ∷ ms) h s = s.0

  pub preflight-Passed : Passed o (preflight env o []).0 (preflight env o []).1
  unfolding preflight
  preflight-Passed =
      bind_post (Quiet o) (Passed o) (check_authenticator env o)
        (λ u. missing_kubeconfigs env o.nodes >>= none_missing) []
        (check_authenticator-Quiet [] (tt, tt))
        (λ u k q.
          bind_post (Sought [] o.nodes) (Passed o) (missing_kubeconfigs env o.nodes) none_missing k
            (missing-Sought [] o.nodes k q (nothing_seen (tests_of k)))
            (λ ms j r. none_missing-Passed ms j r) (λ x j r. r.0))
        (λ x k q. q.0)
