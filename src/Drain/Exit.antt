-- ===== src/Drain/Exit.antt =====
-- When a script's stream counts as a run that has ended
-- (cli/internal/bootstrap/ports/drain.go).
use kube_dc_public.Prelude.{
  ◌≡◌, ◌↔◌, ◌≢◌, refl, none, some, List, [], ◌∷◌, ◌++◌, arith, All, ap, sym, subst, ◌∙◌, ◌⊎◌,
  Option-cases, inl, inr,
}
use kube_dc_public.Prelude.Decimal.{ℤ}
use kube_dc_public.Prelude.Engine.{ok, err}
use kube_dc_public.Drain.{
  Stream, exit, stdout, stderr, Line, bad_exit_code, parse_exit_code, finish, drain_from, drain,
}

-- Output, and at its end one exit record with a number.
abbrev pub Ended : List Line → ℤ → List Line → Type 0
Ended seen n ls =
    (l : Line) × (ls ≡ seen ++ (l ∷ []))
    × (l.stream ≡ exit)
    × (parse_exit_code l.text ≡ some n)
    × All (λ k. k.stream ≢ exit) seen

after_exit :
    (m n : ℤ) (seen ls : List Line)
    → drain_from (some m) ls ≡ (seen, ok n)
    → (ls ≡ []) × (seen ≡ []) × (m ≡ n)
unfolding drain_from finish
after_exit m n seen [] h = ground (arith, h)
after_exit m n seen (l ∷ ls) h = ground (arith, h)

Stream-cases : (s : Stream) → (s ≡ exit) ⊎ (s ≢ exit)
Stream-cases exit = inl refl
Stream-cases stdout = inr (λ e. cc)
Stream-cases stderr = inr (λ e. cc)

drain_output :
    (l : Line) (ls : List Line)
    → l.stream ≢ exit
    → drain_from none (l ∷ ls) ≡ (l ∷ (drain_from none ls).0, (drain_from none ls).1)
unfolding drain_from
drain_output l ls n = ground arith

drain_exit :
    (l : Line) (ls : List Line) (n : ℤ)
    → l.stream ≡ exit
    → parse_exit_code l.text ≡ some n
    → drain_from none (l ∷ ls) ≡ drain_from (some n) ls
unfolding drain_from
drain_exit l ls n e p = ground arith

drain_bad :
    (l : Line) (ls : List Line)
    → l.stream ≡ exit
    → parse_exit_code l.text ≡ none
    → (drain_from none (l ∷ ls)).1 ≡ err bad_exit_code
unfolding drain_from
drain_bad l ls e p = ground arith

Ended-cons :
    (l : Line) (seen ls : List Line) (n : ℤ)
    → l.stream ≢ exit
    → Ended seen n ls
    → Ended (l ∷ seen) n (l ∷ ls)
Ended-cons l seen ls n o (x, e, s, p, a) = (x, ap (λ t. l ∷ t) e, s, p, (o, a))

sound : (ls seen : List Line) (n : ℤ) → drain_from none ls ≡ (seen, ok n) → Ended seen n ls
unfolding drain_from finish
sound [] seen n h = absurd (ground (arith, h))
sound (l ∷ ls) seen n h = elim (Stream-cases l.stream) [
  | inl e ↦ elim (Option-cases (parse_exit_code l.text)) [
    | inl p ↦ absurd (cc (drain_bad l ls e p))
    | inr (m, p) ↦
        let (nil, none_seen, eq) = after_exit m n seen ls (sym (drain_exit l ls m e p) ∙ h) in
        (
          l,
          ground (arith, nil, none_seen),
          e,
          p ∙ ap some eq,
          subst (All (λ k. k.stream ≢ exit)) (sym none_seen) tt,
        )
  ]
  | inr o ↦
      let q = sym (drain_output l ls o) ∙ h in
      subst (λ k. Ended k n (l ∷ ls)) (ap (λ r. r.0) q)
        (Ended-cons l (drain_from none ls).0 ls n o (
          sound ls (drain_from none ls).0 n
            (ap (λ e. ((drain_from none ls).0, e)) (ap (λ r. r.1) q))))
]

complete :
    (seen : List Line) (l : Line) (n : ℤ)
    → l.stream ≡ exit
    → parse_exit_code l.text ≡ some n
    → All (λ k. k.stream ≢ exit) seen
    → drain_from none (seen ++ (l ∷ [])) ≡ (seen, ok n)
unfolding drain_from finish
complete [] l n e p a = drain_exit l [] n e p
complete (k ∷ seen) l n e p a =
    drain_output k (seen ++ (l ∷ [])) a.0 ∙ ap (λ r. (k ∷ r.0, r.1)) (complete seen l n e p a.1)

-- A stream counts as a run that ended with the status `n`, and with the lines `seen` passed on, just
-- when it is those lines, none of them an exit record, and then one exit record with that number,
-- and nothing more.
pub drain-Ended : (ls seen : List Line) (n : ℤ) → (drain ls ≡ (seen, ok n)) ↔ Ended seen n ls
unfolding drain
drain-Ended ls seen n = (
  sound ls seen n,
  λ (l, e, s, p, a).
      subst (λ k. drain_from none k ≡ (seen, ok n)) (sym e) (complete seen l n s p a),
)
