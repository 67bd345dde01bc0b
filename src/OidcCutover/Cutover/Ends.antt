-- ===== src/OidcCutover/Cutover/Ends.antt =====
-- How a cutover ends (cli/internal/bootstrap/oidccutover/run.go).
use mathlib.Core.List.{append-nil, append_assoc}
use kube_dc_public.Prelude.{
  ◌++◌, sym, if◌then◌else◌, ℕ, suc, ◌≡◌, Bool, true, false, List, [], ◌∷◌, arith, is_empty, ◌+◌,
  length, length-append, refl, ◌<◌, ◌∙◌,
}
use kube_dc_public.Prelude.Text.{Text}
use kube_dc_public.Prelude.Engine.{bind_post, map_err_post, map_err, Outcome, ok, err}
use kube_dc_public.OidcCutover.Cutover.{
  Node, Options, Event, snapshot_made, config_written, restarted, snapshot_restored, Result, Error,
  Env, preflight, cut_over_node, cut_over_nodes, note_skipped, note_wired, label_of, apply_all,
  cut_over, with_defaults, start,
}
use kube_dc_public.OidcCutover.Cutover.Guards.{IsSettled, Passed}
use kube_dc_public.OidcCutover.Cutover.Wiring.{cut_over_nodes-Passed}
use kube_dc_public.OidcCutover.Cutover.Preflight.{preflight-Passed}
use kube_dc_public.OidcCutover.Cutover.Reads.{
  reads_of, Same, Read, cut_over_node-Read, preflight-Same,
}
use kube_dc_public.NodeRemove.{SshHost}

-- No call has changed a node.
abbrev pub IsUntouched : List Event → Type 0
IsUntouched [] = Unit {0}
IsUntouched (snapshot_made p r ∷ h) = ⊥
IsUntouched (config_written p text r ∷ h) = ⊥
IsUntouched (restarted p r ∷ h) = ⊥
IsUntouched (snapshot_restored p r ∷ h) = ⊥
IsUntouched (_ ∷ h) = IsUntouched h

abbrev pub counted : Result → ℕ
counted r = length r.wired + length r.already_wired

-- After the reads `from`, each of the nodes was read once, in order, with these results.
abbrev pub Logged : List Node → List Bool → List (SshHost × Bool) → List (SshHost × Bool) → Type 0
Logged [] [] from to = to ≡ from
Logged [] (w ∷ ws) from to = ⊥
Logged (n ∷ ns) [] from to = ⊥
Logged (n ∷ ns) (w ∷ ws) from to = Logged ns ws ((n.host, w) ∷ from) to

-- The labels of the nodes whose file had to change, and of the others.
abbrev pub changed : List Node → List Bool → List Text
changed [] ws = []
changed (n ∷ ns) [] = []
changed (n ∷ ns) (w ∷ ws) = if w then label_of n ∷ changed ns ws else changed ns ws

abbrev pub unchanged : List Node → List Bool → List Text
unchanged [] ws = []
unchanged (n ∷ ns) [] = []
unchanged (n ∷ ns) (w ∷ ws) = if w then unchanged ns ws else label_of n ∷ unchanged ns ws

-- After a success each node's file was read once, in order; the nodes whose file had to change are
-- listed as wired, the others as wired before, none is skipped, and the server restarted last, if
-- any, was seen running with the flag. After a failure some node is in neither list.
abbrev pub Ended : List Node → Outcome (Result × Error) Result → List Event → Type 0
Ended ns (ok r) h =
    (ws : List Bool) × Logged ns ws [] (reads_of h)
    × (r.wired ≡ changed ns ws)
    × (r.already_wired ≡ unchanged ns ws)
    × (r.skipped ≡ [])
    × IsSettled h
Ended ns (err (r, e)) h = (counted r < length ns)

-- What a part of the nodes adds to the lists.
abbrev Noted :
    List Node
    → Result
    → List (SshHost × Bool)
    → Outcome (Result × Error) Result
    → List Event
    → Type 0
Noted ns res from (ok r) h =
    (ws : List Bool) × Logged ns ws from (reads_of h)
    × (r.wired ≡ res.wired ++ changed ns ws)
    × (r.already_wired ≡ res.already_wired ++ unchanged ns ws)
    × (r.skipped ≡ res.skipped)
Noted ns res from (err e) h = Unit {0}

Noted-note :
    (n : Node) (ns : List Node) (w : Bool) (res : Result) (from : List (SshHost × Bool))
    → (r : Outcome (Result × Error) Result) (h : List Event)
    → Noted ns (note_wired w (label_of n) res) ((n.host, w) ∷ from) r h
    → Noted (n ∷ ns) res from r h
unfolding note_wired
Noted-note n ns true res from (ok r) h (ws, l, a, b, s) =
    (true ∷ ws, l, a ∙ append_assoc res.wired (label_of n ∷ []) (changed ns ws), b, s)
Noted-note n ns false res from (ok r) h (ws, l, a, b, s) =
    (false ∷ ws, l, a, b ∙ append_assoc res.already_wired (label_of n ∷ []) (unchanged ns ws), s)
Noted-note n ns w res from (err e) h u = tt

-- The same of the nodes still to come.
abbrev Onward : ℕ → ℕ → Outcome (Result × Error) Result → List Event → Type 0
Onward before left (ok r) h = (counted r ≡ before + left) × (r.skipped ≡ [])
Onward before left (err (r, e)) h = (counted r < before + left)

counted-note :
    (w : Bool) (l : Text) (r : Result)
    → (counted (note_wired w l r) ≡ counted r + 1) × ((note_wired w l r).skipped ≡ r.skipped)
unfolding note_wired
counted-note true l r = (omega (arith, length-append r.wired (l ∷ [])), refl)
counted-note false l r = (omega (arith, length-append r.already_wired (l ∷ [])), refl)

stopped :
    (res : Result) (e : Error) (left : ℕ) (h : List Event)
    → Onward (counted res) (suc left) (err (note_skipped res e)) h
unfolding note_skipped
stopped res e left h = ground arith

Onward-shift :
    (b c left : ℕ) (r : Outcome (Result × Error) Result) (h : List Event)
    → c ≡ b + 1
    → Onward c left r h
    → Onward b (suc left) r h
Onward-shift b c left (ok r) h e p = (omega (arith, e, p.0), p.1)
Onward-shift b c left (err (r, x)) h e p = omega (arith, e, p)

length_pos : (ns : List Node) (c : ℕ) → is_empty ns ≡ false → c ≡ 0 → c < length ns
length_pos [] c n e = cc
length_pos (x ∷ ns) c n e = omega (arith, e)

module _ (fuel : ℕ) (env : Env) (o : Options) where
  abbrev Begun : Result → ℕ → Outcome (Result × Error) Bool → List Event → Type 0
  Begun res left (ok w) h = Unit {0}
  Begun res left (err (r, e)) h = Onward (counted res) (suc left) (err (r, e)) h

  cut_over_nodes-Onward :
      (ns : List Node) (res : Result) (h : List Event)
      → res.skipped ≡ []
      → Onward
          (counted res)
          (length ns)
          (cut_over_nodes fuel env o ns res h).0
          (cut_over_nodes fuel env o ns res h).1
  unfolding cut_over_nodes
  cut_over_nodes-Onward [] res h s = (omega arith, s)
  cut_over_nodes-Onward (n ∷ ns) res h s =
      bind_post (Begun res (length ns)) (Onward (counted res) (suc (length ns)))
        (map_err (note_skipped res) (cut_over_node fuel env o n))
        (λ w. cut_over_nodes fuel env o ns (note_wired w (label_of n) res)) h
        (map_err_post (λ r k. Unit {0}) (Begun res (length ns)) (note_skipped res)
          (cut_over_node fuel env o n) h tt (λ w k u. tt) (λ x k u. stopped res x (length ns) k))
        (λ w k q.
          Onward-shift (counted res) (counted (note_wired w (label_of n) res)) (length ns) _ _
            (counted-note w (label_of n) res).0
            (cut_over_nodes-Onward ns (note_wired w (label_of n) res) k
              ((counted-note w (label_of n) res).1 ∙ s)))
        (λ x k q. q)

  cut_over_nodes-Noted :
      (ns : List Node) (res : Result) (h : List Event) (from : List (SshHost × Bool))
      → reads_of h ≡ from
      → Noted ns res from
          (cut_over_nodes fuel env o ns res h).0
          (cut_over_nodes fuel env o ns res h).1
  unfolding cut_over_nodes
  cut_over_nodes-Noted [] res h from s =
      ([], s, sym (append-nil res.wired), sym (append-nil res.already_wired), refl)
  cut_over_nodes-Noted (n ∷ ns) res h from s =
      bind_post (Read from n.host) (Noted (n ∷ ns) res from)
        (map_err (note_skipped res) (cut_over_node fuel env o n))
        (λ w. cut_over_nodes fuel env o ns (note_wired w (label_of n) res)) h
        (map_err_post (Read from n.host) (Read from n.host) (note_skipped res)
          (cut_over_node fuel env o n) h (cut_over_node-Read env o fuel n h from s) (λ w k q. q)
          (λ x k q. tt))
        (λ w k q.
          Noted-note n ns w res from _ _
            (cut_over_nodes-Noted ns (note_wired w (label_of n) res) k ((n.host, w) ∷ from) q))
        (λ x k q. tt)

  finish :
      (r : Outcome (Result × Error) Result) (h : List Event)
      → Passed o r h
      → Onward 0 (length o.nodes) r h
      → Noted o.nodes start [] r h
      → Ended o.nodes r h
  unfolding start
  finish (ok r) h p q (ws, l, a, b, s) = (ws, l, a, b, s, p.1)
  finish (err (r, e)) h p q n = omega (arith, q)

  abbrev Checked : Outcome (Result × Error) (Unit {0}) → List Event → Type 0
  Checked (ok u) h = Passed {X = Error} o (ok u) h × (reads_of h ≡ [])
  Checked (err (r, e)) h = counted r ≡ 0

  apply_all-Ended :
      is_empty o.nodes ≡ false
      → Ended o.nodes (apply_all fuel env o []).0 (apply_all fuel env o []).1
  unfolding apply_all start
  apply_all-Ended n =
      bind_post Checked (Ended o.nodes) (map_err (λ e. (start, e)) (preflight env o))
        (λ u. cut_over_nodes fuel env o o.nodes start) []
        (map_err_post (λ r h. Passed o r h × Same [] r h) Checked (λ e. (start, e))
          (preflight env o) [] (preflight-Passed env o, preflight-Same env o) (λ u k q. q)
          (λ x k q. refl))
        (λ u k q.
          finish _ _ (cut_over_nodes-Passed env o fuel o.nodes start k q.0)
            (cut_over_nodes-Onward o.nodes start k refl)
            (cut_over_nodes-Noted o.nodes start k [] q.1))
        (λ x k q. length_pos o.nodes (counted x.0) n q)

-- A cutover of some nodes that ends well has read the file of each node once, in their order, lists
-- as wired the labels of the nodes whose file had to change, in order, and as wired before those of
-- the others, has skipped none, and has seen the server that it restarted last, if any, running
-- with the flag of the webhook, read on that server's host. One that fails has left some node out
-- of both lists.
pub cut_over-Ended :
    (fuel : ℕ) (env : Env) (o : Options)
    → is_empty o.nodes ≡ false
    → o.rollback ≡ false
    → Ended o.nodes (cut_over fuel env o []).0 (cut_over fuel env o []).1
unfolding cut_over with_defaults
cut_over-Ended fuel env o n b = ground (arith, apply_all-Ended fuel env (with_defaults o) n)
