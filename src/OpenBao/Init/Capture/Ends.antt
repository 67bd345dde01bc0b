-- ===== src/OpenBao/Init/Capture/Ends.antt =====
-- Where the shares are when they have been captured
-- (cli/internal/bootstrap/openbao/init.go).
use kube_dc_public.Prelude.{
  ◌≡◌, refl, sym, subst, ◌⊎◌, inl, inr, zero, suc, ◌==◌, Bool, true, false, Option, none, some,
  List, [], ◌∷◌, arith,
}
use kube_dc_public.Prelude.Text.{Text}
use kube_dc_public.Prelude.Decimal.{ℤ, pos, negsuc}
use kube_dc_public.Prelude.Engine.{
  Outcome, ok, err, Each, bind_post, attempt_post, return, demand, ◌>>◌,
}
use kube_dc_public.Secrets.{Buffer, new_buffer, share_count}
use kube_dc_public.Drain.{StreamError, drain}
use kube_dc_public.OpenBao.Init.{
  Options, Script, Event, script_run, DumpError, PayloadError, Cause, bad_payload, drain_broken,
  capture_missing, drain_failed, script_failed, script_status, share_count_wrong, token_missing,
  Error, preserved, lost, post_commit, Env, Run,
}
use kube_dc_public.OpenBao.Init.Payload.{load_buffer_from_json}
use kube_dc_public.OpenBao.Init.Capture.{
  Capture, caught, nothing_captured, capture_one, stop_or, capture_all, custody_error, custody,
  refuse_payload, cost_or, require, exit_checked, has_token, check_shares, accept, run_script,
  capture,
}
use kube_dc_public.OpenBao.Init.Files.{emergency_dump}
use kube_dc_public.OpenBao.Init.Guard.{Guard, IsReady, IsUncaptured, IsCommitted, IsLate}
use kube_dc_public.OpenBao.Init.Capture.Taken.{Left, TakenOk, capture_all-Taken}
use kube_dc_public.OpenBao.Init.Files.Dump.{Stands, emergency_dump-Stands}

-- What an error says of the shares, which are in a buffer that `B` is of.
abbrev pub Explained : Text → (Buffer → Type 0) → Error → List Event → Type 0
Explained cluster B (preserved c path n) h =
    (b : Buffer) × (B b) × (n ≡ share_count b) × Stands cluster b (ok path) h
Explained cluster B (lost c e n) h =
    (b : Buffer) × (B b) × (n ≡ share_count b) × Stands cluster b (err e) h
Explained cluster B (post_commit c) h = IsCommitted h × IsLate c h
Explained cluster B _ h = IsUncaptured h

abbrev pub Closed : Text → (Buffer → Type 0) → Error → List Event → Type 0
Closed cluster B e h = Each Guard h × Explained cluster B e h

-- The buffer is that of the capture.
abbrev pub Told : Text → Capture → Error → List Event → Type 0
Told cluster c e h = Closed cluster (λ b. b ≡ c.buffer) e h

pub Closed-weaken :
    (cluster : Text) (B C : Buffer → Type 0) (e : Error) (h : List Event)
    → ((b : Buffer) → B b → C b)
    → Closed cluster B e h
    → Closed cluster C e h
Closed-weaken cluster B C (preserved c path n) h w (g, (b, p, e, q)) = (g, (b, w b p, e, q))
Closed-weaken cluster B C (lost c x n) h w (g, (b, p, e, q)) = (g, (b, w b p, e, q))
Closed-weaken cluster B C (post_commit c) h w t = t
Closed-weaken cluster B C e h w t = ground arith

abbrev pub Held : Text → Capture → List Event → Type 0
Held cluster c h = Each Guard h × Stands cluster c.buffer c.custody h

-- A capture before it is accepted.
abbrev Found : Text → Capture → List Event → Type 0
Found cluster c h =
    ((c.captured ≡ true) × Held cluster c h)
    ⊎ ((c.captured ≡ false) × (c.refused ≡ none) × Each Guard h × IsUncaptured h)

abbrev Caught : Text → Outcome Error Capture → List Event → Type 0
Caught cluster (ok c) h = Found cluster c h
Caught cluster (err e) h = ⊥

abbrev HeldOk : Text → Outcome Error Capture → List Event → Type 0
HeldOk cluster (ok c) h = (c.captured ≡ true) × Held cluster c h
HeldOk cluster (err e) h = ⊥

module _ (env : Env) (o : Options) where
  capture_one-HeldOk :
      (c : Capture) (payload : Text) (h : List Event)
      → Each Guard h
      → HeldOk o.cluster_name (capture_one env o c payload h).0 (capture_one env o c payload h).1
  unfolding capture_one
  capture_one-HeldOk c payload h g =
      let loaded = load_buffer_from_json env.decode payload c.buffer in
      attempt_post (λ r h'. Each Guard h' × Stands o.cluster_name loaded.0 r h')
        (HeldOk o.cluster_name) (emergency_dump env o.cluster_name loaded.0)
        (λ dumped. return (caught loaded dumped)) h
        (emergency_dump-Stands env o.cluster_name loaded.0 h g) (λ r h' s. (refl, s))

  stop_or-Caught :
      (bad : Option PayloadError) (c : Capture) (next : Run Capture) (h : List Event)
      → (c.captured ≡ true) × Held o.cluster_name c h
      → Caught o.cluster_name (next h).0 (next h).1
      → Caught o.cluster_name (stop_or bad c next h).0 (stop_or bad c next h).1
  unfolding stop_or
  stop_or-Caught (some e) c next h t n = inl t
  stop_or-Caught none c next h t n = n

  capture_all-Caught :
      (c : Capture) (ps : List Text) (h : List Event)
      → Each Guard h
      → (ps ≡ [] → Found o.cluster_name c h)
      → Caught o.cluster_name (capture_all env o c ps h).0 (capture_all env o c ps h).1
  unfolding capture_all
  capture_all-Caught c [] h g f = f refl
  capture_all-Caught c (p ∷ ps) h g f =
      bind_post (HeldOk o.cluster_name) (Caught o.cluster_name) (capture_one env o c p) _ h
        (capture_one-HeldOk c p h g)
        (λ c' h' t.
          stop_or-Caught c'.refused c' (capture_all env o c' ps) h' t
            (capture_all-Caught c' ps h' t.1.0 (λ e. inl t)))
        (λ e h' t. absurd t)

  custody_error-Explained :
      (b : Buffer) (r : Outcome DumpError Text) (cause : Cause) (h : List Event)
      → Stands o.cluster_name b r h
      → Explained o.cluster_name (λ x. x ≡ b) (custody_error r cause (share_count b)) h
  unfolding custody_error
  custody_error-Explained b (ok path) cause h s = (b, refl, refl, s)
  custody_error-Explained b (err e) cause h s = (b, refl, refl, s)

  -- A check that passes leaves `P`; one that does not is an error that says where the shares are.
  abbrev Checked :
      {A : Type 0} (c : Capture) (P : List Event → Type 0) → Outcome Error A → List Event → Type 0
  Checked c P (ok u) h = P h
  Checked c P (err e) h = Told o.cluster_name c e h

  pub custody-Closed :
      (A : Type 0) (Q : Outcome Error A → List Event → Type 0)
      → (c : Capture) → ((e : Error) (h : List Event) → Told o.cluster_name c e h → Q (err e) h)
      → (cause : Cause) (h : List Event) → Held o.cluster_name c h
      → Q (custody {A = A} c cause h).0 (custody {A = A} c cause h).1
  unfolding custody
  custody-Closed A Q c q cause h s =
      q (custody_error c.custody cause (share_count c.buffer)) h
        (s.0, custody_error-Explained c.buffer c.custody cause h s.1)

  refuse_payload-Checked :
      (c : Capture) (bad : Option PayloadError) (h : List Event)
      → c.refused ≡ bad
      → Found o.cluster_name c h
      → Checked c (Found o.cluster_name c) (refuse_payload c bad h).0 (refuse_payload c bad h).1
  unfolding refuse_payload
  refuse_payload-Checked c none h e f = f
  refuse_payload-Checked c (some bad) h e (inl t) =
      custody-Closed (Unit {0}) (Checked c (Found o.cluster_name c)) c (λ e h' t. t)
        (bad_payload bad) h t.1
  refuse_payload-Checked c (some bad) h e (inr t) = ground arith

  cost_or-Checked :
      (k : Bool) (c : Capture) (cause : Cause) (e : Error) (h : List Event)
      → c.captured ≡ k
      → (IsUncaptured h → Explained o.cluster_name (λ b. b ≡ c.buffer) e h)
      → Found o.cluster_name c h
      → Checked c (Found o.cluster_name c) (cost_or k c cause e h).0 (cost_or k c cause e h).1
  unfolding cost_or
  cost_or-Checked true c cause e h p free (inl t) =
      custody-Closed (Unit {0}) (Checked c (Found o.cluster_name c)) c (λ e h' t. t) cause h t.1
  cost_or-Checked true c cause e h p free (inr t) = absurd (cc (p, t.0))
  cost_or-Checked false c cause e h p free (inl t) = absurd (cc (p, t.0))
  cost_or-Checked false c cause e h p free (inr t) = (t.2, free t.3)

  exit_checked-Checked :
      (c : Capture) (status : Outcome StreamError ℤ) (h : List Event)
      → Found o.cluster_name c h
      → Checked c (Found o.cluster_name c) (exit_checked c status h).0 (exit_checked c status h).1
  unfolding exit_checked
  exit_checked-Checked c (err e) h f =
      cost_or-Checked c.captured c (drain_broken e) (drain_failed e) h refl (λ u. u) f
  exit_checked-Checked c (ok (pos zero)) h f = f
  exit_checked-Checked c (ok (pos (suc n))) h f =
      cost_or-Checked c.captured c (script_status (pos (suc n))) (script_failed (pos (suc n))) h
        refl (λ u. u) f
  exit_checked-Checked c (ok (negsuc n)) h f =
      cost_or-Checked c.captured c (script_status (negsuc n)) (script_failed (negsuc n)) h refl
        (λ u. u) f

  require-Checked :
      (k : Bool) (c : Capture) (cause : Cause) (h : List Event)
      → Held o.cluster_name c h
      → Checked c (Held o.cluster_name c) (require k c cause h).0 (require k c cause h).1
  unfolding require
  require-Checked true c cause h t = t
  require-Checked false c cause h t =
      custody-Closed (Unit {0}) (Checked c (Held o.cluster_name c)) c (λ e h' t. t) cause h t

  captured-Checked :
      (k : Bool) (c : Capture) (h : List Event)
      → c.captured ≡ k
      → Found o.cluster_name c h
      → Checked c
          (Held o.cluster_name c)
          (demand {E = Event} k capture_missing h).0
          (demand {E = Event} k capture_missing h).1
  captured-Checked true c h p (inl t) = t.1
  captured-Checked true c h p (inr t) = absurd (cc (p, t.0))
  captured-Checked false c h p (inl t) = absurd (cc (p, t.0))
  captured-Checked false c h p (inr t) = (t.2, t.3)

  check_shares-Checked :
      (c : Capture) (h : List Event)
      → Found o.cluster_name c h
      → Checked c (Held o.cluster_name c) (check_shares c h).0 (check_shares c h).1
  unfolding check_shares
  check_shares-Checked c h f =
      let Q = Checked c (Held o.cluster_name c) in
      bind_post Q Q (demand c.captured capture_missing) _ h (captured-Checked c.captured c h refl f)
        (λ u h' t.
          bind_post Q Q
            (require (share_count c.buffer == 5) c (share_count_wrong (share_count c.buffer))) _ h'
            (require-Checked (share_count c.buffer == 5) c
              (share_count_wrong (share_count c.buffer)) h' t)
            (λ v h'' t'. require-Checked (has_token c.buffer) c token_missing h'' t')
            (λ x h'' t'. t'))
        (λ x h' t. t)

  -- How the capture ends: a buffer that is held or told of is one that the script left.
  abbrev pub Ready : (Buffer → Type 0) → Outcome Error Capture → List Event → Type 0
  Ready B (ok c) h = Held o.cluster_name c h × B c.buffer
  Ready B (err e) h = Closed o.cluster_name B e h

  abbrev Last : Capture → Outcome Error Capture → List Event → Type 0
  Last c (ok c') h = Held o.cluster_name c h × (c' ≡ c)
  Last c (err e) h = Told o.cluster_name c e h

  accept-Last :
      (c : Capture) (status : Outcome StreamError ℤ) (h : List Event)
      → Found o.cluster_name c h
      → Last c (accept c status h).0 (accept c status h).1
  unfolding accept
  accept-Last c status h f =
      let P = Checked c (Found o.cluster_name c) in
      let third : Run Capture = check_shares c >> return c in
      let second : Run Capture = exit_checked c status >> third in
      bind_post P (Last c) (refuse_payload c c.refused) (λ u. second) h
        (refuse_payload-Checked c c.refused h refl f)
        (λ u h' t.
          bind_post P (Last c) (exit_checked c status) (λ v. third) h'
            (exit_checked-Checked c status h' t)
            (λ v h'' t'.
              bind_post (Checked c (Held o.cluster_name c)) (Last c) (check_shares c)
                (λ w. return c) h'' (check_shares-Checked c h'' t') (λ w g s. (s, refl))
                (λ x g s. s))
            (λ x h'' t'. t'))
        (λ x h' t. t)

  ready :
      (B : Buffer → Type 0) (c : Capture) (r : Outcome Error Capture) (h : List Event)
      → B c.buffer
      → Last c r h
      → Ready B r h
  ready B c (ok c') h p (s, e) = rw e (s, p)
  ready B c (err e) h p s =
      Closed-weaken o.cluster_name (λ b. b ≡ c.buffer) B e h (λ b q. subst B (sym q) p) s

  started :
      (found : Option Script) (h : List Event)
      → Each Guard h
      → IsReady h
      → IsUncaptured h
      → Ready
          (Left env found)
          (run_script env o found (script_run found ∷ h)).0
          (run_script env o found (script_run found ∷ h)).1
  unfolding run_script nothing_captured
  started none h g r u = ((r, g), u)
  started (some s) h g r u =
      bind_post (λ q k. Caught o.cluster_name q k × TakenOk env s.payloads new_buffer q k)
        (Ready (Left env (some s))) (capture_all env o nothing_captured s.payloads)
        (λ c. accept c (drain s.lines).1) (script_run (some s) ∷ h)
        (
          capture_all-Caught nothing_captured s.payloads (script_run (some s) ∷ h) (r, g)
              (λ e. inr (refl, refl, (r, g), (e, u))),
          capture_all-Taken env o nothing_captured s.payloads (script_run (some s) ∷ h),
        )
        (λ c h' t.
          ready (Left env (some s)) c (accept c (drain s.lines).1 h').0
            (accept c (drain s.lines).1 h').1 (s, refl, t.1)
            (accept-Last c (drain s.lines).1 h' t.0))
        (λ x h' t. absurd t.0)

  pub capture-Ready :
      (h : List Event)
      → Each Guard h
      → IsReady h
      → IsUncaptured h
      → Ready (Left env (env.script h)) (capture env o h).0 (capture env o h).1
  unfolding capture
  capture-Ready h g r u = started (env.script h) h g r u
