-- ===== src/OpenBao/Init/Capture.antt =====
-- `Init` running the script and taking in the shares (cli/internal/bootstrap/openbao/init.go).

pub mod Taken
pub mod Ends
pub mod Keys
use kube_dc_public.Prelude.{
  ℕ, zero, Bool, true, false, not, Option, none, some, List, [], ◌∷◌, is_empty, ◌==◌, if◌then◌else◌,
}
use kube_dc_public.Prelude.Text.{Text}
use kube_dc_public.Prelude.Decimal.{ℤ, pos}
use kube_dc_public.Prelude.Engine.{
  Outcome, ok, err, return, throw, ◌>>=◌, ◌>>◌, perform, attempt, demand, unwrap,
}
use kube_dc_public.Secrets.{Buffer, new_buffer, root_token_of, share_count}
use kube_dc_public.Drain.{StreamError, drain}
use kube_dc_public.OpenBao.Init.{
  Options, script_run, DumpError, PayloadError, Cause, bad_payload, drain_broken, script_status,
  share_count_wrong, token_missing, Error, start_failed, capture_missing, drain_failed,
  script_failed, preserved, lost, Script, Env, Run,
}
use kube_dc_public.OpenBao.Init.Payload.{load_buffer_from_json}
use kube_dc_public.OpenBao.Init.Files.{emergency_dump}

-- What the callback leaves: the buffer, whether it was called, why a payload was refused, and how
-- the last copy on disk went.
pub record Capture : Type 0 where
  pub buffer : Buffer
  pub captured : Bool
  pub refused : Option PayloadError
  pub custody : Outcome DumpError Text

pub nothing_captured : Capture
unfolding new_buffer
nothing_captured = record { buffer = new_buffer; captured = false; refused = none; custody = ok [] }

abbrev pub caught : Buffer × Option PayloadError → Outcome DumpError Text → Capture
caught (b, bad) dumped = record { buffer = b; captured = true; refused = bad; custody = dumped }

-- The callback on one payload; the copy is made whether or not the payload is accepted.
pub capture_one : Env → Options → Capture → Text → Run Capture
capture_one env o c payload = do
  let loaded = load_buffer_from_json env.decode payload c.buffer
  dumped ← attempt (emergency_dump env o.cluster_name loaded.0)
  return (caught loaded dumped)

-- A refused payload ends the script, as SentinelCallback (ports/script.go) asks of its callers.
pub stop_or : Option PayloadError → Capture → Run Capture → Run Capture
stop_or (some bad) c next = return c
stop_or none c next = next

pub capture_all : Env → Options → Capture → List Text → Run Capture
unfolding capture_one stop_or
capture_all env o c [] = return c
capture_all env o c (p ∷ ps) = do
  c' ← capture_one env o c p
  stop_or c'.refused c' (capture_all env o c' ps)

-- The errors that say where the shares are.
pub custody_error : Outcome DumpError Text → Cause → ℕ → Error
custody_error (ok path) cause n = preserved cause path n
custody_error (err e) cause n = lost cause e n

pub custody : {A : Type 0} → Capture → Cause → Run A
unfolding custody_error
custody c cause = throw (custody_error c.custody cause (share_count c.buffer))

pub refuse_payload : Capture → Option PayloadError → Run (Unit {0})
unfolding custody
refuse_payload c none = return tt
refuse_payload c (some bad) = custody c (bad_payload bad)

-- A failure costs shares if they were captured, and is free if they were not.
pub cost_or : Bool → Capture → Cause → Error → Run (Unit {0})
cost_or true c cause e = custody c cause
cost_or false c cause e = throw e

pub exit_checked : Capture → Outcome StreamError ℤ → Run (Unit {0})
unfolding cost_or
exit_checked c (err e) = cost_or c.captured c (drain_broken e) (drain_failed e)
exit_checked c (ok (pos zero)) = return tt
exit_checked c (ok n) = cost_or c.captured c (script_status n) (script_failed n)

pub has_token : Buffer → Bool
has_token b = elim (root_token_of b) [ ok (some t) ↦ not (is_empty t) | _ ↦ false ]

pub require : Bool → Capture → Cause → Run (Unit {0})
require true c cause = return tt
require false c cause = custody c cause

pub check_shares : Capture → Run (Unit {0})
unfolding require has_token
check_shares c = do
  demand c.captured capture_missing
  require (share_count c.buffer == 5) c (share_count_wrong (share_count c.buffer))
  require (has_token c.buffer) c token_missing

-- What must be so before the shares are used.
pub accept : Capture → Outcome StreamError ℤ → Run Capture
unfolding refuse_payload exit_checked check_shares
accept c status = do refuse_payload c c.refused; exit_checked c status; check_shares c; return c

pub run_script : Env → Options → Option Script → Run Capture
run_script env o none = throw start_failed
run_script env o (some script) = do
  c ← capture_all env o nothing_captured script.payloads
  accept c (drain script.lines).1

pub capture : Env → Options → Run Capture
capture env o = do r ← perform env.script script_run; run_script env o r
