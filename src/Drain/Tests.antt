-- ===== src/Drain/Tests.antt =====
-- A script that ends with a status, and one that is cut off.
use kube_dc_public.Prelude.{◌≡◌, refl, [], ◌∷◌}
use kube_dc_public.Prelude.Text.{codes}
use kube_dc_public.Prelude.Decimal.{pos}
use kube_dc_public.Prelude.Engine.{ok, err}
use kube_dc_public.Drain.{Line, stdout, exit, truncated, drain, parse_exit_code}
use kube_dc_public.Drain.Exit.{Ended, drain-Ended}

abbrev output : Line
output = record { stream = stdout; text = codes "done" }

abbrev status : Line
status = record { stream = exit; text = codes "3\n" }

cut_off : drain (output ∷ []) ≡ (output ∷ [], err truncated)
unfolding drain
cut_off = refl

status_read : drain (output ∷ status ∷ []) ≡ (output ∷ [], ok (pos 3))
unfolding drain parse_exit_code
status_read = refl

drain-Ended_example : Ended (output ∷ []) (pos 3) (output ∷ status ∷ [])
drain-Ended_example = (drain-Ended (output ∷ status ∷ []) (output ∷ []) (pos 3)).0 status_read
