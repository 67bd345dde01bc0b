-- ===== src/EnvFile/Write/Tests.antt =====
-- A write whose file cannot be put in its place.
use kube_dc_public.Prelude.{◌≡◌, refl, Bool, true, false, List, []}
use kube_dc_public.Prelude.Text.{codes}
use kube_dc_public.Prelude.Engine.{err}
use kube_dc_public.EnvFile.{Env}
use kube_dc_public.EnvFile.Write.{
  split_path, dir_of, FileOp, rename_temp, Event, rename_failed, give_up, or_give_up, replace,
  target, write,
}
use kube_dc_public.EnvFile.Write.Ends.{Ended, write-Ended}

abbrev answer : List Event → FileOp → Bool
answer h (rename_temp p) = false
answer h _ = true

abbrev store : Env
store = record { path = codes "/fleet/cluster-config.env"; lines = []; index = [] }

not_replaced : (write answer store [] []).0 ≡ err rename_failed
unfolding write replace or_give_up give_up
not_replaced = refl

directory : dir_of (codes "/fleet/a/b.env") ≡ codes "/fleet/a"
unfolding dir_of split_path
directory = refl

write-Ended_example :
    Ended store (target answer store []) (write answer store [] []).0 (write answer store [] []).1
write-Ended_example = write-Ended answer store []
