-- ===== src/OpenBao/Init/Ceremony.antt =====
-- `Init`, phase by phase (cli/internal/bootstrap/openbao/init.go).
pub mod Ends
mod Tests
use kube_dc_public.Prelude.Engine.{◌>>=◌, ◌>>◌}
use kube_dc_public.OpenBao.Init.{Options, Env, Run}
use kube_dc_public.OpenBao.Init.Preflight.{preflight}
use kube_dc_public.OpenBao.Init.Capture.{capture}
use kube_dc_public.OpenBao.Init.Keep.{keep}
use kube_dc_public.OpenBao.Init.Finish.{finish}

pub init : Env → Options → Run (Unit {0})
init env o = do preflight env o; c ← capture env o; keep env o c; finish env o c.buffer
