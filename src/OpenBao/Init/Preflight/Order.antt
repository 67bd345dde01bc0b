-- ===== src/OpenBao/Init/Preflight/Order.antt =====
-- What has been checked when the script of `Init` runs
-- (cli/internal/bootstrap/openbao/init.go).
use kube_dc_public.Prelude.{List, [], arith}
use kube_dc_public.Prelude.Engine.{Outcome, ok, err, Each}
use kube_dc_public.OpenBao.Init.{Options, Event, Error, preserved, lost, post_commit, Env}
use kube_dc_public.OpenBao.Init.Preflight.{
  validate_init_options, check_shares_out, refuse_tree, refuse_dirty, refuse_finalized, preflight,
}
use kube_dc_public.OpenBao.Init.Guard.{Guard, IsReady, IsUncaptured}

-- The errors that cost nothing.
abbrev pub IsFree : Error → Type 0
IsFree (preserved c p n) = ⊥
IsFree (lost c e n) = ⊥
IsFree (post_commit c) = ⊥
IsFree _ = Unit {0}

abbrev pub Cleared : Outcome Error (Unit {0}) → List Event → Type 0
Cleared (ok u) h = Each Guard h × IsReady h × IsUncaptured h
Cleared (err e) h = Each Guard h × IsFree e × IsUncaptured h

pub preflight-Cleared :
    (env : Env) (o : Options) → Cleared (preflight env o []).0 (preflight env o []).1
unfolding preflight validate_init_options check_shares_out refuse_tree refuse_dirty refuse_finalized
preflight-Cleared env o = ground arith
