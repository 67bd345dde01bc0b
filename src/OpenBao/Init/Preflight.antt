-- ===== src/OpenBao/Init/Preflight.antt =====
-- Before the script of `Init` runs (cli/internal/bootstrap/openbao/init.go).

pub mod Order
use kube_dc_public.Prelude.{not, Option, none, some, List, [], ◌∷◌, ◌++◌, is_empty, if◌then◌else◌}
use kube_dc_public.Prelude.Text.{Text, codes}
use kube_dc_public.Prelude.Engine.{return, throw, ◌>>=◌, ◌>>◌, perform, demand, unwrap}
use kube_dc_public.OpenBao.Init.{
  Options, Tree, outside, inside, unresolved, secrets_seen, tree_checked, diff_read,
  annotation_read, head_read, missing_dependency, secrets_missing, shares_out_inside_git,
  shares_out_unresolved, diff_failed, dirty_working_tree, already_initialised, head_failed, Env,
  Run,
}
use kube_dc_public.OpenBao.Init.Files.{tree_of}

pub validate_init_options : Options → Run (Unit {0})
validate_init_options o = do
  demand (not (is_empty o.cluster_name)) missing_dependency
  demand (not (is_empty o.fleet_repo)) missing_dependency
  demand o.has_runner missing_dependency
  demand o.has_sops missing_dependency
  demand o.has_git missing_dependency
  demand o.has_openbao missing_dependency

abbrev pub secrets_path : Options → Text
secrets_path o =
    o.fleet_repo ++ (codes "/clusters/" ++ (o.cluster_name ++ codes "/secrets.enc.yaml"))

pub refuse_tree : Tree → Run (Unit {0})
refuse_tree outside = return tt
refuse_tree inside = throw shares_out_inside_git
refuse_tree unresolved = throw shares_out_unresolved

pub check_shares_out : Env → Options → Run (Unit {0})
unfolding refuse_tree
check_shares_out env o = if is_empty o.shares_out_path then return tt else (do
  t ← perform (λ h. tree_of env h o.shares_out_path) (tree_checked o.shares_out_path)
  refuse_tree t)

pub refuse_dirty : List Text → Run (Unit {0})
refuse_dirty [] = return tt
refuse_dirty (p ∷ ps) = throw (dirty_working_tree (p ∷ ps))

-- An annotation that cannot be read is no reason to stop.
pub refuse_finalized : Option Text → Run (Unit {0})
refuse_finalized none = return tt
refuse_finalized (some []) = return tt
refuse_finalized (some (c ∷ stamp)) = throw (already_initialised (c ∷ stamp))

-- Phase A before the script.
pub preflight : Env → Options → Run (Unit {0})
unfolding validate_init_options check_shares_out refuse_dirty refuse_finalized
preflight env o = do
  validate_init_options o
  seen ← perform (λ h. env.see_secrets h (secrets_path o)) (secrets_seen (secrets_path o))
  demand seen secrets_missing
  check_shares_out env o
  d ← perform env.diff diff_read
  files ← unwrap d diff_failed
  refuse_dirty files
  a ← perform env.annotation annotation_read
  refuse_finalized a
  head ← perform env.head head_read
  demand head head_failed
