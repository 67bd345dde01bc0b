-- ===== src/KubeConfig/File.antt =====
-- The manager's operations on the file (cli/internal/kubeconfig/manager.go). The file system and the
-- YAML library are parameters.
use kube_dc_public.Prelude.{◌≡◌, Bool, true, Option, none, some, List, if◌then◌else◌}
use kube_dc_public.Prelude.Text.{Text}
use kube_dc_public.Prelude.Engine.{Outcome, ok, err}
use kube_dc_public.KubeConfig.{
  Config, AddContextParams, Named, Context, empty_config, add_context, remove_context,
  remove_server, set_current_context, set_namespace, kube_dc_contexts,
}

pub data Reading : Type 0 where
  absent denied : Reading
  content : Text → Reading

-- The path of the file, in a state of type `D`. A write that fails may leave anything.
pub record Disk (D : Type 0) : Type 0 where
  pub read : D → Reading
  pub write : Text → D → Bool × D

pub record Yaml : Type 0 where
  pub parse : Text → Option Config
  pub print : Config → Option Text

-- What is written is read.
pub record IsDisk {D : Type 0} (f : Disk D) : Type 0 where
  pub read_back : (t : Text) (d : D) → (f.write t d).0 ≡ true → f.read (f.write t d).1 ≡ content t

-- What is printed is parsed.
pub record IsYaml (y : Yaml) : Type 0 where
  pub parse_back : (c : Config) (t : Text) → y.print c ≡ some t → y.parse t ≡ some c

pub data FileError : Type 0 where
  unreadable unparsed unprinted unwritten no_current : FileError
  not_found : Text → FileError

module _ {D : Type 0} (f : Disk D) (y : Yaml) (encode : Text → Text) where
  unfoldable pub parsed : Option Config → Outcome FileError Config
  parsed none = err unparsed
  parsed (some c) = ok c

  unfoldable pub load_read : Reading → Outcome FileError Config
  unfolding empty_config parsed
  load_read absent = ok empty_config
  load_read denied = err unreadable
  load_read (content t) = parsed (y.parse t)

  unfoldable pub load : D → Outcome FileError Config
  unfolding load_read
  load d = load_read (f.read d)

  unfoldable pub written : Bool × D → Outcome FileError (Unit {0}) × D
  written (b, d) = if b then (ok tt, d) else (err unwritten, d)

  unfoldable pub save_printed : Option Text → D → Outcome FileError (Unit {0}) × D
  unfolding written
  save_printed none d = (err unprinted, d)
  save_printed (some t) d = written (f.write t d)

  unfoldable pub save : Config → D → Outcome FileError (Unit {0}) × D
  unfolding save_printed
  save c d = save_printed (y.print c) d

  -- An operation between a load and a save. `none`: it ends with `otherwise` and saves nothing.
  unfoldable pub saved :
      Outcome FileError (Unit {0}) → Option Config → D → Outcome FileError (Unit {0}) × D
  unfolding save
  saved otherwise none d = (otherwise, d)
  saved otherwise (some c) d = save c d

  unfoldable pub update_loaded :
      Outcome FileError Config
      → (Config → Option Config)
      → Outcome FileError (Unit {0})
      → D
      → Outcome FileError (Unit {0}) × D
  unfolding saved
  update_loaded (err x) change otherwise d = (err x, d)
  update_loaded (ok c) change otherwise d = saved otherwise (change c) d

  unfoldable pub update :
      (Config → Option Config) → Outcome FileError (Unit {0}) → D → Outcome FileError (Unit {0}) × D
  unfolding load update_loaded
  update change otherwise d = update_loaded (load d) change otherwise d

  unfoldable pub add_kube_dc_context : AddContextParams → D → Outcome FileError (Unit {0}) × D
  unfolding update add_context
  add_kube_dc_context p d = update (λ c. some (add_context encode p c)) (ok tt) d

  unfoldable pub remove_named_context : Text → D → Outcome FileError (Unit {0}) × D
  unfolding update remove_context
  remove_named_context name d = update (remove_context name) (ok tt) d

  unfoldable pub remove_kube_dc_contexts : Text → D → Outcome FileError (Unit {0}) × D
  unfolding update remove_server
  remove_kube_dc_contexts server d = update (λ c. some (remove_server server c)) (ok tt) d

  unfoldable pub switch_context : Text → D → Outcome FileError (Unit {0}) × D
  unfolding update set_current_context
  switch_context name d = update (set_current_context name) (err (not_found name)) d

  unfoldable pub switch_namespace : Text → D → Outcome FileError (Unit {0}) × D
  unfolding update set_namespace
  switch_namespace ns d = update (set_namespace ns) (err no_current) d

  unfoldable pub contexts_of : Outcome FileError Config → Outcome FileError (List (Named Context))
  unfolding kube_dc_contexts
  contexts_of (err x) = err x
  contexts_of (ok c) = ok (kube_dc_contexts c.contexts)

  unfoldable pub list_kube_dc_contexts : D → Outcome FileError (List (Named Context))
  unfolding load contexts_of
  list_kube_dc_contexts d = contexts_of (load d)
