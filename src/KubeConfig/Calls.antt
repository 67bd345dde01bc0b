-- ===== src/KubeConfig/Calls.antt =====
-- The operations of the manager as calls, and what each makes of a configuration
-- (cli/internal/kubeconfig/manager.go).
use kube_dc_public.Prelude.{◌≡◌, refl, Bool, true, false, Option, none, some, List, if◌then◌else◌}
use kube_dc_public.Prelude.Text.{Text}
use kube_dc_public.KubeConfig.{
  Config, Named, Context, AddContextParams, named, renamespace, add_context, drop_context,
  victim_of, remove_context, remove_server, set_current_context, set_namespace,
}

-- A call of the manager.
pub data Call : Type 0 where
  added : AddContextParams → Call
  removed : Text → Call
  removed_server : Text → Call
  switched : Text → Call
  switched_namespace : Text → Call

unfoldable pub change : (Text → Text) → Call → Config → Option Config
unfolding add_context remove_context remove_server set_current_context set_namespace
change encode (added p) c = some (add_context encode p c)
change encode (removed name) c = remove_context name c
change encode (removed_server s) c = some (remove_server s c)
change encode (switched name) c = set_current_context name c
change encode (switched_namespace ns) c = set_namespace ns c

-- A call that saves nothing leaves the configuration.
abbrev pub kept : Config → Option Config → Config
kept c none = c
kept c (some d) = d

abbrev pub step : (Text → Text) → Call → Config → Config
step encode k c = kept c (change encode k c)

-- A property is kept by a call when it is kept by each thing that a call does.
pub step-keeps :
    (P : Config → Type 0) (encode : Text → Text) (k : Call) (c : Config)
    → P c
    → ((p : AddContextParams) → P (add_context encode p c))
    → ((name : Text) (v : Context) → P (drop_context name v c))
    → ((name : Text) → named name c.contexts ≡ true → P (record c { current_context = name }))
    → ((ns : Text) (r : List (Named Context))
        → renamespace c.current_context ns c.contexts ≡ some r
        → P (record c { contexts = r }))
    → ((s : Text) → k ≡ removed_server s → P (remove_server s c))
    → P (step encode k c)
unfolding change remove_context set_current_context set_namespace
step-keeps P encode (added p) c h a d n r s = a p
step-keeps P encode (removed name) c h a d n r s = found (victim_of name c.contexts)
  where
    found :
        (o : Option Context)
        → P (kept c (elim o [ none ↦ none | some v ↦ some (drop_context name v c) ]))
    found none = h
    found (some v) = d name v
step-keeps P encode (removed_server t) c h a d n r s = s t refl
step-keeps P encode (switched name) c h a d n r s = chosen (named name c.contexts) refl
  where
    chosen :
        (b : Bool)
        → named name c.contexts ≡ b
        → P (kept c (if b then some (record c { current_context = name }) else none))
    chosen true p = n name p
    chosen false p = h
step-keeps P encode (switched_namespace ns) c h a d n r s =
    found (renamespace c.current_context ns c.contexts) refl
  where
    found :
        (o : Option (List (Named Context)))
        → renamespace c.current_context ns c.contexts ≡ o
        → P (kept c (elim o [ none ↦ none | some l ↦ some (record c { contexts = l }) ]))
    found none p = h
    found (some l) p = r ns l p
