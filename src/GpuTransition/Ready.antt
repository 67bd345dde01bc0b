-- ===== src/GpuTransition/Ready.antt =====
-- What `targetReady` accepts (cli/internal/bootstrap/gputransition/transition.go).
use kube_dc_public.Prelude.{
  ◌≡◌, refl, true, false, List, [], ◌∷◌, arith, ◌⊎◌, inl, inr, ◌≢◌, ◌↔◌, is_empty, ◌&&◌,
}
use kube_dc_public.Prelude.Text.{Text, codes, text_eq, text_eq→eq, text_eq_refl}
use kube_dc_public.GpuTransition.{
  State, Owner, pod_hami, pod_hami_dra, vm_passthrough, nvidia_plugin, hami_plugin, hami_dra_plugin,
  sandbox_plugin, active_mode, expected_mode, is_recognized, owns, mode_owned, target_ready,
}

-- An owner that runs this plugin: a daemon set of that name in a namespace of the operators.
abbrev pub RunsPlugin : Owner → Text → Type 0
RunsPlugin w plugin =
    (w.kind ≡ codes "DaemonSet")
    × ((w.namespace ≡ codes "gpu-operator") ⊎ (w.namespace ≡ codes "hami-system"))
    × (w.name ≡ plugin)

abbrev pub Runs : List Owner → Text → Type 0
Runs [] plugin = ⊥
Runs (w ∷ ws) plugin = RunsPlugin w plugin ⊎ Runs ws plugin

-- The plugin of the mode runs, and none of the three others does.
abbrev pub RunsAlone : List Owner → Text → Type 0
RunsAlone ws plugin =
    Runs ws plugin
    × (plugin ≢ nvidia_plugin → ¬ Runs ws nvidia_plugin)
    × (plugin ≢ hami_plugin → ¬ Runs ws hami_plugin)
    × (plugin ≢ hami_dra_plugin → ¬ Runs ws hami_dra_plugin)
    × (plugin ≢ sandbox_plugin → ¬ Runs ws sandbox_plugin)

abbrev pub RightPlugin : List Owner → Text → Type 0
RightPlugin ws target =
    ((target ≡ pod_hami) × RunsAlone ws hami_plugin)
    ⊎ ((target ≡ pod_hami_dra) × RunsAlone ws hami_dra_plugin)
    ⊎ ((target ≡ vm_passthrough) × RunsAlone ws sandbox_plugin)

is_recognized-RunsPlugin :
    (w : Owner) (plugin : Text)
    → is_recognized w ≡ true
    → text_eq w.name plugin ≡ true
    → RunsPlugin w plugin
unfolding is_recognized
is_recognized-RunsPlugin w plugin h n = ground (
  arith,
  text_eq→eq w.kind (codes "DaemonSet"),
  text_eq→eq w.namespace (codes "gpu-operator"),
  text_eq→eq w.namespace (codes "hami-system"),
  text_eq→eq w.name plugin,
)

RunsPlugin-is_recognized :
    (w : Owner) (plugin : Text)
    → RunsPlugin w plugin
    → (is_recognized w && text_eq w.name plugin) ≡ true
unfolding is_recognized text_eq
RunsPlugin-is_recognized w plugin (k, inl n, e) = rw e (rw k (rw n (text_eq_refl plugin)))
RunsPlugin-is_recognized w plugin (k, inr n, e) = rw e (rw k (rw n (text_eq_refl plugin)))

owns-Runs : (ws : List Owner) (plugin : Text) → owns ws plugin ≡ true → Runs ws plugin
unfolding owns
owns-Runs [] plugin h = cc
owns-Runs (w ∷ ws) plugin h = ground (arith, is_recognized-RunsPlugin w plugin, owns-Runs ws plugin)

Runs-owns : (ws : List Owner) (plugin : Text) → Runs ws plugin → owns ws plugin ≡ true
unfolding owns
Runs-owns [] plugin r = absurd r
Runs-owns (w ∷ ws) plugin (inl r) = ground (arith, RunsPlugin-is_recognized w plugin r)
Runs-owns (w ∷ ws) plugin (inr r) = ground (arith, Runs-owns ws plugin r)

not_owns-Runs : (ws : List Owner) (plugin : Text) → owns ws plugin ≡ false → ¬ Runs ws plugin
not_owns-Runs ws plugin h r = ground (arith, h, Runs-owns ws plugin r)

not_Runs-owns : (ws : List Owner) (plugin : Text) → ¬ Runs ws plugin → owns ws plugin ≡ false
not_Runs-owns ws plugin n = ground (arith, n, owns-Runs ws plugin)

-- Ready to be handed over at the target mode, written out.
pub record IsTarget (s : State) (target : Text) : Type 0 where
  pub is_ready : s.is_ready ≡ true
  pub is_cordoned : s.unschedulable ≡ true
  pub no_holders : s.holders ≡ []
  pub active : active_mode s ≡ target
  pub expected : expected_mode s ≡ target
  pub plugin : RightPlugin s.plugin_owners target

no_holders_of {ℓ} : {A : Type ℓ} (xs : List A) → is_empty xs ≡ true → xs ≡ []
no_holders_of [] h = refl
no_holders_of (x ∷ xs) h = cc

-- The same, by the code's search.
abbrev OwnedAlone : List Owner → Text → Type 0
OwnedAlone ws plugin =
    (owns ws plugin ≡ true)
    × (plugin ≢ nvidia_plugin → owns ws nvidia_plugin ≡ false)
    × (plugin ≢ hami_plugin → owns ws hami_plugin ≡ false)
    × (plugin ≢ hami_dra_plugin → owns ws hami_dra_plugin ≡ false)
    × (plugin ≢ sandbox_plugin → owns ws sandbox_plugin ≡ false)

abbrev OwnedPlugin : List Owner → Text → Type 0
OwnedPlugin ws target =
    ((target ≡ pod_hami) × OwnedAlone ws hami_plugin)
    ⊎ ((target ≡ pod_hami_dra) × OwnedAlone ws hami_dra_plugin)
    ⊎ ((target ≡ vm_passthrough) × OwnedAlone ws sandbox_plugin)

OwnedAlone-RunsAlone : (ws : List Owner) (p : Text) → OwnedAlone ws p → RunsAlone ws p
OwnedAlone-RunsAlone ws p (t, n, h, d, s) = (
  owns-Runs ws p t,
  λ q. not_owns-Runs ws _ (n q),
  λ q. not_owns-Runs ws _ (h q),
  λ q. not_owns-Runs ws _ (d q),
  λ q. not_owns-Runs ws _ (s q),
)

RunsAlone-OwnedAlone : (ws : List Owner) (p : Text) → RunsAlone ws p → OwnedAlone ws p
RunsAlone-OwnedAlone ws p (t, n, h, d, s) = (
  Runs-owns ws p t,
  λ q. not_Runs-owns ws _ (n q),
  λ q. not_Runs-owns ws _ (h q),
  λ q. not_Runs-owns ws _ (d q),
  λ q. not_Runs-owns ws _ (s q),
)

OwnedPlugin-RightPlugin : (ws : List Owner) (t : Text) → OwnedPlugin ws t → RightPlugin ws t
OwnedPlugin-RightPlugin ws t (inl (e, a)) = inl (e, OwnedAlone-RunsAlone ws _ a)
OwnedPlugin-RightPlugin ws t (inr (inl (e, a))) = inr (inl (e, OwnedAlone-RunsAlone ws _ a))
OwnedPlugin-RightPlugin ws t (inr (inr (e, a))) = inr (inr (e, OwnedAlone-RunsAlone ws _ a))

RightPlugin-OwnedPlugin : (ws : List Owner) (t : Text) → RightPlugin ws t → OwnedPlugin ws t
RightPlugin-OwnedPlugin ws t (inl (e, a)) = inl (e, RunsAlone-OwnedAlone ws _ a)
RightPlugin-OwnedPlugin ws t (inr (inl (e, a))) = inr (inl (e, RunsAlone-OwnedAlone ws _ a))
RightPlugin-OwnedPlugin ws t (inr (inr (e, a))) = inr (inr (e, RunsAlone-OwnedAlone ws _ a))

mode_owned-OwnedPlugin :
    (ws : List Owner) (target : Text)
    → owns ws nvidia_plugin ≡ false
    → mode_owned ws target ≡ true
    → OwnedPlugin ws target
unfolding mode_owned
mode_owned-OwnedPlugin ws target n h = ground (
  arith,
  text_eq→eq target pod_hami,
  text_eq→eq target pod_hami_dra,
  text_eq→eq target vm_passthrough,
)

target_ready_sound : (s : State) (target : Text) → target_ready s target ≡ true → IsTarget s target
unfolding target_ready
target_ready_sound s target h = ground (
  arith,
  no_holders_of s.holders,
  text_eq→eq (active_mode s) target,
  text_eq→eq (expected_mode s) target,
  mode_owned-OwnedPlugin s.plugin_owners target,
  OwnedPlugin-RightPlugin s.plugin_owners target,
)

distinct : (a b : Text) → text_eq a b ≡ false → a ≢ b
distinct a b h e = ground (arith, text_eq_refl b)

OwnedPlugin-mode_owned :
    (ws : List Owner) (target : Text)
    → OwnedPlugin ws target
    → (mode_owned ws target ≡ true) × (owns ws nvidia_plugin ≡ false)
unfolding mode_owned text_eq
OwnedPlugin-mode_owned ws target (inl (e, (t, n, h, d, s))) =
    rw e (rw (t, d (distinct _ _ refl), s (distinct _ _ refl)) refl, n (distinct _ _ refl))
OwnedPlugin-mode_owned ws target (inr (inl (e, (t, n, h, d, s)))) =
    rw e (rw (t, h (distinct _ _ refl), s (distinct _ _ refl)) refl, n (distinct _ _ refl))
OwnedPlugin-mode_owned ws target (inr (inr (e, (t, n, h, d, s)))) =
    rw e (rw (t, h (distinct _ _ refl), d (distinct _ _ refl)) refl, n (distinct _ _ refl))

target_ready_complete :
    (s : State) (target : Text) → IsTarget s target → target_ready s target ≡ true
unfolding target_ready
target_ready_complete s target t = ground (
  arith,
  text_eq_refl target,
  OwnedPlugin-mode_owned s.plugin_owners target
      (RightPlugin-OwnedPlugin s.plugin_owners target t.plugin),
)

-- The target test passes exactly when the node is ready, cordoned and without holders, carries the
-- target mode on both labels, and of the four known device plugins only the one of that mode runs
-- on it as a daemon set of the operators' namespaces.
pub target_ready_iff :
    (s : State) (target : Text) → (target_ready s target ≡ true) ↔ IsTarget s target
target_ready_iff s target = (target_ready_sound s target, target_ready_complete s target)
