-- ===== src/KubeConfig/Ended.antt =====
-- How a call of the manager ends (cli/internal/kubeconfig/manager.go), whatever the disk does.
use kube_dc_public.Prelude.{◌≡◌, refl, Bool, true, false, Option, none, some, arith}
use kube_dc_public.Prelude.Text.{Text}
use kube_dc_public.Prelude.Engine.{Outcome, ok, err}
use kube_dc_public.KubeConfig.{Config}
use kube_dc_public.KubeConfig.File.{
  Disk, Yaml, IsDisk, IsYaml, FileError, unwritten, load_read, load, parsed, written, save_printed,
  save, saved, update_loaded, update, add_kube_dc_context, remove_named_context,
  remove_kube_dc_contexts, switch_context, switch_namespace, not_found, no_current,
}
use kube_dc_public.KubeConfig.Calls.{
  Call, added, removed, removed_server, switched, switched_namespace, change, kept,
}

module _ {D : Type 0} (f : Disk D) (y : Yaml) (encode : Text → Text) where
  -- A call of the manager on the file.
  unfoldable pub call : Call → D → Outcome FileError (Unit {0}) × D
  unfolding add_kube_dc_context remove_named_context remove_kube_dc_contexts switch_context
      switch_namespace
  call (added p) d = add_kube_dc_context f y encode p d
  call (removed name) d = remove_named_context f y encode name d
  call (removed_server s) d = remove_kube_dc_contexts f y encode s d
  call (switched name) d = switch_context f y encode name d
  call (switched_namespace ns) d = switch_namespace f y encode ns d

  -- What the file says at the end of a call that makes `change` of a configuration.
  unfoldable pub IsEnded : (Config → Option Config) → D → Outcome FileError (Unit {0}) → D → Type 0
  IsEnded make d (ok u) d' =
      (c : Config) × (load f y encode d ≡ ok c) × (load f y encode d' ≡ ok (kept c (make c)))
  IsEnded make d (err unwritten) d' = (t : Text) × ((f.write t d).0 ≡ false)
  IsEnded make d (err _) d' = d' ≡ d

  module _ (fs : IsDisk f) (ys : IsYaml y) where
    load_after :
        (c : Config) (t : Text) (d : D)
        → y.print c ≡ some t
        → (f.write t d).0 ≡ true
        → load f y encode (f.write t d).1 ≡ ok c
    unfolding load load_read parsed
    load_after c t d p w = ground (arith, fs.read_back t d w, ys.parse_back c t p)

    save-IsEnded :
        (make : Config → Option Config) (c c' : Config) (d : D)
        → load f y encode d ≡ ok c
        → make c ≡ some c'
        → (o : Option Text) → y.print c' ≡ o
        → IsEnded make d (save_printed f y encode o d).0 (save_printed f y encode o d).1
    unfolding IsEnded save_printed written
    save-IsEnded make c c' d l m none p = refl
    save-IsEnded make c c' d l m (some t) p = ends (f.write t d) refl
      where
        ends :
            (r : Bool × D)
            → f.write t d ≡ r
            → IsEnded make d (written f y encode r).0 (written f y encode r).1
        ends (true, d') q = (c, l, ground (arith, load_after c' t d p (ground arith)))
        ends (false, d') q = (t, ground arith)

    load_never : (d : D) → load f y encode d ≡ err unwritten → ⊥
    unfolding load load_read parsed
    load_never d p = ground arith

    -- An operation that ends with `otherwise` when it has nothing to save.
    abbrev IsLeft : (Config → Option Config) → D → Outcome FileError (Unit {0}) → Type 0
    IsLeft make d r = (c : Config) → load f y encode d ≡ ok c → make c ≡ none → IsEnded make d r d

    update-IsEnded :
        (make : Config → Option Config) (otherwise : Outcome FileError (Unit {0})) (d : D)
        → IsLeft make d otherwise
        → IsEnded make d
            (update f y encode make otherwise d).0
            (update f y encode make otherwise d).1
    unfolding update update_loaded load load_read parsed saved save IsEnded
    update-IsEnded make otherwise d left = loaded (load f y encode d) refl
      where
        changed :
            (c : Config)
            → load f y encode d ≡ ok c
            → (o : Option Config) → make c ≡ o
            → IsEnded make d (saved f y encode otherwise o d).0 (saved f y encode otherwise o d).1
        changed c p none q = left c p q
        changed c p (some c') q = save-IsEnded make c c' d p q (y.print c') refl

        loaded :
            (r : Outcome FileError Config)
            → load f y encode d ≡ r
            → IsEnded make d
                (update_loaded f y encode r make otherwise d).0
                (update_loaded f y encode r make otherwise d).1
        loaded (ok c) p = changed c p (make c) refl
        loaded (err unwritten) p = absurd (load_never d p)
        loaded (err _) p = refl

    -- A call of the manager ends well only when the file could be read before it, and then says
    -- afterwards what the call makes of it; it ends with the error of the write only when the disk
    -- refused a write; and any other error leaves the file. What is written is read, and what is
    -- printed is parsed.
    pub call-IsEnded : (k : Call) (d : D) → IsEnded (change encode k) d (call k d).0 (call k d).1
    unfolding call change add_kube_dc_context remove_named_context remove_kube_dc_contexts
        switch_context switch_namespace IsEnded
    call-IsEnded (added p) d = update-IsEnded _ (ok tt) d (λ c l q. absurd (ground arith))
    call-IsEnded (removed name) d = update-IsEnded _ (ok tt) d (λ c l q. (c, l, ground arith))
    call-IsEnded (removed_server s) d = update-IsEnded _ (ok tt) d (λ c l q. absurd (ground arith))
    call-IsEnded (switched name) d = update-IsEnded _ (err (not_found name)) d (λ c l q. refl)
    call-IsEnded (switched_namespace ns) d = update-IsEnded _ (err no_current) d (λ c l q. refl)
