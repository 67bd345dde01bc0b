-- ===== src/GpuUpgrade/Gate/Hardware.antt =====
-- Which lists of hardware the gate takes for well formed (cli/internal/bootstrap/gpuupgrade/gate.go).
use kube_dc_public.Prelude.{◌≡◌, refl, ap, true, false, List, [], ◌∷◌, ◌++◌, any, is_empty, arith}
use kube_dc_public.Prelude.Text.{Text, text_eq}
use kube_dc_public.GpuUpgrade.{
  is_pci, canonical_value, insert, sort, scan_hardware, canonical_hardware,
}

-- The values, trimmed and in lower case, the last one first, before those in `seen`.
unfoldable pub values : List Text → List Text → List Text
values seen [] = seen
values seen (raw ∷ raws) = values (canonical_value raw ∷ seen) raws

-- Each value has the form of a PCI identity and is neither among those before it nor in `seen`.
unfoldable pub AllNew : List Text → List Text → Type 0
AllNew seen [] = Unit {0}
AllNew seen (raw ∷ raws) =
    (is_pci (canonical_value raw) ≡ true)
    × (any (text_eq (canonical_value raw)) seen ≡ false)
    × AllNew (canonical_value raw ∷ seen) raws

-- There is a value, and each is well formed and there once.
pub record IsList (raws : List Text) : Type 0 where
  pub some_value : is_empty raws ≡ false
  pub all_new : AllNew [] raws

scan_hardware-AllNew :
    (raws seen : List Text)
    → (scan_hardware seen raws).1 ≡ []
    → AllNew seen raws × ((scan_hardware seen raws).0 ≡ values seen raws)
unfolding scan_hardware AllNew values
scan_hardware-AllNew [] seen e = (tt, refl)
scan_hardware-AllNew (raw ∷ raws) seen e =
    ground (arith, e, scan_hardware-AllNew raws (canonical_value raw ∷ seen))

AllNew-scan_hardware :
    (raws seen : List Text) → AllNew seen raws → scan_hardware seen raws ≡ (values seen raws, [])
unfolding scan_hardware AllNew values
AllNew-scan_hardware [] seen n = refl
AllNew-scan_hardware (raw ∷ raws) seen n =
    ground (arith, n.0, n.1, AllNew-scan_hardware raws (canonical_value raw ∷ seen) n.2)

values_there : (raws seen : List Text) → is_empty seen ≡ false → is_empty (values seen raws) ≡ false
unfolding values
values_there [] seen e = e
values_there (raw ∷ raws) seen e = values_there raws (canonical_value raw ∷ seen) refl

insert_there : (s : Text) (ts : List Text) → is_empty (insert s ts) ≡ false
unfolding insert
insert_there s [] = refl
insert_there s (t ∷ ts) = ground arith

pub sort_there : (ss : List Text) → is_empty ss ≡ false → is_empty (sort ss) ≡ false
unfolding sort
sort_there [] e = e
sort_there (s ∷ ss) e = insert_there s (sort ss)

pub values_some : (raws : List Text) → is_empty raws ≡ false → is_empty (values [] raws) ≡ false
unfolding values
values_some [] e = e
values_some (raw ∷ raws) e = values_there raws (canonical_value raw ∷ []) refl

front_nil : {A : Type 0} (xs ys : List A) → xs ++ ys ≡ [] → xs ≡ []
front_nil [] ys e = refl
front_nil (x ∷ xs) ys e = cc

none_refused : ¬ ((canonical_hardware []).1 ≡ [])
unfolding canonical_hardware scan_hardware
none_refused e = cc

pub canonical_hardware-IsList :
    (raws : List Text)
    → (canonical_hardware raws).1 ≡ []
    → IsList raws × ((canonical_hardware raws).0 ≡ sort (values [] raws))
unfolding canonical_hardware
canonical_hardware-IsList [] e = absurd (none_refused e)
canonical_hardware-IsList (raw ∷ raws) e =
    let (n, v) =
      scan_hardware-AllNew (raw ∷ raws) [] (front_nil (scan_hardware [] (raw ∷ raws)).1 _ e) in
    (record { some_value = refl; all_new = n }, ap sort v)

pub IsList-canonical_hardware :
    (raws : List Text) → IsList raws → canonical_hardware raws ≡ (sort (values [] raws), [])
unfolding canonical_hardware
IsList-canonical_hardware raws i =
    rw (AllNew-scan_hardware raws [] i.all_new, values_some raws i.some_value) refl
