-- ===== src/GpuUpgrade/Load.antt =====
-- The reading of a record (cli/internal/bootstrap/gpuupgrade/gate.go: `Load`).
use kube_dc_public.Prelude.{ℕ, ◌*◌, Option, none, some, length, ltb, if◌then◌else◌}
use kube_dc_public.Prelude.Text.{Text}
use kube_dc_public.Prelude.Engine.{Outcome, ok, err}
use kube_dc_public.GpuUpgrade.{Qualification}

pub data LoadError : Type 0 where
  unreadable too_large undecodable many_documents : LoadError

abbrev pub max_record_bytes : ℕ
max_record_bytes = 64 * 1024

-- What the decoder meets after a document.
pub data Trailing : Type 0 where
  at_end another broken : Trailing

pub only_one : Qualification → Trailing → Outcome LoadError Qualification
only_one q at_end = ok q
only_one q another = err many_documents
only_one q broken = err undecodable

pub decoded : Option (Qualification × Trailing) → Outcome LoadError Qualification
unfolding only_one
decoded none = err undecodable
decoded (some (q, rest)) = only_one q rest

-- `body` is what a read of at most one byte more than the limit gives, and `decode` the YAML decoder
-- that refuses unknown fields.
pub load :
    (Text → Option (Qualification × Trailing)) → Option Text → Outcome LoadError Qualification
unfolding decoded
load decode none = err unreadable
load decode (some body) =
    if ltb max_record_bytes (length body) then err too_large else decoded (decode body)
