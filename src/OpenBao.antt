-- ===== src/OpenBao.antt =====
-- cli/internal/bootstrap/openbao: the making of the unseal shares, their place in secrets.enc.yaml,
-- the unsealing of the pods, and the two commands that hand out key material.
pub mod Shares
pub mod Unseal
pub mod GenerateRoot
pub mod Reveal
pub mod ControllerAuth
pub mod Init
