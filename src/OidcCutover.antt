-- ===== src/OidcCutover.antt =====
-- cli/internal/bootstrap/oidccutover: pointing the API servers of a cluster at the authenticator,
-- as the change of one node's file (`Config`) and the procedure over the nodes (`Cutover`).
pub mod Config
pub mod Cutover
