-- ===== src/Oidc.antt =====
-- The OIDC verifier, platform-mvp/oidc-verifier/main.go.
pub mod Base64
pub mod Error
pub mod Unmarshal
pub mod Jwk
pub mod KeySet
pub mod Http
pub mod Server
pub mod Verify
pub mod Main
