-- ===== src/Oidc.antt =====
-- auth/oidc: the relying party of one pinned OIDC issuer.
pub mod Base64
pub mod Transactions
pub mod Store
pub mod Cookies
pub mod Codec
pub mod Urls
pub mod Verify
pub mod Fetch
pub mod Login
pub mod Begin
pub mod Cache
pub mod Discovery
pub mod Introspection
