-- ===== src/Ldap.antt =====
-- directory/ldap: the bounded, read-only directory reader.
pub mod Ber
pub mod Framing
pub mod Reader
pub mod Redaction
