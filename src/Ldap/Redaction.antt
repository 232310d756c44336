-- ===== src/Ldap/Redaction.antt =====
-- directory/ldap/redaction.go: what is shown of a configuration and of a reader.
use stumpfworks_framework.Base.{◌≡◌, refl, Bytes, codes}
use stumpfworks_framework.Ldap.Reader.{ReaderConfig, Reader}

-- `Config.String`, which `GoString` and `LogValue` return too, and `Config.MarshalJSON`.
abbrev config_string : ReaderConfig → Bytes
config_string c = codes "LDAP configuration [REDACTED]"

abbrev config_json : ReaderConfig → Bytes
config_json c = codes "{\"redacted\":true}"

-- `Reader.String`, which `GoString` and `LogValue` return too.
abbrev reader_string : Reader → Bytes
reader_string r = codes "LDAP reader [REDACTED]"

-- Configurations and readers with different secrets are shown alike.
shown_alike :
    (c d : ReaderConfig) (q r : Reader)
    → (config_string c ≡ config_string d)
      × (config_json c ≡ config_json d)
      × (reader_string q ≡ reader_string r)
shown_alike c d q r = (refl, refl, refl)
