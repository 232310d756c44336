-- ===== src/Errors/Tests.antt =====
-- core/errors/errors_test.go: a coded error around a private one.
use stumpfworks_framework.Base.{◌≡◌, refl, some, codes}
use stumpfworks_framework.Errors.{Error, plain, wrapped, wrap, new, message, as_coded, has_kind}

abbrev private_error : Error (Unit {0})
private_error = plain tt (codes "private database detail")

abbrev unavailable : Error (Unit {0})
unavailable = wrap (codes "database_unavailable") (codes "Service unavailable") (some private_error)

code : Unit {0}
unfolding wrap new message as_coded has_kind
code = tt

shows_code :
    as_coded (wrapped (codes "load") unavailable)
    ≡ some (record {
      code = codes "database_unavailable";
      public_message = codes "Service unavailable";
    })
unfolding code
shows_code = refl

names_cause : message unavailable ≡ codes "database_unavailable: private database detail"
unfolding code
names_cause = refl

names_code : message (new {K = Unit {0}} (codes "c") (codes "Shown")) ≡ codes "c"
unfolding code
names_code = refl
