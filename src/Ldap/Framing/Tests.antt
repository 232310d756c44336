-- ===== src/Ldap/Framing/Tests.antt =====
-- directory/ldap/framing_test.go and reader_test.go: reading a validated frame, in two parts.
use stumpfworks_framework.Base.{◌≡◌, refl, [], ◌∷◌, ◌++◌, ok, err}
use stumpfworks_framework.Ldap.Ber.{validate_ber_frame, header}
use stumpfworks_framework.Ldap.Ber.Tests.{good_frame}
use stumpfworks_framework.Ldap.Framing.{read, start, invalid_frame, unexpected_eof}
use stumpfworks_framework.Ldap.Framing.Delivery.{Delivered, read_all, read_all_safe}

read_tests :
    ((read 4 (start good_frame)).0 ≡ ok (0x30 ∷ 8 ∷ 2 ∷ 1 ∷ []))
    × ((read 4 (start (0x31 ∷ 0 ∷ []))).0 ≡ err invalid_frame)
    × ((read 4 (start (0x30 ∷ 5 ∷ 1 ∷ []))).0 ≡ err unexpected_eof)
unfolding read start validate_ber_frame header
read_tests = (refl, refl, refl)

read_all_safe_example :
    let (out, s) = read_all [] (4 ∷ 100 ∷ 1 ∷ []) (start (good_frame ++ 0x31 ∷ [])) in
    Delivered out s
read_all_safe_example = read_all_safe (good_frame ++ 0x31 ∷ []) (4 ∷ 100 ∷ 1 ∷ [])
