-- ===== src/Ldap/Ber/Tests.antt =====
-- directory/ldap/framing_test.go: frames that pass and frames that do not, and the theorems at them.
use stumpfworks_framework.Base.{◌≢◌, ◌≡◌, refl, ◌↔◌, true, false, [], ◌∷◌, Bytes, arith}
use stumpfworks_framework.Ldap.Ber.{validate_ber_frame, header, element, exhausted}
use stumpfworks_framework.Ldap.Ber.Frames.{IsFrame, validate_ber_frame_iff}
use stumpfworks_framework.Ldap.Ber.Fuel.{element_terminates}

-- A sequence of an integer, and an octet string with a long length.
abbrev pub good_frame : Bytes
good_frame = 0x30 ∷ 8 ∷ 2 ∷ 1 ∷ 5 ∷ 4 ∷ 0x82 ∷ 0 ∷ 1 ∷ 65 ∷ []

-- The inner length reaches past the frame.
abbrev bad_frame : Bytes
bad_frame = 0x30 ∷ 3 ∷ 2 ∷ 2 ∷ 5 ∷ []

pub good_frame_accepted : validate_ber_frame good_frame ≡ true
unfolding validate_ber_frame header
good_frame_accepted = refl

bad_frame_refused : validate_ber_frame bad_frame ≡ false
unfolding validate_ber_frame header
bad_frame_refused = refl

validate_ber_frame_iff_example : (validate_ber_frame good_frame ≡ true) ↔ IsFrame good_frame
validate_ber_frame_iff_example = validate_ber_frame_iff good_frame

element_terminates_example : element 12 good_frame 0 0 ≢ exhausted
element_terminates_example = element_terminates good_frame 12 0 0 (omega arith)
