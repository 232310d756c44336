-- ===== src/Oidc/Codec/RoundTrip.antt =====
-- auth/oidc/transaction_codec.go: what `Seal` has sealed, `Open` restores for the same client.
use mathlib.Core.List.{append_assoc}
use stumpfworks_framework.Base.{
  ℕ, ◌+◌, ◌^◌, ◌≤◌, ◌<◌, ◌≡◌, refl, sym, ◌∙◌, ap, inl, inr, true, false, not, ◌∷◌, ◌++◌, Option,
  some, Bytes, length, take, drop, arith, length-append, take-append, drop-append, big_endian,
  to_big_endian, length-to_big_endian, big_endian-to_big_endian, ok, Option-cases,
}
use stumpfworks_framework.Oidc.Base64.{decode_binding}
use stumpfworks_framework.Oidc.Transactions.{Transaction, is_nil}
use stumpfworks_framework.Oidc.Codec.{
  Client, format_version, plain_size, nonce_size, epoch, unix_nano, from_unix_nano,
  valid_transaction_fields, valid_transaction_time, plaintext_of, restore, transaction_aad, seal,
  open_sealed,
}

decode_binding-length :
    (binding decoded : Bytes) → decode_binding binding ≡ some decoded → length binding ≡ 43
unfolding decode_binding
decode_binding-length binding decoded e = ground arith

is_some_lem : (binding : Bytes) → not (is_nil (decode_binding binding)) ≡ true → length binding ≡ 43
is_some_lem binding e = elim (Option-cases (decode_binding binding)) [
  | inl bad ↦ absurd (ground arith)
  | inr (decoded, good) ↦ decode_binding-length binding decoded good
]

-- Each field has 43 bytes.
abbrev HasSizes : Transaction → Type 0
HasSizes t = (length t.state ≡ 43) × (length t.nonce ≡ 43) × (length t.verifier ≡ 43)

valid-HasSizes : (t : Transaction) → valid_transaction_fields t ≡ true → HasSizes t
unfolding valid_transaction_fields
valid-HasSizes t e =
    ground (arith, is_some_lem t.state, is_some_lem t.nonce, is_some_lem t.verifier)

-- The instants that 64 bits of nanoseconds around 1970 can hold: the years 1678 to 2262.
abbrev pub IsUnixNano : ℕ → Type 0
IsUnixNano t = (epoch ≤ t + 2 ^ 63) × (t < epoch + 2 ^ 63)

from_unix_nano-unix_nano : (t : ℕ) → IsUnixNano t → from_unix_nano (unix_nano t) ≡ t
from_unix_nano-unix_nano t h = ground arith

unix_nano-lt : (t : ℕ) → unix_nano t < 256 ^ 8
unix_nano-lt t = omega arith

-- Cutting four parts apart, of which three have 43 bytes.
cut_parts :
    (a b c d : Bytes)
    → length a ≡ 43
    → length b ≡ 43
    → length c ≡ 43
    → let whole = a ++ (b ++ (c ++ d)) in
      (take 43 whole ≡ a)
      × (take 43 (drop 43 whole) ≡ b)
      × (take 43 (drop 86 whole) ≡ c)
      × (drop 129 whole ≡ d)
cut_parts a b c d ha hb hc =
    let two = append_assoc a b (c ++ d) in
    let three = append_assoc (a ++ b) c d in
    let ab : length (a ++ b) ≡ 86 = omega (arith, length-append a b) in
    let abc : length ((a ++ b) ++ c) ≡ 129 = omega (arith, length-append (a ++ b) c, ab) in
    (
      take-append 43 a (b ++ (c ++ d)) ha,
      (rw (drop-append 43 a (b ++ (c ++ d)) ha) (take-append 43 b (c ++ d) hb)),
      (rw (← two, drop-append 86 (a ++ b) (c ++ d) ab) (take-append 43 c d hc)),
      (rw (← two, ← three) (drop-append 129 ((a ++ b) ++ c) d abc)),
    )

restored_time :
    (t : ℕ) (stamp : Bytes)
    → IsUnixNano t
    → stamp ≡ to_big_endian 8 (unix_nano t)
    → from_unix_nano (big_endian 0 stamp) ≡ t
restored_time t stamp h e =
    ap (λ b. from_unix_nano (big_endian 0 b)) e
    ∙ ap from_unix_nano (big_endian-to_big_endian 8 (unix_nano t) (unix_nano-lt t))
    ∙ from_unix_nano-unix_nano t h

restore-plaintext_of :
    (a : ℕ) (t : Transaction)
    → HasSizes t
    → t.used ≡ false
    → t.owner ≡ some a
    → IsUnixNano t.created_at
    → restore a (plaintext_of t) ≡ t
unfolding restore plaintext_of
restore-plaintext_of a t (s, n, v) unused owned range =
    let (state, nonce, verifier, stamp) =
      cut_parts t.state t.nonce t.verifier (to_big_endian 8 (unix_nano t.created_at)) s n v in
    λ i. record {
      owner = sym owned i;
      state = state i;
      nonce = nonce i;
      verifier = verifier i;
      created_at = restored_time t.created_at _ range stamp i;
      used = sym unused i;
    }

length-plaintext_of : (t : Transaction) → HasSizes t → length (plaintext_of t) ≡ plain_size
unfolding plaintext_of
length-plaintext_of t h =
    let stamp = to_big_endian 8 (unix_nano t.created_at) in
    omega (
      arith,
      length-append t.state (t.nonce ++ (t.verifier ++ stamp)),
      length-append t.nonce (t.verifier ++ stamp),
      length-append t.verifier stamp,
      length-to_big_endian 8 (unix_nano t.created_at),
    )

module _ (aead_seal : Bytes → Bytes → Bytes → Bytes)
    (aead_open : Bytes → Bytes → Bytes → Option Bytes) (sha256 : Bytes → Bytes)
    (clients : ℕ → Client)
    (opens : (nonce text aad : Bytes) → aead_open nonce (aead_seal nonce text aad) aad ≡ some text)
    (tagged : (nonce text aad : Bytes) → length (aead_seal nonce text aad) ≡ length text + 16) where
  -- What a `Seal` that succeeds has checked and made.
  record IsSealed (now a : ℕ) (nonce : Bytes) (t : Transaction) (sealed : Bytes) : Type 0 where
    unused : t.used ≡ false
    fields : valid_transaction_fields t ≡ true
    time : valid_transaction_time now t ≡ true
    made :
        sealed
        ≡ format_version
          ∷ (nonce
              ++ aead_seal nonce
                  (plaintext_of t)
                  (transaction_aad aead_seal aead_open sha256 clients a))

  seal-IsSealed :
      (now a : ℕ) (nonce : Bytes) (t : Transaction) (sealed : Bytes)
      → t.owner ≡ some a
      → seal aead_seal aead_open sha256 clients now (some nonce) t ≡ ok sealed
      → IsSealed now a nonce t sealed
  unfolding seal
  seal-IsSealed now a nonce t sealed owned e = record {
    unused = ground arith;
    fields = ground arith;
    time = ground arith;
    made = ground arith;
  }

  -- With an AEAD that opens what it has sealed and adds a tag of 16 bytes: what `Seal` makes of a
  -- transaction with a nonce of 12 bytes, `Open` restores for the same client, field by field, while
  -- the transaction is fresh, if it was created in the years that nanoseconds in 64 bits can hold.
  pub open_sealed-seal :
      (now now' a : ℕ) (nonce : Bytes) (t : Transaction) (sealed : Bytes)
      → t.owner ≡ some a
      → length nonce ≡ nonce_size
      → IsUnixNano t.created_at
      → seal aead_seal aead_open sha256 clients now (some nonce) t ≡ ok sealed
      → valid_transaction_time now' t ≡ true
      → open_sealed aead_seal aead_open sha256 clients now' a sealed ≡ ok t
  unfolding open_sealed
  open_sealed-seal now now' a nonce t sealed owned size range e fresh =
      let aad = transaction_aad aead_seal aead_open sha256 clients a in
      let s = seal-IsSealed now a nonce t sealed owned e in
      let sizes = valid-HasSizes t s.fields in
      let plain = length-plaintext_of t sizes in
      let text = aead_seal nonce (plaintext_of t) aad in
      let total : length (nonce ++ text) ≡ 12 + (plain_size + 16) =
        omega (arith, length-append nonce text, tagged nonce (plaintext_of t) aad, plain) in
      rw
        (
          s.made,
          total,
          take-append nonce_size nonce text size,
          drop-append nonce_size nonce text size,
          opens nonce (plaintext_of t) aad,
          plain,
          restore-plaintext_of a t sizes s.unused owned range,
          s.fields,
          fresh,
        )
        refl
