-- ===== src/Oidc/Codec/Binding.antt =====
-- auth/oidc/transaction_codec.go: the data that binds a sealed record to its client.
use native.Mathlib.Nat.{mod-eq_of_lt}
use stumpfworks_framework.Base.{
  ◌%◌, ◌^◌, ◌<◌, ◌≡◌, refl, sym, ◌∙◌, ap, [], ◌++◌, Bytes, length, take, drop, arith, take-append,
  drop-append, big_endian, to_big_endian, length-to_big_endian, big_endian-to_big_endian,
}
use stumpfworks_framework.Oidc.Codec.{Client, aad_parts, aad_input}

abbrev IsShort : Bytes → Type 0
IsShort part = length part < 2 ^ 32

first_length :
    (part : Bytes) (rest : Bytes)
    → IsShort part
    → big_endian 0 (take 4 (to_big_endian 4 (length part % 2 ^ 32) ++ rest)) ≡ length part
first_length part rest h =
    ap (big_endian 0) (
      take-append 4 (to_big_endian 4 (length part % 2 ^ 32)) rest
        (length-to_big_endian 4 (length part % 2 ^ 32)))
    ∙ big_endian-to_big_endian 4 (length part % 2 ^ 32) (omega arith)
    ∙ mod-eq_of_lt h

-- A part is read off the front.
part_split :
    (p q ps qs : Bytes)
    → IsShort p
    → IsShort q
    → to_big_endian 4 (length p % 2 ^ 32) ++ (p ++ ps)
      ≡ to_big_endian 4 (length q % 2 ^ 32) ++ (q ++ qs)
    → (p ≡ q) × (ps ≡ qs)
part_split p q ps qs hp hq e =
    let size : length p ≡ length q =
      sym (first_length p (p ++ ps) hp)
      ∙ ap (λ b. big_endian 0 (take 4 b)) e
      ∙ first_length q (q ++ qs) hq in
    let rests : p ++ ps ≡ q ++ qs =
      sym (
        drop-append 4 (to_big_endian 4 (length p % 2 ^ 32)) (p ++ ps)
          (length-to_big_endian 4 (length p % 2 ^ 32)))
      ∙ ap (drop 4) e
      ∙ drop-append 4 (to_big_endian 4 (length q % 2 ^ 32)) (q ++ qs)
          (length-to_big_endian 4 (length q % 2 ^ 32)) in
    (
      sym (take-append (length p) p ps refl)
          ∙ ap (take (length p)) rests
          ∙ take-append (length p) q qs (sym size),
      sym (drop-append (length p) p ps refl)
          ∙ ap (drop (length p)) rests
          ∙ drop-append (length p) q qs (sym size),
    )

abbrev IsShortClient : Client → Type 0
IsShortClient c = IsShort c.issuer × IsShort c.client_id × IsShort c.redirect_uri

-- Two clients that differ in issuer, client ID or redirect URI, each shorter than 2^32 bytes, hash
-- different bytes into the data that authenticates a record: no field runs over into the next one.
aad_input_injective :
    (c d : Client) → IsShortClient c → IsShortClient d → aad_input c ≡ aad_input d → c ≡ d
unfolding aad_parts
aad_input_injective c d (ci, cn, cr) (di, dc, dr) e =
    let (issuer, e') = part_split c.issuer d.issuer _ _ ci di e in
    let (client_id, e'') = part_split c.client_id d.client_id _ _ cn dc e' in
    let (redirect_uri, _) = part_split c.redirect_uri d.redirect_uri [] [] cr dr e'' in
    λ i. record { issuer = issuer i; client_id = client_id i; redirect_uri = redirect_uri i }
