-- ===== src/Ldap/Framing.antt =====
-- directory/ldap/framing.go, `framedConn.Read`, over the `boundedConn` of directory/ldap/reader.go.
-- A connection is the list of the bytes that the peer still sends before it closes or fails. The
-- unread part of `buffer` is a list; a nil buffer is the empty one.
pub mod Rules
pub mod Delivery
pub mod Tests
use stumpfworks_framework.Base.{
  ℕ, zero, suc, ◌+◌, ◌-◌, ◌%◌, ◌^◌, Bool, true, false, not, ◌||◌, List, [], ◌∷◌, ◌++◌, Bytes,
  length, take, drop, ltb, leb, ◌==◌, if◌then◌else◌, Result, ok, err, or_fail, reject_if,
}
use Prim.Native.Nat.{min}
use stumpfworks_framework.Ldap.Ber.{bit, length_octets, validate_ber_frame, max_frame_bytes}

pub data Error : Type 0 where
  unexpected_eof invalid_frame : Error

-- `boundedConn`: the budget that is left, and what the peer still sends.
pub record Conn : Type 0 where
  pub remaining : ℕ
  pub incoming : Bytes

abbrev response_budget : ℕ
response_budget = 2 ^ 20

-- `boundedConn.Read` into `size` bytes, when the inner connection has `arrived` bytes ready. It hands
-- over at most the bytes it is asked for, as any reader.
unfoldable pub bounded_read : ℕ → ℕ → Conn → Result Error Bytes × Conn
bounded_read arrived size c =
    let asked = if ltb c.remaining size then c.remaining else size in
    let n = min arrived (min asked (length c.incoming)) in
    if c.remaining == 0 then (err unexpected_eof, c) else (
      ok (take n c.incoming),
      record { remaining = c.remaining - n; incoming = drop n c.incoming },
    )

-- `io.ReadFull` over it: all of the `size` bytes, or an error when the budget or the peer's bytes end
-- before.
unfoldable pub read_full : ℕ → Conn → Result Error Bytes × Conn
read_full size c =
    let got = min size (min c.remaining (length c.incoming)) in
    let left : Conn = record { remaining = c.remaining - got; incoming = drop got c.incoming } in
    if got == size then (ok (take size c.incoming), left) else (err unexpected_eof, left)

pub record Framed : Type 0 where
  pub buffer : Bytes
  pub frames : ℕ
  pub conn : Conn

abbrev pub max_frames : ℕ
max_frames = 16

abbrev pub M : Type 0 → Type 0
M A = Framed → Result Error A × Framed

abbrev resume : {A B : Type 0} → Result Error A × Framed → (A → M B) → Result Error B × Framed
resume (ok a, s) f = f a s
resume (err e, s) f = (err e, s)

infixl 5 ◌>>=◌ ◌>>◌
abbrev ◌>>=◌ : {A B : Type 0} → M A → (A → M B) → M B
◌>>=◌ m f s = resume (m s) f

abbrev ◌>>◌ : {B : Type 0} → M (Unit {0}) → M B → M B
m >> k = m >>= λ _. k

abbrev lift : {A : Type 0} → Result Error A → M A
lift r s = (r, s)

abbrev pure : {A : Type 0} → A → M A
pure a s = (ok a, s)

abbrev on_conn : {A : Type 0} → Framed → Result Error A × Conn → Result Error A × Framed
on_conn s (r, c) = (r, record s { conn = c })

pub fill : ℕ → M Bytes
unfolding read_full
fill size s = on_conn s (read_full size s.conn)

-- The header of the next frame and the length that it gives; the argument is `prefix`.
read_header : Bytes → M (Bytes × ℕ)
unfolding fill
read_header (first ∷ second ∷ []) =
    let octets = second % 128 in
    let long = (do
      lift (reject_if (ltb octets 1 || ltb 4 octets) invalid_frame)
      extra ← fill octets
      len ← lift (or_fail (length_octets 0 extra) invalid_frame)
      pure (first ∷ second ∷ extra, len)) in
    do
      lift (reject_if (not (first == 0x30)) invalid_frame)
      if bit 7 second then long else pure (first ∷ second ∷ [], second)
read_header prefix = lift (err invalid_frame)

-- A whole frame, validated.
pub read_frame : M Bytes
unfolding read_header length_octets
read_frame = do
  prefix ← fill 2
  (header, len) ← read_header prefix
  lift (reject_if (ltb (2 ^ 20 - length header) len) invalid_frame)
  body ← fill len
  lift (reject_if (not (validate_ber_frame (header ++ body))) invalid_frame)
  pure (header ++ body)

-- `c.buffer = bytes.NewReader(frame); c.frames++`
store : Bytes → M (Unit {0})
store frame s = (ok tt, record s { buffer = frame; frames = s.frames + 1 })

next_frame : M (Unit {0})
unfolding read_frame store
next_frame = do frame ← read_frame; store frame

-- `c.buffer.Read(p)`
deliver : ℕ → M Bytes
deliver size s = (ok (take size s.buffer), record s { buffer = drop size s.buffer })

-- `framedConn.Read` into `size` bytes.
unfoldable pub read : ℕ → M Bytes
unfolding next_frame deliver
read size s =
    let refilled = (do next_frame; deliver size) s in
    if size == 0
    then (ok [], s)
    else if length s.buffer == 0
    then (if leb max_frames s.frames then (err invalid_frame, s) else refilled)
    else deliver size s

-- `&framedConn{Conn: &boundedConn{Conn: raw, remaining: 1 << 20}}`
unfoldable pub start : Bytes → Framed
start incoming = record {
  buffer = [];
  frames = 0;
  conn = record { remaining = response_budget; incoming = incoming };
}
