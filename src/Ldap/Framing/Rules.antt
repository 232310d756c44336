-- ===== src/Ldap/Framing/Rules.antt =====
-- directory/ldap/framing.go: what reading a frame off the connection spends and checks, step by step.
use stumpfworks_framework.Base.{
  ℕ, ◌+◌, ◌-◌, ◌≤◌, ◌≡◌, refl, ◌∙◌, Bool, true, false, [], ◌∷◌, ◌++◌, Bytes, length, arith,
  length-append, length-take, Result, ok, err, ltb, ◌==◌, if◌then◌else◌, not,
}
use stumpfworks_framework.Base.{◌%◌, ◌^◌, or_fail, reject_if, ◌||◌}
use stumpfworks_framework.Ldap.Ber.{bit, length_octets, validate_ber_frame}
use stumpfworks_framework.Ldap.Framing.{
  Error, invalid_frame, Framed, M, resume, lift, pure, read_full, fill, read_header, read_frame,
  ◌>>=◌, ◌>>◌,
}

-- At least `n` bytes of the budget are spent between two states, and no frame is stored.
pub record Spends (s : Framed) (n : ℕ) (s' : Framed) : Type 0 where
  pub buffer : s'.buffer ≡ s.buffer
  pub frames : s'.frames ≡ s.frames
  pub budget : s'.conn.remaining + n ≤ s.conn.remaining

abbrev pub Outcome :
    {A : Type 0} → Framed → (A → Framed → Type 0) → Result Error A × Framed → Type 0
Outcome s P (ok a, s') = P a s'
Outcome s P (err e, s') = Spends s 0 s'

resume_rule :
    {A B : Type 0} (s : Framed) (P : A → Framed → Type 0) (Q : B → Framed → Type 0)
    (r : Result Error A × Framed) (f : A → M B)
    → Outcome s P r
    → ((a : A) (s' : Framed) → P a s' → Outcome s Q (f a s'))
    → Outcome s Q (resume r f)
resume_rule s P Q (ok a, s') f h k = k a s' h
resume_rule s P Q (err e, s') f h k = h

pub fill_rule :
    (n : ℕ) (s : Framed) → Outcome s (λ bytes s'. (length bytes ≡ n) × Spends s n s') (fill n s)
unfolding fill read_full
fill_rule n s = ground (arith, length-take n s.conn.incoming)

pub Spends-refl : (s : Framed) → Spends s 0 s
Spends-refl s = record { buffer = refl; frames = refl; budget = omega arith }

pub Spends-trans : (s t u : Framed) (m n : ℕ) → Spends s m t → Spends t n u → Spends s (m + n) u
Spends-trans s t u m n p q = record {
  buffer = q.buffer ∙ p.buffer;
  frames = q.frames ∙ p.frames;
  budget = omega (arith, p.budget, q.budget);
}

pub Spends-le : (s t : Framed) (m n : ℕ) → m ≤ n → Spends s n t → Spends s m t
Spends-le s t m n h p = record {
  buffer = p.buffer;
  frames = p.frames;
  budget = omega (arith, p.budget);
}

-- What holds from a later state holds from an earlier one.
Outcome-after :
    {A : Type 0} (s t : Framed) (n : ℕ) (P Q : A → Framed → Type 0) (r : Result Error A × Framed)
    → Spends s n t
    → ((a : A) (u : Framed) → P a u → Q a u)
    → Outcome t P r
    → Outcome s Q r
Outcome-after s t n P Q (ok a, u) spent k h = k a u h
Outcome-after s t n P Q (err e, u) spent k h =
    Spends-le s u 0 (n + 0) (omega arith) (Spends-trans s t u n 0 spent h)

lift_rule :
    {A : Type 0} (s : Framed) (P : A → Framed → Type 0) (r : Result Error A)
    → ((a : A) → r ≡ ok a → P a s)
    → Outcome s P (lift r s)
lift_rule s P (ok a) h = h a refl
lift_rule s P (err e) h = Spends-refl s

-- The header grows by what is read behind the first two bytes.
abbrev pub HeaderRead : Framed → Bytes × ℕ → Framed → Type 0
HeaderRead s r s' = (k : ℕ) × (length r.0 ≡ 2 + k) × Spends s k s'

long_header_rule :
    (first second : ℕ) (s : Framed)
    → Outcome s (HeaderRead s) (
        resume (fill (second % 128) s) (λ extra.
          lift (or_fail (length_octets 0 extra) invalid_frame) >>= λ len.
          pure (first ∷ second ∷ extra, len)))
long_header_rule first second s =
    resume_rule s (λ extra s'. (length extra ≡ second % 128) × Spends s (second % 128) s')
      (HeaderRead s) (fill (second % 128) s) _ (fill_rule (second % 128) s)
      λ extra t (same, spent).
        Outcome-after s t (second % 128) (HeaderRead s) (HeaderRead s) _ spent (λ a u h. h)
          (resume_rule t (λ len u. Spends s (second % 128) u) (HeaderRead s)
            (lift (or_fail (length_octets 0 extra) invalid_frame) t) _
            (lift_rule t _ (or_fail (length_octets 0 extra) invalid_frame) (λ a e. spent))
            (λ len u h. (length extra, omega arith, (rw same h))))

module _ {A : Type 0} (s : Framed) (Q : A → Framed → Type 0) where
  reject_rule :
      (b : Bool) (e : Error) (m : M A)
      → (b ≡ false → Outcome s Q (m s))
      → Outcome s Q (resume (lift (reject_if b e) s) (λ _. m))
  reject_rule true e m h = Spends-refl s
  reject_rule false e m h = h refl

  if_rule :
      (b : Bool) (m k : M A)
      → Outcome s Q (m s)
      → Outcome s Q (k s)
      → Outcome s Q ((if b then m else k) s)
  if_rule true m k h h' = h
  if_rule false m k h h' = h'

read_header_rule : (prefix : Bytes) (s : Framed) → Outcome s (HeaderRead s) (read_header prefix s)
unfolding read_header
read_header_rule [] s = Spends-refl s
read_header_rule (first ∷ []) s = Spends-refl s
read_header_rule (first ∷ second ∷ third ∷ more) s = Spends-refl s
read_header_rule (first ∷ second ∷ []) s =
    reject_rule s (HeaderRead s) (not (first == 0x30)) invalid_frame _ λ _.
      if_rule s (HeaderRead s) (bit 7 second) _ _
        (reject_rule s (HeaderRead s) (ltb (second % 128) 1 || ltb 4 (second % 128)) invalid_frame _
          λ _. long_header_rule first second s)
        (0, omega arith, Spends-refl s)

-- A frame that is read has been validated, and has been paid for out of the budget.
abbrev pub FrameRead : Framed → Bytes → Framed → Type 0
FrameRead s frame s' = (validate_ber_frame frame ≡ true) × Spends s (length frame) s'

body_rule :
    (s t : Framed) (header : Bytes) (len k : ℕ)
    → length header ≡ 2 + k
    → Spends s (2 + k) t
    → Outcome t (FrameRead s) (
        resume (fill len t) (λ body.
          lift (reject_if (not (validate_ber_frame (header ++ body))) invalid_frame)
          >> pure (header ++ body)))
body_rule s t header len k size spent =
    resume_rule t (λ body u. (length body ≡ len) × Spends t len u) (FrameRead s) (fill len t) _
      (fill_rule len t)
      λ body u (same, spent').
        Outcome-after t u len (FrameRead s) (FrameRead s) _ spent' (λ a w h. h)
          (reject_rule u (FrameRead s) (not (validate_ber_frame (header ++ body))) invalid_frame _
            λ accepted. (
              ground arith,
              Spends-le s u _ (2 + k + len) (omega (arith, length-append header body, same, size))
                  (Spends-trans s t u (2 + k) len spent spent'),
            ))

pub read_frame_rule : (s : Framed) → Outcome s (FrameRead s) (read_frame s)
unfolding read_frame
read_frame_rule s =
    resume_rule s (λ prefix t. (length prefix ≡ 2) × Spends s 2 t) (FrameRead s) (fill 2 s) _
      (fill_rule 2 s)
      λ prefix t (_, spent).
        Outcome-after s t 2 (FrameRead s) (FrameRead s) _ spent (λ a u h. h)
          (resume_rule t (HeaderRead t) (FrameRead s) (read_header prefix t) _
            (read_header_rule prefix t)
            λ r u (k, size, spent').
              Outcome-after t u k (FrameRead s) (FrameRead s) _ spent' (λ a w h. h)
                (reject_rule u (FrameRead s) (ltb (2 ^ 20 - length r.0) r.1) invalid_frame _
                  λ _. body_rule s u r.0 r.1 k size (Spends-trans s t u 2 k spent spent')))
