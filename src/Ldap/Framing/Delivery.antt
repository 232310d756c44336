-- ===== src/Ldap/Framing/Delivery.antt =====
-- directory/ldap/framing.go: whatever the peer sends, the bytes that reach the LDAP library come from
-- few, small, validated frames.
use mathlib.Core.List.{append_assoc, append-nil}
use stumpfworks_framework.Base.{
  ℕ, ◌+◌, ◌≤◌, ◌≡◌, refl, sym, ◌∙◌, ap, Bool, true, false, List, [], ◌∷◌, ◌++◌, Bytes, length, take,
  drop, All, arith, length-append, take-append-drop, Result, ok, err, leb, ◌==◌, if◌then◌else◌,
}
use stumpfworks_framework.Ldap.Ber.{validate_ber_frame}
use stumpfworks_framework.Ldap.Framing.{
  Error, Framed, resume, read_frame, store, next_frame, deliver, read, start, max_frames,
  response_budget, ◌>>=◌,
}
use stumpfworks_framework.Ldap.Framing.Rules.{Spends, Outcome, FrameRead, read_frame_rule}

-- The frames, the newest first, as the bytes that they carry in order.
pub joined : List Bytes → Bytes
joined [] = []
joined (frame ∷ older) = joined older ++ frame

-- The bytes handed over so far and those in the buffer are at most 16 frames that each passed
-- `validateBERFrame`, and were paid for out of the budget of 2^20 bytes.
pub record Delivered (out : Bytes) (s : Framed) : Type 0 where
  pub received : List Bytes
  pub split : out ++ s.buffer ≡ joined received
  pub validated : All (λ frame. validate_ber_frame frame ≡ true) received
  pub counted : length received ≡ s.frames
  pub few : s.frames ≤ max_frames
  pub budget : length (out ++ s.buffer) + s.conn.remaining ≤ response_budget

abbrev Step : Bytes → Result Error Bytes × Framed → Type 0
Step out (ok bytes, s) = Delivered (out ++ bytes) s
Step out (err e, s) = Delivered out s

Delivered-Spends :
    (out : Bytes) (s t : Framed) (n : ℕ) → Delivered out s → Spends s n t → Delivered out t
Delivered-Spends out s t n d spent = record {
  received = d.received;
  split = rw (spent.buffer) d.split;
  validated = d.validated;
  counted = d.counted ∙ sym spent.frames;
  few = omega (arith, d.few, spent.frames);
  budget = rw spent.buffer (omega (arith, d.budget, spent.budget));
}

Delivered-store :
    (out frame : Bytes) (s t : Framed)
    → Delivered out s
    → s.buffer ≡ []
    → s.frames + 1 ≤ max_frames
    → FrameRead s frame t
    → Delivered out (record t { buffer = frame; frames = t.frames + 1 })
unfolding joined
Delivered-store out frame s t d empty room (accepted, spent) = record {
  received = frame ∷ d.received;
  split = ap (λ b. b ++ frame) (sym (append-nil out) ∙ (rw empty at d.split));
  validated = (accepted, d.validated);
  counted = omega (arith, d.counted, spent.frames);
  few = omega (arith, room, spent.frames);
  budget =
      omega (arith, d.budget, spent.budget, length-append out frame, length-append out s.buffer);
}

deliver-Step : (out : Bytes) (size : ℕ) (s : Framed) → Delivered out s → Step out (deliver size s)
unfolding deliver
deliver-Step out size s d =
    let same : (out ++ take size s.buffer) ++ drop size s.buffer ≡ out ++ s.buffer =
      append_assoc out _ _ ∙ ap (◌++◌ out) (take-append-drop size s.buffer) in
    record {
      received = d.received;
      split = same ∙ d.split;
      validated = d.validated;
      counted = d.counted;
      few = d.few;
      budget = rw same d.budget;
    }

refill-Step :
    (out : Bytes) (size : ℕ) (s : Framed)
    → Delivered out s
    → s.buffer ≡ []
    → s.frames + 1 ≤ max_frames
    → Step out ((next_frame >>= λ _. deliver size) s)
unfolding next_frame store
refill-Step out size s d empty room = go (read_frame s) (read_frame_rule s)
  where
    go :
        (r : Result Error Bytes × Framed)
        → Outcome s (FrameRead s) r
        → Step out (resume (resume r store) (λ _. deliver size))
    go (ok frame, t) h = deliver-Step out size _ (Delivered-store out frame s t d empty room h)
    go (err e, t) h = Delivered-Spends out s t 0 d h

nil_of_empty : (b : Bytes) → (length b == 0) ≡ true → b ≡ []
nil_of_empty [] e = refl
nil_of_empty (x ∷ b) e = absurd (ground arith)

Step-if :
    (out : Bytes) (b : Bool) (x y : Result Error Bytes × Framed)
    → (b ≡ true → Step out x)
    → (b ≡ false → Step out y)
    → Step out (if b then x else y)
Step-if out true x y h h' = h refl
Step-if out false x y h h' = h' refl

read-Delivered : (out : Bytes) (size : ℕ) (s : Framed) → Delivered out s → Step out (read size s)
unfolding read
read-Delivered out size s d =
    Step-if out (size == 0) _ _ (λ _. rw (append-nil out) d)
      λ _.
        Step-if out (length s.buffer == 0) _ _
          (λ empty.
            Step-if out (leb max_frames s.frames) _ _ (λ _. d)
              (λ room. refill-Step out size s d (nil_of_empty s.buffer empty) (ground arith)))
          (λ _. deliver-Step out size s d)

abbrev collect : Bytes → Result Error Bytes × Framed → Bytes × Framed
collect out (ok bytes, s) = (out ++ bytes, s)
collect out (err e, s) = (out, s)

-- A caller that reads again and again, into buffers of the given sizes, also after an error.
pub read_all : Bytes → List ℕ → Framed → Bytes × Framed
read_all out [] s = (out, s)
read_all out (size ∷ sizes) s = let r = collect out (read size s) in read_all r.0 sizes r.1

collect-Delivered :
    (out : Bytes) (r : Result Error Bytes × Framed)
    → Step out r
    → Delivered (collect out r).0 (collect out r).1
collect-Delivered out (ok bytes, s) h = h
collect-Delivered out (err e, s) h = h

read_all-Delivered :
    (out : Bytes) (sizes : List ℕ) (s : Framed)
    → Delivered out s
    → Delivered (read_all out sizes s).0 (read_all out sizes s).1
unfolding read_all
read_all-Delivered out [] s d = d
read_all-Delivered out (size ∷ sizes) s d =
    read_all-Delivered (collect out (read size s)).0 sizes (collect out (read size s)).1
      (collect-Delivered out (read size s) (read-Delivered out size s d))

start-Delivered : (incoming : Bytes) → Delivered [] (start incoming)
unfolding start joined
start-Delivered incoming = record {
  received = [];
  split = refl;
  validated = tt;
  counted = refl;
  few = omega arith;
  budget = omega arith;
}

-- Whatever a peer sends, and in whatever sizes it is read, also after errors: the bytes handed over,
-- with those in the buffer, are at most 16 whole frames that each passed `validateBERFrame`, and they
-- were paid for out of the budget of 2^20 bytes.
pub read_all_safe :
    (incoming : Bytes) (sizes : List ℕ)
    → let (out, s) = read_all [] sizes (start incoming) in Delivered out s
read_all_safe incoming sizes =
    read_all-Delivered [] sizes (start incoming) (start-Delivered incoming)
