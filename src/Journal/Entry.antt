-- ===== src/Journal/Entry.antt =====
-- journal/ring_buffer.rs, `Payload` and `BufferEntry`: what goes through the ring. A payload of up to
-- 256 bytes stands inline, a longer one on the heap.
use ai_systems_verification.Base.{
  ℕ, zero, suc, ◌%◌, ◌^◌, ◌≤◌, ◌≡◌, refl, ap, Bool, true, false, List, [], ◌∷◌, arith,
  if◌then◌else◌, leb, ◌==◌, Bool-cases, leb→le, inl, inr, length, take, replicate,
}
use ai_systems_verification.Base.Bytes.{copy_at}

abbrev pub inline_payload_size : ℕ
inline_payload_size = 256

pub data Payload : Type 0 where
  inline : ℕ → List ℕ → Payload
  heap : List ℕ → Payload

unfoldable pub from_slice : List ℕ → Payload
from_slice bytes =
    if leb (length bytes) inline_payload_size
    then inline (length bytes % 2 ^ 16) (copy_at (replicate inline_payload_size 0) 0 bytes)
    else heap bytes

unfoldable pub as_slice : Payload → List ℕ
as_slice (inline len contents) = take len contents
as_slice (heap v) = v

unfoldable pub len : Payload → ℕ
unfolding as_slice
len p = length (as_slice p)

pub is_empty : Payload → Bool
unfolding len
is_empty p = len p == 0

pub is_inline : Payload → Bool
is_inline (inline len contents) = true
is_inline (heap v) = false

pub record BufferEntry : Type 0 where
  pub record_type : ℕ
  pub exchange_id : ℕ
  pub timestamp : ℕ
  pub payload : Payload

unfoldable pub new : ℕ → ℕ → ℕ → List ℕ → BufferEntry
new record_type exchange_id timestamp payload = record {
  record_type = record_type;
  exchange_id = exchange_id;
  timestamp = timestamp;
  payload = from_slice payload;
}

take-copy_at :
    (n : ℕ) (bytes : List ℕ)
    → length bytes ≤ n
    → take (length bytes) (copy_at (replicate n 0) 0 bytes) ≡ bytes
take-copy_at zero [] h = refl
take-copy_at zero (b ∷ bytes) h = absurd (omega arith)
take-copy_at (suc n) [] h = refl
take-copy_at (suc n) (b ∷ bytes) h = ap (◌∷◌ b) (take-copy_at n bytes (omega arith))

-- A payload of any length gives back the bytes that it was made from.
pub as_slice-from_slice : (bytes : List ℕ) → as_slice (from_slice bytes) ≡ bytes
unfolding as_slice from_slice
as_slice-from_slice bytes = elim (Bool-cases (leb (length bytes) inline_payload_size)) [
  | inl short ↦
      let n : length bytes ≤ inline_payload_size = leb→le _ _ short in
      let e : length bytes % 2 ^ 16 ≡ length bytes = omega arith in
      rw (short, e) (take-copy_at inline_payload_size bytes n)
  | inr long ↦ rw long
]
