-- ===== src/Codec/Varint/Agreement.antt =====
-- codec/varint.rs on any bytes: the two decoders against each other.
use hotaru_mqtt.Base.{
  ℕ, zero, suc, ◌+◌, ◌*◌, ◌≤◌, ◌<◌, ◌≡◌, refl, [], ◌∷◌, Option, none, some, inl, inr, arith, lt→ltb,
  le→ltb, ◌==◌, Bool-cases, length, drop, low_bits, has_bit, Bytes, Outcome, ok, err, panic,
}
use hotaru_mqtt.Error.{MqttError}
use hotaru_mqtt.Codec.Varint.{
  slice_length_loop, decode_remaining_length_from_slice, read_length_loop, read_remaining_length,
}

-- The count of the slice decoder starts at `i`.
abbrev Shifted :
    ℕ → Bytes → Outcome MqttError (Option (ℕ × ℕ)) → Outcome MqttError (ℕ × Bytes) → Type 0
Shifted i wire (ok none) r = r ≡ err MqttError.io
Shifted i wire (ok (some (n, used))) r =
    (k : ℕ) × (used ≡ i + k) × (r ≡ ok (n, drop k wire)) × (1 ≤ k) × (k ≤ length wire) × (used ≤ 4)
Shifted i wire (err e) r = r ≡ err e
Shifted i wire panic r = ⊥

Shifted-step :
    (i b : ℕ) (wire : Bytes) (m : Outcome MqttError (Option (ℕ × ℕ)))
    (r : Outcome MqttError (ℕ × Bytes))
    → Shifted (i + 1) wire m r
    → Shifted i (b ∷ wire) m r
Shifted-step i b wire (ok none) r h = h
Shifted-step i b wire (ok (some (n, used))) r (k, e, h, low, high, four) =
    (suc k, omega arith, h, omega arith, omega arith, four)
Shifted-step i b wire (err e) r h = h
Shifted-step i b wire panic r h = h

loops_agree :
    (rounds i r m : ℕ) (wire : Bytes)
    → i + rounds ≡ 4
    → 1 ≤ rounds
    → Shifted i wire (slice_length_loop wire i r m) (read_length_loop rounds i r m wire)
unfolding slice_length_loop read_length_loop
loops_agree zero i r m wire h k = absurd (omega arith)
loops_agree (suc rounds) i r m [] h k = refl
loops_agree (suc rounds) i r m (b ∷ wire) h k = elim (Bool-cases (has_bit b 7)) [
  | inr last ↦ rw last (1, refl, refl, omega arith, omega arith, omega arith)
  | inl more ↦ elim (Bool-cases (i == 3)) [
    | inl last ↦ rw (more, le→ltb i 3 (ground arith), last)
    | inr inner ↦
        let below : i < 3 = ground arith in
        rw (more, lt→ltb i 3 below, inner)
          (Shifted-step i b wire _ _ (
            loops_agree rounds (i + 1) (r + low_bits b 7 * m) (m * 128) wire (omega arith)
              (omega arith)))
  ]
]

-- On any bytes the stream decoder does what the slice decoder says: the same length with the
-- bytes behind it, the same error, or an I/O error where the slice decoder asks for more; the
-- length takes one to four bytes, and neither panics.
abbrev pub LengthAgrees :
    Bytes → Outcome MqttError (Option (ℕ × ℕ)) → Outcome MqttError (ℕ × Bytes) → Type 0
LengthAgrees wire (ok none) r = r ≡ err MqttError.io
LengthAgrees wire (ok (some (n, used))) r =
    (r ≡ ok (n, drop used wire)) × (1 ≤ used) × (used ≤ 4) × (used ≤ length wire)
LengthAgrees wire (err e) r = r ≡ err e
LengthAgrees wire panic r = ⊥

from_Shifted :
    (wire : Bytes) (m : Outcome MqttError (Option (ℕ × ℕ))) (r : Outcome MqttError (ℕ × Bytes))
    → Shifted 0 wire m r
    → LengthAgrees wire m r
from_Shifted wire (ok none) r h = h
from_Shifted wire (ok (some (n, used))) r (k, e, h, low, high, four) =
    let same : used ≡ k = omega arith in (rw same h, omega arith, four, omega arith)
from_Shifted wire (err e) r h = h
from_Shifted wire panic r h = h

-- The two decoders of the remaining length agree: where the one over a slice finds a length, the
-- stream one reads the same length and the same bytes, between one and four; where it asks for
-- more, the wire ends; where it fails, so does the other, with the same error.
pub remaining_length_agree :
    (wire : Bytes)
    → LengthAgrees wire (decode_remaining_length_from_slice wire) (read_remaining_length wire)
unfolding decode_remaining_length_from_slice read_remaining_length
remaining_length_agree wire =
    from_Shifted wire _ _ (loops_agree 4 0 0 1 wire (omega arith) (omega arith))
