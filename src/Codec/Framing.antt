-- ===== src/Codec/Framing.antt =====
-- codec/mod.rs: the fixed header of a frame, in both decoders.
use hotaru_mqtt.Base.{
  ℕ, suc, ◌+◌, ◌^◌, ◌≤◌, ◌<◌, ◌≡◌, refl, ap, ◌∙◌, List, [], ◌∷◌, ◌++◌, append_assoc, Bool, some,
  arith, le→ltb, length, length-append, take, drop, take-length-append, drop-length-append, Bytes,
  shr, ok, ◌>>=◌,
}
use hotaru_mqtt.Packet.PacketType.{PacketType, try_from}
use hotaru_mqtt.Codec.Varint.{encode_remaining_length, read_exact}
use hotaru_mqtt.Codec.Varint.Groups.{encode_remaining_length-groups, length-groups}
use hotaru_mqtt.Codec.Varint.RoundTrip.{
  decode-encode_remaining_length, read-encode_remaining_length,
}
use hotaru_mqtt.Codec.Primitives.{index}
use hotaru_mqtt.Codec.Primitives.RoundTrip.{slice_to_end}
use hotaru_mqtt.Codec.Encode.{framed}
use hotaru_mqtt.Codec.Decode.{parse_packet}
use hotaru_mqtt.Codec.Frame.{read_packet, split_to, split_packet, decode_packet_from_bytes}

take-append {ℓ} :
    {A : Type ℓ} (xs ys : List A) (n : ℕ) → take (length xs + n) (xs ++ ys) ≡ xs ++ take n ys
take-append [] ys n = ap (λ (k : ℕ). take k ys) (omega arith)
take-append (x ∷ xs) ys n =
    let e : suc (length xs) + n ≡ suc (length xs + n) = omega arith in
    rw e (ap (◌∷◌ x) (take-append xs ys n))

drop-append {ℓ} :
    {A : Type ℓ} (xs ys : List A) (n : ℕ) → drop (length xs + n) (xs ++ ys) ≡ drop n ys
drop-append [] ys n = ap (λ (k : ℕ). drop k ys) (omega arith)
drop-append (x ∷ xs) ys n =
    let e : suc (length xs) + n ≡ suc (length xs + n) = omega arith in rw e (drop-append xs ys n)

-- A split within the buffer.
pub split_to_lem :
    (n : ℕ) (buf : Bytes) → n ≤ length buf → split_to n buf ≡ ok (take n buf, drop n buf)
unfolding split_to
split_to_lem n buf h = rw (le→ltb (length buf) n h) refl

module _ (valid_utf8 : Bytes → Bool) (first : ℕ) (t : PacketType)
    (typed : try_from (shr first 4) ≡ some t) (body rest : Bytes) (max_size : ℕ)
    (within : length body ≤ max_size) (short : length body < 128 ^ 4) where
  framed-append :
      framed first body ++ rest ≡ first ∷ (encode_remaining_length (length body) ++ (body ++ rest))
  unfolding framed
  framed-append = ap (◌∷◌ first) (append_assoc (encode_remaining_length (length body)) body rest)

  abbrev enc : Bytes
  enc = encode_remaining_length (length body)

  abbrev wire : Bytes
  wire = first ∷ (enc ++ (body ++ rest))

  read_packet-wire :
      read_packet valid_utf8 wire max_size
      ≡ (parse_packet valid_utf8 first t (length body) body >>= λ p. ok (p, rest))
  unfolding read_packet read_exact index
  read_packet-wire = rw (
    le→ltb (length wire) 1 (omega arith),
    typed,
    read-encode_remaining_length (length body) (body ++ rest) short,
    le→ltb max_size (length body) within,
    le→ltb (length (body ++ rest)) (length body) (omega (arith, length-append body rest)),
    take-length-append,
    drop-length-append,
  )

  -- The stream path takes the frame off the wire and leaves what follows.
  pub read_packet-framed :
      read_packet valid_utf8 (framed first body ++ rest) max_size
      ≡ (parse_packet valid_utf8 first t (length body) body >>= λ p. ok (p, rest))
  read_packet-framed = rw framed-append read_packet-wire

  split_packet-wire :
      split_packet valid_utf8 wire first t (length body) (length enc) max_size
      ≡ (parse_packet valid_utf8 first t (length body) body >>= λ p. ok (some p, rest))
  unfolding split_packet
  split_packet-wire =
      let head : Bytes = first ∷ enc in
      let total = 1 + length enc + length body in
      let e : total ≡ length head + length body = omega arith in
      let e1 : 1 + length enc ≡ length head = omega arith in
      let size : length wire ≡ suc (length enc + (length body + length rest)) =
        omega (arith, length-append enc (body ++ rest), length-append body rest) in
      let took : take total wire ≡ head ++ body =
        rw (e, take-append head (body ++ rest) (length body))
          (ap (◌++◌ head) (take-length-append body rest)) in
      let left : drop total wire ≡ rest =
        rw (e, drop-append head (body ++ rest) (length body)) (drop-length-append body rest) in
      let parts : split_to total wire ≡ ok (head ++ body, rest) =
        split_to_lem total wire (omega arith) ∙ rw (took, left) refl in
      let cut : drop (1 + length enc) (head ++ body) ≡ body =
        rw e1 (drop-length-append head body) in
      rw (
        le→ltb max_size (length body) within,
        le→ltb (length wire) total (omega arith),
        parts,
        slice_to_end (head ++ body) (1 + length enc) body cut
            (omega (arith, length-append head body)),
      )

  decode_packet_from_bytes-wire :
      decode_packet_from_bytes valid_utf8 wire max_size
      ≡ split_packet valid_utf8 wire first t (length body) (length enc) max_size
  unfolding decode_packet_from_bytes index
  decode_packet_from_bytes-wire =
      let some_bytes : 1 ≤ length enc =
        rw (encode_remaining_length-groups (length body) short)
          ((length-groups 3 (length body)).0) in
      rw (
        le→ltb (length wire) 2 (omega (arith, length-append enc (body ++ rest))),
        typed,
        slice_to_end wire 1 (enc ++ (body ++ rest)) refl (omega arith),
        decode-encode_remaining_length (length body) (body ++ rest) short,
      )

  -- The buffered path splits the frame off the buffer.
  pub decode_packet_from_bytes-framed :
      decode_packet_from_bytes valid_utf8 (framed first body ++ rest) max_size
      ≡ (parse_packet valid_utf8 first t (length body) body >>= λ p. ok (some p, rest))
  decode_packet_from_bytes-framed =
      rw framed-append (decode_packet_from_bytes-wire ∙ split_packet-wire)
