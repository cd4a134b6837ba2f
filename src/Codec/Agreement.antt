-- ===== src/Codec/Agreement.antt =====
-- codec/mod.rs: the two decoders against each other, and the two encoders of PUBLISH.
use hotaru_mqtt.Base.{
  ℕ, suc, ◌+◌, ◌≤◌, ◌<◌, ◌≡◌, ◌≢◌, refl, ap, ◌∙◌, [], ◌∷◌, ◌++◌, append_assoc, Bool, Option, none,
  some, inl, inr, arith, ltb, ltb→le, ltb→lt, lt→ltb, le→ltb, Bool-cases, length, length-append,
  length-drop, drop-drop, drop-take, ok_or, ◌-◌, take, drop, length-take_of_le, Bytes, shr, Outcome,
  ok, err, panic, ◌>>=◌, map_err, fail_if, to_be_bytes, u16,
}
use hotaru_mqtt.Error.{MqttError, CodecError}
use hotaru_mqtt.Packet.{Packet, PublishPacket, mqtt_spec_max_packet_size}
use hotaru_mqtt.Packet.PacketType.{PacketType, try_from}
use hotaru_mqtt.Codec.Varint.{
  read_exact, read_remaining_length, decode_remaining_length_from_slice, encode_remaining_length,
}
use hotaru_mqtt.Codec.Varint.Agreement.{LengthAgrees, remaining_length_agree}
use hotaru_mqtt.Codec.Primitives.{index, slice, write_arc_str}
use hotaru_mqtt.Codec.Primitives.RoundTrip.{slice_to_end}
use hotaru_mqtt.Codec.Framing.{split_to_lem}
use hotaru_mqtt.Codec.Encode.{
  framed, encode_publish, encode_validated, validate_publish_for_encode, publish_body, id_bytes,
}
use hotaru_mqtt.Codec.Decode.{parse_packet}
use hotaru_mqtt.Codec.Decode.Safety.{parse_packet-ne-panic}
use hotaru_mqtt.Codec.Frame
use hotaru_mqtt.Codec.Frame.{
  read_packet, split_to, split_packet, decode_packet_from_bytes, write_publish_packet,
  write_validated,
}

-- What the stream path does on the bytes on which the buffered path returns `d`. Where the buffer
-- asks for more, the wire ends.
abbrev pub PacketAgrees :
    Bytes
    → ℕ
    → Outcome MqttError (Option Packet × Bytes)
    → Outcome MqttError (Packet × Bytes)
    → Type 0
PacketAgrees wire max_size (ok (none, rest)) r = (r ≡ err MqttError.io) × (rest ≡ wire)
PacketAgrees wire max_size (ok (some p, rest)) r =
    (r ≡ ok (p, rest)) × (length rest < length wire) × (length wire ≤ length rest + 5 + max_size)
PacketAgrees wire max_size (err e) r = r ≡ err e
PacketAgrees wire max_size panic r = ⊥

module _ (valid_utf8 : Bytes → Bool) (max_size first : ℕ) (tail : Bytes) where
  abbrev wire : Bytes
  wire = first ∷ tail

  -- The part of `read_packet` behind the remaining length.
  abbrev read_body : PacketType → ℕ → Bytes → Outcome MqttError (Packet × Bytes)
  read_body t remaining w2 =
      fail_if (ltb max_size remaining) (Frame.too_large remaining max_size) >>= λ _.
      read_exact remaining w2 >>= λ (body, w3).
      parse_packet valid_utf8 first t remaining body >>= λ p. ok (p, w3)

  parsed_agrees :
      (r : Outcome MqttError Packet) (rest : Bytes)
      → length rest < length wire
      → length wire ≤ length rest + 5 + max_size
      → r ≢ panic
      → PacketAgrees wire max_size (r >>= λ p. ok (some p, rest)) (r >>= λ p. ok (p, rest))
  parsed_agrees (ok p) rest low high h = (refl, low, high)
  parsed_agrees (err e) rest low high h = refl
  parsed_agrees panic rest low high h = h refl

  bodies_agree :
      (t : PacketType) (remaining used : ℕ)
      → 1 ≤ used
      → used ≤ 4
      → used ≤ length tail
      → PacketAgrees wire max_size
          (split_packet valid_utf8 wire first t remaining used max_size)
          (read_body t remaining (drop used tail))
  unfolding split_packet read_exact
  bodies_agree t remaining used low four fits = elim (Bool-cases (ltb max_size remaining)) [
    | inl large ↦ rw large refl
    | inr within ↦ elim (Bool-cases (ltb (length wire) (1 + used + remaining))) [
      | inl short ↦
          rw
            (
              within,
              short,
              lt→ltb (length (drop used tail)) remaining
                  (omega (arith, length-drop used tail, ltb→lt _ _ short)),
            )
            (refl, refl)
      | inr whole ↦
          let size : 1 + used + remaining ≤ length wire = ltb→le _ _ whole in
          let body = take remaining (drop used tail) in
          let rest = drop remaining (drop used tail) in
          let next : 1 + used ≡ suc used = omega arith in
          let e : drop (1 + used) wire ≡ drop used tail = ap (λ (k : ℕ). drop k wire) next in
          let cut : drop (1 + used) (take (1 + used + remaining) wire) ≡ body =
            drop-take (1 + used) remaining wire ∙ ap (take remaining) e in
          let left : drop (1 + used + remaining) wire ≡ rest =
            drop-drop (1 + used) remaining wire ∙ ap (drop remaining) e in
          let head = take (1 + used + remaining) wire in
          let held : length head ≡ 1 + used + remaining =
            length-take_of_le (1 + used + remaining) wire size in
          let parts : split_to (1 + used + remaining) wire ≡ ok (head, rest) =
            split_to_lem (1 + used + remaining) wire size ∙ rw left refl in
          let body_cut : slice head (1 + used) (length head) ≡ ok body =
            slice_to_end head (1 + used) body cut (omega arith) in
          let room : length (drop used tail) ≡ length tail - used = length-drop used tail in
          let left_size : length rest ≡ length tail - used - remaining =
            length-drop remaining (drop used tail) ∙ ap (λ (k : ℕ). k - remaining) room in
          let body_size : length body ≡ remaining =
            length-take_of_le remaining (drop used tail) (omega arith) in
          rw
            (
              within,
              whole,
              le→ltb (length (drop used tail)) remaining (omega arith),
              parts,
              body_cut,
            )
            (parsed_agrees (parse_packet valid_utf8 first t remaining body) rest (omega arith)
              (omega (arith, ltb→le max_size remaining within))
              (rw body_size at (parse_packet-ne-panic valid_utf8 first t body)))
    ]
  ]

  lengths_agree :
      (t : PacketType) (m : Outcome MqttError (Option (ℕ × ℕ))) (r : Outcome MqttError (ℕ × Bytes))
      → LengthAgrees tail m r
      → PacketAgrees wire max_size
          (m >>= λ found. elim found [
            | none ↦ ok (none, wire)
            | some (remaining, used) ↦ split_packet valid_utf8 wire first t remaining used max_size
          ])
          (r >>= λ (remaining, w2). read_body t remaining w2)
  lengths_agree t (ok none) r h = rw h (refl, refl)
  lengths_agree t (ok (some (remaining, used))) r (e, low, four, fits) =
      rw e (bodies_agree t remaining used low four fits)
  lengths_agree t (err e) r h = rw h refl
  lengths_agree t panic r h = absurd h

  types_agree :
      (o : Option PacketType) (e : MqttError)
      → 1 ≤ length tail
      → PacketAgrees wire max_size
          (ok_or o e >>= λ t. decode_remaining_length_from_slice tail >>= λ found. elim found [
            | none ↦ ok (none, wire)
            | some (remaining, used) ↦ split_packet valid_utf8 wire first t remaining used max_size
          ])
          (ok_or o e >>= λ t.
            read_remaining_length tail >>= λ (remaining, w2). read_body t remaining w2)
  types_agree none e h = refl
  types_agree (some t) e h = lengths_agree t _ _ (remaining_length_agree tail)

-- On every buffer of at least two bytes the two decoders agree. Where the buffered one returns a
-- packet, the stream one returns it with the same bytes left, and at least one byte and at most
-- five and the cap were taken; where the buffered one waits, it keeps the buffer, and the wire
-- ends for the stream one; where it fails, the stream one fails with the same error.
pub decoders_agree :
    (valid_utf8 : Bytes → Bool) (buf : Bytes) (max_size : ℕ)
    → 2 ≤ length buf
    → PacketAgrees buf max_size
        (decode_packet_from_bytes valid_utf8 buf max_size)
        (read_packet valid_utf8 buf max_size)
unfolding decode_packet_from_bytes read_packet read_exact index
decoders_agree valid_utf8 [] max_size h = absurd (omega arith)
decoders_agree valid_utf8 (first ∷ tail) max_size h =
    rw
      (
        le→ltb (length (first ∷ tail)) 2 h,
        le→ltb (length (first ∷ tail)) 1 (omega arith),
        slice_to_end (first ∷ tail) 1 tail refl (omega arith),
      )
      (types_agree valid_utf8 max_size first tail (try_from (shr first 4)) _ (omega arith))

-- No input makes the buffered decoder panic: no index, slice or split of the buffer is out of
-- bounds.
pub decode_packet_from_bytes-ne-panic :
    (valid_utf8 : Bytes → Bool) (buf : Bytes) (max_size : ℕ)
    → decode_packet_from_bytes valid_utf8 buf max_size ≢ panic
decode_packet_from_bytes-ne-panic valid_utf8 buf max_size = elim (Bool-cases (ltb (length buf) 2)) [
  | inl few ↦ λ e. unfold decode_packet_from_bytes in cc (few, e)
  | inr many ↦
      not_panic buf max_size _ _
        (decoders_agree valid_utf8 buf max_size (ltb→le (length buf) 2 many))
]
  where
    not_panic :
        (buf : Bytes) (max_size : ℕ) (d : Outcome MqttError (Option Packet × Bytes))
        (r : Outcome MqttError (Packet × Bytes))
        → PacketAgrees buf max_size d r
        → d ≢ panic
    not_panic buf max_size (ok (none, rest)) r h = λ e. cc
    not_panic buf max_size (ok (some p, rest)) r h = λ e. cc
    not_panic buf max_size (err x) r h = λ e. cc
    not_panic buf max_size panic r h = absurd h

length-id_bytes : (id : Option ℕ) → length (id_bytes id) ≡ Frame.id_len id
unfolding Frame.id_len
length-id_bytes none = refl
length-id_bytes (some id) = refl

pub length-publish_body :
    (p : PublishPacket) (id : Option ℕ)
    → length (publish_body p id) ≡ 2 + length p.topic + Frame.id_len id + length p.payload
unfolding publish_body write_arc_str
length-publish_body p id = omega (
  arith,
  length-append p.topic (id_bytes id ++ p.payload),
  length-append (id_bytes id) p.payload,
  length-id_bytes id,
)

-- The same bytes in the order of the two encoders.
same_bytes :
    (out : Bytes) (p : PublishPacket) (id : Option ℕ) (first : ℕ)
    → (out
          ++ first
            ∷ (((encode_remaining_length (length (publish_body p id))
                    ++ to_be_bytes (u16 (length p.topic)))
                  ++ p.topic)
                ++ id_bytes id))
        ++ p.payload
      ≡ out ++ framed first (publish_body p id)
unfolding framed publish_body write_arc_str
same_bytes out p id first = simp append_assoc

validated_agree :
    (out : Bytes) (p : PublishPacket) (id : Option ℕ)
    → write_validated out p id
      ≡ (map_err MqttError.codec (encode_validated p id) >>= λ bytes. ok (out ++ bytes))
unfolding write_validated encode_validated
validated_agree out p id =
    rw (← length-publish_body p id)
      (elim (Bool-cases (ltb mqtt_spec_max_packet_size (length (publish_body p id)))) [
        | inl long ↦ rw long
        | inr fits ↦ rw fits (ap ok (same_bytes out p id _))
      ])

bind-map_err :
    (m : Outcome CodecError (Option ℕ)) (f : Option ℕ → Outcome MqttError Bytes)
    (g : Option ℕ → Outcome CodecError Bytes) (k : Bytes → Outcome MqttError Bytes)
    → ((a : Option ℕ) → f a ≡ (map_err MqttError.codec (g a) >>= k))
    → (map_err MqttError.codec m >>= f) ≡ (map_err MqttError.codec (m >>= g) >>= k)
bind-map_err (ok a) f g k h = h a
bind-map_err (err e) f g k h = refl
bind-map_err panic f g k h = refl

-- The two encoders of PUBLISH accept the same packets, refuse the others with the same error, and
-- put the same bytes on the wire.
pub write_publish_packet-encode_publish :
    (out : Bytes) (p : PublishPacket)
    → write_publish_packet out p
      ≡ (map_err MqttError.codec (encode_publish p) >>= λ bytes. ok (out ++ bytes))
unfolding write_publish_packet encode_publish
write_publish_packet-encode_publish out p =
    bind-map_err (validate_publish_for_encode p) _ _ _ (λ id. validated_agree out p id)
