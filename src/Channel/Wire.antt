-- ===== src/Channel/Wire.antt =====
-- channel.rs with codec/mod.rs: what the writer task writes, and what the peer's reader reads of it.
use hotaru_mqtt.Base.{
  ℕ, zero, suc, ◌≡◌, ◌≤◌, refl, sym, ap, ◌∙◌, List, [], ◌∷◌, ◌++◌, map, append-nil, append_assoc,
  length, Bool, Bytes, Outcome, ok, ◌>>=◌, map_err, arith,
}
use hotaru_mqtt.Error.{MqttError, CodecError}
use hotaru_mqtt.Packet.{Packet, mqtt_spec_max_packet_size}
use hotaru_mqtt.Codec.WellFormed.{IsWellFormed, body_of}
use hotaru_mqtt.Codec.Frame.{read_packet, encode_packet, write_packet}
use hotaru_mqtt.Codec.RoundTrip.{decode-encode_packet}
use hotaru_mqtt.Codec.Agreement.{write_publish_packet-encode_publish}
use hotaru_mqtt.Channel.{MqttChannel, WriteCmd, written, writer_recv, writer_step}

-- The command for a packet: a PUBLISH has its own.
abbrev pub command : Packet → WriteCmd
command (Packet.publish p) = WriteCmd.publish p
command p = WriteCmd.packet p

-- So many rounds of the writer.
abbrev pub rounds : ℕ → MqttChannel → MqttChannel
rounds zero ch = ch
rounds (suc n) ch = rounds n (writer_step ch)

-- So many packets from a wire.
abbrev pub read_packets : (Bytes → Bool) → ℕ → ℕ → Bytes → Outcome MqttError (List Packet × Bytes)
read_packets valid_utf8 max_size zero wire = ok ([], wire)
read_packets valid_utf8 max_size (suc n) wire = do
  (p, rest) ← read_packet valid_utf8 wire max_size
  (ps, end) ← read_packets valid_utf8 max_size n rest
  ok (p ∷ ps, end)

command_encoded :
    (p : Packet) (ch : MqttChannel)
    → writer_recv (command p) ch
      ≡ written ch (map_err MqttError.codec (encode_packet p) >>= λ bytes. ok (ch.wire ++ bytes))
unfolding writer_recv encode_packet write_packet
command_encoded (Packet.publish p) ch =
    ap (written ch) (write_publish_packet-encode_publish ch.wire p)
command_encoded _ ch = refl

command_written :
    (p : Packet) (bytes : Bytes) (ch : MqttChannel)
    → encode_packet p ≡ ok bytes
    → writer_recv (command p) ch ≡ record ch { wire = ch.wire ++ bytes }
unfolding written
command_written p bytes ch h =
    command_encoded p ch
    ∙ ap (λ r. written ch (map_err MqttError.codec r >>= λ x. ok (ch.wire ++ x))) h

ok_eq : (a b : Bytes) → ◌≡◌ {A = Outcome CodecError Bytes} (ok a) (ok b) → a ≡ b
ok_eq a b h = ground arith

module _ (valid_utf8 : Bytes → Bool) (max_size : ℕ) where
  -- Packets that the wire format and the peer's cap can carry.
  abbrev pub AllCarried : List Packet → Type 0
  AllCarried [] = Unit {0}
  AllCarried (p ∷ ps) =
      (IsWellFormed valid_utf8 p
        × (length (body_of p) ≤ max_size)
        × (length (body_of p) ≤ mqtt_spec_max_packet_size))
      × AllCarried ps

  -- The bytes of a packet, whatever follows them.
  packet_carried :
      (p : Packet)
      → IsWellFormed valid_utf8 p
      → length (body_of p) ≤ max_size
      → length (body_of p) ≤ mqtt_spec_max_packet_size
      → (bytes : Bytes) × (encode_packet p ≡ ok bytes)
        × ((rest : Bytes) → read_packet valid_utf8 (bytes ++ rest) max_size ≡ ok (p, rest))
  packet_carried p wf within spec =
      let (bytes, encoded, decoded, found) =
        decode-encode_packet valid_utf8 p [] max_size wf within spec in
      (
        bytes,
        encoded,
        λ rest.
            let (bytes', encoded', decoded', found') =
              decode-encode_packet valid_utf8 p rest max_size wf within spec in
            let same : bytes ≡ bytes' = ok_eq bytes bytes' (sym encoded ∙ encoded') in
            ap (λ b. read_packet valid_utf8 (b ++ rest) max_size) same ∙ found',
      )

  -- The bytes of a list of packets: the writer adds them, and the reader takes them.
  abbrev Carries : List Packet → Bytes → Type 0
  Carries ps bytes =
      ((ch : MqttChannel) (more : List WriteCmd)
        → rounds (length ps) (record ch { queue = map command ps ++ more })
          ≡ record ch { queue = more; wire = ch.wire ++ bytes })
      × ((rest : Bytes)
          → read_packets valid_utf8 max_size (length ps) (bytes ++ rest) ≡ ok (ps, rest))

  carries : (ps : List Packet) → AllCarried ps → (bytes : Bytes) × Carries ps bytes
  unfolding writer_step
  carries [] h = (
    [],
    (
      (λ ch more. ap (λ w. record ch { queue = more; wire = w }) (sym (append-nil ch.wire))),
      λ rest. refl,
    ),
  )
  carries (p ∷ ps) ((wf, within, spec), h) =
      let (b, encoded, found) = packet_carried p wf within spec in
      let (bs, carried) = carries ps h in
      (
        b ++ bs,
        (
          (λ ch more.
              ap (rounds (length ps))
                (command_written p b (record ch { queue = map command ps ++ more }) encoded)
              ∙ carried.0 (record ch { wire = ch.wire ++ b }) more
              ∙ ap (λ w. record ch { queue = more; wire = w }) (append_assoc ch.wire b bs)),
          λ rest.
              ap (read_packets valid_utf8 max_size (suc (length ps))) (append_assoc b bs rest)
              ∙ ap
                  (λ r. r >>= λ (q, u).
                    read_packets valid_utf8 max_size (length ps) u >>= λ (qs, v). ok (q ∷ qs, v))
                  (found (bs ++ rest))
              ∙ ap (λ r. r >>= λ (qs, v). ok (p ∷ qs, v)) (carried.1 rest),
        ),
      )

  -- Packets that the wire format, the cap of the reader and the limit of the specification can
  -- carry, queued in front of other commands on an empty wire, are written in as many rounds of
  -- the writer, and reading as many packets from that wire gives them back in order, with nothing
  -- left.
  pub written_is_read :
      (ps : List Packet) (more : List WriteCmd) (ch : MqttChannel)
      → AllCarried ps
      → ch.wire ≡ []
      → ch.queue ≡ map command ps ++ more
      → ((rounds (length ps) ch).queue ≡ more)
        × (read_packets valid_utf8 max_size (length ps) (rounds (length ps) ch).wire ≡ ok (ps, []))
  written_is_read ps more ch h empty queued =
      let (bytes, carried) = carries ps h in
      let done : rounds (length ps) ch ≡ record ch { queue = more; wire = ch.wire ++ bytes } =
        ap (λ q. rounds (length ps) (record ch { queue = q })) queued ∙ carried.0 ch more in
      (
        ap (λ x. x.queue) done,
        ap (λ x. read_packets valid_utf8 max_size (length ps) x.wire) done
            ∙ ap (λ w. read_packets valid_utf8 max_size (length ps) (w ++ bytes)) empty
            ∙ ap (read_packets valid_utf8 max_size (length ps)) (sym (append-nil bytes))
            ∙ carried.1 [],
      )

  abbrev pub IsCarried : Packet → Type 0
  IsCarried p =
      IsWellFormed valid_utf8 p
      × (length (body_of p) ≤ max_size)
      × (length (body_of p) ≤ mqtt_spec_max_packet_size)

  -- One round of the writer, and what the peer reads.
  pub one_written :
      (p : Packet) (ch : MqttChannel)
      → IsCarried p
      → ch.wire ≡ []
      → ch.queue ≡ command p ∷ []
      → (bytes : Bytes) × (writer_step ch ≡ record ch { queue = []; wire = bytes })
        × (read_packet valid_utf8 bytes max_size ≡ ok (p, []))
  unfolding writer_step
  one_written p ch (wf, within, spec) empty queued =
      let (bytes, encoded, found) = packet_carried p wf within spec in
      let at_end : read_packet valid_utf8 bytes max_size ≡ ok (p, []) =
        ap (λ b. read_packet valid_utf8 b max_size) (sym (append-nil bytes)) ∙ found [] in
      (
        bytes,
        ap (λ q. writer_step (record ch { queue = q })) queued
            ∙ command_written p bytes (record ch { queue = [] }) encoded
            ∙ ap (λ w. record ch { queue = []; wire = w ++ bytes }) empty,
        at_end,
      )
