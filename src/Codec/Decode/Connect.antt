-- ===== src/Codec/Decode/Connect.antt =====
-- `parse_connect` on the body that `encode_connect` writes.
use hotaru_mqtt.Base.{
  ℕ, ◌+◌, ◌≤◌, ◌≡◌, refl, sym, ◌∙◌, [], ◌∷◌, ◌++◌, append-nil, append_assoc, Bool, Option, none,
  some, arith, length, drop, Bytes, str_eq, u8, shr, from_be_bytes, from_be_bytes-to_be_bytes, ok,
  Outcome,
}
use hotaru_mqtt.Error.{MqttError}
use hotaru_mqtt.Packet.{Packet, ConnectPacket, WillPacket}
use hotaru_mqtt.Codec.Primitives.{
  index, slice, read_arc_str, read_bytes, write_arc_str, write_bytes, prefixed,
}
use hotaru_mqtt.Codec.Primitives.RoundTrip.{read_arc_str-prefixed, read_bytes-prefixed}
use hotaru_mqtt.Codec.Encode.{
  connect_flags, connect_header, connect_body, is_some, write_will, write_username, write_password,
}
use hotaru_mqtt.Codec.Decode.{read_if, read_will, parse_connect_payload, parse_connect}
use hotaru_mqtt.Codec.Decode.Flags.{connect_flags-Bits, connect_flags_will}
use hotaru_mqtt.Codec.WellFormed.{Fits, Maybe, IsStr, IsWill, IsConnect}

abbrev opt_bytes : Option Bytes → Bytes
opt_bytes none = []
opt_bytes (some b) = prefixed b

abbrev will_bytes : Option WillPacket → Bytes
will_bytes none = []
will_bytes (some w) = prefixed w.topic ++ prefixed w.payload

write_will-append : (out : Bytes) (w : Option WillPacket) → write_will out w ≡ out ++ will_bytes w
unfolding write_will write_arc_str write_bytes
write_will-append out none = sym (append-nil out)
write_will-append out (some w) = append_assoc out (prefixed w.topic) (prefixed w.payload)

write_username-append : (out : Bytes) (u : Option Bytes) → write_username out u ≡ out ++ opt_bytes u
unfolding write_username write_arc_str
write_username-append out none = sym (append-nil out)
write_username-append out (some u) = refl

write_password-append : (out : Bytes) (p : Option Bytes) → write_password out p ≡ out ++ opt_bytes p
unfolding write_password write_bytes
write_password-append out none = sym (append-nil out)
write_password-append out (some p) = refl

abbrev payload_bytes : ConnectPacket → Bytes
payload_bytes c =
    prefixed c.client_id
    ++ (will_bytes c.will ++ (opt_bytes c.username ++ (opt_bytes c.password ++ [])))

connect_body-append : (c : ConnectPacket) → connect_body c ≡ connect_header c ++ payload_bytes c
unfolding connect_body write_arc_str
connect_body-append c =
    rw (write_password-append, write_username-append, write_will-append, append-nil)
      (simp append_assoc)

-- Where the cursor stands after a field that may be absent.
abbrev pub ReadsTo {ℓ} : {A : Type ℓ} → Outcome MqttError (A × ℕ) → A → Bytes → Bytes → Type ℓ
ReadsTo r a body rest = (c : ℕ) × (r ≡ ok (a, c)) × (drop c body ≡ rest) × (c ≤ length body)

module _ (valid_utf8 : Bytes → Bool) (body : Bytes) where
  read_username :
      (u : Option Bytes) (c : ℕ) (rest : Bytes)
      → drop c body ≡ opt_bytes u ++ rest
      → c ≤ length body
      → Maybe (IsStr valid_utf8) u
      → ReadsTo (read_if (is_some u) (read_arc_str valid_utf8 body c) c) u body rest
  unfolding read_if
  read_username none c rest h hc v = (c, refl, h, hc)
  read_username (some s) c rest h hc v =
      let (found, next, size) = read_arc_str-prefixed body c s rest h v.1 valid_utf8 v.0 in
      (c + 2 + length s, rw found, next, size)

  read_password :
      (p : Option Bytes) (c : ℕ) (rest : Bytes)
      → drop c body ≡ opt_bytes p ++ rest
      → c ≤ length body
      → Maybe Fits p
      → ReadsTo (read_if (is_some p) (read_bytes body c) c) p body rest
  unfolding read_if
  read_password none c rest h hc v = (c, refl, h, hc)
  read_password (some s) c rest h hc v =
      let (found, next, size) = read_bytes-prefixed body c s rest h v in
      (c + 2 + length s, rw found, next, size)

  read_will-prefixed :
      (w : Option WillPacket) (clean user pass : Bool) (c : ℕ) (rest : Bytes)
      → drop c body ≡ will_bytes w ++ rest
      → c ≤ length body
      → Maybe (IsWill valid_utf8) w
      → ReadsTo
          (read_if (is_some w) (read_will valid_utf8 (connect_flags clean w user pass) body c) c)
          w
          body
          rest
  unfolding read_if read_will
  read_will-prefixed none clean user pass c rest h hc v = (c, refl, h, hc)
  read_will-prefixed (some w) clean user pass c rest h hc v =
      let rest1 = prefixed w.payload ++ rest in
      let (found, next, size) =
        read_arc_str-prefixed body c w.topic rest1
          (h ∙ append_assoc (prefixed w.topic) (prefixed w.payload) rest) v.0.1 valid_utf8 v.0.0 in
      let c1 = c + 2 + length w.topic in
      let (found1, next1, size1) = read_bytes-prefixed body c1 w.payload rest next v.1 in
      let (qos, retain) = connect_flags_will clean w user pass in
      (c1 + 2 + length w.payload, rw (found, found1, qos, retain), next1, size1)

  parse_connect_payload_lem :
      (c : ConnectPacket)
      → IsConnect valid_utf8 c
      → drop 10 body ≡ payload_bytes c
      → parse_connect_payload valid_utf8
          (connect_flags c.clean_session c.will (is_some c.username) (is_some c.password))
          c.keep_alive
          body
        ≡ ok (Packet.connect c)
  unfolding parse_connect_payload
  parse_connect_payload_lem c v h =
      let bits =
        connect_flags-Bits c.clean_session c.will (is_some c.username) (is_some c.password) in
      let (found, next, size) =
        read_arc_str-prefixed body 10 c.client_id _ h v.id_str.1 valid_utf8 v.id_str.0 in
      let (c2, found2, next2, size2) =
        read_will-prefixed c.will c.clean_session (is_some c.username) (is_some c.password) _ _ next
          size v.will_ok in
      let (c3, found3, next3, size3) = read_username c.username c2 _ next2 size2 v.user_ok in
      let (c4, found4, next4, size4) = read_password c.password c3 [] next3 size3 v.pass_ok in
      rw
        (found, bits.will_bit, found2, bits.user_bit, found3, bits.pass_bit, found4, bits.clean_bit)

-- The checks of the fixed part pass.
parse_connect_header :
    (valid_utf8 : Bytes → Bool) (flags hi lo : ℕ) (rest : Bytes)
    → let body = 0x00 ∷ 0x04 ∷ b'M' ∷ b'Q' ∷ b'T' ∷ b'T' ∷ 0x04 ∷ flags ∷ hi ∷ lo ∷ rest in
      parse_connect valid_utf8 body
      ≡ parse_connect_payload valid_utf8 flags (from_be_bytes hi lo) body
unfolding parse_connect index slice str_eq
parse_connect_header valid_utf8 flags hi lo rest = ground arith

-- The parser of CONNECT reads back the packet whose body the encoder wrote.
pub parse_connect-connect_body :
    (valid_utf8 : Bytes → Bool) (c : ConnectPacket)
    → IsConnect valid_utf8 c
    → parse_connect valid_utf8 (connect_body c) ≡ ok (Packet.connect c)
unfolding connect_header
parse_connect-connect_body valid_utf8 c v = rw (connect_body-append c) (
    parse_connect_header valid_utf8 _ (u8 (shr c.keep_alive 8)) (u8 c.keep_alive) (payload_bytes c)
    ∙ rw (from_be_bytes-to_be_bytes c.keep_alive v.alive_u16)
        (parse_connect_payload_lem valid_utf8 _ c v refl))
