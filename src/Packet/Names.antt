-- ===== src/Packet/Names.antt =====
-- packet.rs: the texts of packets and return codes.
use hotaru_mqtt.Base.{[], ◌∷◌, Bytes}
use hotaru_mqtt.Packet.{Packet}
use hotaru_mqtt.Packet.ConnackReturnCode.{
  ConnackReturnCode, accepted, unacceptable_protocol_version, identifier_rejected,
  server_unavailable, bad_username_or_password, not_authorized,
}

unfoldable pub name : Packet → Bytes
name (Packet.connect c) = b'C' ∷ b'O' ∷ b'N' ∷ b'N' ∷ b'E' ∷ b'C' ∷ b'T' ∷ []
name (Packet.connack a) = b'C' ∷ b'O' ∷ b'N' ∷ b'N' ∷ b'A' ∷ b'C' ∷ b'K' ∷ []
name (Packet.publish p) = b'P' ∷ b'U' ∷ b'B' ∷ b'L' ∷ b'I' ∷ b'S' ∷ b'H' ∷ []
name (Packet.puback id) = b'P' ∷ b'U' ∷ b'B' ∷ b'A' ∷ b'C' ∷ b'K' ∷ []
name (Packet.pubrec id) = b'P' ∷ b'U' ∷ b'B' ∷ b'R' ∷ b'E' ∷ b'C' ∷ []
name (Packet.pubrel id) = b'P' ∷ b'U' ∷ b'B' ∷ b'R' ∷ b'E' ∷ b'L' ∷ []
name (Packet.pubcomp id) = b'P' ∷ b'U' ∷ b'B' ∷ b'C' ∷ b'O' ∷ b'M' ∷ b'P' ∷ []
name (Packet.subscribe s) = b'S' ∷ b'U' ∷ b'B' ∷ b'S' ∷ b'C' ∷ b'R' ∷ b'I' ∷ b'B' ∷ b'E' ∷ []
name (Packet.suback s) = b'S' ∷ b'U' ∷ b'B' ∷ b'A' ∷ b'C' ∷ b'K' ∷ []
name (Packet.unsubscribe u) =
    b'U' ∷ b'N' ∷ b'S' ∷ b'U' ∷ b'B' ∷ b'S' ∷ b'C' ∷ b'R' ∷ b'I' ∷ b'B' ∷ b'E' ∷ []
name (Packet.unsuback id) = b'U' ∷ b'N' ∷ b'S' ∷ b'U' ∷ b'B' ∷ b'A' ∷ b'C' ∷ b'K' ∷ []
name Packet.pingreq = b'P' ∷ b'I' ∷ b'N' ∷ b'G' ∷ b'R' ∷ b'E' ∷ b'Q' ∷ []
name Packet.pingresp = b'P' ∷ b'I' ∷ b'N' ∷ b'G' ∷ b'R' ∷ b'E' ∷ b'S' ∷ b'P' ∷ []
name Packet.disconnect = b'D' ∷ b'I' ∷ b'S' ∷ b'C' ∷ b'O' ∷ b'N' ∷ b'N' ∷ b'E' ∷ b'C' ∷ b'T' ∷ []

-- `Display for ConnackReturnCode`
unfoldable pub display : ConnackReturnCode → Bytes
display accepted = b'A' ∷ b'c' ∷ b'c' ∷ b'e' ∷ b'p' ∷ b't' ∷ b'e' ∷ b'd' ∷ []
display unacceptable_protocol_version =
    b'U' ∷ b'n' ∷ b'a' ∷ b'c' ∷ b'c' ∷ b'e' ∷ b'p' ∷ b't' ∷ b'a' ∷ b'b' ∷ b'l' ∷ b'e' ∷ 32 ∷ b'P'
    ∷ b'r' ∷ b'o' ∷ b't' ∷ b'o' ∷ b'c' ∷ b'o' ∷ b'l' ∷ 32 ∷ b'V' ∷ b'e' ∷ b'r' ∷ b's' ∷ b'i' ∷ b'o'
    ∷ b'n' ∷ []
display identifier_rejected =
    b'I' ∷ b'd' ∷ b'e' ∷ b'n' ∷ b't' ∷ b'i' ∷ b'f' ∷ b'i' ∷ b'e' ∷ b'r' ∷ 32 ∷ b'R' ∷ b'e' ∷ b'j'
    ∷ b'e' ∷ b'c' ∷ b't' ∷ b'e' ∷ b'd' ∷ []
display server_unavailable =
    b'S' ∷ b'e' ∷ b'r' ∷ b'v' ∷ b'e' ∷ b'r' ∷ 32 ∷ b'U' ∷ b'n' ∷ b'a' ∷ b'v' ∷ b'a' ∷ b'i' ∷ b'l'
    ∷ b'a' ∷ b'b' ∷ b'l' ∷ b'e' ∷ []
display bad_username_or_password =
    b'B' ∷ b'a' ∷ b'd' ∷ 32 ∷ b'U' ∷ b's' ∷ b'e' ∷ b'r' ∷ b'n' ∷ b'a' ∷ b'm' ∷ b'e' ∷ 32 ∷ b'o'
    ∷ b'r' ∷ 32 ∷ b'P' ∷ b'a' ∷ b's' ∷ b's' ∷ b'w' ∷ b'o' ∷ b'r' ∷ b'd' ∷ []
display not_authorized =
    b'N' ∷ b'o' ∷ b't' ∷ 32 ∷ b'A' ∷ b'u' ∷ b't' ∷ b'h' ∷ b'o' ∷ b'r' ∷ b'i' ∷ b'z' ∷ b'e' ∷ b'd'
    ∷ []
