-- ===== src/Codec/Decode/Flags.antt =====
-- The flag bytes of CONNECT and PUBLISH: what the decoder reads from what the encoder packed.
use Prim.Native.Nat.{bit_or}
use hotaru_mqtt.Base.{ℕ, ◌≡◌, Bool, true, false, some, none, Option, shr, low_bits, has_bit, arith}
use hotaru_mqtt.Request.Qos.{Qos, at_most_once, at_least_once, exactly_once, from_u8}
use hotaru_mqtt.Request.Qos
use hotaru_mqtt.Packet.{WillPacket}
use hotaru_mqtt.Packet.PacketType
use hotaru_mqtt.Codec.Encode.{connect_flags, will_flags, pack_flags, set_flag, is_some, type_byte}

-- The bits of a CONNECT flags byte, from the clean-session bit up.
pub record Bits (flags : ℕ) (clean will user pass : Bool) : Type 0 where
  pub clean_bit : has_bit flags 1 ≡ clean
  pub will_bit : has_bit flags 2 ≡ will
  pub user_bit : has_bit flags 7 ≡ user
  pub pass_bit : has_bit flags 6 ≡ pass

Bits-without_will :
    (clean user pass : Bool)
    → Bits (set_flag pass 0x40 (set_flag user 0x80 (set_flag clean 0x02 0))) clean false user pass
Bits-without_will clean user pass = ground arith

abbrev with_will : Bool → Qos → Bool → Bool → Bool → ℕ
with_will clean q retain user pass =
    set_flag pass 0x40 (set_flag user 0x80 (will_flags q retain (set_flag clean 0x02 0)))

Bits-with_will :
    (q : Qos) (clean retain user pass : Bool)
    → Bits (with_will clean q retain user pass) clean true user pass
      × (from_u8 (low_bits (shr (with_will clean q retain user pass) 3) 2) ≡ some q)
      × (has_bit (with_will clean q retain user pass) 5 ≡ retain)
unfolding will_flags Qos.as_u8 from_u8
Bits-with_will at_most_once clean retain user pass = ground arith
Bits-with_will _ clean retain user pass = ground arith

pub connect_flags-Bits :
    (clean : Bool) (will : Option WillPacket) (user pass : Bool)
    → Bits (connect_flags clean will user pass) clean (is_some will) user pass
unfolding connect_flags
connect_flags-Bits clean none user pass = Bits-without_will clean user pass
connect_flags-Bits clean (some w) user pass = (Bits-with_will w.qos clean w.retain user pass).0

pub connect_flags_will :
    (clean : Bool) (w : WillPacket) (user pass : Bool)
    → (from_u8 (low_bits (shr (connect_flags clean (some w) user pass) 3) 2) ≡ some w.qos)
      × (has_bit (connect_flags clean (some w) user pass) 5 ≡ w.retain)
unfolding connect_flags
connect_flags_will clean w user pass =
    let (_, q, r) = Bits-with_will w.qos clean w.retain user pass in (q, r)

-- The first byte of a PUBLISH.
abbrev pub publish_byte : Bool → Bool → Qos → ℕ
publish_byte dup retain q = bit_or (type_byte PacketType.publish) (pack_flags dup retain q)

abbrev pub raw : Bool → Bool → Qos → ℕ
raw dup retain q = low_bits (publish_byte dup retain q) 4

pub publish_byte_fields :
    (dup retain : Bool) (q : Qos)
    → (PacketType.try_from (shr (publish_byte dup retain q) 4) ≡ some PacketType.publish)
      × (shr (raw dup retain q) 4 ≡ 0)
      × (from_u8 (low_bits (shr (raw dup retain q) 1) 2) ≡ some q)
      × (has_bit (raw dup retain q) 3 ≡ dup)
      × (has_bit (raw dup retain q) 0 ≡ retain)
unfolding pack_flags Qos.as_u8 from_u8 PacketType.as_u8 PacketType.try_from
publish_byte_fields dup retain at_most_once = ground arith
publish_byte_fields dup retain _ = ground arith
