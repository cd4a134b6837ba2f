-- ===== src/Packet/PacketType.antt =====
-- packet.rs: `PacketType`, the number in the high half of the first byte.
use hotaru_mqtt.Base.{ℕ, ◌≡◌, refl, Option, none, some, ◌==◌, if◌then◌else◌}

pub data PacketType : Type 0 where
  connect connack publish puback pubrec pubrel pubcomp : PacketType
  subscribe suback unsubscribe unsuback pingreq pingresp disconnect : PacketType

unfoldable pub as_u8 : PacketType → ℕ
as_u8 connect = 1
as_u8 connack = 2
as_u8 publish = 3
as_u8 puback = 4
as_u8 pubrec = 5
as_u8 pubrel = 6
as_u8 pubcomp = 7
as_u8 subscribe = 8
as_u8 suback = 9
as_u8 unsubscribe = 10
as_u8 unsuback = 11
as_u8 pingreq = 12
as_u8 pingresp = 13
as_u8 disconnect = 14

try_from_high : ℕ → Option PacketType
try_from_high v =
    if v == 8
    then some subscribe
    else if v == 9
    then some suback
    else if v == 10
    then some unsubscribe
    else if v == 11
    then some unsuback
    else if v == 12
    then some pingreq
    else if v == 13
    then some pingresp
    else if v == 14
    then some disconnect
    else none

unfoldable pub try_from : ℕ → Option PacketType
unfolding try_from_high
try_from v =
    if v == 1
    then some connect
    else if v == 2
    then some connack
    else if v == 3
    then some publish
    else if v == 4
    then some puback
    else if v == 5
    then some pubrec
    else if v == 6
    then some pubrel
    else if v == 7
    then some pubcomp
    else try_from_high v

pub try_from-as_u8 : (t : PacketType) → try_from (as_u8 t) ≡ some t
unfolding try_from as_u8
try_from-as_u8 connect = refl
try_from-as_u8 _ = refl
