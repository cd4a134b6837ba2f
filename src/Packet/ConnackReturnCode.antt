-- ===== src/Packet/ConnackReturnCode.antt =====
-- packet.rs: `ConnackReturnCode` and its byte.
use hotaru_mqtt.Base.{ℕ, ◌≡◌, refl, Option, none, some, ◌==◌, if◌then◌else◌}

pub data ConnackReturnCode : Type 0 where
  accepted unacceptable_protocol_version identifier_rejected : ConnackReturnCode
  server_unavailable bad_username_or_password not_authorized : ConnackReturnCode

unfoldable pub as_u8 : ConnackReturnCode → ℕ
as_u8 accepted = 0
as_u8 unacceptable_protocol_version = 1
as_u8 identifier_rejected = 2
as_u8 server_unavailable = 3
as_u8 bad_username_or_password = 4
as_u8 not_authorized = 5

unfoldable pub try_from : ℕ → Option ConnackReturnCode
try_from v =
    if v == 0
    then some accepted
    else if v == 1
    then some unacceptable_protocol_version
    else if v == 2
    then some identifier_rejected
    else if v == 3
    then some server_unavailable
    else if v == 4
    then some bad_username_or_password
    else if v == 5
    then some not_authorized
    else none

pub try_from-as_u8 : (c : ConnackReturnCode) → try_from (as_u8 c) ≡ some c
unfolding try_from as_u8
try_from-as_u8 accepted = refl
try_from-as_u8 _ = refl
