-- ===== src/Request/SubackCode.antt =====
-- request.rs: `SubackCode` and its byte.
use hotaru_mqtt.Base.{ℕ, ◌≡◌, refl, Option, none, some, ◌==◌, if◌then◌else◌}
use hotaru_mqtt.Request.Qos.{Qos, at_most_once, at_least_once, exactly_once}
use hotaru_mqtt.Request.Qos

pub data SubackCode : Type 0 where
  granted : Qos → SubackCode
  failure : SubackCode

unfoldable pub as_u8 : SubackCode → ℕ
as_u8 (granted q) = Qos.as_u8 q
as_u8 failure = 0x80

unfoldable pub from_u8 : ℕ → Option SubackCode
from_u8 v =
    if v == 0
    then some (granted at_most_once)
    else if v == 1
    then some (granted at_least_once)
    else if v == 2
    then some (granted exactly_once)
    else if v == 0x80
    then some failure
    else none

pub from_u8-as_u8 : (c : SubackCode) → from_u8 (as_u8 c) ≡ some c
unfolding from_u8 as_u8 Qos.as_u8
from_u8-as_u8 (granted at_most_once) = refl
from_u8-as_u8 (granted at_least_once) = refl
from_u8-as_u8 (granted exactly_once) = refl
from_u8-as_u8 failure = refl
