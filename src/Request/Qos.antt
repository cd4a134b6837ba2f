-- ===== src/Request/Qos.antt =====
-- request.rs: `QoS`, its byte, and its order.
use hotaru_mqtt.Base.{
  ℕ, ◌≤◌, ◌<◌, ◌≡◌, refl, Bool, Option, none, some, arith, ◌==◌, ltb, if◌then◌else◌,
}

pub data Qos : Type 0 where
  at_most_once at_least_once exactly_once : Qos

unfoldable pub as_u8 : Qos → ℕ
as_u8 at_most_once = 0
as_u8 at_least_once = 1
as_u8 exactly_once = 2

unfoldable pub from_u8 : ℕ → Option Qos
from_u8 v =
    if v == 0
    then some at_most_once
    else if v == 1
    then some at_least_once
    else if v == 2
    then some exactly_once
    else none

-- The derived equality and order.
unfoldable pub eq : Qos → Qos → Bool
unfolding as_u8
eq a b = as_u8 a == as_u8 b

unfoldable pub min_qos : Qos → Qos → Qos
unfolding as_u8
min_qos a b = if ltb (as_u8 b) (as_u8 a) then b else a

pub from_u8-as_u8 : (q : Qos) → from_u8 (as_u8 q) ≡ some q
unfolding from_u8 as_u8
from_u8-as_u8 at_most_once = refl
from_u8-as_u8 at_least_once = refl
from_u8-as_u8 exactly_once = refl

pub as_u8-lt : (q : Qos) → as_u8 q < 3
unfolding as_u8
as_u8-lt at_most_once = omega arith
as_u8-lt at_least_once = omega arith
as_u8-lt exactly_once = omega arith

pub min_qos-le : (a b : Qos) → (as_u8 (min_qos a b) ≤ as_u8 a) × (as_u8 (min_qos a b) ≤ as_u8 b)
unfolding min_qos
min_qos-le a b = ground arith
