-- ===== src/Broker/Auth.antt =====
-- broker.rs: `AuthResult` and the authenticators.
use hotaru_mqtt.Base.{Bool, true, false, Option}
use hotaru_mqtt.Packet.{ConnectPacket}
use hotaru_mqtt.Packet.ConnackReturnCode.{ConnackReturnCode}
use hotaru_mqtt.DashMap.{str_key}

pub record AuthResult : Type 0 where
  pub accepted : Bool
  pub return_code : ConnackReturnCode

unfoldable pub accept : AuthResult
accept = record { accepted = true; return_code = ConnackReturnCode.accepted }

unfoldable pub reject : ConnackReturnCode → AuthResult
reject code = record { accepted = false; return_code = code }

-- The answer of an `Authenticator` to a CONNECT from an address of type `Addr`.
abbrev pub Authenticator : Type 0 → Type 0
Authenticator Addr = ConnectPacket → Option Addr → AuthResult

unfoldable pub accept_all_authenticator : {Addr : Type 0} → Authenticator Addr
accept_all_authenticator connect addr = accept

unfoldable pub deny_all_authenticator : {Addr : Type 0} → Authenticator Addr
deny_all_authenticator connect addr = reject ConnackReturnCode.not_authorized
