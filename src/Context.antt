-- ===== src/Context.antt =====
-- context.rs: `MqttContext`. A channel is its connection id in the store `chans`. `Node` stands for
-- the router's `UrlNode`, whose search for a named segment is the parameter `match_seg`. `params`
-- and `locals` are the router's, and nothing here reads them.
use hotaru_mqtt.Base.{ℕ, Bool, true, false, Option, none, some, get_elem?, Bytes}
use hotaru_mqtt.Request.{IncomingPublish, MqttRequest, MqttResponse, PublishAck, default_request}
use hotaru_mqtt.Topic.Split.{split}
use hotaru_mqtt.Channel
use hotaru_mqtt.Channel.{MqttChannel, ProtocolRole}

pub record MqttContext (Node : Type 0) : Type 0 where
  pub request : MqttRequest
  pub response : MqttResponse
  pub incoming : Option IncomingPublish
  pub channel : Option ℕ
  pub fanout : Bool
  pub endpoint : Option Node

module _ {Node : Type 0} where
  unfoldable pub default_context : MqttContext Node
  default_context = record {
    request = MqttRequest.publish default_request;
    response = MqttResponse.published PublishAck.sent;
    incoming = none;
    channel = none;
    fanout = true;
    endpoint = none;
  }

  unfoldable pub install_channel : ℕ → MqttContext Node → MqttContext Node
  install_channel c ctx = record ctx { channel = some c }

  unfoldable pub set_incoming : IncomingPublish → MqttContext Node → MqttContext Node
  set_incoming p ctx = record ctx { incoming = some p }

  unfoldable pub set_endpoint : Node → MqttContext Node → MqttContext Node
  set_endpoint node ctx = record ctx { endpoint = some node }

  unfoldable pub should_fanout : MqttContext Node → Bool
  should_fanout ctx = ctx.fanout

  unfoldable pub suppress_fanout : MqttContext Node → MqttContext Node
  suppress_fanout ctx = record ctx { fanout = false }

  unfoldable pub topic : MqttContext Node → Option Bytes
  topic ctx = elim ctx.incoming [ none ↦ none | some p ↦ some p.topic ]

  unfoldable pub payload : MqttContext Node → Option Bytes
  payload ctx = elim ctx.incoming [ none ↦ none | some p ↦ some p.payload ]

  unfoldable pub param : (Node → Bytes → Option ℕ) → Bytes → MqttContext Node → Option Bytes
  unfolding topic
  param match_seg name ctx = elim (topic ctx) [
    | none ↦ none
    | some t ↦ elim ctx.endpoint [
      | none ↦ none
      | some node ↦ elim (match_seg node name) [ none ↦ none | some idx ↦ get_elem? (split t) idx ]
    ]
  ]

  unfoldable pub client_id : (ℕ → MqttChannel) → MqttContext Node → Option Bytes
  client_id chans ctx = elim ctx.channel [ none ↦ none | some c ↦ Channel.client_id (chans c) ]

  unfoldable pub handle_error : MqttContext Node → MqttContext Node
  handle_error ctx = record ctx { fanout = false }

  unfoldable pub role : (ℕ → MqttChannel) → MqttContext Node → ProtocolRole
  role chans ctx = elim ctx.channel [ none ↦ ProtocolRole.client | some c ↦ (chans c).role ]

  unfoldable pub inject_request : MqttRequest → MqttContext Node → MqttContext Node
  inject_request req ctx = record ctx { request = req }

  unfoldable pub into_response : MqttContext Node → MqttResponse
  into_response ctx = ctx.response
