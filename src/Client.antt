-- ===== src/Client.antt =====
-- client.rs: `MqttClientConfig` and its setters. A duration is in seconds; `H` stands for the type
-- of the user's fallback handler.
use hotaru_mqtt.Base.{ℕ, List, [], ◌∷◌, ◌++◌, Bool, true, Option, none, some, Bytes}
use hotaru_mqtt.Request.{Credentials, WillMessage, TopicFilter}
use hotaru_mqtt.Request.Qos.{Qos}
use hotaru_mqtt.Safety
use hotaru_mqtt.Safety.{MqttSafety}

pub record MqttClientConfig (H : Type 0) : Type 0 where
  pub client_id : Bytes
  pub clean_session : Bool
  pub keep_alive_secs : ℕ
  pub connect_timeout : ℕ
  pub credentials : Option Credentials
  pub initial_subscriptions : List TopicFilter
  pub will : Option WillMessage
  pub default_inbound : Option H
  pub safety : MqttSafety

module _ {H : Type 0} where
  unfoldable pub new : Bytes → MqttClientConfig H
  new client_id = record {
    client_id = client_id;
    clean_session = true;
    keep_alive_secs = 60;
    connect_timeout = 30;
    credentials = none;
    initial_subscriptions = [];
    will = none;
    default_inbound = none;
    safety = Safety.new;
  }

  unfoldable pub with_safety : MqttSafety → MqttClientConfig H → MqttClientConfig H
  with_safety safety config = record config { safety = safety }

  unfoldable pub clean_session : Bool → MqttClientConfig H → MqttClientConfig H
  clean_session value config = record config { clean_session = value }

  unfoldable pub keep_alive : ℕ → MqttClientConfig H → MqttClientConfig H
  keep_alive secs config = record config { keep_alive_secs = secs }

  unfoldable pub connect_timeout : ℕ → MqttClientConfig H → MqttClientConfig H
  connect_timeout t config = record config { connect_timeout = t }

  unfoldable pub with_credentials : Bytes → Bytes → MqttClientConfig H → MqttClientConfig H
  with_credentials username password config = record config {
    credentials = some (record { username = username; password = password });
  }

  unfoldable pub with_initial_subscribe : Bytes → Qos → MqttClientConfig H → MqttClientConfig H
  with_initial_subscribe filter qos config = record config {
    initial_subscriptions =
        config.initial_subscriptions ++ (record { filter = filter; qos = qos } ∷ []);
  }

  unfoldable pub with_will : WillMessage → MqttClientConfig H → MqttClientConfig H
  with_will will config = record config { will = some will }

  unfoldable pub with_default_inbound : H → MqttClientConfig H → MqttClientConfig H
  with_default_inbound handler config = record config { default_inbound = some handler }
