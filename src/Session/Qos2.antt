-- ===== src/Session/Qos2.antt =====
-- session.rs: the inbound half of QoS 2, `stash_qos2_publish` and `take_qos2_publish`.
use hotaru_mqtt.Base.{◌≡◌, Option, none, some, ◌==◌, if◌then◌else◌, arith}
use hotaru_mqtt.Request.{PacketId, IncomingPublish}
use hotaru_mqtt.DashMap.{get, insert, IsUnique, nat_key}
use hotaru_mqtt.DashMap.Laws.{get-insert, get-remove, insert-IsUnique}
use hotaru_mqtt.Session.{MqttSession, stash_qos2_publish, take_qos2_publish}

-- What is held for an id.
abbrev pub held : PacketId → MqttSession → Option IncomingPublish
held id s = get id s.qos2_recv

-- On a table with one entry for an id, a stashed PUBLISH is released by the first take of its id
-- and not by a second one, and what is held for other ids stays.
pub take_qos2_publish-stash_qos2_publish :
    (id other : PacketId) (publish : IncomingPublish) (s : MqttSession)
    → IsUnique s.qos2_recv
    → let (released, first) = take_qos2_publish id (stash_qos2_publish id publish s) in
      (first ≡ some publish)
      × ((take_qos2_publish id released).1 ≡ none)
      × (held other released ≡ (if id == other then none else held other s))
unfolding stash_qos2_publish take_qos2_publish
take_qos2_publish-stash_qos2_publish id other publish s u =
    let unique = insert-IsUnique id publish s.qos2_recv u in
    ground (
      arith,
      get-insert id id publish s.qos2_recv,
      get-insert id other publish s.qos2_recv,
      get-remove id id (insert id publish s.qos2_recv) unique,
      get-remove id other (insert id publish s.qos2_recv) unique,
    )
