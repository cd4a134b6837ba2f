-- ===== src/Broker/Fanout.antt =====
-- broker.rs `publish`: what a PUBLISH leaves in the queue of each connection.
use hotaru_mqtt.Base.{
  ℕ, ◌+◌, ◌≡◌, ◌≢◌, inl, inr, ◌≤◌, ◌<◌, refl, sym, ap, ◌∙◌, List, [], ◌∷◌, ◌++◌, append-nil,
  append_assoc, true, false, Option, none, some, arith, ◌==◌, ltb, if◌then◌else◌, Bool-cases,
  Option-cases, Bytes, str_eq, length, length-append, All, ==_iff,
}
use hotaru_mqtt.Request.Qos.{Qos, as_u8, min_qos, min_qos-le, at_most_once}
use hotaru_mqtt.Packet.{PublishPacket}
use hotaru_mqtt.Topic.Split.{split}
use hotaru_mqtt.DashMap.{get, str_key}
use hotaru_mqtt.Session.{MqttSession, allocate_packet_id}
use hotaru_mqtt.Session.Ids.{given, allocate_packet_id_lem}
use hotaru_mqtt.Channel.{MqttChannel, WriteCmd, send_publish}
use hotaru_mqtt.Broker.{
  BrokerInner, SubscriberEntry, ConnectionId, matching, adjust, deliver, publish_one, publish_loop,
  publish,
}

-- The packet id of a message: none at qos 0, else one that MQTT allows.
abbrev pub IdFits : Qos → Option ℕ → Type 0
IdFits q none = q ≡ at_most_once
IdFits q (some id) = (q ≢ at_most_once) × (1 ≤ id) × (id < 65536)

-- What a subscriber may be sent for `packet`.
abbrev pub IsCopy : PublishPacket → PublishPacket → Type 0
IsCopy packet out =
    (out.topic ≡ packet.topic)
    × (out.payload ≡ packet.payload)
    × (out.dup ≡ false)
    × (out.retain ≡ false)
    × (as_u8 out.qos ≤ as_u8 packet.qos)
    × IdFits out.qos out.packet_id

abbrev pub IsCopyCmd : PublishPacket → WriteCmd → Type 0
IsCopyCmd packet (WriteCmd.packet p) = ⊥
IsCopyCmd packet WriteCmd.flush = ⊥
IsCopyCmd packet WriteCmd.shutdown = ⊥
IsCopyCmd packet (WriteCmd.publish out) = IsCopy packet out

-- Whether the subscriber `sub_id` is served over the connection `c`.
abbrev pub served : Bytes → Bytes → ConnectionId → List (Bytes × SubscriberEntry) → ℕ
served source sub_id c sessions = if str_eq sub_id source then 0 else elim (get sub_id sessions) [
  | none ↦ 0
  | some entry ↦ if entry.connection_id == c then 1 else 0
]

-- How many of the subscriptions are.
abbrev pub served_in :
    Bytes → List (Bytes × Qos) → ConnectionId → List (Bytes × SubscriberEntry) → ℕ
served_in source [] c sessions = 0
served_in source ((sub_id, q) ∷ rest) c sessions =
    served source sub_id c sessions + served_in source rest c sessions

IdFits-zero : (q : Qos) → ltb 0 (as_u8 q) ≡ false → IdFits q none
unfolding as_u8
IdFits-zero q h = ground arith

IdFits-some : (q : Qos) (id : ℕ) → ltb 0 (as_u8 q) ≡ true → 1 ≤ id → id < 65536 → IdFits q (some id)
unfolding as_u8
IdFits-some q id h lo hi = ground arith

adjust-IsCopy :
    (packet : PublishPacket) (q : Qos) (s : MqttSession) → IsCopy packet (adjust packet q s).1
unfolding adjust allocate_packet_id
adjust-IsCopy packet q s =
    let (lo, hi, n) = allocate_packet_id_lem s in
    elim (Bool-cases (ltb 0 (as_u8 (min_qos packet.qos q)))) [
      | inl e ↦
          rw (adjust, e)
            (
              refl,
              refl,
              refl,
              refl,
              (min_qos-le packet.qos q).0,
              IdFits-some (min_qos packet.qos q) (given s) e lo hi,
            )
      | inr e ↦
          rw (adjust, e)
            (
              refl,
              refl,
              refl,
              refl,
              (min_qos-le packet.qos q).0,
              IdFits-zero (min_qos packet.qos q) e,
            )
    ]

-- The queue `after` holds `n` copies of `packet` more than `before`.
abbrev pub Gains : PublishPacket → ℕ → MqttChannel → MqttChannel → Type 0
Gains packet n before after =
    (sent : List WriteCmd) × (after.queue ≡ before.queue ++ sent)
    × All (IsCopyCmd packet) sent
    × (length sent ≡ n)
    × (after.writer_alive ≡ before.writer_alive)

Gains-none : (packet : PublishPacket) (ch : MqttChannel) → Gains packet 0 ch ch
Gains-none packet ch = ([], sym (append-nil ch.queue), tt, refl, refl)

deliver-Gains :
    (packet : PublishPacket) (q : Qos) (ch : MqttChannel)
    → ch.writer_alive ≡ true
    → Gains packet 1 ch (deliver packet q ch)
unfolding deliver send_publish
deliver-Gains packet q ch h = rw h (
  WriteCmd.publish (adjust packet q ch.session).1 ∷ [],
  refl,
  (adjust-IsCopy packet q ch.session, tt),
  refl,
  refl,
)

All-append :
    (packet : PublishPacket) (xs ys : List WriteCmd)
    → All (IsCopyCmd packet) xs
    → All (IsCopyCmd packet) ys
    → All (IsCopyCmd packet) (xs ++ ys)
All-append packet [] ys a b = b
All-append packet (x ∷ xs) ys (h, a) b = (h, All-append packet xs ys a b)

Gains-cong :
    (packet : PublishPacket) (m n : ℕ) (a b : MqttChannel)
    → m ≡ n
    → Gains packet m a b
    → Gains packet n a b
Gains-cong packet m n a b e (xs, ex, ax, lx, wx) = (xs, ex, ax, lx ∙ e, wx)

Gains-trans :
    (packet : PublishPacket) (m n : ℕ) (a b c : MqttChannel)
    → Gains packet m a b
    → Gains packet n b c
    → Gains packet (m + n) a c
Gains-trans packet m n a b c (xs, ex, ax, lx, wx) (ys, ey, ay, ly, wy) = (
  xs ++ ys,
  ey ∙ (rw ex (append_assoc a.queue xs ys)),
  All-append packet xs ys ax ay,
  omega (arith, length-append xs ys, lx, ly),
  wy ∙ wx,
)

pub publish_one-sessions :
    (source : Bytes) (packet : PublishPacket) (sub_id : Bytes) (q : Qos) (st : BrokerInner)
    → ((publish_one source packet sub_id q st).sessions ≡ st.sessions)
      × ((publish_one source packet sub_id q st).subscriptions ≡ st.subscriptions)
unfolding publish_one
publish_one-sessions source packet sub_id q st = elim (Bool-cases (str_eq sub_id source)) [
  | inl e ↦ rw e (refl, refl)
  | inr n ↦ elim (Option-cases (get sub_id st.sessions)) [
    | inl e ↦ rw (n, e) (refl, refl)
    | inr (entry, e) ↦ rw (n, e) (refl, refl)
  ]
]

publish_one-Gains :
    (source : Bytes) (packet : PublishPacket) (sub_id : Bytes) (q : Qos) (st : BrokerInner)
    (c : ConnectionId)
    → (st.channels c).writer_alive ≡ true
    → Gains packet
        (served source sub_id c st.sessions)
        (st.channels c)
        ((publish_one source packet sub_id q st).channels c)
unfolding publish_one
publish_one-Gains source packet sub_id q st c h = elim (Bool-cases (str_eq sub_id source)) [
  | inl e ↦ rw (served, e) (Gains-none packet (st.channels c))
  | inr n ↦ elim (Option-cases (get sub_id st.sessions)) [
    | inl e ↦ rw (served, n, e) (Gains-none packet (st.channels c))
    | inr (entry, e) ↦ elim (Bool-cases (entry.connection_id == c)) [
      | inl same ↦
          let at : entry.connection_id ≡ c = (==_iff entry.connection_id c).0 same in
          rw (served, n, e, same, at) (deliver-Gains packet q (st.channels c) h)
      | inr other ↦ rw (served, n, e, other) (Gains-none packet (st.channels c))
    ]
  ]
]

pub publish_loop-frame :
    (source : Bytes) (packet : PublishPacket) (subs : List (Bytes × Qos)) (st : BrokerInner)
    → ((publish_loop source packet subs st).sessions ≡ st.sessions)
      × ((publish_loop source packet subs st).subscriptions ≡ st.subscriptions)
unfolding publish_loop
publish_loop-frame source packet [] st = (refl, refl)
publish_loop-frame source packet ((sub_id, q) ∷ rest) st =
    let (s, t) = publish_one-sessions source packet sub_id q st in
    let (s', t') = publish_loop-frame source packet rest (publish_one source packet sub_id q st) in
    (s' ∙ s, t' ∙ t)

publish_loop-Gains :
    (source : Bytes) (packet : PublishPacket) (subs : List (Bytes × Qos)) (st : BrokerInner)
    (c : ConnectionId)
    → (st.channels c).writer_alive ≡ true
    → Gains packet
        (served_in source subs c st.sessions)
        (st.channels c)
        ((publish_loop source packet subs st).channels c)
unfolding publish_loop
publish_loop-Gains source packet [] st c h = Gains-none packet (st.channels c)
publish_loop-Gains source packet ((sub_id, q) ∷ rest) st c h =
    let st' = publish_one source packet sub_id q st in
    let one = publish_one-Gains source packet sub_id q st c h in
    let (sessions, t) = publish_one-sessions source packet sub_id q st in
    let loop = publish_loop-Gains source packet rest st' c (one.4 ∙ h) in
    Gains-trans packet (served source sub_id c st.sessions) (served_in source rest c st.sessions)
      (st.channels c) (st'.channels c) ((publish_loop source packet rest st').channels c) one
      (Gains-cong packet (served_in source rest c st'.sessions)
        (served_in source rest c st.sessions) (st'.channels c)
        ((publish_loop source packet rest st').channels c)
        (ap (λ x. served_in source rest c x) sessions) loop)

-- Publishing appends to the queue of a connection whose writer is alive one message for each
-- matching subscription that is served over it, the publisher's own left out, and nothing else;
-- each is a copy with the topic and payload of the original, not dup, not retain, a qos no higher
-- than the original's, and a packet id from 1 to 65535 exactly when the qos is above 0.
pub publish_lem :
    (source : Bytes) (packet : PublishPacket) (st : BrokerInner) (c : ConnectionId)
    → (st.channels c).writer_alive ≡ true
    → Gains packet
        (served_in source (matching (split packet.topic) st.subscriptions) c st.sessions)
        (st.channels c)
        ((publish source packet st).channels c)
unfolding publish
publish_lem source packet st c h =
    publish_loop-Gains source packet (matching (split packet.topic) st.subscriptions) st c h

-- Both tables stay as they are.
pub publish-frame :
    (source : Bytes) (packet : PublishPacket) (st : BrokerInner)
    → ((publish source packet st).sessions ≡ st.sessions)
      × ((publish source packet st).subscriptions ≡ st.subscriptions)
unfolding publish
publish-frame source packet st =
    publish_loop-frame source packet (matching (split packet.topic) st.subscriptions) st
