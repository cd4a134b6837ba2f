-- ===== src/Broker/Reaching.antt =====
-- broker.rs: which connections a PUBLISH reaches.
use hotaru_mqtt.Base.{
  ℕ, zero, suc, ◌+◌, ◌≡◌, ◌≤◌, ◌<◌, ◌↔◌, refl, sym, ap, ◌∙◌, List, [], ◌∷◌, ◌++◌, true, false, none,
  some, inl, inr, ◌⊎◌, ◌==◌, ==_iff, if◌then◌else◌, Bool-cases, Option-cases, Bytes, str_eq,
  str_eq_iff, str_eq_refl, length, length-append, arith,
}
use hotaru_mqtt.Request.Qos.{Qos}
use hotaru_mqtt.Packet.{PublishPacket}
use hotaru_mqtt.Topic.Split.{split}
use hotaru_mqtt.DashMap.{get, contains_key, IsUnique, str_key}
use hotaru_mqtt.DashMap.Laws.{get_of_not_contains_key}
use hotaru_mqtt.Broker.{
  SubscriberEntry, BrokerInner, ConnectionId, SubscriptionTree, or_empty, filter_matches, matching,
  publish,
}
use hotaru_mqtt.Broker.Fanout.{served, served_in, publish_lem}
use hotaru_mqtt.Broker.Table.{qos_of, IsTree}
use hotaru_mqtt.Broker.Invariant.{IsConsistent}
use hotaru_mqtt.Protocol.System.Owner.{id_in, owner}

found_here :
    (b a : Bytes) {V : Type 0} (v : V) (m : List (Bytes × V))
    → str_eq b a ≡ true
    → get a ((b, v) ∷ m) ≡ some v
unfolding get
found_here b a v m e = rw e refl

found_later :
    (b a : Bytes) {V : Type 0} (v : V) (m : List (Bytes × V))
    → str_eq b a ≡ false
    → get a ((b, v) ∷ m) ≡ get a m
unfolding get
found_later b a v m e = rw e refl

-- A key that is found behind the first entry is another one.
later_differs :
    (b a : Bytes) {V : Type 0} (w : V) (m : List (Bytes × V))
    → contains_key b m ≡ false
    → get a m ≡ some w
    → str_eq b a ≡ false
later_differs b a w m new found = elim (Bool-cases (str_eq b a)) [
  | inl e ↦
      let same : b ≡ a = (str_eq_iff b a).0 e in
      let gone : get b m ≡ none = get_of_not_contains_key b m new in
      let found' : get b m ≡ some w = ap (λ k. get k m) same ∙ found in
      absurd (ground (arith, gone, found'))
  | inr e ↦ e
]

split_sum : (m n : ℕ) → 1 ≤ m + n → (1 ≤ m) ⊎ (1 ≤ n)
split_sum zero n h = inr (omega arith)
split_sum (suc m) n h = inl (omega arith)

module _ (source : Bytes) (c : ConnectionId) (sessions : List (Bytes × SubscriberEntry)) where
  -- A client other than the source, with a session over the connection.
  abbrev pub IsServed : Bytes → Type 0
  IsServed k = (str_eq k source ≡ false) × (id_in (get k sessions) ≡ some c)

  served_of : (k : Bytes) → IsServed k → served source k c sessions ≡ 1
  served_of k (other, own) = elim (Option-cases (get k sessions)) [
    | inl e ↦ absurd (ground (arith, e, own))
    | inr (entry, e) ↦
        let at : (entry.connection_id == c) ≡ true =
          (==_iff entry.connection_id c).1 (ground (arith, e, own)) in
        rw (served, other, e, at) refl
  ]

  of_served : (k : Bytes) → 1 ≤ served source k c sessions → IsServed k
  of_served k h = elim (Bool-cases (str_eq k source)) [
    | inl e ↦ absurd (let h' : 1 ≤ 0 = (rw (served, e) at h) in omega arith)
    | inr n ↦ elim (Option-cases (get k sessions)) [
      | inl e ↦ absurd (let h' : 1 ≤ 0 = (rw (served, n, e) at h) in omega arith)
      | inr (entry, e) ↦ elim (Bool-cases (entry.connection_id == c)) [
        | inl at ↦ (n, ap id_in e ∙ ap some ((==_iff entry.connection_id c).0 at))
        | inr other ↦ absurd (let h' : 1 ≤ 0 = (rw (served, n, e, other) at h) in omega arith)
      ]
    ]
  ]

  -- Some subscriber of a set is served.
  abbrev InSet : List (Bytes × Qos) → Type 0
  InSet set = (k : Bytes) × (q : Qos) × (get k set ≡ some q) × IsServed k

  served_in_of : (set : List (Bytes × Qos)) → InSet set → 1 ≤ served_in source set c sessions
  served_in_of [] (k, q, found, s) = absurd (unfold get in ground arith)
  served_in_of ((b, r) ∷ set) (k, q, found, s) = elim (Bool-cases (str_eq b k)) [
    | inl e ↦
        let one : served source b c sessions ≡ 1 =
          ap (λ x. served source x c sessions) ((str_eq_iff b k).0 e) ∙ served_of k s in
        omega (arith, one)
    | inr n ↦
        let rest = served_in_of set (k, q, sym (found_later b k r set n) ∙ found, s) in omega arith
  ]

  of_served_in :
      (set : List (Bytes × Qos)) → IsUnique set → 1 ≤ served_in source set c sessions → InSet set
  of_served_in [] u h = absurd (omega arith)
  of_served_in ((b, r) ∷ set) (new, u) h = elim (split_sum (served source b c sessions) _ h) [
    | inl here ↦ (b, r, found_here b b r set (str_eq_refl b), of_served b here)
    | inr there ↦
        let (k, q, found, s) = of_served_in set u there in
        (k, q, found_later b k r set (later_differs b k q set new found) ∙ found, s)
  ]

  served_in-append :
      (xs ys : List (Bytes × Qos))
      → served_in source (xs ++ ys) c sessions
        ≡ served_in source xs c sessions + served_in source ys c sessions
  served_in-append [] ys = omega arith
  served_in-append ((k, q) ∷ xs) ys = let rest = served_in-append xs ys in omega arith

  module _ (segs : List Bytes) where
    -- A client that is served holds a filter that matches.
    abbrev pub InTree : SubscriptionTree → Type 0
    InTree subs =
        (k : Bytes) × (f : Bytes) × (q : Qos) × (filter_matches f segs ≡ true)
        × (qos_of k f subs ≡ some q)
        × IsServed k

    served_of_InTree :
        (subs : SubscriptionTree)
        → InTree subs
        → 1 ≤ served_in source (matching segs subs) c sessions
    unfolding matching
    served_of_InTree [] (k, f, q, m, h, s) = absurd (unfold get in ground arith)
    served_of_InTree ((g, set) ∷ subs) (k, f, q, m, h, s) = elim (Bool-cases (str_eq g f)) [
      | inl e ↦
          let found : get k set ≡ some q =
            sym (ap (λ o. get k (or_empty o)) (found_here g f set subs e)) ∙ h in
          let m' : filter_matches g segs ≡ true =
            ap (λ x. filter_matches x segs) ((str_eq_iff g f).0 e) ∙ m in
          let some_here = served_in_of set (k, q, found, s) in
          rw (m', served_in-append set (matching segs subs)) (omega arith)
      | inr n ↦
          let h' : qos_of k f subs ≡ some q =
            sym (ap (λ o. get k (or_empty o)) (found_later g f set subs n)) ∙ h in
          let rest = served_of_InTree subs (k, f, q, m, h', s) in
          let here = if filter_matches g segs then set else [] in
          rw (served_in-append here (matching segs subs)) (omega arith)
    ]

    -- A client holds nothing for a filter that is not there.
    held_differs :
        (g k f : Bytes) (q : Qos) (subs : SubscriptionTree)
        → contains_key g subs ≡ false
        → qos_of k f subs ≡ some q
        → str_eq g f ≡ false
    unfolding get
    held_differs g k f q subs new h = elim (Option-cases (get f subs)) [
      | inl e ↦
          let h' : none ≡ some q = sym (ap (λ o. get k (or_empty o)) e) ∙ h in absurd (ground arith)
      | inr (set, e) ↦ later_differs g f set subs new e
    ]

    later-InTree :
        (g : Bytes) (set : List (Bytes × Qos)) (subs : SubscriptionTree)
        → contains_key g subs ≡ false
        → InTree subs
        → InTree ((g, set) ∷ subs)
    later-InTree g set subs new (k, f, q, m, h, s) = (
      k,
      f,
      q,
      m,
      ap (λ o. get k (or_empty o)) (found_later g f set subs (held_differs g k f q subs new h)) ∙ h,
      s,
    )

    of_served-InTree :
        (subs : SubscriptionTree)
        → IsUnique subs
        → IsTree subs
        → 1 ≤ served_in source (matching segs subs) c sessions
        → InTree subs
    unfolding matching
    of_served-InTree [] u t h = absurd (omega arith)
    of_served-InTree ((g, set) ∷ subs) (new, u) (v, t) h =
        elim (Bool-cases (filter_matches g segs)) [
          | inl e ↦
              let h' : 1
                  ≤ served_in source set c sessions
                    + served_in source (matching segs subs) c sessions =
                (rw (e, served_in-append set (matching segs subs)) at h) in
              elim (split_sum (served_in source set c sessions) _ h') [
                | inl here ↦
                    let (k, q, found, s) = of_served_in set v here in
                    (
                      k,
                      g,
                      q,
                      e,
                      ap (λ o. get k (or_empty o)) (found_here g g set subs (str_eq_refl g))
                          ∙ found,
                      s,
                    )
                | inr there ↦ later-InTree g set subs new (of_served-InTree subs u t there)
              ]
          | inr e ↦ later-InTree g set subs new (of_served-InTree subs u t (rw e at h))
        ]

-- On consistent tables, publishing makes the queue of a connection with a live writer longer
-- exactly if some client other than the publisher has its session over that connection and holds
-- a subscription to a filter that matches the topic.
pub publish_reaches :
    (source : Bytes) (p : PublishPacket) (st : BrokerInner) (c : ConnectionId)
    → IsConsistent st
    → (st.channels c).writer_alive ≡ true
    → (length (st.channels c).queue < length ((publish source p st).channels c).queue) ↔ (
        (client : Bytes) × (filter : Bytes) × (q : Qos) × (filter_matches filter (split p.topic)
          ≡ true)
        × (qos_of client filter st.subscriptions ≡ some q)
        × (str_eq client source ≡ false)
        × (owner client st ≡ some c))
publish_reaches source p st c (u, v, t) alive =
    let segs = split p.topic in
    let n = served_in source (matching segs st.subscriptions) c st.sessions in
    let (sent, grown, copies, count, rest) = publish_lem source p st c alive in
    let size : length ((publish source p st).channels c).queue ≡ length (st.channels c).queue + n =
      ap length grown
      ∙ length-append (st.channels c).queue sent
      ∙ ap (λ k. length (st.channels c).queue + k) count in
    (
      λ more.
          let (k, f, q, m, h, (other, own)) =
            of_served-InTree source c st.sessions segs st.subscriptions v t (omega arith) in
          (k, f, q, m, h, other, own),
      λ (k, f, q, m, h, other, own).
          let some_here =
            served_of_InTree source c st.sessions segs st.subscriptions
              (k, f, q, m, h, (other, own)) in
          omega arith,
    )
