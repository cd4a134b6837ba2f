-- ===== src/Broker/Tables.antt =====
-- broker.rs: the operations on the subscription table, and the uniqueness of its keys.
use hotaru_mqtt.Base.{
  ◌≡◌, refl, ap, ◌∙◌, List, [], ◌∷◌, true, some, inl, inr, if◌then◌else◌, Bool-cases, Option-cases,
  Bytes, str_eq,
}
use hotaru_mqtt.Request.Qos.{Qos}
use hotaru_mqtt.DashMap.{get, insert, remove, contains_key, IsUnique, str_key}
use hotaru_mqtt.DashMap.Laws.{insert-IsUnique, remove-IsUnique}
use hotaru_mqtt.Broker.{
  SubscriberEntry, SubscriptionTree, or_empty, tree_subscribe, tree_unsubscribe, remove_client,
}
use hotaru_mqtt.Broker.Table.{IsTree, get-IsTree}

-- One session for a client, one set for a filter, one entry for a client in a set.
abbrev pub Tables : List (Bytes × SubscriberEntry) → SubscriptionTree → Type 0
Tables sessions subs = IsUnique sessions × IsUnique subs × IsTree subs

insert-IsTree :
    (filter : Bytes) (set : List (Bytes × Qos)) (subs : SubscriptionTree)
    → IsUnique set
    → IsTree subs
    → IsTree (insert filter set subs)
unfolding insert
insert-IsTree filter set [] u us = (u, tt)
insert-IsTree filter set ((f, old) ∷ subs) u (o, us) = elim (Bool-cases (str_eq f filter)) [
  | inl e ↦ rw e (u, us)
  | inr e ↦ rw e (o, insert-IsTree filter set subs u us)
]

pub remove_client-IsTree :
    (client : Bytes) (subs : SubscriptionTree) → IsTree subs → IsTree (remove_client client subs)
unfolding remove_client
remove_client-IsTree client [] u = tt
remove_client-IsTree client ((f, set) ∷ subs) (u, us) =
    (remove-IsUnique client set u, remove_client-IsTree client subs us)

remove_client-contains_key :
    (client f : Bytes) (subs : SubscriptionTree)
    → contains_key f (remove_client client subs) ≡ contains_key f subs
unfolding remove_client contains_key
remove_client-contains_key client f [] = refl
remove_client-contains_key client f ((g, set) ∷ subs) =
    ap (λ b. if str_eq g f then true else b) (remove_client-contains_key client f subs)

pub remove_client-IsUnique :
    (client : Bytes) (subs : SubscriptionTree)
    → IsUnique subs
    → IsUnique (remove_client client subs)
unfolding remove_client
remove_client-IsUnique client [] u = tt
remove_client-IsUnique client ((f, set) ∷ subs) (u, us) =
    (remove_client-contains_key client f subs ∙ u, remove_client-IsUnique client subs us)

pub subscribe-Tables :
    (client filter : Bytes) (q : Qos) (entry : SubscriberEntry)
    (sessions : List (Bytes × SubscriberEntry)) (subs : SubscriptionTree)
    → Tables sessions subs
    → Tables (insert client entry sessions) (tree_subscribe client filter q subs)
unfolding tree_subscribe
subscribe-Tables client filter q entry sessions subs (u, v, w) =
    let old = or_empty (get filter subs) in
    let set = insert client q old in
    (
      insert-IsUnique client entry sessions u,
      insert-IsUnique filter set subs v,
      insert-IsTree filter set subs (insert-IsUnique client q old (get-IsTree filter subs w)) w,
    )

pub unsubscribe-Tables :
    (client filter : Bytes) (entry : SubscriberEntry) (sessions : List (Bytes × SubscriberEntry))
    (subs : SubscriptionTree)
    → Tables sessions subs
    → Tables (insert client entry sessions) (tree_unsubscribe client filter subs)
unfolding tree_unsubscribe
unsubscribe-Tables client filter entry sessions subs (u, v, w) =
    elim (Option-cases (get filter subs)) [
      | inl e ↦ rw (tree_unsubscribe, e) (insert-IsUnique client entry sessions u, v, w)
      | inr (set, e) ↦
          let known : IsUnique (or_empty (get filter subs)) = get-IsTree filter subs w in
          let held : IsUnique (or_empty (some set)) = (rw e at known) in
          rw (tree_unsubscribe, e)
            (
              insert-IsUnique client entry sessions u,
              insert-IsUnique filter (remove client set) subs v,
              insert-IsTree filter (remove client set) subs (remove-IsUnique client set held) w,
            )
    ]
