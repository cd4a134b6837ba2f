-- ===== src/Broker/Tree.antt =====
-- broker.rs: `SubscriptionTree` and `filter_matches`.
use hotaru_mqtt.Base.{
  List, [], ◌∷◌, ◌++◌, Bool, true, false, Option, none, some, if◌then◌else◌, Bytes, str_eq,
}
use hotaru_mqtt.Request.Qos.{Qos}
use hotaru_mqtt.Topic.{plus_seg, hash_seg}
use hotaru_mqtt.Topic.Split.{split}
use hotaru_mqtt.DashMap.{get, insert, remove, str_key}

-- `SubscriptionTree`: filter to the clients that hold it, each with its qos.
abbrev pub SubscriptionTree : Type 0
SubscriptionTree = List (Bytes × List (Bytes × Qos))

abbrev pub or_empty : Option (List (Bytes × Qos)) → List (Bytes × Qos)
or_empty none = []
or_empty (some set) = set

unfoldable pub tree_subscribe : Bytes → Bytes → Qos → SubscriptionTree → SubscriptionTree
tree_subscribe client filter qos subs =
    insert filter (insert client qos (or_empty (get filter subs))) subs

unfoldable pub tree_unsubscribe : Bytes → Bytes → SubscriptionTree → SubscriptionTree
tree_unsubscribe client filter subs = elim (get filter subs) [
  | none ↦ subs
  | some set ↦ insert filter (remove client set) subs
]

unfoldable pub remove_client : Bytes → SubscriptionTree → SubscriptionTree
remove_client client [] = []
remove_client client ((filter, set) ∷ subs) =
    (filter, remove client set) ∷ remove_client client subs

-- The loop of `filter_matches`. Its two indices advance together, so they are the two lists of
-- segments that are left.
unfoldable pub match_loop : List Bytes → List Bytes → Bool
match_loop [] [] = true
match_loop [] (t ∷ ts) = false
match_loop (seg ∷ fs) [] = str_eq seg hash_seg
match_loop (seg ∷ fs) (t ∷ ts) =
    let rest = match_loop fs ts in
    if str_eq seg hash_seg
    then true
    else if str_eq seg plus_seg
    then rest
    else if str_eq seg t
    then rest
    else false

unfoldable pub filter_matches : Bytes → List Bytes → Bool
filter_matches filter topic_segs = match_loop (split filter) topic_segs

unfoldable pub matching : List Bytes → SubscriptionTree → List (Bytes × Qos)
matching topic_segs [] = []
matching topic_segs ((filter, set) ∷ subs) =
    (if filter_matches filter topic_segs then set else []) ++ matching topic_segs subs
