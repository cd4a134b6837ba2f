-- ===== src/Tests/Topic.antt =====
-- The theorems on topics at concrete filters.
use hotaru_mqtt.Base.{ℕ, ◌≡◌, refl, List, [], ◌∷◌, map, false, str_eq, is_empty, All, ok}
use hotaru_mqtt.Topic.{
  has_wildcard, PathPattern, literal, any, parse_subscribe_filter, parse_publish_topic,
  path_to_wire_filter, check_length, parse_filter_loop, parse_segment, parse_topic_loop,
}
use hotaru_mqtt.Topic.Split.{split, contains}
use hotaru_mqtt.Topic.Wire.{
  path_to_wire_filter-parse_subscribe_filter, parse_publish_topic_is_filter,
}
use hotaru_mqtt.DashMap.{nat_key, str_key}
use hotaru_mqtt.Tests.Data.{room_topic, room_filter}

abbrev room_patterns : List (PathPattern ℕ)
room_patterns = literal (b'a' ∷ []) ∷ any ∷ []

room_filter_parses : parse_subscribe_filter {R = ℕ} room_filter ≡ ok room_patterns
unfolding parse_subscribe_filter parse_filter_loop parse_segment check_length split contains str_eq
    is_empty
room_filter_parses = refl

path_to_wire_filter-parse_subscribe_filter_example : path_to_wire_filter room_patterns ≡ room_filter
path_to_wire_filter-parse_subscribe_filter_example =
    path_to_wire_filter-parse_subscribe_filter ℕ room_filter room_patterns room_filter_parses

abbrev room_literals : List (PathPattern ℕ)
room_literals = literal (b'a' ∷ []) ∷ literal (b'b' ∷ []) ∷ []

room_topic_parses : parse_publish_topic {R = ℕ} room_topic ≡ ok room_literals
unfolding parse_publish_topic parse_topic_loop check_length split contains is_empty
room_topic_parses = refl

parse_publish_topic_is_filter_example :
    (parse_subscribe_filter {R = ℕ} room_topic ≡ ok room_literals)
    × (room_literals ≡ map literal (split room_topic))
    × All (λ seg. has_wildcard seg ≡ false) (split room_topic)
    × (path_to_wire_filter {R = ℕ} room_literals ≡ room_topic)
parse_publish_topic_is_filter_example =
    parse_publish_topic_is_filter ℕ room_topic room_literals room_topic_parses
