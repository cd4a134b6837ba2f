-- ===== src/Topic.antt =====
-- topic.rs: filters and topics. A `str` is the list of its UTF-8 bytes; `/`, `+` and `#` are
-- ASCII, so splitting and searching by bytes is splitting and searching by characters. The
-- payload of a `Regex` pattern of the router is the parameter `R`.
pub mod Split
pub mod Wire
pub mod Checks
use hotaru_mqtt.Base.{
  ℕ, ◌+◌, ◌-◌, List, [], ◌∷◌, ◌++◌, map, Bool, true, false, not, ◌||◌, ltb, ◌==◌, if◌then◌else◌,
  length, is_empty, Bytes, str_eq, Outcome, ok, err, ◌>>=◌, ◌>>◌, fail_if,
}
use hotaru_mqtt.Error.{MqttError, Violation}
use Split.{split, join, contains}

-- `hotaru_core::url::PathPattern`, as this crate builds and matches it.
pub data PathPattern (R : Type 0) : Type 0 where
  literal : Bytes → PathPattern R
  any any_path : PathPattern R
  regex : R → PathPattern R

abbrev pub max_topic_len : ℕ
max_topic_len = 65535

abbrev pub plus_seg : Bytes
plus_seg = b'+' ∷ []

abbrev pub hash_seg : Bytes
hash_seg = b'#' ∷ []

abbrev pub violation : Violation → MqttError
violation = MqttError.protocol

-- The two tests that each of the four functions begins with.
unfoldable pub check_length : Bytes → Outcome MqttError (Unit {0})
check_length s = do
  fail_if (is_empty s) (violation Violation.empty_topic)
  fail_if (ltb max_topic_len (length s)) (violation Violation.topic_too_long)

abbrev pub has_wildcard : Bytes → Bool
has_wildcard seg = contains b'+' seg || contains b'#' seg

module _ {R : Type 0} where
  -- One segment of a filter: the `match *seg`.
  unfoldable pub parse_segment : Bytes → ℕ → ℕ → Outcome MqttError (PathPattern R)
  parse_segment seg i last_idx =
      if str_eq seg plus_seg
      then ok any
      else if str_eq seg hash_seg
      then if i == last_idx
        then ok any_path
        else err (violation Violation.hash_wildcard_not_terminal)
      else if has_wildcard seg
      then err (violation Violation.wildcard_mixed_with_literal)
      else ok (literal seg)

  -- The loop over `segments.iter().enumerate()`.
  unfoldable pub parse_filter_loop :
      List Bytes → ℕ → ℕ → List (PathPattern R) → Outcome MqttError (List (PathPattern R))
  parse_filter_loop [] i last_idx patterns = ok patterns
  parse_filter_loop (seg ∷ rest) i last_idx patterns = do
    p ← parse_segment seg i last_idx
    parse_filter_loop rest (i + 1) last_idx (patterns ++ (p ∷ []))

  unfoldable pub parse_subscribe_filter : Bytes → Outcome MqttError (List (PathPattern R))
  parse_subscribe_filter filter = do
    check_length filter
    let segments = split filter
    parse_filter_loop segments 0 (length segments - 1) []

  unfoldable pub parse_topic_loop :
      List Bytes → List (PathPattern R) → Outcome MqttError (List (PathPattern R))
  parse_topic_loop [] patterns = ok patterns
  parse_topic_loop (seg ∷ rest) patterns = do
    fail_if (has_wildcard seg) (violation Violation.wildcard_in_publish_topic)
    parse_topic_loop rest (patterns ++ (literal seg ∷ []))

  unfoldable pub parse_publish_topic : Bytes → Outcome MqttError (List (PathPattern R))
  parse_publish_topic topic = do check_length topic; parse_topic_loop (split topic) []

  unfoldable pub wire_segment : PathPattern R → Bytes
  wire_segment (literal s) = s
  wire_segment any = plus_seg
  wire_segment (regex r) = plus_seg
  wire_segment any_path = hash_seg

  unfoldable pub path_to_wire_filter : List (PathPattern R) → Bytes
  path_to_wire_filter path = join (map wire_segment path)

unfoldable pub validate_segment : Bytes → ℕ → ℕ → Outcome MqttError (Unit {0})
validate_segment seg i last_idx =
    if str_eq seg plus_seg
    then ok tt
    else if str_eq seg hash_seg
    then if i == last_idx then ok tt else err (violation Violation.hash_wildcard_not_terminal)
    else if has_wildcard seg
    then err (violation Violation.wildcard_mixed_with_literal)
    else ok tt

unfoldable pub validate_filter_loop : List Bytes → ℕ → ℕ → Outcome MqttError (Unit {0})
validate_filter_loop [] i last_idx = ok tt
validate_filter_loop (seg ∷ rest) i last_idx = do
  validate_segment seg i last_idx
  validate_filter_loop rest (i + 1) last_idx

unfoldable pub validate_subscribe_filter : Bytes → Outcome MqttError (Unit {0})
validate_subscribe_filter filter = do
  check_length filter
  let segments = split filter
  validate_filter_loop segments 0 (length segments - 1)

unfoldable pub validate_topic_loop : List Bytes → Outcome MqttError (Unit {0})
validate_topic_loop [] = ok tt
validate_topic_loop (seg ∷ rest) = do
  fail_if (has_wildcard seg) (violation Violation.wildcard_in_publish_topic)
  validate_topic_loop rest

unfoldable pub validate_publish_topic : Bytes → Outcome MqttError (Unit {0})
validate_publish_topic topic = do check_length topic; validate_topic_loop (split topic)
