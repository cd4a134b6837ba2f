-- ===== src/Topic/Wire.antt =====
-- topic.rs: parsed filters and topics, and `path_to_wire_filter`.
use mathlib.Core.List.{map-append}
use mathlib.Core.Bool.{false≢true}
use hotaru_mqtt.Base.{
  All, ℕ, ◌+◌, ◌-◌, ◌≡◌, refl, sym, ap, ◌∙◌, List, [], ◌∷◌, ◌++◌, append-nil, append_assoc, map,
  true, false, inl, inr, arith, Bool-cases, length, Bytes, str_eq, str_eq→eq, Outcome, ok,
  >>=-eq-ok,
}
use hotaru_mqtt.Error.{MqttError}
use hotaru_mqtt.Topic.{
  PathPattern, literal, check_length, parse_segment, parse_filter_loop, parse_subscribe_filter,
  parse_topic_loop, parse_publish_topic, wire_segment, path_to_wire_filter, has_wildcard, plus_seg,
  hash_seg,
}
use hotaru_mqtt.Topic.Split.{split, join, join-split, contains}

err-ne-ok {ℓ} : {A : Type ℓ} (e : MqttError) (a : A) → ¬ (Outcome.err e ≡ ok a)
err-ne-ok e a h = cc

-- A segment with no wildcard character is no wildcard.
differs : (seg w : Bytes) → has_wildcard w ≡ true → has_wildcard seg ≡ false → str_eq seg w ≡ false
differs seg w hw h = elim (Bool-cases (str_eq seg w)) [
  | inl e ↦
      let bad : has_wildcard w ≡ false = rw (str_eq→eq seg w e) at h in
      absurd (false≢true (sym bad ∙ hw))
  | inr e ↦ e
]

module _ (R : Type 0) where
  wire-parse_segment :
      (seg : Bytes) (i last_idx : ℕ) (p : PathPattern R)
      → parse_segment seg i last_idx ≡ ok p
      → wire_segment p ≡ seg
  unfolding parse_segment wire_segment
  wire-parse_segment seg i last_idx p h =
      ground (arith, str_eq→eq seg plus_seg, str_eq→eq seg hash_seg)

  wire-parse_filter_loop :
      (segs : List Bytes) (i last_idx : ℕ) (out ps : List (PathPattern R))
      → parse_filter_loop segs i last_idx out ≡ ok ps
      → map wire_segment ps ≡ map wire_segment out ++ segs
  unfolding parse_filter_loop
  wire-parse_filter_loop [] i last_idx out ps h =
      let same : out ≡ ps = ground arith in
      sym (ap (map wire_segment) same) ∙ sym (append-nil (map wire_segment out))
  wire-parse_filter_loop (seg ∷ rest) i last_idx out ps h =
      let (p, e, tail) = >>=-eq-ok (parse_segment seg i last_idx) _ h in
      wire-parse_filter_loop rest (i + 1) last_idx (out ++ (p ∷ [])) ps tail
      ∙ rw (map-append, wire-parse_segment seg i last_idx p e)
          (append_assoc (map wire_segment out) (seg ∷ []) rest)

  -- A filter that parses is written back as it was.
  pub path_to_wire_filter-parse_subscribe_filter :
      (filter : Bytes) (ps : List (PathPattern R))
      → parse_subscribe_filter filter ≡ ok ps
      → path_to_wire_filter ps ≡ filter
  unfolding parse_subscribe_filter path_to_wire_filter
  path_to_wire_filter-parse_subscribe_filter filter ps h =
      let (_, _, parsed) = >>=-eq-ok (check_length filter) _ h in
      ap join (wire-parse_filter_loop (split filter) 0 _ [] ps parsed) ∙ join-split filter

  segment_is_literal :
      (seg : Bytes) (i last_idx : ℕ)
      → has_wildcard seg ≡ false
      → parse_segment {R = R} seg i last_idx ≡ ok (literal seg)
  unfolding parse_segment contains
  segment_is_literal seg i last_idx h =
      rw (differs seg plus_seg refl h, differs seg hash_seg refl h, h)

  topic_loop_is_filter_loop :
      (segs : List Bytes) (i last_idx : ℕ) (out ps : List (PathPattern R))
      → parse_topic_loop segs out ≡ ok ps
      → parse_filter_loop segs i last_idx out ≡ ok ps
  unfolding parse_topic_loop parse_filter_loop
  topic_loop_is_filter_loop [] i last_idx out ps h = h
  topic_loop_is_filter_loop (seg ∷ rest) i last_idx out ps h =
      elim (Bool-cases (has_wildcard seg)) [
        | inl bad ↦ absurd (err-ne-ok _ ps (rw bad at h))
        | inr plain ↦ rw (segment_is_literal seg i last_idx plain) (
            topic_loop_is_filter_loop rest (i + 1) last_idx (out ++ (literal seg ∷ [])) ps
              (rw plain at h))
      ]

  topic_loop_segments :
      (segs : List Bytes) (out ps : List (PathPattern R))
      → parse_topic_loop segs out ≡ ok ps
      → (ps ≡ out ++ map literal segs) × All (λ seg. has_wildcard seg ≡ false) segs
  unfolding parse_topic_loop
  topic_loop_segments [] out ps h = (rw append-nil (ground arith), tt)
  topic_loop_segments (seg ∷ rest) out ps h = elim (Bool-cases (has_wildcard seg)) [
    | inl bad ↦ absurd (err-ne-ok _ ps (rw bad at h))
    | inr plain ↦
        let (same, tail) =
          topic_loop_segments rest (out ++ (literal seg ∷ [])) ps (rw plain at h) in
        (same ∙ append_assoc out (literal seg ∷ []) (map literal rest), (plain, tail))
  ]

  -- A topic that parses is a filter with the same patterns: its segments as literals, none of
  -- them with a wildcard; written back it is the topic.
  pub parse_publish_topic_is_filter :
      (topic : Bytes) (ps : List (PathPattern R))
      → parse_publish_topic topic ≡ ok ps
      → (parse_subscribe_filter topic ≡ ok ps)
        × (ps ≡ map literal (split topic))
        × All (λ seg. has_wildcard seg ≡ false) (split topic)
        × (path_to_wire_filter ps ≡ topic)
  unfolding parse_publish_topic
  parse_publish_topic_is_filter topic ps h =
      let (_, checked, parsed) = >>=-eq-ok (check_length topic) _ h in
      let (same, plain) = topic_loop_segments (split topic) [] ps parsed in
      let as_filter : parse_subscribe_filter topic ≡ ok ps =
        unfold parse_subscribe_filter in
        rw checked
          (topic_loop_is_filter_loop (split topic) 0 (length (split topic) - 1) [] ps parsed) in
      (as_filter, same, plain, path_to_wire_filter-parse_subscribe_filter topic ps as_filter)
