-- ===== src/Topic/Checks.antt =====
-- topic.rs: the validators against the parsers.
use hotaru_mqtt.Base.{
  ℕ, ◌+◌, ◌-◌, ◌≡◌, refl, List, [], ◌∷◌, ◌++◌, arith, length, Bytes, Outcome, ok, err, panic, ◌>>=◌,
  fail_if,
}
use hotaru_mqtt.Error.{MqttError, Violation}
use hotaru_mqtt.Topic.{
  PathPattern, literal, check_length, parse_segment, parse_filter_loop, parse_subscribe_filter,
  parse_topic_loop, parse_publish_topic, validate_segment, validate_filter_loop,
  validate_subscribe_filter, validate_topic_loop, validate_publish_topic, has_wildcard, violation,
}
use hotaru_mqtt.Topic.Split.{split}

-- Forgets the value of a result.
abbrev pub forget {ℓ} : {A : Type ℓ} → Outcome MqttError A → Outcome MqttError (Unit {0})
forget (ok a) = ok tt
forget (err e) = err e
forget panic = panic

forget-bind {ℓ κ} :
    {A : Type ℓ} {B : Type κ} (m : Outcome MqttError A) (f : A → Outcome MqttError B)
    (rest : Outcome MqttError (Unit {0}))
    → ((a : A) → rest ≡ forget (f a))
    → (forget m >>= λ _. rest) ≡ forget (m >>= f)
forget-bind (ok a) f rest h = h a
forget-bind (err e) f rest h = refl
forget-bind panic f rest h = refl

check-bind {ℓ} :
    {B : Type ℓ} (m : Outcome MqttError (Unit {0})) (f : Unit {0} → Outcome MqttError B)
    (rest : Outcome MqttError (Unit {0}))
    → ((a : Unit {0}) → rest ≡ forget (f a))
    → (m >>= λ _. rest) ≡ forget (m >>= f)
check-bind (ok a) f rest h = h a
check-bind (err e) f rest h = refl
check-bind panic f rest h = refl

module _ (R : Type 0) where
  segments_agree :
      (seg : Bytes) (i last_idx : ℕ)
      → validate_segment seg i last_idx ≡ forget (parse_segment {R = R} seg i last_idx)
  unfolding validate_segment parse_segment
  segments_agree seg i last_idx = ground arith

  filter_loops_agree :
      (segs : List Bytes) (i last_idx : ℕ) (out : List (PathPattern R))
      → validate_filter_loop segs i last_idx ≡ forget (parse_filter_loop segs i last_idx out)
  unfolding validate_filter_loop parse_filter_loop
  filter_loops_agree [] i last_idx out = refl
  filter_loops_agree (seg ∷ rest) i last_idx out = rw (segments_agree seg i last_idx) (
      forget-bind (parse_segment seg i last_idx) _ _
        λ p. filter_loops_agree rest (i + 1) last_idx (out ++ (p ∷ [])))

  -- The validator of filters gives the verdict of the parser, error included.
  pub validate-parse_subscribe_filter :
      (filter : Bytes)
      → validate_subscribe_filter filter ≡ forget (parse_subscribe_filter {R = R} filter)
  unfolding validate_subscribe_filter parse_subscribe_filter
  validate-parse_subscribe_filter filter =
      check-bind (check_length filter) _ _
        λ _. filter_loops_agree (split filter) 0 (length (split filter) - 1) []

  topic_loops_agree :
      (segs : List Bytes) (out : List (PathPattern R))
      → validate_topic_loop segs ≡ forget (parse_topic_loop segs out)
  unfolding validate_topic_loop parse_topic_loop
  topic_loops_agree [] out = refl
  topic_loops_agree (seg ∷ rest) out =
      check-bind (fail_if (has_wildcard seg) (violation Violation.wildcard_in_publish_topic)) _ _
        λ _. topic_loops_agree rest (out ++ (literal seg ∷ []))

  -- The validator of topics gives the verdict of the parser, error included.
  pub validate-parse_publish_topic :
      (topic : Bytes) → validate_publish_topic topic ≡ forget (parse_publish_topic {R = R} topic)
  unfolding validate_publish_topic parse_publish_topic
  validate-parse_publish_topic topic =
      check-bind (check_length topic) _ _ λ _. topic_loops_agree (split topic) []
