-- ===== src/Codec/Typed/Lists.antt =====
-- codec/decode.rs: the types of a parsed SUBSCRIBE and UNSUBSCRIBE.
use hotaru_mqtt.Base.{
  ℕ, zero, suc, ◌+◌, ◌≡◌, ◌<◌, ◌⊎◌, Bool, false, not, List, [], ◌∷◌, ◌++◌, inl, inr, All, Bytes,
  length, IsByte, IsU16, ltb, ltb→le, Bool-cases, arith,
}
use hotaru_mqtt.Request.Qos.{from_u8}
use hotaru_mqtt.Packet.{TopicSubscription}
use hotaru_mqtt.Codec.Primitives.{index}
use hotaru_mqtt.Codec.WellFormed.{IsStr, IsInhabited}
use hotaru_mqtt.Codec.Decode.{
  read_subscription, subscription_loop, parse_subscribe, topic_loop, parse_unsubscribe,
}
use hotaru_mqtt.Codec.Typed.{IsTyped}
use hotaru_mqtt.Codec.Typed.Rules.{Post, Post-bind, Post-check, Post-ok_or, Post-step}
use hotaru_mqtt.Codec.Typed.Fields.{read_u16-Post, read_arc_str-Post}

append-All {ℓ} :
    {A : Type ℓ} (P : A → Type 0) (xs ys : List A) → All P xs → All P ys → All P (xs ++ ys)
append-All P [] ys h k = k
append-All P (x ∷ xs) ys (p, h) k = (p, append-All P xs ys h k)

append-IsInhabited {ℓ} : {A : Type ℓ} (xs : List A) (x : A) → IsInhabited (xs ++ (x ∷ []))
append-IsInhabited [] x = tt
append-IsInhabited (y ∷ ys) x = tt

-- A loop has an entry at its end if it has one already, or a round to run.
ended {ℓ} :
    {A : Type ℓ} (out : List A) (c n : ℕ)
    → IsInhabited out ⊎ (c < n)
    → ltb c n ≡ false
    → IsInhabited out
ended out c n (inl h) e = h
ended out c n (inr h) e = let k = ltb→le c n e in absurd (omega arith)

module _ (valid_utf8 : Bytes → Bool) (body : Bytes) (typed : All IsByte body) where
  abbrev Subscriptions : List TopicSubscription → Type 0
  Subscriptions l = All (λ t. IsStr valid_utf8 t.topic) l × IsInhabited l

  abbrev Topics : List Bytes → Type 0
  Topics l = All (IsStr valid_utf8) l × IsInhabited l

  read_subscription-Post :
      (cursor : ℕ)
      → Post (λ x. IsStr valid_utf8 x.0.topic) (read_subscription valid_utf8 body cursor)
  unfolding read_subscription
  read_subscription-Post cursor =
      let Q : TopicSubscription × ℕ → Type 0 = λ x. IsStr valid_utf8 x.0.topic in
      Post-bind (λ x. IsStr valid_utf8 x.0) Q _ _ (read_arc_str-Post body typed valid_utf8 cursor)
        λ (topic, c1) t.
          Post-check Q (not (ltb c1 (length body))) _ _
            λ _. Post-step Q (index body c1) _ λ bits. Post-ok_or Q (from_u8 bits) _ _ λ qos. t

  subscription_loop-Post :
      (fuel cursor : ℕ) (out : List TopicSubscription)
      → All (λ t. IsStr valid_utf8 t.topic) out
      → IsInhabited out ⊎ (cursor < length body)
      → Post Subscriptions (subscription_loop valid_utf8 fuel body cursor out)
  unfolding subscription_loop
  subscription_loop-Post zero cursor out h k = tt
  subscription_loop-Post (suc fuel) cursor out h k = elim (Bool-cases (ltb cursor (length body))) [
    | inl e ↦ rw e (
        Post-bind (λ x. IsStr valid_utf8 x.0.topic) Subscriptions _ _
          (read_subscription-Post cursor)
          λ (s, next) t.
            subscription_loop-Post fuel next (out ++ (s ∷ [])) (append-All _ out (s ∷ []) h (t, tt))
              (inl (append-IsInhabited out s)))
    | inr e ↦ rw e (h, ended out cursor (length body) k e)
  ]

  topic_loop-Post :
      (fuel cursor : ℕ) (out : List Bytes)
      → All (IsStr valid_utf8) out
      → IsInhabited out ⊎ (cursor < length body)
      → Post Topics (topic_loop valid_utf8 fuel body cursor out)
  unfolding topic_loop
  topic_loop-Post zero cursor out h k = tt
  topic_loop-Post (suc fuel) cursor out h k = elim (Bool-cases (ltb cursor (length body))) [
    | inl e ↦ rw e (
        Post-bind (λ x. IsStr valid_utf8 x.0) Topics _ _
          (read_arc_str-Post body typed valid_utf8 cursor)
          λ (t, next) p.
            topic_loop-Post fuel next (out ++ (t ∷ [])) (append-All _ out (t ∷ []) h (p, tt))
              (inl (append-IsInhabited out t)))
    | inr e ↦ rw e (h, ended out cursor (length body) k e)
  ]

  pub parse_subscribe-Post : Post (IsTyped valid_utf8) (parse_subscribe valid_utf8 body)
  unfolding parse_subscribe
  parse_subscribe-Post =
      let Q = IsTyped valid_utf8 in
      Post-check Q (ltb (length body) 5) _ _ λ long.
        Post-bind (λ x. IsU16 x.0 × (x.1 ≡ 0 + 2)) Q _ _ (read_u16-Post body typed 0)
          λ (id, c1) (i, e).
            Post-bind Subscriptions Q _ _
              (subscription_loop-Post (length body) c1 [] tt
                (inr (omega (arith, ltb→le (length body) 5 long))))
              λ l (a, b). (i, a, b)

  pub parse_unsubscribe-Post : Post (IsTyped valid_utf8) (parse_unsubscribe valid_utf8 body)
  unfolding parse_unsubscribe
  parse_unsubscribe-Post =
      let Q = IsTyped valid_utf8 in
      Post-check Q (ltb (length body) 4) _ _ λ long.
        Post-bind (λ x. IsU16 x.0 × (x.1 ≡ 0 + 2)) Q _ _ (read_u16-Post body typed 0)
          λ (id, c1) (i, e).
            Post-bind Topics Q _ _
              (topic_loop-Post (length body) c1 [] tt
                (inr (omega (arith, ltb→le (length body) 4 long))))
              λ l (a, b). (i, a, b)
