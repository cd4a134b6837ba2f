-- ===== src/Broker/Matching.antt =====
-- broker.rs `filter_matches` against a reading of filters level by level. MQTT 3.1.1 section 4.7.2
-- makes an exception for topics that begin with `$`; the code does not.
use hotaru_mqtt.Base.{
  ℕ, ◌+◌, ◌-◌, ◌≡◌, ◌≢◌, ◌↔◌, ◌⊎◌, inl, inr, refl, ap, ◌∙◌, List, [], ◌∷◌, ◌++◌, true, false, arith,
  ◌==◌, Bool-cases, Bytes, str_eq, str_eq_refl, str_eq→eq, str_eq_iff, length, length-append, ok,
  >>=-eq-ok,
}
use hotaru_mqtt.Topic.{
  plus_seg, hash_seg, check_length, validate_segment, validate_filter_loop,
  validate_subscribe_filter,
}
use hotaru_mqtt.Topic.Split.{split}
use hotaru_mqtt.Broker.{match_loop, filter_matches}

-- The levels of a filter without `#` against as many levels of a topic: `+` stands for any level.
abbrev pub Agree : List Bytes → List Bytes → Type 0
Agree [] [] = Unit {0}
Agree [] (t ∷ ts) = ⊥
Agree (f ∷ fs) [] = ⊥
Agree (f ∷ fs) (t ∷ ts) = (f ≢ hash_seg) × ((f ≡ plus_seg) ⊎ (f ≡ t)) × Agree fs ts

-- A filter that ends at its first `#`, and agrees up to there.
abbrev pub AgreeUpToHash : List Bytes → List Bytes → Type 0
AgreeUpToHash fs ts =
    (init : List Bytes) × (more : List Bytes) × (p : List Bytes) × (rest : List Bytes) × (fs
      ≡ init ++ (hash_seg ∷ more))
    × (ts ≡ p ++ rest)
    × Agree init p

abbrev pub Covers : List Bytes → List Bytes → Type 0
Covers fs ts = Agree fs ts ⊎ AgreeUpToHash fs ts

cons-Covers :
    (f t : Bytes) (fs ts : List Bytes)
    → f ≢ hash_seg
    → (f ≡ plus_seg) ⊎ (f ≡ t)
    → Covers fs ts
    → Covers (f ∷ fs) (t ∷ ts)
cons-Covers f t fs ts nh e (inl a) = inl (nh, e, a)
cons-Covers f t fs ts nh e (inr (init, more, p, rest, ef, et, a)) =
    inr (f ∷ init, more, t ∷ p, rest, ap (◌∷◌ f) ef, ap (◌∷◌ t) et, (nh, e, a))

not_eq : (a b : Bytes) → str_eq a b ≡ false → a ≢ b
not_eq a b h e = ground (arith, str_eq_iff a b)

match_loop-Covers : (fs ts : List Bytes) → match_loop fs ts ≡ true → Covers fs ts
unfolding match_loop
match_loop-Covers [] [] h = inl tt
match_loop-Covers [] (t ∷ ts) h = cc
match_loop-Covers (f ∷ fs) [] h =
    inr ([], fs, [], [], ap (λ x. x ∷ fs) (str_eq→eq f hash_seg h), refl, tt)
match_loop-Covers (f ∷ fs) (t ∷ ts) h = elim (Bool-cases (str_eq f hash_seg)) [
  | inl e ↦ inr ([], fs, [], t ∷ ts, ap (λ x. x ∷ fs) (str_eq→eq f hash_seg e), refl, tt)
  | inr n ↦ elim (Bool-cases (match_loop fs ts)) [
    | inl e ↦
        cons-Covers f t fs ts (not_eq f hash_seg n)
          (ground (arith, str_eq→eq f plus_seg, str_eq→eq f t)) (match_loop-Covers fs ts e)
    | inr m ↦ absurd (ground arith)
  ]
]

Agree-match_loop : (fs ts : List Bytes) → Agree fs ts → match_loop fs ts ≡ true
unfolding match_loop
Agree-match_loop [] [] a = refl
Agree-match_loop [] (t ∷ ts) a = absurd a
Agree-match_loop (f ∷ fs) [] a = absurd a
Agree-match_loop (f ∷ fs) (t ∷ ts) (nh, e, a) =
    ground (arith, Agree-match_loop fs ts, str_eq_iff f plus_seg, str_eq_iff f t)

hash-match_loop :
    (init more p rest : List Bytes)
    → Agree init p
    → match_loop (init ++ (hash_seg ∷ more)) (p ++ rest) ≡ true
unfolding match_loop
hash-match_loop [] more [] [] a = str_eq_refl hash_seg
hash-match_loop [] more [] (t ∷ rest) a = rw (str_eq_refl hash_seg) refl
hash-match_loop [] more (t ∷ p) rest a = absurd a
hash-match_loop (f ∷ init) more [] rest a = absurd a
hash-match_loop (f ∷ init) more (t ∷ p) rest (nh, e, a) =
    ground (arith, hash-match_loop init more p rest, str_eq_iff f plus_seg, str_eq_iff f t)

Covers-match_loop : (fs ts : List Bytes) → Covers fs ts → match_loop fs ts ≡ true
Covers-match_loop fs ts (inl a) = Agree-match_loop fs ts a
Covers-match_loop fs ts (inr (init, more, p, rest, ef, et, a)) =
    rw (ef, et) (hash-match_loop init more p rest a)

-- A filter matches a topic exactly when it has no # level and agrees with the topic level by
-- level, + standing for any level, or it agrees so up to its first # level; a topic that begins
-- with $ is no exception.
pub filter_matches_lem :
    (filter : Bytes) (topic_segs : List Bytes)
    → (filter_matches filter topic_segs ≡ true) ↔ Covers (split filter) topic_segs
unfolding filter_matches
filter_matches_lem filter topic_segs =
    (match_loop-Covers (split filter) topic_segs, Covers-match_loop (split filter) topic_segs)

-- The loop of the validator stops at a `#` that is not at the last index.
hash_at :
    (init more : List Bytes) (i last_idx : ℕ)
    → validate_filter_loop (init ++ (hash_seg ∷ more)) i last_idx ≡ ok tt
    → i + length init ≡ last_idx
unfolding validate_filter_loop validate_segment str_eq
hash_at [] more i last_idx h = elim (Bool-cases (i == last_idx)) [
  | inl e ↦ ground arith
  | inr e ↦ absurd (ground arith)
]
hash_at (f ∷ init) more i last_idx h =
    let (_, _, rest) = >>=-eq-ok (validate_segment f i last_idx) _ h in
    omega (arith, hash_at init more (i + 1) last_idx rest)

accepted_hash_is_last :
    (filter : Bytes) (init more : List Bytes)
    → validate_subscribe_filter filter ≡ ok tt
    → split filter ≡ init ++ (hash_seg ∷ more)
    → more ≡ []
unfolding validate_subscribe_filter
accepted_hash_is_last filter init more h e =
    let (_, _, loop) = >>=-eq-ok (check_length filter) _ h in
    let at = hash_at init more 0 (length (init ++ (hash_seg ∷ more)) - 1) (rw e at loop) in
    empty_of_length more (omega (arith, at, length-append init (hash_seg ∷ more)))
  where
    empty_of_length : (xs : List Bytes) → length xs ≡ 0 → xs ≡ []
    empty_of_length [] z = refl
    empty_of_length (x ∷ xs) z = absurd (omega arith)

-- The levels before a last `#`.
abbrev pub AgreeBeforeHash : List Bytes → List Bytes → Type 0
AgreeBeforeHash fs ts =
    (init : List Bytes) × (p : List Bytes) × (rest : List Bytes) × (fs ≡ init ++ (hash_seg ∷ []))
    × (ts ≡ p ++ rest)
    × Agree init p

-- A filter that a SUBSCRIBE accepts matches a topic exactly when it has no # level and agrees
-- with the topic level by level, + standing for any level, or it ends in # and the levels before
-- it agree with as many first levels of the topic; a topic that begins with $ is no exception.
pub filter_matches-validate_subscribe_filter :
    (filter : Bytes) (topic_segs : List Bytes)
    → validate_subscribe_filter filter ≡ ok tt
    → (filter_matches filter topic_segs ≡ true)
      ↔ (Agree (split filter) topic_segs ⊎ AgreeBeforeHash (split filter) topic_segs)
filter_matches-validate_subscribe_filter filter topic_segs h =
    let both = filter_matches_lem filter topic_segs in
    (λ m. narrow (both.0 m), λ c. both.1 (widen c))
  where
    narrow :
        Covers (split filter) topic_segs
        → Agree (split filter) topic_segs ⊎ AgreeBeforeHash (split filter) topic_segs
    narrow (inl a) = inl a
    narrow (inr (init, more, p, rest, ef, et, a)) =
        let none_left = accepted_hash_is_last filter init more h ef in
        inr (init, p, rest, ef ∙ ap (λ m. init ++ (hash_seg ∷ m)) none_left, et, a)

    widen :
        Agree (split filter) topic_segs ⊎ AgreeBeforeHash (split filter) topic_segs
        → Covers (split filter) topic_segs
    widen (inl a) = inl a
    widen (inr (init, p, rest, ef, et, a)) = inr (init, [], p, rest, ef, et, a)
