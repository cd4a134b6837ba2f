-- ===== src/Codec/Typed/Fields.antt =====
-- codec/primitives.rs: the types of the fields that are read.
use hotaru_mqtt.Base.{
  ℕ, zero, suc, ◌+◌, ◌-◌, ◌≡◌, ◌≤◌, refl, Bool, true, false, not, ◌&&◌, [], ◌∷◌, Option, none, some,
  inl, inr, All, Bytes, take, drop, length, IsByte, IsU16, from_be_bytes, ltb, Bool-cases, arith,
  Outcome,
}
use hotaru_mqtt.Error.{MqttError}
use hotaru_mqtt.Codec.Primitives.{index, slice, read_u16, read_arc_str, read_bytes}
use hotaru_mqtt.Codec.Decode.{read_if}
use hotaru_mqtt.Codec.WellFormed.{IsStr, Fits, Maybe}
use hotaru_mqtt.Codec.Typed.Rules.{Post, Post-bind, Post-check, take-All, drop-All, get_elem?-Post}

-- A value that is there exactly if it was asked for.
abbrev pub Asked {ℓ} : {A : Type ℓ} → Bool → (A → Type 0) → Option A → Type 0
Asked true P (some a) = P a
Asked true P none = ⊥
Asked false P (some a) = ⊥
Asked false P none = Unit {0}

pub Asked-Maybe {ℓ} :
    {A : Type ℓ} (b : Bool) (P : A → Type 0) (o : Option A) → Asked b P o → Maybe P o
Asked-Maybe true P (some a) h = h
Asked-Maybe true P none h = tt
Asked-Maybe false P (some a) h = absurd h
Asked-Maybe false P none h = tt

pub read_if-Post {ℓ} :
    {A : Type ℓ} (P : A → Type 0) (b : Bool) (r : Outcome MqttError (A × ℕ)) (cursor : ℕ)
    → Post (λ x. P x.0) r
    → Post (λ x. Asked b P x.0) (read_if b r cursor)
unfolding read_if
read_if-Post P true r cursor h = Post-bind (λ x. P x.0) (λ x. Asked true P x.0) r _ h λ x p. p
read_if-Post P false r cursor h = tt

length-take_le : (n : ℕ) (xs : Bytes) → length (take n xs) ≤ n
length-take_le zero xs = omega arith
length-take_le (suc n) [] = omega arith
length-take_le (suc n) (x ∷ xs) = let rest = length-take_le n xs in omega arith

pub be_bytes-IsU16 : (a b : ℕ) → IsByte a → IsByte b → IsU16 (from_be_bytes a b)
be_bytes-IsU16 a b h k = omega arith

module _ (body : Bytes) (typed : All IsByte body) where
  pub index-Post : (i : ℕ) → Post IsByte (index body i)
  unfolding index
  index-Post i = get_elem?-Post IsByte body i typed

  -- A slice is made of bytes, and not longer than its bounds say.
  abbrev pub IsSlice : ℕ → Bytes → Type 0
  IsSlice n s = All IsByte s × (length s ≤ n)

  pub slice-Post : (from to : ℕ) → Post (IsSlice (to - from)) (slice body from to)
  unfolding slice
  slice-Post from to = elim (Bool-cases (not (ltb to from) && not (ltb (length body) to))) [
    | inl e ↦ rw e (
      take-All IsByte (to - from) (drop from body) (drop-All IsByte from body typed),
      length-take_le (to - from) (drop from body),
    )
    | inr e ↦ rw e tt
  ]

  pub read_u16-Post :
      (cursor : ℕ) → Post (λ x. IsU16 x.0 × (x.1 ≡ cursor + 2)) (read_u16 body cursor)
  unfolding read_u16
  read_u16-Post cursor =
      let Q : ℕ × ℕ → Type 0 = λ x. IsU16 x.0 × (x.1 ≡ cursor + 2) in
      Post-check Q (ltb (length body) (cursor + 2)) _ _ λ _.
        Post-bind IsByte Q _ _ (index-Post cursor) λ a p.
          Post-bind IsByte Q _ _ (index-Post (cursor + 1)) λ b q. (be_bytes-IsU16 a b p q, refl)

  -- The bytes of a field: as many as its prefix says.
  abbrev pub IsField : Bytes → Type 0
  IsField s = All IsByte s × Fits s

  pub read_bytes-Post : (cursor : ℕ) → Post (λ x. IsField x.0) (read_bytes body cursor)
  unfolding read_bytes
  read_bytes-Post cursor =
      let Q : Bytes × ℕ → Type 0 = λ x. IsField x.0 in
      Post-bind (λ x. IsU16 x.0 × (x.1 ≡ cursor + 2)) Q _ _ (read_u16-Post cursor)
        λ (len, start) (p, _). Post-check Q (ltb (length body) (start + len)) _ _ λ _.
          Post-bind (IsSlice (start + len - start)) Q _ _ (slice-Post start (start + len))
            λ s (t, few). (t, omega arith)

  pub read_arc_str-Post :
      (valid_utf8 : Bytes → Bool) (cursor : ℕ)
      → Post (λ x. IsStr valid_utf8 x.0) (read_arc_str valid_utf8 body cursor)
  unfolding read_arc_str
  read_arc_str-Post valid_utf8 cursor =
      let Q : Bytes × ℕ → Type 0 = λ x. IsStr valid_utf8 x.0 in
      Post-bind (λ x. IsU16 x.0 × (x.1 ≡ cursor + 2)) Q _ _ (read_u16-Post cursor)
        λ (len, start) (p, _). Post-check Q (ltb (length body) (start + len)) _ _ λ _.
          Post-bind (IsSlice (start + len - start)) Q _ _ (slice-Post start (start + len))
            λ s (t, few). Post-check Q (not (valid_utf8 s)) _ _ λ v. (ground arith, omega arith)
