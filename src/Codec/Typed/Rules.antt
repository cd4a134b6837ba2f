-- ===== src/Codec/Typed/Rules.antt =====
-- Rules for what a step returns, if it returns.
use hotaru_mqtt.Base.{
  ℕ, zero, suc, ◌≡◌, refl, Bool, true, false, List, [], ◌∷◌, Option, none, some, All, take, drop,
  get_elem?, Outcome, ok, err, panic, ◌>>=◌, fail_if, ok_or, or_panic,
}
use hotaru_mqtt.Error.{MqttError}

-- A value that is returned meets `P`.
abbrev pub Post {ℓ} : {A : Type ℓ} → (A → Type 0) → Outcome MqttError A → Type 0
Post P (ok a) = P a
Post P (err e) = Unit {0}
Post P panic = Unit {0}

pub Post-bind {ℓ κ} :
    {A : Type ℓ} {B : Type κ} (P : A → Type 0) (Q : B → Type 0) (m : Outcome MqttError A)
    (f : A → Outcome MqttError B)
    → Post P m
    → ((a : A) → P a → Post Q (f a))
    → Post Q (m >>= f)
Post-bind P Q (ok a) f h k = k a h
Post-bind P Q (err e) f h k = tt
Post-bind P Q panic f h k = tt

pub Post-weaken {ℓ} :
    {A : Type ℓ} (P Q : A → Type 0) (m : Outcome MqttError A)
    → Post P m
    → ((a : A) → P a → Q a)
    → Post Q m
Post-weaken P Q (ok a) h k = k a h
Post-weaken P Q (err e) h k = tt
Post-weaken P Q panic h k = tt

-- What is returned, out of the equation.
pub Post-ok {ℓ} :
    {A : Type ℓ} (P : A → Type 0) (m : Outcome MqttError A) (a : A) → m ≡ ok a → Post P m → P a
Post-ok P m a e h = (rw e at h)

module _ {ℓ} {B : Type ℓ} (Q : B → Type 0) where
  -- A test that returns an error, an absent value, and a step about whose value nothing is asked.
  pub Post-check :
      (b : Bool) (e : MqttError) (f : Unit {0} → Outcome MqttError B)
      → (b ≡ false → Post Q (f tt))
      → Post Q (fail_if b e >>= f)
  Post-check true e f h = tt
  Post-check false e f h = h refl

  pub Post-ok_or {κ} :
      {A : Type κ} (o : Option A) (e : MqttError) (f : A → Outcome MqttError B)
      → ((a : A) → Post Q (f a))
      → Post Q (ok_or o e >>= f)
  Post-ok_or none e f h = tt
  Post-ok_or (some a) e f h = h a

  pub Post-step {κ} :
      {A : Type κ} (m : Outcome MqttError A) (f : A → Outcome MqttError B)
      → ((a : A) → Post Q (f a))
      → Post Q (m >>= f)
  Post-step (ok a) f h = h a
  Post-step (err e) f h = tt
  Post-step panic f h = tt

module _ {ℓ} {A : Type ℓ} (P : A → Type 0) where
  pub take-All : (n : ℕ) (xs : List A) → All P xs → All P (take n xs)
  take-All zero xs h = tt
  take-All (suc n) [] h = tt
  take-All (suc n) (x ∷ xs) (p, h) = (p, take-All n xs h)

  pub drop-All : (n : ℕ) (xs : List A) → All P xs → All P (drop n xs)
  drop-All zero xs h = h
  drop-All (suc n) [] h = tt
  drop-All (suc n) (x ∷ xs) (p, h) = drop-All n xs h

  pub get_elem?-Post : (xs : List A) (i : ℕ) → All P xs → Post P (or_panic (get_elem? xs i))
  get_elem?-Post [] i h = tt
  get_elem?-Post (x ∷ xs) zero (p, h) = p
  get_elem?-Post (x ∷ xs) (suc i) (p, h) = get_elem?-Post xs i h
