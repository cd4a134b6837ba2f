-- ===== src/Codec/Primitives/Bounds.antt =====
-- codec/primitives.rs on any body: indexing, and where the cursor ends.
use hotaru_mqtt.Base.{
  ℕ, zero, suc, ◌+◌, ◌≤◌, ◌<◌, ◌≡◌, refl, [], ◌∷◌, Bool, true, false, not, some, inl, inr, arith,
  ltb, ltb→le, le→ltb, Bool-cases, length, get_elem?, Bytes, Safe, Safe-bind, ◌>>=◌, fail_if,
  Outcome, ok_or, Option, none,
}
use hotaru_mqtt.Error.{MqttError}
use hotaru_mqtt.Codec.Primitives.{index, slice, read_u16, read_arc_str, read_bytes}

-- A test that returns an error, an absent value, and a step about whose value nothing is asked.
module _ {ℓ} {B : Type ℓ} (Q : B → Type 0) where
  pub Safe-check :
      (b : Bool) (e : MqttError) (f : Unit {0} → Outcome MqttError B)
      → (b ≡ false → Safe Q (f tt))
      → Safe Q (fail_if b e >>= f)
  Safe-check true e f h = tt
  Safe-check false e f h = h refl

  pub Safe-ok_or {κ} :
      {A : Type κ} (o : Option A) (e : MqttError) (f : A → Outcome MqttError B)
      → ((a : A) → Safe Q (f a))
      → Safe Q (ok_or o e >>= f)
  Safe-ok_or none e f h = tt
  Safe-ok_or (some a) e f h = h a

  pub Safe-step {κ} :
      {A : Type κ} (m : Outcome MqttError A) (f : A → Outcome MqttError B)
      → Safe (λ _. Unit {0}) m
      → ((a : A) → Safe Q (f a))
      → Safe Q (m >>= f)
  Safe-step m f h k = Safe-bind (λ _. Unit {0}) Q m f h (λ a _. k a)

get_elem?_of_lt : (xs : Bytes) (i : ℕ) → i < length xs → (x : ℕ) × (get_elem? xs i ≡ some x)
get_elem?_of_lt [] i h = absurd (omega arith)
get_elem?_of_lt (x ∷ xs) zero h = (x, refl)
get_elem?_of_lt (x ∷ xs) (suc i) h = get_elem?_of_lt xs i (omega arith)

pub index-Safe : (body : Bytes) (i : ℕ) → i < length body → Safe (λ _. Unit {0}) (index body i)
unfolding index
index-Safe body i h = let (x, e) = get_elem?_of_lt body i h in rw e tt

pub slice-Safe :
    (body : Bytes) (from to : ℕ)
    → from ≤ to
    → to ≤ length body
    → Safe (λ _. Unit {0}) (slice body from to)
unfolding slice
slice-Safe body from to h k = rw (le→ltb to from h, le→ltb (length body) to k) tt

-- After a read that starts at `c` and takes at least `n` bytes.
abbrev pub Advances {ℓ} : {A : Type ℓ} → Bytes → ℕ → ℕ → A × ℕ → Type 0
Advances body c n r = (c + n ≤ r.1) × (r.1 ≤ length body)

pub read_u16-Safe : (body : Bytes) (c : ℕ) → Safe (Advances body c 2) (read_u16 body c)
unfolding read_u16
read_u16-Safe body c = elim (Bool-cases (ltb (length body) (c + 2))) [
  | inl short ↦ rw short tt
  | inr long ↦
      let size = ltb→le (length body) (c + 2) long in
      let (a, ea) = get_elem?_of_lt body c (omega arith) in
      let (b, eb) = get_elem?_of_lt body (c + 1) (omega arith) in
      unfold index in rw (long, ea, eb) (omega arith, size)
]

pub read_bytes-Safe : (body : Bytes) (c : ℕ) → Safe (Advances body c 2) (read_bytes body c)
unfolding read_bytes
read_bytes-Safe body c =
    let Q = Advances {A = Bytes} body c 2 in
    Safe-bind (Advances {A = ℕ} body c 2) Q _ _ (read_u16-Safe body c) λ (len, start) p.
      Safe-check Q (ltb (length body) (start + len)) _ _ λ q.
        let size = ltb→le (length body) (start + len) q in
        Safe-step Q _ _ (slice-Safe body start (start + len) (omega arith) size)
          λ _. (omega arith, size)

pub read_arc_str-Safe :
    (valid_utf8 : Bytes → Bool) (body : Bytes) (c : ℕ)
    → Safe (Advances body c 2) (read_arc_str valid_utf8 body c)
unfolding read_arc_str
read_arc_str-Safe valid_utf8 body c =
    let Q = Advances {A = Bytes} body c 2 in
    Safe-bind (Advances {A = ℕ} body c 2) Q _ _ (read_u16-Safe body c) λ (len, start) p.
      Safe-check Q (ltb (length body) (start + len)) _ _ λ q.
        let size = ltb→le (length body) (start + len) q in
        Safe-step Q _ _ (slice-Safe body start (start + len) (omega arith) size)
          λ bytes. Safe-check Q (not (valid_utf8 bytes)) _ _ λ _. (omega arith, size)
