-- ===== src/Codec/Primitives/RoundTrip.antt =====
-- codec/primitives.rs: each reader on what its writer wrote. A position in a body is described by
-- the bytes from the cursor on, `drop cursor body`.
use hotaru_mqtt.Base.{
  ℕ, zero, suc, ◌+◌, ◌-◌, ◌<◌, ◌≤◌, ◌≡◌, sym, ap, append-nil, [], ◌∷◌, ◌++◌, Bool, true, some,
  arith, length, length-append, length-drop, drop-drop, drop, take-length-append,
  drop-length-append, get_elem?, Bytes, u8, u16, shr, IsU16, to_be_bytes, from_be_bytes,
  from_be_bytes-to_be_bytes, Outcome, ok, le→ltb, ◌∙◌,
}
use hotaru_mqtt.Error.{MqttError}
use hotaru_mqtt.Codec.Primitives.{index, slice, read_u16, read_arc_str, read_bytes, prefixed}

-- The byte at the cursor.
pub drop-cons :
    (xs : Bytes) (c x : ℕ) (rest : Bytes)
    → drop c xs ≡ x ∷ rest
    → (get_elem? xs c ≡ some x) × (drop (c + 1) xs ≡ rest) × (c < length xs)
drop-cons [] zero x rest h = cc
drop-cons [] (suc c) x rest h = cc
drop-cons (y ∷ xs) zero x rest h = ground arith
drop-cons (y ∷ xs) (suc c) x rest h =
    let (found, after, below) = drop-cons xs c x rest h in
    let e : suc c + 1 ≡ suc (c + 1) = omega arith in (found, rw e after, omega arith)

pub index-cons : (xs : Bytes) (c x : ℕ) (rest : Bytes) → drop c xs ≡ x ∷ rest → index xs c ≡ ok x
unfolding index
index-cons xs c x rest h = rw ((drop-cons xs c x rest h).0)

pub read_u16-cons :
    (body : Bytes) (c a b : ℕ) (rest : Bytes)
    → drop c body ≡ a ∷ b ∷ rest
    → (read_u16 body c ≡ ok (from_be_bytes a b, c + 2))
      × (drop (c + 2) body ≡ rest)
      × (c + 2 ≤ length body)
unfolding read_u16
read_u16-cons body c a b rest h =
    let (_, next, _) = drop-cons body c a (b ∷ rest) h in
    let (_, after, below) = drop-cons body (c + 1) b rest next in
    let e : c + 1 + 1 ≡ c + 2 = omega arith in
    (
      rw (
        le→ltb (length body) (c + 2) (omega arith),
        index-cons body c a (b ∷ rest) h,
        index-cons body (c + 1) b rest next,
      ),
      rw e at after,
      omega arith,
    )

-- A u16 that `to_be_bytes` wrote.
pub read_u16-to_be_bytes :
    (body : Bytes) (c n : ℕ) (rest : Bytes)
    → drop c body ≡ to_be_bytes n ++ rest
    → IsU16 n
    → (read_u16 body c ≡ ok (n, c + 2)) × (drop (c + 2) body ≡ rest) × (c + 2 ≤ length body)
read_u16-to_be_bytes body c n rest h hn =
    let (found, after, below) = read_u16-cons body c (u8 (shr n 8)) (u8 n) rest h in
    (rw (from_be_bytes-to_be_bytes n hn) at found, after, below)

-- A slice at the cursor.
pub slice-append :
    (body : Bytes) (c : ℕ) (s rest : Bytes)
    → drop c body ≡ s ++ rest
    → c ≤ length body
    → (slice body c (c + length s) ≡ ok s)
      × (drop (c + length s) body ≡ rest)
      × (c + length s ≤ length body)
unfolding slice
slice-append body c s rest h hc =
    let size : c + length s ≤ length body =
      omega (arith, length-drop c body, ap length h, length-append s rest) in
    let e : c + length s - c ≡ length s = omega arith in
    (
      rw (le→ltb (c + length s) c (omega arith), le→ltb (length body) (c + length s) size, e, h)
          (ap ok (take-length-append s rest)),
      rw (drop-drop c (length s) body, h) (drop-length-append s rest),
      size,
    )

-- `body[cursor..]`
pub slice_to_end :
    (body : Bytes) (c : ℕ) (rest : Bytes)
    → drop c body ≡ rest
    → c ≤ length body
    → slice body c (length body) ≡ ok rest
slice_to_end body c rest h hc =
    let (cut, _, _) = slice-append body c rest [] (h ∙ sym (append-nil rest)) hc in
    let e : length body ≡ c + length rest = omega (arith, length-drop c body, ap length h) in
    rw e cut

-- What a reader of a length-prefixed field returns, and where it leaves the cursor.
abbrev pub Reads : (Bytes → ℕ → Outcome MqttError (Bytes × ℕ)) → Bytes → ℕ → Bytes → Bytes → Type 0
Reads read body c s rest =
    (read body c ≡ ok (s, c + 2 + length s))
    × (drop (c + 2 + length s) body ≡ rest)
    × (c + 2 + length s ≤ length body)

module _ (body : Bytes) (c : ℕ) (s rest : Bytes) (h : drop c body ≡ prefixed s ++ rest)
    (fits : IsU16 (length s)) where
  prefixed_parts :
      (read_u16 body c ≡ ok (length s, c + 2))
      × (c + 2 ≤ length body)
      × (slice body (c + 2) (c + 2 + length s) ≡ ok s)
      × (drop (c + 2 + length s) body ≡ rest)
      × (c + 2 + length s ≤ length body)
  prefixed_parts =
      let wraps : u16 (length s) ≡ length s = omega arith in
      let (found, after, size) =
        read_u16-to_be_bytes body c (length s) (s ++ rest)
          (h ∙ ap (λ (n : ℕ). to_be_bytes n ++ (s ++ rest)) wraps) fits in
      let (cut, next, bound) = slice-append body (c + 2) s rest after size in
      (found, size, cut, next, bound)

  pub read_bytes-prefixed : Reads read_bytes body c s rest
  unfolding read_bytes
  read_bytes-prefixed =
      let (found, _, cut, next, bound) = prefixed_parts in
      (rw (found, le→ltb (length body) (c + 2 + length s) bound, cut), next, bound)

  pub read_arc_str-prefixed :
      (valid_utf8 : Bytes → Bool)
      → valid_utf8 s ≡ true
      → Reads (read_arc_str valid_utf8) body c s rest
  unfolding read_arc_str
  read_arc_str-prefixed valid_utf8 v =
      let (found, _, cut, next, bound) = prefixed_parts in
      (rw (found, le→ltb (length body) (c + 2 + length s) bound, cut, v), next, bound)
