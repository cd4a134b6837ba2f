-- ===== src/DashMap/Laws.antt =====
-- The laws of the map that the components use.
use hotaru_mqtt.Base.{
  ℕ, ◌+◌, ◌≡◌, refl, List, [], ◌∷◌, true, false, Option, none, some, arith, if◌then◌else◌,
}
use hotaru_mqtt.DashMap.{Key, get, insert, remove, contains_key, IsUnique}

-- A sum over the values, and over an optional value.
abbrev pub sum_by : {K V : Type 0} → (V → ℕ) → List (K × V) → ℕ
sum_by f [] = 0
sum_by f ((b, w) ∷ m) = f w + sum_by f m

abbrev pub opt : {V : Type 0} → (V → ℕ) → Option V → ℕ
opt f none = 0
opt f (some v) = f v

module _ {K V : Type 0} ⦃k : Key K⦄ where
  pub get-insert :
      (a c : K) (v : V) (m : List (K × V))
      → get c (insert a v m) ≡ (if k.beq a c then some v else get c m)
  unfolding get insert
  get-insert a c v [] = refl
  get-insert a c v ((b, w) ∷ m) =
      ground (arith, k.beq_iff a c, k.beq_iff b a, k.beq_iff b c, get-insert a c v m)

  pub get-insert_self : (a : K) (v : V) (m : List (K × V)) → get a (insert a v m) ≡ some v
  get-insert_self a v m = rw (get-insert a a v m, (k.beq_iff a a).1 refl)

  contains_key-insert :
      (a c : K) (v : V) (m : List (K × V))
      → contains_key c (insert a v m) ≡ (if k.beq a c then true else contains_key c m)
  unfolding contains_key insert
  contains_key-insert a c v [] = refl
  contains_key-insert a c v ((b, w) ∷ m) =
      ground (arith, k.beq_iff a c, k.beq_iff b a, k.beq_iff b c, contains_key-insert a c v m)

  contains_key-remove :
      (a c : K) (m : List (K × V)) → contains_key c m ≡ false → contains_key c (remove a m) ≡ false
  unfolding contains_key remove
  contains_key-remove a c [] h = refl
  contains_key-remove a c ((b, w) ∷ m) h = ground (arith, contains_key-remove a c m)

  pub insert-IsUnique : (a : K) (v : V) (m : List (K × V)) → IsUnique m → IsUnique (insert a v m)
  unfolding insert contains_key
  insert-IsUnique a v [] u = (refl, tt)
  insert-IsUnique a v ((b, w) ∷ m) u =
      ground
        (arith, k.beq_iff b a, k.beq_iff a b, contains_key-insert a b v m, insert-IsUnique a v m)

  pub remove-IsUnique : (a : K) (m : List (K × V)) → IsUnique m → IsUnique (remove a m)
  unfolding remove
  remove-IsUnique a [] u = tt
  remove-IsUnique a ((b, w) ∷ m) u = ground (arith, contains_key-remove a b m, remove-IsUnique a m)

  pub get_of_not_contains_key :
      (a : K) (m : List (K × V)) → contains_key a m ≡ false → get a m ≡ none
  unfolding get contains_key
  get_of_not_contains_key a [] h = refl
  get_of_not_contains_key a ((b, w) ∷ m) h = ground (arith, get_of_not_contains_key a m)

  pub get-remove :
      (a c : K) (m : List (K × V))
      → IsUnique m
      → get c (remove a m) ≡ (if k.beq a c then none else get c m)
  unfolding get remove
  get-remove a c [] u = ground arith
  get-remove a c ((b, w) ∷ m) u = ground (
    arith,
    k.beq_iff a c,
    k.beq_iff b a,
    k.beq_iff b c,
    get_of_not_contains_key b m,
    get-remove a c m,
  )

  pub sum_by-insert :
      (f : V → ℕ) (a : K) (v : V) (m : List (K × V))
      → sum_by f (insert a v m) + opt f (get a m) ≡ sum_by f m + f v
  unfolding insert get
  sum_by-insert f a v [] = omega arith
  sum_by-insert f a v ((b, w) ∷ m) = ground (arith, sum_by-insert f a v m)

  pub sum_by-remove :
      (f : V → ℕ) (a : K) (m : List (K × V)) → sum_by f (remove a m) + opt f (get a m) ≡ sum_by f m
  unfolding remove get
  sum_by-remove f a [] = omega arith
  sum_by-remove f a ((b, w) ∷ m) = ground (arith, sum_by-remove f a m)
