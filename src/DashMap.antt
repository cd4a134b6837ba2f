-- ===== src/DashMap.antt =====
-- `DashMap` of the dashmap crate, as the crate's callers see it from one thread: an association
-- list with one entry for a key. The order in which it is walked is the order of the list, which
-- stands for whatever order the real map has.
pub mod Laws
use hotaru_mqtt.Base.{
  ℕ, ◌≡◌, ◌↔◌, List, [], ◌∷◌, Bool, true, false, Option, none, some, ◌==◌, ==_iff, if◌then◌else◌,
  Bytes, str_eq, str_eq_iff,
}

-- A type of keys with its equality.
pub record Key (K : Type 0) : Type 0 where
  pub beq : K → K → Bool
  pub beq_iff : (a b : K) → (beq a b ≡ true) ↔ (a ≡ b)

instance abbrev pub nat_key : Key ℕ
nat_key = record { beq = ◌==◌; beq_iff = ==_iff }

instance abbrev pub str_key : Key Bytes
str_key = record { beq = str_eq; beq_iff = str_eq_iff }

module _ {K V : Type 0} ⦃k : Key K⦄ where
  unfoldable pub get : K → List (K × V) → Option V
  get a [] = none
  get a ((b, v) ∷ m) = if k.beq b a then some v else get a m

  -- Replaces the value of a key that is there.
  unfoldable pub insert : K → V → List (K × V) → List (K × V)
  insert a v [] = (a, v) ∷ []
  insert a v ((b, w) ∷ m) = if k.beq b a then (a, v) ∷ m else (b, w) ∷ insert a v m

  unfoldable pub remove : K → List (K × V) → List (K × V)
  remove a [] = []
  remove a ((b, w) ∷ m) = if k.beq b a then m else (b, w) ∷ remove a m

  unfoldable pub contains_key : K → List (K × V) → Bool
  contains_key a [] = false
  contains_key a ((b, w) ∷ m) = if k.beq b a then true else contains_key a m

  -- One entry for a key.
  abbrev pub IsUnique : List (K × V) → Type 0
  IsUnique [] = Unit {0}
  IsUnique ((b, w) ∷ m) = (contains_key b m ≡ false) × IsUnique m
