-- ===== src/Codec/Varint/Groups.antt =====
-- What `encode_remaining_length` writes, in plain arithmetic.
use Prim.Native.Nat.{bit_or}
use mathlib.Core.WellFounded.{Acc}
use hotaru_mqtt.Base.{
  ℕ, zero, suc, ◌+◌, ◌/◌, ◌%◌, ◌^◌, ◌≤◌, ◌<◌, ◌≡◌, refl, [], ◌∷◌, ◌++◌, Bool, true, ◌&&◌, arith,
  ltb, ◌==◌, ==_iff, if◌then◌else◌, length, All, append_assoc, Bytes, IsByte,
}
use hotaru_mqtt.Codec.Varint.{lt_wf, encode_length_loop, encode_remaining_length}

-- The groups of seven bits of `v`, lowest first, the top bit set on all but the last; for `v` below
-- 128 ^ (k + 1).
unfoldable pub groups : ℕ → ℕ → Bytes
groups zero v = v ∷ []
groups (suc k) v =
    let more = groups k (v / 128) in if ltb v 128 then v ∷ [] else (v % 128 + 128) ∷ more

check_below : ℕ → (ℕ → Bool) → Bool
check_below zero p = true
check_below (suc n) p = p n && check_below n p

check_below_sound : (n : ℕ) (p : ℕ → Bool) (x : ℕ) → check_below n p ≡ true → x < n → p x ≡ true
unfolding check_below
check_below_sound zero p x h lt = absurd (omega arith)
check_below_sound (suc n) p x h lt = ground (arith, check_below_sound n p x)

top_bit_table : check_below 128 (λ x. bit_or x 0x80 == x + 128) ≡ true
unfolding check_below
top_bit_table = refl

set_top_bit : (x : ℕ) → x < 128 → bit_or x 0x80 ≡ x + 128
set_top_bit x h = (==_iff _ _).0 (check_below_sound 128 _ x top_bit_table h)

encode_length_loop-groups :
    (k v : ℕ) (w : Acc ◌<◌ v) (out : Bytes)
    → v < 128 ^ suc k
    → encode_length_loop v w out ≡ out ++ groups k v
unfolding encode_length_loop groups
encode_length_loop-groups zero v (Acc.intro _ smaller) out h = ground arith
encode_length_loop-groups (suc k) v (Acc.intro _ smaller) out h =
    let head : Bytes = (v % 128 + 128) ∷ [] in
    grind (
      arith,
      set_top_bit (v % 128 % 256),
      λ (w : Acc ◌<◌ (v / 128)).
          encode_length_loop-groups k (v / 128) w (out ++ head) (omega arith),
      append_assoc out head (groups k (v / 128)),
    )

pub encode_remaining_length-groups : (v : ℕ) → v < 128 ^ 4 → encode_remaining_length v ≡ groups 3 v
unfolding encode_remaining_length
encode_remaining_length-groups v h = encode_length_loop-groups 3 v (lt_wf.apply v) [] (omega arith)

pub length-groups : (k v : ℕ) → (1 ≤ length (groups k v)) × (length (groups k v) ≤ k + 1)
unfolding groups
length-groups zero v = omega arith
length-groups (suc k) v = ground (arith, length-groups k (v / 128))

pub groups-IsByte : (k v : ℕ) → v < 128 ^ suc k → All IsByte (groups k v)
unfolding groups
groups-IsByte zero v h = omega arith
groups-IsByte (suc k) v h = ground (arith, groups-IsByte k (v / 128) (omega arith))

-- The remaining lengths of the packets with a fixed body.
pub encode_two : encode_remaining_length 2 ≡ 2 ∷ []
unfolding groups
encode_two = encode_remaining_length-groups 2 (omega arith)

pub encode_zero : encode_remaining_length 0 ≡ 0 ∷ []
unfolding groups
encode_zero = encode_remaining_length-groups 0 (omega arith)
