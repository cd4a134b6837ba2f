-- ===== src/Topic/Split.antt =====
-- `str::split('/')`, `join("/")` and `str::contains` of the standard library, on bytes.
use hotaru_mqtt.Base.{
  ℕ, ◌≡◌, ◌≢◌, refl, ap, ◌∙◌, List, [], ◌∷◌, ◌++◌, Bool, false, ◌||◌, inl, inr, arith, ◌==◌,
  if◌then◌else◌, Bool-cases, Bytes, length, ◌≤◌,
}

push_front : ℕ → List Bytes → List Bytes
push_front c [] = (c ∷ []) ∷ []
push_front c (seg ∷ segs) = (c ∷ seg) ∷ segs

unfoldable pub split : Bytes → List Bytes
unfolding push_front
split [] = [] ∷ []
split (c ∷ s) = let rest = split s in if c == b'/' then [] ∷ rest else push_front c rest

unfoldable pub join : List Bytes → Bytes
join [] = []
join (seg ∷ []) = seg
join (seg ∷ next ∷ segs) = seg ++ (b'/' ∷ join (next ∷ segs))

unfoldable pub contains : ℕ → Bytes → Bool
contains c [] = false
contains c (x ∷ s) = x == c || contains c s

split-ne-nil : (s : Bytes) → split s ≢ []
unfolding split push_front
split-ne-nil [] = λ e. cc
split-ne-nil (c ∷ s) = ground (arith, split-ne-nil s)

pub length-split : (s : Bytes) → 1 ≤ length (split s)
unfolding split push_front
length-split [] = omega arith
length-split (c ∷ s) = ground (arith, length-split s)

join-push_front : (c : ℕ) (segs : List Bytes) → join (push_front c segs) ≡ c ∷ join segs
unfolding join push_front
join-push_front c [] = refl
join-push_front c (seg ∷ []) = refl
join-push_front c (seg ∷ next ∷ segs) = refl

join_slash : (segs : List Bytes) → segs ≢ [] → join ([] ∷ segs) ≡ b'/' ∷ join segs
unfolding join
join_slash [] h = absurd (h refl)
join_slash (seg ∷ segs) h = refl

-- Joining the segments gives the text back.
pub join-split : (s : Bytes) → join (split s) ≡ s
unfolding split
join-split [] = unfold join in refl
join-split (c ∷ s) = elim (Bool-cases (c == b'/')) [
  | inl slash ↦ rw slash (join_slash (split s) (split-ne-nil s) ∙ ground (arith, join-split s))
  | inr other ↦ rw other (join-push_front c (split s) ∙ ap (◌∷◌ c) (join-split s))
]
