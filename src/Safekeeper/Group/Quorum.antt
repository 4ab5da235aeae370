-- ===== src/Safekeeper/Group/Quorum.antt =====
-- Sets of nodes of one group: their sizes, and what two of them share.
use aethel_db.Prelude.{
  suc, ◌+◌, ◌≤◌, ◌≡◌, refl, arith, ◌⊎◌, inl, inr, true, false, List, [], ◌∷◌, ◌++◌, length, ◌==◌,
  if◌then◌else◌, Bool-cases, length-append,
}
use aethel_db.Safekeeper.Consensus.{NodeId, contains}

-- No node twice.
abbrev pub IsDistinct : List NodeId → Type 0
IsDistinct [] = Unit
IsDistinct (x ∷ xs) = (contains x xs ≡ false) × IsDistinct xs

-- Every node of one list is in the other.
abbrev pub Within : List NodeId → List NodeId → Type 0
Within [] ms = Unit
Within (x ∷ xs) ms = (contains x ms ≡ true) × Within xs ms

without : NodeId → List NodeId → List NodeId
without x [] = []
without x (m ∷ ms) = if m == x then ms else m ∷ without x ms

length-without :
    (x : NodeId) (ms : List NodeId) → contains x ms ≡ true → suc (length (without x ms)) ≡ length ms
unfolding without
length-without x [] h = absurd cc
length-without x (m ∷ ms) h = elim (Bool-cases (m == x)) [
  | inl e ↦ rw e refl
  | inr e ↦ let g : contains x ms ≡ true = rw e at h in rw e (omega (arith, length-without x ms g))
]

contains-without :
    (x y : NodeId) (ms : List NodeId)
    → (x == y) ≡ false
    → contains y ms ≡ true
    → contains y (without x ms) ≡ true
unfolding without
contains-without x y [] n h = h
contains-without x y (m ∷ ms) n h = ground (arith, contains-without x y ms n)

without-Within :
    (x : NodeId) (xs ms : List NodeId)
    → contains x xs ≡ false
    → Within xs ms
    → Within xs (without x ms)
without-Within x [] ms n h = tt
without-Within x (y ∷ xs) ms n h =
    let apart : (x == y) ≡ false = ground arith in
    let rest : contains x xs ≡ false = ground arith in
    (contains-without x y ms apart h.0, without-Within x xs ms rest h.1)

-- Distinct nodes of a group are no more than its members.
length-Within : (xs ms : List NodeId) → IsDistinct xs → Within xs ms → length xs ≤ length ms
length-Within [] ms d h = omega arith
length-Within (x ∷ xs) ms d h = omega (
  arith,
  length-without x ms h.0,
  length-Within xs (without x ms) d.1 (without-Within x xs ms d.0 h.1),
)

-- No node of the first list is in the second.
abbrev AreApart : List NodeId → List NodeId → Type 0
AreApart [] ys = Unit
AreApart (x ∷ xs) ys = (contains x ys ≡ false) × AreApart xs ys

contains-append :
    (x : NodeId) (xs ys : List NodeId)
    → contains x xs ≡ false
    → contains x ys ≡ false
    → contains x (xs ++ ys) ≡ false
contains-append x [] ys h g = g
contains-append x (y ∷ xs) ys h g = ground (arith, contains-append x xs ys)

append-IsDistinct :
    (xs ys : List NodeId) → IsDistinct xs → IsDistinct ys → AreApart xs ys → IsDistinct (xs ++ ys)
append-IsDistinct [] ys d e a = e
append-IsDistinct (x ∷ xs) ys d e a =
    (contains-append x xs ys d.0 a.0, append-IsDistinct xs ys d.1 e a.1)

append-Within : (xs ys ms : List NodeId) → Within xs ms → Within ys ms → Within (xs ++ ys) ms
append-Within [] ys ms h g = g
append-Within (x ∷ xs) ys ms h g = (h.0, append-Within xs ys ms h.1 g)

-- A node of both lists.
abbrev pub Shared : List NodeId → List NodeId → Type 0
Shared xs ys = (v : NodeId) × ((contains v xs ≡ true) × (contains v ys ≡ true))

meet_or_not : (xs ys : List NodeId) → Shared xs ys ⊎ AreApart xs ys
meet_or_not [] ys = inr tt
meet_or_not (x ∷ xs) ys = elim (Bool-cases (contains x ys)) [
  | inl e ↦ inl (x, (ground arith, e))
  | inr e ↦ elim (meet_or_not xs ys) [
    | inl (v, (h, g)) ↦ inl (v, (ground arith, g))
    | inr a ↦ inr (e, a)
  ]
]

-- Two sets of nodes that are together more than the members have one in common.
pub quorums_meet :
    (xs ys ms : List NodeId)
    → IsDistinct xs
    → IsDistinct ys
    → Within xs ms
    → Within ys ms
    → suc (length ms) ≤ length xs + length ys
    → Shared xs ys
quorums_meet xs ys ms d e h g big = elim (meet_or_not xs ys) [
  | inl s ↦ s
  | inr a ↦ absurd (
      omega (
        arith,
        length-append xs ys,
        length-Within (xs ++ ys) ms (append-IsDistinct xs ys d e a) (append-Within xs ys ms h g),
      ))
]
