-- ===== src/Safekeeper/Consensus/Commit.antt =====
-- The commit position is the highest that a quorum has flushed.
use aethel_db.Prelude.{
  ℕ, zero, suc, max, ◌↔◌, ◌-◌, ◌≡◌, refl, ◌≤◌, ◌<◌, List, [], ◌∷◌, map, arith, length, get_elem?,
  ltb, leb, ◌==◌, if◌then◌else◌,
}
use aethel_db.Ord.{nat_ord}
use aethel_db.Ord.Map.{lookup-insert}
use aethel_db.Common.Lsn.{Lsn}
use aethel_db.Safekeeper.Consensus.{
  NodeId, Consensus, or_invalid, position, record_flush, place_desc, sort_desc, commit_lsn,
}

-- How many of the positions are at least `l`.
abbrev pub count_from : Lsn → List Lsn → ℕ
count_from l [] = 0
count_from l (x ∷ xs) = if leb l x then suc (count_from l xs) else count_from l xs

-- How many members have flushed up to `l` at least.
abbrev pub flushed : Consensus → Lsn → ℕ
flushed c l = count_from l (map (position c) c.members)

-- The list falls, and starts at `b` at most.
abbrev Falls : Lsn → List Lsn → Type 0
Falls b [] = Unit
Falls b (x ∷ xs) = (x ≤ b) × Falls x xs

abbrev IsDescending : List Lsn → Type 0
IsDescending [] = Unit
IsDescending (x ∷ xs) = Falls x xs

count-place_desc :
    (l x : Lsn) (ys : List Lsn) → count_from l (place_desc x ys) ≡ count_from l (x ∷ ys)
unfolding place_desc
count-place_desc l x [] = refl
count-place_desc l x (y ∷ ys) = ground (arith, count-place_desc l x ys)

count-sort_desc : (l : Lsn) (xs : List Lsn) → count_from l (sort_desc xs) ≡ count_from l xs
unfolding sort_desc
count-sort_desc l [] = refl
count-sort_desc l (x ∷ xs) =
    ground (arith, count-place_desc l x (sort_desc xs), count-sort_desc l xs)

length-place_desc : (x : Lsn) (ys : List Lsn) → length (place_desc x ys) ≡ suc (length ys)
unfolding place_desc
length-place_desc x [] = refl
length-place_desc x (y ∷ ys) = ground (arith, length-place_desc x ys)

length-sort_desc : (xs : List Lsn) → length (sort_desc xs) ≡ length xs
unfolding sort_desc
length-sort_desc [] = refl
length-sort_desc (x ∷ xs) = omega (arith, length-place_desc x (sort_desc xs), length-sort_desc xs)

Falls-place_desc : (b x : Lsn) (ys : List Lsn) → x ≤ b → Falls b ys → Falls b (place_desc x ys)
unfolding place_desc
Falls-place_desc b x [] h f = (h, tt)
Falls-place_desc b x (y ∷ ys) h f = ground (arith, Falls-place_desc y x ys)

place_desc-IsDescending :
    (x : Lsn) (ys : List Lsn) → IsDescending ys → IsDescending (place_desc x ys)
unfolding place_desc
place_desc-IsDescending x [] d = tt
place_desc-IsDescending x (y ∷ ys) d = ground (arith, Falls-place_desc y x ys)

sort_desc-IsDescending : (xs : List Lsn) → IsDescending (sort_desc xs)
unfolding sort_desc
sort_desc-IsDescending [] = tt
sort_desc-IsDescending (x ∷ xs) =
    place_desc-IsDescending x (sort_desc xs) (sort_desc-IsDescending xs)

-- In a falling list the entry at `i` is reached by `i + 1` entries.
count_at :
    (b : Lsn) (xs : List Lsn) (i : ℕ)
    → Falls b xs
    → i < length xs
    → (or_invalid (get_elem? xs i) ≤ b) × (suc i ≤ count_from (or_invalid (get_elem? xs i)) xs)
count_at b [] i f h = absurd (omega arith)
count_at b (x ∷ xs) zero f h = ground arith
count_at b (x ∷ xs) (suc i) f h = ground (arith, count_at x xs i f.1)

-- No entry of a falling list counts from above its start.
count_none : (b l : Lsn) (xs : List Lsn) → Falls b xs → b < l → count_from l xs ≡ 0
count_none b l [] f h = refl
count_none b l (x ∷ xs) f h = ground (arith, count_none x l xs f.1)

count_max :
    (b l : Lsn) (xs : List Lsn) (i : ℕ)
    → Falls b xs
    → suc i ≤ count_from l xs
    → l ≤ or_invalid (get_elem? xs i)
count_max b l [] i f h = absurd (omega arith)
count_max b l (x ∷ xs) zero f h = ground (arith, count_none x l xs f.1)
count_max b l (x ∷ xs) (suc i) f h = ground (arith, count_max x l xs i f.1, count_none x l xs f.1)

Falls-of : (xs : List Lsn) → IsDescending xs → (b : Lsn) × Falls b xs
Falls-of [] d = (0, tt)
Falls-of (x ∷ xs) d = (x, (omega arith, d))

length-map : (f : NodeId → Lsn) (xs : List NodeId) → length (map f xs) ≡ length xs
length-map f [] = refl
length-map f (x ∷ xs) = omega (arith, length-map f xs)

-- The quorum of a group is at least one and at most the number of its members.
abbrev pub HasQuorum : Consensus → Type 0
HasQuorum c = (1 ≤ c.quorum) × (c.quorum ≤ length c.members)

-- A quorum of the members has flushed up to the commit position.
pub commit_lsn-quorum : (c : Consensus) → HasQuorum c → c.quorum ≤ flushed c (commit_lsn c)
unfolding commit_lsn
commit_lsn-quorum c h =
    let xs = map (position c) c.members in
    let (b, f) = Falls-of (sort_desc xs) (sort_desc-IsDescending xs) in
    omega (
      arith,
      count_at b (sort_desc xs) (c.quorum - 1) f
          (omega (arith, length-sort_desc xs, length-map (position c) c.members)),
      count-sort_desc (or_invalid (get_elem? (sort_desc xs) (c.quorum - 1))) xs,
    )

-- No higher position is flushed by a quorum.
pub commit_lsn-highest :
    (c : Consensus) (l : Lsn) → HasQuorum c → c.quorum ≤ flushed c l → l ≤ commit_lsn c
unfolding commit_lsn
commit_lsn-highest c l h q =
    let xs = map (position c) c.members in
    let (b, f) = Falls-of (sort_desc xs) (sort_desc-IsDescending xs) in
    count_max b l (sort_desc xs) (c.quorum - 1) f (omega (arith, count-sort_desc l xs))

count-antitone : (k l : Lsn) (xs : List Lsn) → k ≤ l → count_from l xs ≤ count_from k xs
count-antitone k l [] h = omega arith
count-antitone k l (x ∷ xs) h = ground (arith, count-antitone k l xs h)

-- In a group whose quorum is at least one and at most the number of its members, a position is at
-- or below the commit position exactly when a quorum of the members has flushed up to it.
pub commit_lsn_iff :
    (c : Consensus) (l : Lsn) → HasQuorum c → (l ≤ commit_lsn c) ↔ (c.quorum ≤ flushed c l)
commit_lsn_iff c l h = (
  (λ le. omega (
    arith,
    commit_lsn-quorum c h,
    count-antitone l (commit_lsn c) (map (position c) c.members) le,
  )),
  commit_lsn-highest c l h,
)

-- A flush report raises one position, to the larger of the two, and leaves the others.
pub position-record_flush :
    (c : Consensus) (node m : NodeId) (lsn : Lsn)
    → position (record_flush c node lsn) m
      ≡ (if node == m then max (position c node) lsn else position c m)
unfolding record_flush
position-record_flush c node m lsn = ground (
  arith,
  lookup-insert node m (if ltb (position c node) lsn then lsn else position c node) c.flush,
)

count_mono :
    (f g : NodeId → Lsn) (l : Lsn) (ms : List NodeId)
    → ((m : NodeId) → f m ≤ g m)
    → count_from l (map f ms) ≤ count_from l (map g ms)
count_mono f g l [] h = omega arith
count_mono f g l (m ∷ ms) h = ground (arith, h m, count_mono f g l ms h)

members-record_flush :
    (c : Consensus) (node : NodeId) (lsn : Lsn)
    → ((record_flush c node lsn).members ≡ c.members)
      × ((record_flush c node lsn).quorum ≡ c.quorum)
unfolding record_flush
members-record_flush c node lsn = (refl, refl)

-- In a group whose quorum is at least one and at most the number of its members, a flush report
-- never lowers the commit position: what was acknowledged stays committed.
pub commit_lsn-record_flush :
    (c : Consensus) (node : NodeId) (lsn : Lsn)
    → HasQuorum c
    → commit_lsn c ≤ commit_lsn (record_flush c node lsn)
commit_lsn-record_flush c node lsn h =
    let after = record_flush c node lsn in
    let (same, quorum) = members-record_flush c node lsn in
    commit_lsn-highest after (commit_lsn c) (rw (quorum, same) h) (
      rw (quorum, same)
        (omega (
          arith,
          commit_lsn-quorum c h,
          count_mono (position c) (position after) (commit_lsn c) c.members
              (λ m. ground (arith, position-record_flush c node m lsn)),
        )))
