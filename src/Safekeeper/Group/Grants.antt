-- ===== src/Safekeeper/Group/Grants.antt =====
-- What holds of one node of a group and of the votes that were given, and how votes are added.
use aethel_db.Prelude.{
  ◌+◌, ◌/◌, ◌≤◌, ◌≡◌, refl, sym, arith, ◌⊎◌, inl, inr, Bool, true, List, length, Bool-cases,
}
use aethel_db.Safekeeper.Consensus.{NodeId, Term, Consensus, is_leader, contains}
use aethel_db.Safekeeper.Consensus.Votes.{HasVoted}
use aethel_db.Safekeeper.Group.{add_grant}
use aethel_db.Safekeeper.Group.Quorum.{IsDistinct}

abbrev pub Grants : Type 0
Grants = NodeId → Term → NodeId → Bool

-- A node's votes were given to it in its term, each once; a leader has a quorum of them.
pub record NodeIsValid (members : List NodeId) (grants : Grants) (n : NodeId) (c : Consensus)
    : Type 0 where
  pub itself : c.node_id ≡ n
  pub majority : c.quorum ≡ length members / 2 + 1
  pub given : (v : NodeId) → contains v c.votes ≡ true → grants v c.term n ≡ true
  pub distinct : IsDistinct c.votes
  pub won : is_leader c.role ≡ true → c.quorum ≤ length c.votes

-- A voter is a member, and remembers its vote until a later term.
abbrev pub VoterIsValid : List NodeId → Grants → NodeId → Consensus → Type 0
VoterIsValid members grants v c =
    (t : Term) (n : NodeId) → grants v t n ≡ true → HasVoted c t n × (contains v members ≡ true)

-- More grants take nothing away.
pub more-NodeIsValid :
    (members : List NodeId) (grants more : Grants) (n : NodeId) (c : Consensus)
    → ((v : NodeId) (t : Term) (m : NodeId) → grants v t m ≡ true → more v t m ≡ true)
    → NodeIsValid members grants n c
    → NodeIsValid members more n c
more-NodeIsValid members grants more n c f h = record {
  itself = h.itself;
  majority = h.majority;
  given = λ v e. f v c.term n (h.given v e);
  distinct = h.distinct;
  won = h.won;
}

pub add_grant-more :
    (b : Bool) (v : NodeId) (t : Term) (c : NodeId) (grants : Grants) (v' : NodeId) (t' : Term)
    (c' : NodeId)
    → grants v' t' c' ≡ true
    → add_grant b v t c grants v' t' c' ≡ true
add_grant-more b v t c grants v' t' c' h = ground arith

-- A grant is the one that was added, or an old one.
pub add_grant-cases :
    (b : Bool) (v : NodeId) (t : Term) (c : NodeId) (grants : Grants) (v' : NodeId) (t' : Term)
    (c' : NodeId)
    → add_grant b v t c grants v' t' c' ≡ true
    → ((b ≡ true) × ((v' ≡ v) × ((t' ≡ t) × (c' ≡ c)))) ⊎ (grants v' t' c' ≡ true)
add_grant-cases b v t c grants v' t' c' h = elim (Bool-cases (grants v' t' c')) [
  | inl e ↦ inr e
  | inr e ↦ inl (ground arith)
]

-- A grant that its voter has not given to another keeps the grants unique.
pub add_grant-once :
    (grants : Grants) (b : Bool) (v : NodeId) (t : Term) (c : NodeId)
    → ((w : NodeId) (s : Term) (n m : NodeId) → grants w s n ≡ true → grants w s m ≡ true → n ≡ m)
    → (b ≡ true → (n : NodeId) → grants v t n ≡ true → n ≡ c)
    → (w : NodeId) (s : Term) (n m : NodeId) → add_grant b v t c grants w s n ≡ true
    → add_grant b v t c grants w s m ≡ true
    → n ≡ m
add_grant-once grants b v t c once f w s n m h k = elim (add_grant-cases b v t c grants w s n h) [
  | inl (b1, (w1, (s1, n1))) ↦ elim (add_grant-cases b v t c grants w s m k) [
    | inl (b2, (w2, (s2, m2))) ↦ rw (n1, m2) refl
    | inr old ↦ rw n1 (sym (f b1 m (rw (w1, s1) at old)))
  ]
  | inr old1 ↦ elim (add_grant-cases b v t c grants w s m k) [
    | inl (b2, (w2, (s2, m2))) ↦ rw m2 (f b2 n (rw (w2, s2) at old1))
    | inr old2 ↦ once w s n m old1 old2
  ]
]
