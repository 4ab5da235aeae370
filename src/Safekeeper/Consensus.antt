-- ===== src/Safekeeper/Consensus.antt =====
-- safekeeper/src/consensus.rs: the quorum rule for the commit position, and elections.
pub mod Commit
pub mod Votes
use aethel_db.Prelude.{
  ℕ, suc, ◌+◌, ◌-◌, ◌/◌, ◌%◌, ◌^◌, Bool, true, false, ◌&&◌, ◌||◌, Option, none, some, List, [], ◌∷◌,
  map, length, get_elem?, ltb, leb, ◌==◌, if◌then◌else◌,
}
use aethel_db.Ord.{nat_ord}
use aethel_db.Ord.Map.{lookup, insert}
use aethel_db.Common.Lsn.{Lsn, invalid}

abbrev pub NodeId : Type 0
NodeId = ℕ

abbrev pub Term : Type 0
Term = ℕ

pub data Role : Type 0 where
  follower candidate leader : Role

-- The hash set `votes` is a list without repetitions; the hash map `flush` is an ordered map whose
-- order is never read.
pub record Consensus : Type 0 where
  pub node_id : NodeId
  pub members : List NodeId
  pub quorum : ℕ
  pub term : Term
  pub role : Role
  pub voted_for : Option NodeId
  pub votes : List NodeId
  pub flush : List (NodeId × Lsn)

abbrev pub contains : NodeId → List NodeId → Bool
contains n [] = false
contains n (m ∷ ms) = if m == n then true else contains n ms

-- `members.iter().map(|&m| (m, Lsn::INVALID)).collect()`
unfoldable pub initial_flush : List NodeId → List (NodeId × Lsn)
initial_flush [] = []
initial_flush (m ∷ ms) = insert m invalid (initial_flush ms)

-- `Consensus::new`; `none` is the panic of its assertion.
unfoldable pub new_consensus : NodeId → List NodeId → Option Consensus
new_consensus node_id members =
    if contains node_id members
    then some (record {
      node_id = node_id;
      members = members;
      quorum = length members / 2 + 1;
      term = 0;
      role = follower;
      voted_for = none;
      votes = [];
      flush = initial_flush members;
    })
    else none

-- The flush position of a node, if there is none the invalid one.
abbrev pub or_invalid : Option Lsn → Lsn
or_invalid none = invalid
or_invalid (some l) = l

abbrev pub position : Consensus → NodeId → Lsn
position c m = or_invalid (lookup m c.flush)

unfoldable pub record_flush : Consensus → NodeId → Lsn → Consensus
record_flush c node lsn =
    let slot = position c node in
    record c { flush = insert node (if ltb slot lsn then lsn else slot) c.flush }

-- `sort_unstable_by(|a, b| b.cmp(a))`
unfoldable pub place_desc : Lsn → List Lsn → List Lsn
place_desc x [] = x ∷ []
place_desc x (y ∷ ys) = if ltb x y then y ∷ place_desc x ys else x ∷ y ∷ ys

unfoldable pub sort_desc : List Lsn → List Lsn
sort_desc [] = []
sort_desc (x ∷ xs) = place_desc x (sort_desc xs)

unfoldable pub commit_lsn : Consensus → Lsn
commit_lsn c = or_invalid (get_elem? (sort_desc (map (position c) c.members)) (c.quorum - 1))

unfoldable pub observe_term : Consensus → Term → Consensus
observe_term c term =
    if ltb c.term term
    then record c { term = term; role = follower; voted_for = none; votes = [] }
    else c

abbrev pub is_candidate : Role → Bool
is_candidate candidate = true
is_candidate _ = false

-- `self.role == Role::Leader`
abbrev pub is_leader : Role → Bool
is_leader leader = true
is_leader _ = false

unfoldable pub maybe_become_leader : Consensus → Consensus
maybe_become_leader c =
    if is_candidate c.role && leb c.quorum (length c.votes) then record c { role = leader } else c

-- The new state; the returned term is its `term`, which wraps at 64 bits.
unfoldable pub start_election : Consensus → Consensus
start_election c = maybe_become_leader (record c {
  term = (c.term + 1) % 2 ^ 64;
  role = candidate;
  voted_for = some c.node_id;
  votes = c.node_id ∷ [];
})

-- `voted_for.is_none() || voted_for == Some(candidate)`
abbrev pub may_vote : Option NodeId → NodeId → Bool
may_vote none candidate_id = true
may_vote (some n) candidate_id = n == candidate_id

unfoldable pub handle_vote_request : Consensus → Term → NodeId → Consensus × Bool
handle_vote_request c term candidate_id =
    let seen = observe_term c term in
    if term == seen.term && may_vote seen.voted_for candidate_id
    then (record seen { voted_for = some candidate_id }, true)
    else (seen, false)

-- `votes.insert(from)`
abbrev pub add_vote : NodeId → List NodeId → List NodeId
add_vote from votes = if contains from votes then votes else from ∷ votes

unfoldable pub handle_vote_granted : Consensus → NodeId → Term → Consensus
handle_vote_granted c from term =
    if term == c.term && is_candidate c.role
    then maybe_become_leader (record c { votes = add_vote from c.votes })
    else c
