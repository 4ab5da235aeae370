-- ===== src/Safekeeper/Group.antt =====
-- A group of safekeepers (safekeeper/src/consensus.rs and the election of server.rs): the nodes, and
-- the vote requests and replies that were ever sent, which may be delivered late, often or never.
pub mod Quorum
pub mod Grants
pub mod Nodes
pub mod Invariant
pub mod Safety
use aethel_db.Prelude.{
  ℕ, suc, ◌+◌, ◌/◌, ◌%◌, ◌^◌, ◌≡◌, ◌<◌, Bool, true, false, ◌&&◌, ◌||◌, List, [], ◌∷◌, length, ◌==◌,
  if◌then◌else◌,
}
use aethel_db.Common.Lsn.{Lsn}
use aethel_db.Safekeeper.Consensus.{
  NodeId, Term, Consensus, follower, contains, initial_flush, record_flush, observe_term,
  start_election, handle_vote_request, handle_vote_granted,
}
use aethel_db.Prelude.{none}

-- `requests t c`: the candidate `c` asked for votes in the term `t`. `grants v t c`: the node `v` gave it its vote.
pub record Group : Type 0 where
  pub nodes : NodeId → Consensus
  pub requests : Term → NodeId → Bool
  pub grants : NodeId → Term → NodeId → Bool

abbrev pub set_node : NodeId → Consensus → (NodeId → Consensus) → NodeId → Consensus
set_node n c nodes m = if m == n then c else nodes m

abbrev pub add_request : Term → NodeId → (Term → NodeId → Bool) → Term → NodeId → Bool
add_request t c requests t' c' = ((t' == t) && (c' == c)) || requests t' c'

abbrev pub add_grant :
    Bool → NodeId → Term → NodeId → (NodeId → Term → NodeId → Bool) → NodeId → Term → NodeId → Bool
add_grant granted v t c grants v' t' c' =
    (granted && ((v' == v) && ((t' == t) && (c' == c)))) || grants v' t' c'

-- A node starts an election, and votes for itself.
unfoldable pub elect : NodeId → Group → Group
elect n g =
    let c = start_election (g.nodes n) in
    record {
      nodes = set_node n c g.nodes;
      requests = add_request c.term n g.requests;
      grants = add_grant true n c.term n g.grants;
    }

-- A vote request reaches a node, whose reply is sent.
unfoldable pub ask : NodeId → Term → NodeId → Group → Group
ask v t c g =
    let vote = handle_vote_request (g.nodes v) t c in
    record g { nodes = set_node v vote.0 g.nodes; grants = add_grant vote.1 v t c g.grants }

-- A vote reaches its candidate.
unfoldable pub deliver : NodeId → Term → NodeId → Group → Group
deliver v t c g = record g { nodes = set_node c (handle_vote_granted (g.nodes c) v t) g.nodes }

-- A node learns of a flush position.
unfoldable pub flush_of : NodeId → NodeId → Lsn → Group → Group
flush_of n node lsn g = record g { nodes = set_node n (record_flush (g.nodes n) node lsn) g.nodes }

-- `Consensus::new` on every node.
abbrev pub fresh : List NodeId → NodeId → Consensus
fresh members n = record {
  node_id = n;
  members = members;
  quorum = length members / 2 + 1;
  term = 0;
  role = follower;
  voted_for = none;
  votes = [];
  flush = initial_flush members;
}

abbrev pub initial : List NodeId → Group
initial members = record { nodes = fresh members; requests = λ t c. false; grants = λ v t c. false }

-- The steps of a group. Elections are started by members; the terms stay clear of the end of their 64 bits.
pub data Step (members : List NodeId) : Group → Group → Type 0 where
  elects :
      (g : Group) (n : NodeId)
      → contains n members ≡ true
      → (g.nodes n).term + 1 < 2 ^ 64
      → Step members g (elect n g)
  asks :
      (g : Group) (v : NodeId) (t : Term) (c : NodeId)
      → contains v members ≡ true
      → g.requests t c ≡ true
      → Step members g (ask v t c g)
  delivers :
      (g : Group) (v : NodeId) (t : Term) (c : NodeId)
      → g.grants v t c ≡ true
      → Step members g (deliver v t c g)
  flushes : (g : Group) (n node : NodeId) (lsn : Lsn) → Step members g (flush_of n node lsn g)

-- What a group comes to, from its start.
pub data Reachable (members : List NodeId) : Group → Type 0 where
  begins : Reachable members (initial members)
  goes_on : {g h : Group} → Reachable members g → Step members g h → Reachable members h
