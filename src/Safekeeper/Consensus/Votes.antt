-- ===== src/Safekeeper/Consensus/Votes.antt =====
-- Elections of one node over any sequence of calls: one vote for each term, terms that never fall,
-- and leaders with a quorum of votes.
use aethel_db.Prelude.{
  ◌+◌, ◌%◌, ◌^◌, ◌≡◌, ◌<◌, ◌⊎◌, inl, inr, true, some, List, [], ◌∷◌, arith, ltb, Bool-cases,
}
use aethel_db.Common.Lsn.{Lsn}
use aethel_db.Safekeeper.Consensus.{
  NodeId, Term, Consensus, record_flush, observe_term, maybe_become_leader, start_election,
  handle_vote_request, handle_vote_granted,
}

-- The calls that change the state.
pub data Call : Type 0 where
  flushed : NodeId → Lsn → Call
  elect : Call
  vote_request : Term → NodeId → Call
  vote_granted : NodeId → Term → Call

unfoldable pub after : Consensus → Call → Consensus
after c (flushed node lsn) = record_flush c node lsn
after c elect = start_election c
after c (vote_request term n) = (handle_vote_request c term n).0
after c (vote_granted from term) = handle_vote_granted c from term

unfoldable pub run : Consensus → List Call → Consensus
run c [] = c
run c (call ∷ calls) = run (after c call) calls

-- The terms stay clear of the end of their 64 bits.
abbrev pub HasRoom : Consensus → List Call → Type 0
HasRoom c [] = Unit
HasRoom c (call ∷ calls) = (c.term + 1 < 2 ^ 64) × HasRoom (after c call) calls

-- The node has voted for `n` in `term`, or is past that term.
abbrev pub HasVoted : Consensus → Term → NodeId → Type 0
HasVoted c term n = (term < c.term) ⊎ ((c.term ≡ term) × (c.voted_for ≡ some n))

pub elect_state :
    (c : Consensus)
    → ((start_election c).term ≡ (c.term + 1) % 2 ^ 64)
      × ((start_election c).voted_for ≡ some c.node_id)
unfolding start_election maybe_become_leader
elect_state c = ground arith

pub granted_state :
    (c : Consensus) (from : NodeId) (t : Term)
    → ((handle_vote_granted c from t).term ≡ c.term)
      × ((handle_vote_granted c from t).voted_for ≡ c.voted_for)
unfolding handle_vote_granted maybe_become_leader
granted_state c from t = ground arith

pub request-HasVoted :
    (c : Consensus) (t term : Term) (m n : NodeId)
    → HasVoted c term n
    → HasVoted (handle_vote_request c t m).0 term n
unfolding handle_vote_request observe_term
request-HasVoted c t term m n (inl h) = inl (ground arith)
request-HasVoted c t term m n (inr (e, v)) = elim (Bool-cases (ltb c.term t)) [
  | inl newer ↦ inl (ground arith)
  | inr older ↦ inr (ground arith)
]

pub after-HasVoted :
    (c : Consensus) (call : Call) (term : Term) (n : NodeId)
    → c.term + 1 < 2 ^ 64
    → HasVoted c term n
    → HasVoted (after c call) term n
unfolding after record_flush
after-HasVoted c (flushed node lsn) term n room h = h
after-HasVoted c elect term n room h = inl (omega (arith, elect_state c))
after-HasVoted c (vote_request t m) term n room h = request-HasVoted c t term m n h
after-HasVoted c (vote_granted from t) term n room h = ground (arith, granted_state c from t)

run-HasVoted :
    (c : Consensus) (calls : List Call) (term : Term) (n : NodeId)
    → HasRoom c calls
    → HasVoted c term n
    → HasVoted (run c calls) term n
unfolding run
run-HasVoted c [] term n room h = h
run-HasVoted c (call ∷ calls) term n room h =
    run-HasVoted (after c call) calls term n room.1 (after-HasVoted c call term n room.0 h)

pub grant-HasVoted :
    (c : Consensus) (term : Term) (n : NodeId)
    → (handle_vote_request c term n).1 ≡ true
    → HasVoted (handle_vote_request c term n).0 term n
unfolding handle_vote_request observe_term
grant-HasVoted c term n h = ground arith

pub grant_again :
    (c : Consensus) (term : Term) (m n : NodeId)
    → HasVoted c term n
    → (handle_vote_request c term m).1 ≡ true
    → m ≡ n
unfolding handle_vote_request observe_term
grant_again c term m n (inl past) h = ground arith
grant_again c term m n (inr (e, v)) h = ground arith

-- Whatever a node is called with between two vote requests of one term, as long as its own term
-- stays clear of the end of the 64 bits, it grants both only to one candidate.
pub one_vote_per_term :
    (c : Consensus) (term : Term) (n m : NodeId) (calls : List Call)
    → HasRoom (handle_vote_request c term n).0 calls
    → (handle_vote_request c term n).1 ≡ true
    → (handle_vote_request (run (handle_vote_request c term n).0 calls) term m).1 ≡ true
    → m ≡ n
one_vote_per_term c term n m calls room first second =
    grant_again (run (handle_vote_request c term n).0 calls) term m n
      (run-HasVoted (handle_vote_request c term n).0 calls term n room
        (grant-HasVoted c term n first))
      second
