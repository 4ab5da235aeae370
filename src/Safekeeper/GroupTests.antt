-- ===== src/Safekeeper/GroupTests.antt =====
-- An election in a group of three safekeepers.
use aethel_db.Prelude.{◌≡◌, refl, List, [], ◌∷◌, arith}
use aethel_db.Safekeeper.Consensus.{
  NodeId, maybe_become_leader, start_election, handle_vote_request, observe_term,
  handle_vote_granted,
}
use aethel_db.Safekeeper.Group.{
  Group, elect, ask, deliver, initial, Reachable, begins, goes_on, elects, asks, delivers,
}
use aethel_db.Safekeeper.Group.Safety.{one_leader_per_term}

abbrev three : List NodeId
three = 1 ∷ 2 ∷ 3 ∷ []

-- The first node asks the second for its vote, and gets it.
abbrev elected : Group
elected = deliver 2 1 1 (ask 2 1 1 (elect 1 (initial three)))

elected-Reachable : Reachable three elected
unfolding elect ask start_election maybe_become_leader handle_vote_request observe_term
elected-Reachable =
    goes_on
      (goes_on (goes_on begins (elects (initial three) 1 refl (omega arith)))
        (asks (elect 1 (initial three)) 2 1 1 refl refl))
      (delivers (ask 2 1 1 (elect 1 (initial three))) 2 1 1 refl)

abbrev node : NodeId
node = 1

one_leader_per_term_example : node ≡ node
unfolding elect ask deliver start_election maybe_become_leader handle_vote_request observe_term
    handle_vote_granted
one_leader_per_term_example =
    one_leader_per_term three elected node node elected-Reachable refl refl refl
