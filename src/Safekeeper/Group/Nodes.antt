-- ===== src/Safekeeper/Group/Nodes.antt =====
-- The calls of one node, and the votes that it counts.
use aethel_db.Prelude.{
  ◌≤◌, ◌≡◌, refl, sym, ◌∙◌, arith, ◌⊎◌, inl, inr, true, false, ◌&&◌, List, [], ◌∷◌, length, ◌==◌,
  ltb, Bool-cases,
}
use aethel_db.Common.Lsn.{Lsn}
use aethel_db.Safekeeper.Consensus.{
  NodeId, Term, Consensus, is_leader, is_candidate, contains, add_vote, record_flush, observe_term,
  maybe_become_leader, start_election, handle_vote_request, handle_vote_granted,
}
use aethel_db.Safekeeper.Consensus.Votes.{granted_state}
use aethel_db.Safekeeper.Group.{add_grant}
use aethel_db.Safekeeper.Group.Quorum.{IsDistinct}
use aethel_db.Safekeeper.Group.Grants.{Grants, NodeIsValid}

-- What the calls do to a node.
elect_facts :
    (c : Consensus)
    → (((start_election c).node_id ≡ c.node_id) × ((start_election c).quorum ≡ c.quorum))
      × (((start_election c).votes ≡ c.node_id ∷ [])
          × (is_leader (start_election c).role ≡ true → c.quorum ≤ 1))
unfolding start_election maybe_become_leader
elect_facts c = ground arith

request_facts :
    (c : Consensus) (t : Term) (m : NodeId)
    → (((handle_vote_request c t m).0.node_id ≡ c.node_id)
        × ((handle_vote_request c t m).0.quorum ≡ c.quorum))
      × (((handle_vote_request c t m).0.votes ≡ [])
            × (is_leader (handle_vote_request c t m).0.role ≡ false)
          ⊎ ((handle_vote_request c t m).0.votes ≡ c.votes)
            × (((handle_vote_request c t m).0.term ≡ c.term)
                × ((handle_vote_request c t m).0.role ≡ c.role)))
unfolding handle_vote_request observe_term
request_facts c t m = elim (Bool-cases (ltb c.term t)) [
  | inl e ↦ (ground arith, inl (ground arith))
  | inr e ↦ (ground arith, inr (ground arith))
]

granted_facts :
    (c : Consensus) (from : NodeId) (t : Term)
    → (((handle_vote_granted c from t).node_id ≡ c.node_id)
        × ((handle_vote_granted c from t).quorum ≡ c.quorum))
      × (((handle_vote_granted c from t) ≡ c)
          ⊎ (t ≡ c.term)
            × (((handle_vote_granted c from t).votes ≡ add_vote from c.votes)
                × (is_leader (handle_vote_granted c from t).role ≡ true
                    → c.quorum ≤ length (add_vote from c.votes))))
unfolding handle_vote_granted maybe_become_leader
granted_facts c from t = elim (Bool-cases ((t == c.term) && is_candidate c.role)) [
  | inl e ↦ (ground arith, inr (ground arith, (rw e (ground arith), rw e (ground arith))))
  | inr e ↦ (ground arith, inl (rw e refl))
]

pub elect-NodeIsValid :
    (members : List NodeId) (grants : Grants) (n : NodeId) (c : Consensus)
    → NodeIsValid members grants n c
    → NodeIsValid members (add_grant true n (start_election c).term n grants) n (start_election c)
elect-NodeIsValid members grants n c h =
    let facts = elect_facts c in
    record {
      itself = facts.0.0 ∙ h.itself;
      majority = facts.0.1 ∙ h.majority;
      given = λ v e.
          let only : contains v (c.node_id ∷ []) ≡ true = rw facts.1.0 at e in
          ground (arith, h.itself);
      distinct = rw facts.1.0 (refl, tt);
      won = λ e. rw (facts.0.1, facts.1.0) (facts.1.1 e);
    }

pub request-NodeIsValid :
    (members : List NodeId) (grants : Grants) (n : NodeId) (c : Consensus) (t : Term) (m : NodeId)
    → NodeIsValid members grants n c
    → NodeIsValid members grants n (handle_vote_request c t m).0
request-NodeIsValid members grants n c t m h =
    let facts = request_facts c t m in
    elim facts.1 [
      | inl (none_given, follows) ↦ record {
        itself = facts.0.0 ∙ h.itself;
        majority = facts.0.1 ∙ h.majority;
        given = λ v e. let e' : contains v [] ≡ true = rw none_given at e in absurd cc;
        distinct = rw none_given tt;
        won = λ e. absurd cc;
      }
      | inr (same, (term, role)) ↦ record {
        itself = facts.0.0 ∙ h.itself;
        majority = facts.0.1 ∙ h.majority;
        given = λ v e. rw term (h.given v (rw same at e));
        distinct = rw same h.distinct;
        won = λ e. rw (facts.0.1, same) (h.won (rw role at e));
      }
    ]

add_vote-IsDistinct :
    (from : NodeId) (votes : List NodeId) → IsDistinct votes → IsDistinct (add_vote from votes)
add_vote-IsDistinct from votes h = elim (Bool-cases (contains from votes)) [
  | inl e ↦ rw e h
  | inr e ↦ rw e (e, h)
]

contains-add_vote :
    (v from : NodeId) (votes : List NodeId)
    → contains v (add_vote from votes) ≡ true
    → (v ≡ from) ⊎ (contains v votes ≡ true)
contains-add_vote v from votes h = elim (Bool-cases (contains v votes)) [
  | inl e ↦ inr e
  | inr e ↦ inl (ground arith)
]

pub granted-NodeIsValid :
    (members : List NodeId) (grants : Grants) (n : NodeId) (c : Consensus) (from : NodeId)
    (t : Term)
    → grants from t n ≡ true
    → NodeIsValid members grants n c
    → NodeIsValid members grants n (handle_vote_granted c from t)
granted-NodeIsValid members grants n c from t vote h =
    let facts = granted_facts c from t in
    elim facts.1 [
      | inl same ↦ rw same h
      | inr (now, (added, wins)) ↦ record {
        itself = facts.0.0 ∙ h.itself;
        majority = facts.0.1 ∙ h.majority;
        given = λ v e.
            rw (granted_state c from t).0 (elim (contains-add_vote v from c.votes (rw added at e)) [
              | inl new ↦ rw (new, sym now) vote
              | inr old ↦ h.given v old
            ]);
        distinct = rw added (add_vote-IsDistinct from c.votes h.distinct);
        won = λ e. rw (facts.0.1, added) (wins e);
      }
    ]

pub flush-NodeIsValid :
    (members : List NodeId) (grants : Grants) (n : NodeId) (c : Consensus) (node : NodeId)
    (lsn : Lsn)
    → NodeIsValid members grants n c
    → NodeIsValid members grants n (record_flush c node lsn)
unfolding record_flush
flush-NodeIsValid members grants n c node lsn h = record {
  itself = h.itself;
  majority = h.majority;
  given = h.given;
  distinct = h.distinct;
  won = h.won;
}
