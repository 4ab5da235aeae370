-- ===== src/Safekeeper/Group/Invariant.antt =====
-- The invariant of a group, over its steps.
use aethel_db.Prelude.{
  ◌+◌, ◌^◌, ◌<◌, ◌≡◌, refl, sym, ap, ◌∙◌, arith, inl, inr, Bool, true, false, some, List, [], ◌∷◌,
  ◌==◌, Bool-cases,
}
use aethel_db.Common.Lsn.{Lsn}
use aethel_db.Safekeeper.Consensus.{
  NodeId, Term, Consensus, contains, record_flush, start_election, handle_vote_request,
  handle_vote_granted,
}
use aethel_db.Safekeeper.Consensus.Votes.{
  HasVoted, grant-HasVoted, grant_again, elect_state, request-HasVoted, granted_state,
}
use aethel_db.Safekeeper.Group
use aethel_db.Safekeeper.Group.{
  Group, set_node, add_request, add_grant, ask, deliver, flush_of, initial, Step, elects, asks,
  delivers, flushes, Reachable, begins, goes_on,
}
use aethel_db.Safekeeper.Group.Quorum.{Within}
use aethel_db.Safekeeper.Group.Grants.{
  Grants, NodeIsValid, VoterIsValid, more-NodeIsValid, add_grant-more, add_grant-cases,
  add_grant-once,
}
use aethel_db.Safekeeper.Group.Nodes.{
  elect-NodeIsValid, request-NodeIsValid, granted-NodeIsValid, flush-NodeIsValid,
}

pub record GroupIsValid (members : List NodeId) (g : Group) : Type 0 where
  pub voters : (v : NodeId) → VoterIsValid members g.grants v (g.nodes v)
  pub once :
      (v : NodeId) (t : Term) (n m : NodeId) → g.grants v t n ≡ true → g.grants v t m ≡ true → n ≡ m
  pub valid : (n : NodeId) → NodeIsValid members g.grants n (g.nodes n)

set_node-cases :
    (P : NodeId → Consensus → Type 0) (n : NodeId) (c : Consensus) (nodes : NodeId → Consensus)
    → P n c
    → ((m : NodeId) → (m == n) ≡ false → P m (nodes m))
    → (m : NodeId) → P m (set_node n c nodes m)
set_node-cases P n c nodes h f m = elim (Bool-cases (m == n)) [
  | inl e ↦ let same : m ≡ n = ground arith in rw (e, same) h
  | inr e ↦ rw e (f m e)
]

-- No step takes a vote away.
voters_keep :
    (members : List NodeId) (grants : Grants) (v : NodeId) (c d : Consensus)
    → ((t : Term) (n : NodeId) → HasVoted c t n → HasVoted d t n)
    → VoterIsValid members grants v c
    → VoterIsValid members grants v d
voters_keep members grants v c d f h t n e = (f t n (h t n e).0, (h t n e).1)

-- A voter after a vote of its own was added.
voter_adds :
    (members : List NodeId) (grants : Grants) (b : Bool) (v : NodeId) (t : Term) (n : NodeId)
    (c d : Consensus)
    → contains v members ≡ true
    → ((s : Term) (m : NodeId) → HasVoted c s m → HasVoted d s m)
    → (b ≡ true → HasVoted d t n)
    → VoterIsValid members grants v c
    → VoterIsValid members (add_grant b v t n grants) v d
voter_adds members grants b v t n c d is f g h s m e =
    elim (add_grant-cases b v t n grants v s m e) [
      | inl (b1, (same, (s1, m1))) ↦ rw (s1, m1) (g b1, is)
      | inr old ↦ (f s m (h s m old).0, is)
    ]

-- The other voters.
voter_other :
    (members : List NodeId) (grants : Grants) (b : Bool) (v w : NodeId) (t : Term) (n : NodeId)
    (c : Consensus)
    → (w == v) ≡ false
    → VoterIsValid members grants w c
    → VoterIsValid members (add_grant b v t n grants) w c
voter_other members grants b v w t n c other h s m e =
    elim (add_grant-cases b v t n grants w s m e) [
      | inl (b1, (same, x)) ↦ absurd (ground arith)
      | inr old ↦ h s m old
    ]

elect-GroupIsValid :
    (members : List NodeId) (g : Group) (n : NodeId)
    → contains n members ≡ true
    → (g.nodes n).term + 1 < 2 ^ 64
    → GroupIsValid members g
    → GroupIsValid members (Group.elect n g)
unfolding Group.elect
elect-GroupIsValid members g n is room h =
    let c = g.nodes n in
    let term = (start_election c).term in
    let state = elect_state c in
    let new : (m : NodeId) → g.grants n term m ≡ true → m ≡ n = λ m e.
      elim (h.voters n term m e).0 [
        | inl past ↦ absurd (omega arith)
        | inr now ↦ absurd (omega (arith, now.0))
      ] in
    record {
      voters =
          set_node-cases (VoterIsValid members (add_grant true n term n g.grants)) n
            (start_election c) g.nodes
            (voter_adds members g.grants true n term n c (start_election c) is
              (λ s m v. inl (ground arith)) (λ _. inr (refl, state.1 ∙ ap some (h.valid n).itself))
              (h.voters n))
            (λ m e. voter_other members g.grants true n m term n (g.nodes m) e (h.voters m));
      once = add_grant-once g.grants true n term n h.once (λ _. new);
      valid =
          set_node-cases (NodeIsValid members (add_grant true n term n g.grants)) n
            (start_election c) g.nodes (elect-NodeIsValid members g.grants n c (h.valid n))
            (λ m e.
              more-NodeIsValid members g.grants (add_grant true n term n g.grants) m (g.nodes m)
                (add_grant-more true n term n g.grants) (h.valid m));
    }

ask-GroupIsValid :
    (members : List NodeId) (g : Group) (v : NodeId) (t : Term) (n : NodeId)
    → contains v members ≡ true
    → GroupIsValid members g
    → GroupIsValid members (ask v t n g)
unfolding ask
ask-GroupIsValid members g v t n is h =
    let c = g.nodes v in
    let vote = handle_vote_request c t n in
    let grants = add_grant vote.1 v t n g.grants in
    record {
      voters =
          set_node-cases (VoterIsValid members grants) v vote.0 g.nodes
            (voter_adds members g.grants vote.1 v t n c vote.0 is
              (λ s m. request-HasVoted c t s n m) (λ e. grant-HasVoted c t n e) (h.voters v))
            (λ m e. voter_other members g.grants vote.1 v m t n (g.nodes m) e (h.voters m));
      once =
          add_grant-once g.grants vote.1 v t n h.once
            (λ e m old. sym (grant_again c t n m (h.voters v t m old).0 e));
      valid =
          set_node-cases (NodeIsValid members grants) v vote.0 g.nodes
            (more-NodeIsValid members g.grants grants v vote.0
              (add_grant-more vote.1 v t n g.grants)
              (request-NodeIsValid members g.grants v c t n (h.valid v)))
            (λ m e.
              more-NodeIsValid members g.grants grants m (g.nodes m)
                (add_grant-more vote.1 v t n g.grants) (h.valid m));
    }

-- A node changes, and keeps its votes; no grant is new.
change-GroupIsValid :
    (members : List NodeId) (g : Group) (n : NodeId) (d : Consensus)
    → ((t : Term) (m : NodeId) → HasVoted (g.nodes n) t m → HasVoted d t m)
    → NodeIsValid members g.grants n d
    → GroupIsValid members g
    → GroupIsValid members (record g { nodes = set_node n d g.nodes })
change-GroupIsValid members g n d f valid h = record {
  voters =
      set_node-cases (VoterIsValid members g.grants) n d g.nodes
        (voters_keep members g.grants n (g.nodes n) d f (h.voters n)) (λ m e. h.voters m);
  once = h.once;
  valid = set_node-cases (NodeIsValid members g.grants) n d g.nodes valid (λ m e. h.valid m);
}

deliver-GroupIsValid :
    (members : List NodeId) (g : Group) (v : NodeId) (t : Term) (n : NodeId)
    → g.grants v t n ≡ true
    → GroupIsValid members g
    → GroupIsValid members (deliver v t n g)
unfolding deliver
deliver-GroupIsValid members g v t n vote h =
    let c = g.nodes n in
    let state = granted_state c v t in
    change-GroupIsValid members g n (handle_vote_granted c v t) (λ s m old. ground arith)
      (granted-NodeIsValid members g.grants n c v t vote (h.valid n)) h

flush_of-GroupIsValid :
    (members : List NodeId) (g : Group) (n node : NodeId) (lsn : Lsn)
    → GroupIsValid members g
    → GroupIsValid members (flush_of n node lsn g)
unfolding flush_of record_flush
flush_of-GroupIsValid members g n node lsn h =
    change-GroupIsValid members g n (record_flush (g.nodes n) node lsn) (λ t m old. old)
      (flush-NodeIsValid members g.grants n (g.nodes n) node lsn (h.valid n)) h

Step-GroupIsValid :
    {members : List NodeId} {g k : Group}
    → Step members g k
    → GroupIsValid members g
    → GroupIsValid members k
Step-GroupIsValid {members = ms} (elects g n is room) h = elect-GroupIsValid ms g n is room h
Step-GroupIsValid {members = ms} (asks g v t c is sent) h = ask-GroupIsValid ms g v t c is h
Step-GroupIsValid {members = ms} (delivers g v t c vote) h = deliver-GroupIsValid ms g v t c vote h
Step-GroupIsValid {members = ms} (flushes g n node lsn) h = flush_of-GroupIsValid ms g n node lsn h

initial-GroupIsValid : (members : List NodeId) → GroupIsValid members (initial members)
initial-GroupIsValid members = record {
  voters = λ v t n e. absurd cc;
  once = λ v t n m e f. absurd cc;
  valid = λ n. record {
    itself = refl;
    majority = refl;
    given = λ v e. absurd cc;
    distinct = tt;
    won = λ e. absurd cc;
  };
}

pub Reachable-GroupIsValid :
    {members : List NodeId} {g : Group} → Reachable members g → GroupIsValid members g
Reachable-GroupIsValid {members = ms} begins = initial-GroupIsValid ms
Reachable-GroupIsValid (goes_on r s) = Step-GroupIsValid s (Reachable-GroupIsValid r)

pub votes-Within :
    (members : List NodeId) (g : Group) (n : NodeId) (votes : List NodeId)
    → GroupIsValid members g
    → ((v : NodeId) → contains v votes ≡ true → g.grants v (g.nodes n).term n ≡ true)
    → Within votes members
votes-Within members g n [] h f = tt
votes-Within members g n (v ∷ votes) h f = (
  (h.voters v (g.nodes n).term n (f v (ground arith))).1,
  votes-Within members g n votes h (λ w e. f w (ground arith)),
)
