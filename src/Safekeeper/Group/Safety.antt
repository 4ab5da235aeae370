-- ===== src/Safekeeper/Group/Safety.antt =====
-- The leaders of one term.
use aethel_db.Prelude.{◌≡◌, arith, true, List}
use aethel_db.Safekeeper.Consensus.{NodeId, is_leader}
use aethel_db.Safekeeper.Group.{Group, Reachable}
use aethel_db.Safekeeper.Group.Quorum.{quorums_meet}
use aethel_db.Safekeeper.Group.Invariant.{Reachable-GroupIsValid, votes-Within}

-- In every group that comes of its start by elections of members whose terms stay clear of the end of
-- their 64 bits, vote requests that reach members, votes and flush positions, in any order and however
-- late or often they are delivered, two leaders of one term are one node. No node restarts.
pub one_leader_per_term :
    (members : List NodeId) (g : Group) (n m : NodeId)
    → Reachable members g
    → is_leader (g.nodes n).role ≡ true
    → is_leader (g.nodes m).role ≡ true
    → (g.nodes n).term ≡ (g.nodes m).term
    → n ≡ m
one_leader_per_term members g n m r ln lm same =
    let h = Reachable-GroupIsValid r in
    let vn = h.valid n in
    let vm = h.valid m in
    let (v, (a, b)) =
      quorums_meet (g.nodes n).votes (g.nodes m).votes members vn.distinct vm.distinct
        (votes-Within members g n (g.nodes n).votes h vn.given)
        (votes-Within members g m (g.nodes m).votes h vm.given)
        (omega (arith, vn.majority, vn.won ln, vm.majority, vm.won lm)) in
    h.once v (g.nodes n).term n m (vn.given v a) (rw same (vm.given v b))
