-- ===== src/Safekeeper/Server/Commits.antt =====
-- What the handlers say of the commit position: it never falls, and readers get nothing beyond it.
use aethel_db.Prelude.{
  ℕ, ◌-◌, ◌^◌, ◌≤◌, ◌<◌, ◌≡◌, refl, max, min, arith, List, [], ◌∷◌, ltb, Bool-cases, inl, inr,
}
use aethel_db.Result.{Result, ok, err, panic}
use aethel_db.Common.Lsn.{Lsn}
use aethel_db.Common.WalService.{AppendRequest, AppendResponse, ReadRequest, status_ok}
use aethel_db.Safekeeper.Consensus.{NodeId, Consensus, record_flush, commit_lsn}
use aethel_db.Safekeeper.Consensus.Commit.{HasQuorum, commit_lsn-record_flush}
use aethel_db.Safekeeper.Storage.{StorageError, WalStorage, read_file}
use aethel_db.Safekeeper.Storage.Reads.{IsStored, read_at-log}
use aethel_db.Safekeeper.Server.{
  Safekeeper, Replicator, record_all, acknowledge, handle_append, handle_read,
}

record_flush-HasQuorum :
    (c : Consensus) (node : NodeId) (lsn : Lsn) → HasQuorum c → HasQuorum (record_flush c node lsn)
unfolding record_flush
record_flush-HasQuorum c node lsn h = h

commit_lsn-record_all :
    (acks : List (NodeId × Lsn)) (c : Consensus)
    → HasQuorum c
    → commit_lsn c ≤ commit_lsn (record_all acks c)
unfolding record_all
commit_lsn-record_all [] c h = omega arith
commit_lsn-record_all ((node, lsn) ∷ acks) c h = omega (
  arith,
  commit_lsn-record_flush c node lsn h,
  commit_lsn-record_all acks (record_flush c node lsn) (record_flush-HasQuorum c node lsn h),
)

acknowledge-commit_lsn :
    (r : Result StorageError Lsn × WalStorage) (acks : List (NodeId × Lsn)) (c : Consensus)
    → HasQuorum c
    → commit_lsn c ≤ commit_lsn (acknowledge r acks c).1.consensus
unfolding acknowledge
acknowledge-commit_lsn (ok flushed, storage) acks c h = omega (
  arith,
  commit_lsn-record_flush c c.node_id flushed h,
  commit_lsn-record_all acks (record_flush c c.node_id flushed)
      (record_flush-HasQuorum c c.node_id flushed h),
)
acknowledge-commit_lsn (err e, storage) acks c h = omega arith
acknowledge-commit_lsn (panic, storage) acks c h = omega arith

-- Whatever its peers acknowledge, and whatever its own storage does, an append never lowers the
-- commit position of a safekeeper whose quorum is at most the number of its members.
pub handle_append-commit_lsn :
    (replicate : Replicator) (req : AppendRequest) (s : Safekeeper)
    → HasQuorum s.consensus
    → commit_lsn s.consensus ≤ commit_lsn (handle_append replicate req s).1.consensus
unfolding handle_append
handle_append-commit_lsn replicate req s h = elim (Bool-cases (ltb req.term s.consensus.term)) [
  | inl e ↦ rw e (omega arith)
  | inr e ↦ rw e (acknowledge-commit_lsn _ _ s.consensus h)
]

-- The bytes that a read request is answered with.
abbrev pub available : ReadRequest → Safekeeper → ℕ
available req s = min (commit_lsn s.consensus - max req.start_lsn s.storage.start_lsn) req.max_bytes

-- A read request to a safekeeper that has stored the log as far as it is committed, with an end
-- that fits 64 bits, is answered with the log's own bytes: from the position asked for, or the
-- oldest that is kept, up to the commit position or the most that was asked for.
pub handle_read-log :
    (req : ReadRequest) (s : Safekeeper) (log : ℕ → ℕ)
    → IsStored s.storage log
    → s.storage.write_lsn < 2 ^ 64
    → commit_lsn s.consensus ≤ s.storage.write_lsn
    → handle_read req s
      ≡ ok (record {
        status = status_ok;
        commit_lsn = commit_lsn s.consensus;
        start_lsn = max req.start_lsn s.storage.start_lsn;
        payload = read_file log (max req.start_lsn s.storage.start_lsn) (available req s);
      })
unfolding handle_read
handle_read-log req s log stored small behind = elim (Bool-cases (ltb 0 (available req s))) [
  | inl e ↦
      let from = max req.start_lsn s.storage.start_lsn in
      let some_bytes : 0 < available req s = ground arith in
      rw
        (
          e,
          read_at-log s.storage log stored from (available req s) small (omega arith) (omega arith),
        )
        refl
  | inr e ↦ let none_left : available req s ≡ 0 = ground arith in rw (e, none_left) refl
]

-- A response agrees with the safekeeper that it leaves.
abbrev pub Describes : AppendResponse → Safekeeper → Type 0
Describes resp s =
    (resp.term ≡ s.consensus.term)
    × ((resp.flush_lsn ≡ s.storage.flush_lsn) × (resp.commit_lsn ≡ commit_lsn s.consensus))
