-- ===== src/Safekeeper/Server.antt =====
-- safekeeper/src/server.rs: the handlers of the requests. Each runs as one step here: the locks that
-- the source takes one after the other are one state. What the peers acknowledge is a parameter, the
-- replicator.
pub mod Commits
use aethel_db.Prelude.{
  ℕ, ◌+◌, ◌-◌, max, min, Bool, true, false, List, [], ◌∷◌, ltb, ◌==◌, if◌then◌else◌,
}
use aethel_db.Result.{Result, ok, err, panic, ◌>>=◌}
use aethel_db.Common.Bytes.{Bytes}
use aethel_db.Common.Lsn.{Lsn}
use aethel_db.Common.WalService.{
  AppendRequest, AppendResponse, ReadRequest, ReadResponse, VoteRequest, VoteResponse, status_ok,
  status_stale_term, end_lsn,
}
use aethel_db.Safekeeper.Consensus.{
  NodeId, Consensus, record_flush, commit_lsn, handle_vote_request,
}
use aethel_db.Safekeeper.Storage.{StorageError, WalStorage, append, flush, read_at}

pub record Safekeeper : Type 0 where
  pub storage : WalStorage
  pub consensus : Consensus

-- `Replicator::replicate`: the acknowledgements for a term, an end position and the bytes.
abbrev pub Replicator : Type 0
Replicator = ℕ → Lsn → Bytes → List (NodeId × Lsn)

-- The reply to a proposer of an older term.
unfoldable pub stale : Safekeeper → AppendResponse
stale s = record {
  status = status_stale_term;
  term = s.consensus.term;
  flush_lsn = s.storage.flush_lsn;
  commit_lsn = commit_lsn s.consensus;
}

unfoldable pub flush_after :
    Result StorageError (Unit {0}) × WalStorage → Result StorageError Lsn × WalStorage
flush_after (ok _, storage) = flush storage
flush_after (err e, storage) = (err e, storage)
flush_after (panic, storage) = (panic, storage)

-- `s.append(..)?; s.flush()?`
unfoldable pub store : AppendRequest → WalStorage → Result StorageError Lsn × WalStorage
store req storage = flush_after (append req.start_lsn req.payload storage)

-- The flush positions of this node and then of its peers.
unfoldable pub record_all : List (NodeId × Lsn) → Consensus → Consensus
record_all [] c = c
record_all ((node, lsn) ∷ acks) c = record_all acks (record_flush c node lsn)

-- What follows the store: the positions are recorded, and the new commit position answered.
unfoldable pub acknowledge :
    Result StorageError Lsn × WalStorage
    → List (NodeId × Lsn)
    → Consensus
    → Result StorageError AppendResponse × Safekeeper
acknowledge (ok flushed, storage) acks c =
    let c' = record_all acks (record_flush c c.node_id flushed) in
    (
      ok (record {
        status = status_ok;
        term = c'.term;
        flush_lsn = flushed;
        commit_lsn = commit_lsn c';
      }),
      record { storage = storage; consensus = c' },
    )
acknowledge (err e, storage) acks c = (err e, record { storage = storage; consensus = c })
acknowledge (panic, storage) acks c = (panic, record { storage = storage; consensus = c })

unfoldable pub handle_append :
    Replicator → AppendRequest → Safekeeper → Result StorageError AppendResponse × Safekeeper
handle_append replicate req s =
    if ltb req.term s.consensus.term
    then (ok (stale s), s)
    else acknowledge (store req s.storage) (replicate req.term (end_lsn req) req.payload)
        s.consensus

-- The peer's side: the same, without acknowledgements of its own.
unfoldable pub handle_replicate :
    AppendRequest → Safekeeper → Result StorageError AppendResponse × Safekeeper
handle_replicate req s =
    if ltb req.term s.consensus.term
    then (ok (stale s), s)
    else acknowledge (store req s.storage) [] s.consensus

unfoldable pub handle_read : ReadRequest → Safekeeper → Result StorageError ReadResponse
handle_read req s =
    let commit = commit_lsn s.consensus in
    let from = max req.start_lsn s.storage.start_lsn in
    let available = min (commit - from) req.max_bytes in
    (if ltb 0 available then read_at s.storage from available else ok []) >>= λ payload.
    ok (record { status = status_ok; commit_lsn = commit; start_lsn = from; payload = payload })

unfoldable pub handle_vote : VoteRequest → Safekeeper → VoteResponse × Safekeeper
handle_vote req s =
    let vote = handle_vote_request s.consensus req.term req.candidate in
    (
      record { granted = vote.1; term = vote.0.term; flush_lsn = s.storage.flush_lsn },
      record s { consensus = vote.0 },
    )
