-- ===== src/Safekeeper/Tests.antt =====
-- The theorems of the safekeeper on a group of three.
use aethel_db.Prelude.{ℕ, get_elem?, ◌<◌, ◌≡◌, refl, ◌≤◌, ◌↔◌, none, [], ◌∷◌, arith}
use aethel_db.Prelude.{some, true, suc, zero, ◌+◌, ◌*◌, ◌/◌}
use aethel_db.Result.{ok}
use aethel_db.Safekeeper.Storage.{
  remove_segments_before, WalStorage, wal_open, flush, commit, sync_all, append, read_at, read_file,
}
use aethel_db.Safekeeper.Storage.Reads.{IsStored, read_at-log}
use aethel_db.Safekeeper.Storage.Appends.{append-IsStored}
use aethel_db.Common.Lsn.{is_valid}
use aethel_db.Ord.Map.{lookup}
use aethel_db.Ord.{nat_ord}
use aethel_db.Common.WalService.{AppendRequest, AppendResponse, status_ok}
use aethel_db.Safekeeper.Server.{
  Safekeeper, Replicator, store as store_append, handle_append, handle_read,
}
use aethel_db.Safekeeper.Server.Commits.{available, handle_append-commit_lsn, handle_read-log}
use aethel_db.Safekeeper.Storage.Removal.{remove_segments_before-IsStored}
use aethel_db.Safekeeper.Storage.Meta.{resumed, wal_open-flush}
use aethel_db.Safekeeper.Consensus.{
  sort_desc, place_desc, Consensus, follower, commit_lsn, record_flush, observe_term,
  handle_vote_request,
}
use aethel_db.Safekeeper.Consensus.Commit.{flushed, commit_lsn_iff, commit_lsn-record_flush}
use aethel_db.Safekeeper.Consensus.Votes.{vote_request, after, run, one_vote_per_term}

abbrev group : Consensus
group = record {
  node_id = 1;
  members = 1 ∷ 2 ∷ 3 ∷ [];
  quorum = 2;
  term = 4;
  role = follower;
  voted_for = none;
  votes = [];
  flush = (1, 300) ∷ (2, 100) ∷ (3, 200) ∷ [];
}

commit_lsn_iff_example : (200 ≤ commit_lsn group) ↔ (2 ≤ flushed group 200)
commit_lsn_iff_example = commit_lsn_iff group 200 (omega arith, omega arith)

commit_lsn-record_flush_example : commit_lsn group ≤ commit_lsn (record_flush group 2 250)
commit_lsn-record_flush_example = commit_lsn-record_flush group 2 250 (omega arith, omega arith)

one_vote_per_term_example : ◌≡◌ {A = ℕ} 3 3
unfolding run after handle_vote_request observe_term
one_vote_per_term_example =
    one_vote_per_term group 6 3 3 (vote_request 5 2 ∷ []) (omega arith, tt) refl refl

-- Eight bytes from position 3 on, in segments of four, the last three of them in memory.
abbrev store : WalStorage
store = record {
  segment_size = 4;
  ring_capacity = 3;
  start_lsn = 3;
  write_lsn = 11;
  flush_lsn = 3;
  ring = 108 ∷ 109 ∷ 110 ∷ [];
  ring_start = 8;
  open_seg = some 2;
  linked = true;
  dirty_segments = 0 ∷ 1 ∷ 2 ∷ [];
  disk = λ i. some (λ offset. 100 + (4 * i + offset));
  durable = λ i. none;
  meta_file = none;
}

store_ring : (i : ℕ) → i < 3 → get_elem? (108 ∷ 109 ∷ 110 ∷ []) i ≡ some (100 + (8 + i))
store_ring zero h = refl
store_ring (suc zero) h = refl
store_ring (suc (suc zero)) h = refl
store_ring (suc (suc (suc i))) h = absurd (omega arith)

store-IsStored : IsStored store (λ p. 100 + p)
store-IsStored = record {
  sized = omega arith;
  on_disk = λ p lo hi. ((λ offset. 100 + (4 * (p / 4) + offset)), refl, omega arith);
  cached = store_ring;
  full = refl;
}

read_at-log_example : read_at store 5 6 ≡ ok (read_file (λ p. 100 + p) 5 6)
read_at-log_example =
    read_at-log store (λ p. 100 + p) store-IsStored 5 6 (omega arith) (omega arith) (omega arith)

wal_open-flush_example :
    wal_open 4 3 (flush store).1.durable (flush store).1.meta_file
    ≡ ok (resumed 4 3 3 11 (flush store).1)
unfolding flush commit sync_all
wal_open-flush_example = wal_open-flush store 11 4 3 (omega arith) (omega arith) refl

append-IsStored_example :
    ((append 11 (read_file (λ p. 100 + p) 11 6) store).0 ≡ ok tt)
    × ((append 11 (read_file (λ p. 100 + p) 11 6) store).1.write_lsn ≡ 17)
    × ((append 11 (read_file (λ p. 100 + p) 11 6) store).1.start_lsn ≡ 3)
    × IsStored (append 11 (read_file (λ p. 100 + p) 11 6) store).1 (λ p. 100 + p)
unfolding is_valid
append-IsStored_example =
    append-IsStored (λ p. 100 + p) store 6 store-IsStored refl refl (omega arith)

abbrev node : Safekeeper
node = record {
  storage = store;
  consensus = record group { flush = (1, 11) ∷ (2, 9) ∷ (3, 4) ∷ [] };
}

abbrev more : AppendRequest
more = record { tenant = 7; timeline = 8; term = 5; start_lsn = 11; payload = 111 ∷ 112 ∷ [] }

handle_append-commit_lsn_example :
    commit_lsn node.consensus
    ≤ commit_lsn (handle_append (λ term lsn bytes. (2, lsn) ∷ []) more node).1.consensus
handle_append-commit_lsn_example =
    handle_append-commit_lsn (λ term lsn bytes. (2, lsn) ∷ []) more node (omega arith, omega arith)

-- The answer to the bytes at 11 and 12, with an acknowledgement of one peer.
abbrev answered : AppendResponse
answered = record { status = status_ok; term = 4; flush_lsn = 13; commit_lsn = 13 }

abbrev peer : Replicator
peer = λ term lsn bytes. (2, lsn) ∷ []

committed : commit_lsn node.consensus ≤ 11
unfolding commit_lsn sort_desc place_desc lookup
committed = omega arith

handle_read-log_example :
    handle_read (record { tenant = 7; timeline = 8; start_lsn = 1; max_bytes = 5 }) node
    ≡ ok (record {
      status = status_ok;
      commit_lsn = commit_lsn node.consensus;
      start_lsn = 3;
      payload =
          read_file
            (λ p. 100 + p)
            3
            (available (record { tenant = 7; timeline = 8; start_lsn = 1; max_bytes = 5 }) node);
    })
handle_read-log_example =
    handle_read-log (record { tenant = 7; timeline = 8; start_lsn = 1; max_bytes = 5 }) node
      (λ p. 100 + p) store-IsStored (omega arith) committed

remove_segments_before-IsStored_example : IsStored (remove_segments_before 9 store).1 (λ p. 100 + p)
remove_segments_before-IsStored_example =
    remove_segments_before-IsStored store (λ p. 100 + p) 9 store-IsStored
