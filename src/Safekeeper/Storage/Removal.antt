-- ===== src/Safekeeper/Storage/Removal.antt =====
-- Removal of old segments: what is at or above the new start of the log is still there.
use native.Mathlib.Nat.{le-div_iff_mul-le}
use aethel_db.Prelude.{
  ℕ, zero, suc, ◌+◌, ◌-◌, ◌*◌, ◌/◌, ◌≤◌, ◌<◌, ◌≡◌, ◌⊎◌, refl, ◌∙◌, arith, false, not, ◌&&◌, Option,
  none, is_some, ltb, ◌==◌, if◌then◌else◌, Bool-cases, inl, inr,
}
use aethel_db.Common.Lsn.{Lsn}
use aethel_db.Safekeeper.Storage.{
  WalStorage, File, put_file, is_open, remove_from, remove_segments_before,
}
use aethel_db.Safekeeper.Storage.Reads.{IsStored}

put_file-other :
    (i j : ℕ) (f : Option File) (d : ℕ → Option File) → (j == i) ≡ false → put_file i f d j ≡ d j
put_file-other i j f d h = rw h refl

-- A removal leaves the other segments, and all else that a read looks at.
remove_from-others :
    (count index : ℕ) (s : WalStorage) (i : ℕ)
    → (i < index) ⊎ (index + count ≤ i)
    → ((remove_from count index s).1.disk i ≡ s.disk i)
      × ((remove_from count index s).1.write_lsn ≡ s.write_lsn)
      × ((remove_from count index s).1.segment_size ≡ s.segment_size)
      × ((remove_from count index s).1.ring ≡ s.ring)
      × ((remove_from count index s).1.ring_start ≡ s.ring_start)
unfolding remove_from
remove_from-others zero index s i h = (refl, refl, refl, refl, refl)
remove_from-others (suc count) index s i h = elim (Bool-cases (is_some (s.disk index))) [
  | inl e ↦
      let away : (i == index) ≡ false = ground arith in
      let rest =
        remove_from-others count (index + 1)
          (record s {
            disk = put_file index none s.disk;
            durable = put_file index none s.durable;
            linked = s.linked && not (is_open s.open_seg index);
          })
          i (ground arith) in
      rw e (rest.0 ∙ put_file-other index i none s.disk away, rest.1, rest.2, rest.3, rest.4)
  | inr e ↦ rw e (remove_from-others count (index + 1) s i (ground arith))
]

-- The new start of the log is above every segment that is removed.
out_of_reach :
    (size start last p : ℕ)
    → 1 ≤ size
    → (if ltb start (if ltb (start / size) last then last * size else start)
        then (if ltb (start / size) last then last * size else start)
        else start)
      ≤ p
    → (start ≤ p) × (start / size + (last - start / size) ≤ p / size)
out_of_reach size start last p sized lo = elim (Bool-cases (ltb (start / size) last)) [
  | inl e ↦
      let bound : last * size ≤ p = ground arith in
      let reach : last ≤ p / size =
        (le-div_iff_mul-le {k = size} {x = last} {y = p} sized).1 bound in
      (ground arith, ground arith)
  | inr e ↦
      let from_start : start ≤ p = ground arith in
      let low : start / size * size ≤ start =
        (le-div_iff_mul-le {k = size} {x = start / size} {y = start} sized).0 (omega arith) in
      let reach : start / size ≤ p / size =
        (le-div_iff_mul-le {k = size} {x = start / size} {y = p} sized).1 (omega arith) in
      (from_start, ground arith)
]

-- After the removal of old segments, for whatever horizon, the storage still holds the log from its
-- new start on, on disk and in memory, so that reads there give the same bytes as before.
pub remove_segments_before-IsStored :
    (s : WalStorage) (log : ℕ → ℕ) (horizon : Lsn)
    → IsStored s log
    → IsStored (remove_segments_before horizon s).1 log
unfolding remove_segments_before
remove_segments_before-IsStored s log horizon stored =
    let first = s.start_lsn / s.segment_size in
    let last = horizon / s.segment_size in
    let others = remove_from-others (last - first) first s in
    let far = others (first + (last - first)) (inr (omega arith)) in
    record {
      sized = omega (arith, far.2, stored.sized);
      on_disk = λ p lo hi.
          let at = p / s.segment_size in
          let kept = out_of_reach s.segment_size s.start_lsn last p stored.sized lo in
          let here = others at (inr kept.1) in
          let (f, there, value) = stored.on_disk p kept.0 (omega (arith, far.1)) in
          rw (far.2) (f, here.0 ∙ there, value);
      cached = rw (far.3, far.4) stored.cached;
      full = rw (far.4, far.3, far.1) stored.full;
    }
