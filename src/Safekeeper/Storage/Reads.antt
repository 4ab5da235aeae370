-- ===== src/Safekeeper/Storage/Reads.antt =====
-- Reads of the log: from memory or from the segments, they give the bytes of the log.
use native.Mathlib.Nat.{mod-add-mod, mod-eq_of_lt, div-eq_of_lt, mul-add-div, div-add-mod, mod-lt}
use aethel_db.Prelude.{
  ℕ, zero, suc, ◌+◌, ◌-◌, ◌/◌, ◌%◌, ◌^◌, ◌≤◌, ◌<◌, ◌≡◌, refl, ap, ap₂, sym, ◌∙◌, min, arith, false,
  not, ◌&&◌, ◌||◌, some, ◌∷◌, ◌++◌, length, get_elem?, ltb, leb, ◌==◌, Bool-cases, inl, inr,
}
use aethel_db.Result.{ok}
use aethel_db.Common.Lsn.{Lsn}
use aethel_db.Safekeeper.Storage.{
  WalStorage, File, read_file, read_segment, read_loop, read_ring, read_at, is_empty,
}

-- A position further on in the same segment.
pub same_segment :
    (size pos k : ℕ)
    → pos % size + k < size
    → ((pos + k) / size ≡ pos / size) × ((pos + k) % size ≡ pos % size + k)
same_segment size pos k h = (
  ap (λ p. p / size) (omega (arith, div-add-mod pos size))
      ∙ mul-add-div {m = size} (omega arith) (pos / size) (pos % size + k)
      ∙ omega (arith, div-eq_of_lt {n = pos % size + k} {m = size} h),
  sym (mod-add-mod pos size k) ∙ mod-eq_of_lt h,
)

-- The storage holds a log, by its positions: on disk all of it, in memory its newest bytes.
pub record IsStored (s : WalStorage) (log : ℕ → ℕ) : Type 0 where
  pub sized : 1 ≤ s.segment_size
  pub on_disk :
      (p : ℕ)
      → s.start_lsn ≤ p
      → p < s.write_lsn
      → (f : File) × (s.disk (p / s.segment_size) ≡ some f) × (f (p % s.segment_size) ≡ log p)
  pub cached : (i : ℕ) → i < length s.ring → get_elem? s.ring i ≡ some (log (s.ring_start + i))
  pub full : s.ring_start + length s.ring ≡ s.write_lsn

module _ (s : WalStorage) (log : ℕ → ℕ) (stored : IsStored s log) where
  read_ring-log :
      (off n : ℕ)
      → off + n ≤ length s.ring
      → read_ring s.ring off n ≡ ok (read_file log (s.ring_start + off) n)
  unfolding read_ring
  read_ring-log off zero h = refl
  read_ring-log off (suc n) h =
      rw (stored.cached off (omega arith), read_ring, read_ring-log (off + 1) n (omega arith))
        (ap (λ p. ok (log (s.ring_start + off) ∷ read_file log p n)) (omega arith))

  -- Bytes that a file has at the places of the log's.
  read_file-log :
      (f : File) (off pos n : ℕ)
      → ((k : ℕ) → k < n → f (off + k) ≡ log (pos + k))
      → read_file f off n ≡ read_file log pos n
  read_file-log f off pos zero h = refl
  read_file-log f off pos (suc n) h =
      let first : f off ≡ log pos = ap f (omega arith) ∙ h 0 (omega arith) ∙ ap log (omega arith) in
      ap₂ (λ b bs. b ∷ bs) first
        (read_file-log f (off + 1) (pos + 1) n
          (λ k lt. ap f (omega arith) ∙ h (k + 1) (omega arith) ∙ ap log (omega arith)))

  -- The part of a read that lies in one segment.
  read_segment-log :
      (pos n : ℕ)
      → s.start_lsn ≤ pos
      → pos + n ≤ s.write_lsn
      → 1 ≤ n
      → pos % s.segment_size + n ≤ s.segment_size
      → read_segment (s.disk (pos / s.segment_size)) (pos % s.segment_size) n
        ≡ ok (read_file log pos n)
  read_segment-log pos n lo hi some_bytes fits =
      let (f, there, _) = stored.on_disk pos lo (omega arith) in
      rw there (
        ap ok (
          read_file-log f (pos % s.segment_size) pos n (λ k lt.
            let (g, here, value) = stored.on_disk (pos + k) (omega arith) (omega arith) in
            let step = same_segment s.segment_size pos k (omega arith) in
            let one_file : g ≡ f = ground (arith, step.0) in
            ap (λ i. f i) (sym step.1)
            ∙ ap (λ u. u ((pos + k) % s.segment_size)) (sym one_file)
            ∙ value)))

  read_file-append :
      (pos n len : ℕ)
      → n ≤ len
      → read_file log pos n ++ read_file log (pos + n) (len - n) ≡ read_file log pos len
  read_file-append pos zero len h = ap₂ (read_file log) (omega arith) (omega arith)
  read_file-append pos (suc n) zero h = absurd (omega arith)
  read_file-append pos (suc n) (suc len) h =
      let next : pos + suc n ≡ pos + 1 + n = omega arith in
      let left : suc len - suc n ≡ len - n = omega arith in
      rw (next, left) (ap (λ bs. log pos ∷ bs) (read_file-append (pos + 1) n len (omega arith)))

  read_loop-log :
      (fuel pos len : ℕ)
      → len ≤ fuel
      → s.write_lsn < 2 ^ 64
      → s.start_lsn ≤ pos
      → pos + len ≤ s.write_lsn
      → read_loop fuel s pos len ≡ ok (read_file log pos len)
  unfolding read_loop
  read_loop-log zero pos len enough small lo hi =
      let z : 0 ≡ len = omega arith in ap (λ n. ok (read_file log pos n)) z
  read_loop-log (suc fuel) pos len enough small lo hi = elim (Bool-cases (len == 0)) [
    | inl e ↦ let z : 0 ≡ len = ground arith in rw e (ap (λ n. ok (read_file log pos n)) z)
    | inr e ↦
        let n = min (s.segment_size - pos % s.segment_size) len in
        let inside : pos % s.segment_size < s.segment_size = mod-lt pos stored.sized in
        let nonzero : 1 ≤ len = ground arith in
        let next : (pos + n) % 2 ^ 64 ≡ pos + n = omega arith in
        rw
          (
            e,
            next,
            read_segment-log pos n lo (omega arith) (omega arith) (omega arith),
            read_loop-log fuel (pos + n) (len - n) (omega arith) small (omega arith) (omega arith),
          )
          (ap ok (read_file-append pos n len (omega arith)))
  ]

  -- A read within the stored range of a storage that holds a log, with an end that fits 64 bits,
  -- gives the bytes of the log there, whether they come from memory or from the segments that it
  -- spans.
  pub read_at-log :
      (lsn : Lsn) (len : ℕ)
      → s.write_lsn < 2 ^ 64
      → s.start_lsn ≤ lsn
      → lsn + len ≤ s.write_lsn
      → read_at s lsn len ≡ ok (read_file log lsn len)
  unfolding read_at
  read_at-log lsn len small lo hi =
      let end : (lsn + len) % 2 ^ 64 ≡ lsn + len = omega arith in
      let inside : (ltb lsn s.start_lsn || ltb s.write_lsn (lsn + len)) ≡ false = ground arith in
      rw (end, inside)
        (elim (Bool-cases
          (leb s.ring_start lsn && leb (lsn + len) s.write_lsn && not (is_empty s.ring))) [
            | inl e ↦
                let cached : s.ring_start ≤ lsn = ground arith in
                rw (e, read_ring-log (lsn - s.ring_start) len (omega (arith, stored.full)))
                  (ap (λ p. ok (read_file log p len)) (omega arith))
            | inr e ↦ rw e (read_loop-log len lsn len (omega arith) small lo hi)
          ])
