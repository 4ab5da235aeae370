-- ===== src/Safekeeper/Storage/Rounds.antt =====
-- One round of an append: the part of the log that one segment takes.
use native.Mathlib.Nat.{div-add-mod}
use aethel_db.Prelude.{
  ℕ, zero, suc, ◌+◌, ◌-◌, ◌*◌, ◌/◌, ◌%◌, ◌^◌, ◌≤◌, ◌<◌, ◌≡◌, refl, ap, ap₂, sym, subst, ◌∙◌, arith,
  true, false, ◌&&◌, Option, some, ◌∷◌, length, take, drop, get_elem?, ltb, leb, ◌==◌, ==_iff,
  if◌then◌else◌, Bool-cases, inl, inr,
}
use aethel_db.Common.Bytes.{Bytes}
use aethel_db.Safekeeper.Storage.{
  WalStorage, File, Disk, read_file, is_open, put_file, or_zeros, append_segment, write_at,
  write_open, write_round,
}
use aethel_db.Safekeeper.Storage.Reads.{same_segment}

pub get_elem?-read_file :
    (log : ℕ → ℕ) (pos n k : ℕ) → k < n → get_elem? (read_file log pos n) k ≡ some (log (pos + k))
get_elem?-read_file log pos zero k h = absurd (omega arith)
get_elem?-read_file log pos (suc n) zero h = ap (λ p. some (log p)) (omega arith)
get_elem?-read_file log pos (suc n) (suc k) h =
    get_elem?-read_file log (pos + 1) n k (omega arith) ∙ ap (λ p. some (log p)) (omega arith)

pub length-read_file : (log : ℕ → ℕ) (pos n : ℕ) → length (read_file log pos n) ≡ n
length-read_file log pos zero = refl
length-read_file log pos (suc n) = ap suc (length-read_file log (pos + 1) n)

pub take-read_file :
    (log : ℕ → ℕ) (pos n len : ℕ) → n ≤ len → take n (read_file log pos len) ≡ read_file log pos n
take-read_file log pos zero len h = refl
take-read_file log pos (suc n) zero h = absurd (omega arith)
take-read_file log pos (suc n) (suc len) h =
    ap (λ bs. log pos ∷ bs) (take-read_file log (pos + 1) n len (omega arith))

pub drop-read_file :
    (log : ℕ → ℕ) (pos n len : ℕ)
    → n ≤ len
    → drop n (read_file log pos len) ≡ read_file log (pos + n) (len - n)
drop-read_file log pos zero len h = ap₂ (read_file log) (omega arith) (omega arith)
drop-read_file log pos (suc n) zero h = absurd (omega arith)
drop-read_file log pos (suc n) (suc len) h =
    drop-read_file log (pos + 1) n len (omega arith)
    ∙ ap₂ (read_file log) (omega arith) (omega arith)

-- Everything from the start of the log to its end is in the segments.
abbrev pub OnDisk : WalStorage → (ℕ → ℕ) → Type 0
OnDisk s log =
    (p : ℕ)
    → s.start_lsn ≤ p
    → p < s.write_lsn
    → (f : File) × (s.disk (p / s.segment_size) ≡ some f) × (f (p % s.segment_size) ≡ log p)

put_file-same : (i : ℕ) (file : Option File) (disk : Disk) → put_file i file disk i ≡ file
put_file-same i file disk = rw ((==_iff i i).1 refl) refl

put_file-again :
    (i j : ℕ) (file old : Option File) (disk : Disk)
    → put_file i file (put_file i old disk) j ≡ (if j == i then file else disk j)
put_file-again i j file old disk = elim (Bool-cases (j == i)) [
  | inl e ↦ rw e refl
  | inr e ↦ rw e refl
]

-- The segments after a round.
round_disk :
    (n : ℕ) (bytes : Bytes) (s : WalStorage) (i : ℕ)
    → s.linked ≡ true
    → (write_round n bytes s).disk i ≡ (
        if i == s.write_lsn / s.segment_size
        then some (
            write_at
              (s.write_lsn % s.segment_size)
              (take n bytes)
              (or_zeros (s.disk (s.write_lsn / s.segment_size))))
        else s.disk i)
unfolding write_round write_open append_segment
round_disk n bytes s i linked =
    elim (Bool-cases (is_open s.open_seg (s.write_lsn / s.segment_size))) [
      | inl e ↦ rw (e, linked) refl
      | inr e ↦ rw (e, put_file-same) (put_file-again (s.write_lsn / s.segment_size) i _ _ s.disk)
    ]

round_rest :
    (n : ℕ) (bytes : Bytes) (s : WalStorage)
    → s.linked ≡ true
    → ((write_round n bytes s).linked ≡ true)
      × ((write_round n bytes s).start_lsn ≡ s.start_lsn)
      × ((write_round n bytes s).segment_size ≡ s.segment_size)
      × ((write_round n bytes s).ring ≡ s.ring)
      × ((write_round n bytes s).ring_start ≡ s.ring_start)
      × ((write_round n bytes s).ring_capacity ≡ s.ring_capacity)
unfolding write_round write_open append_segment
round_rest n bytes s linked =
    elim (Bool-cases (is_open s.open_seg (s.write_lsn / s.segment_size))) [
      | inl e ↦ rw (e, linked) (refl, refl, refl, refl, refl, refl)
      | inr e ↦ rw e (refl, refl, refl, refl, refl, refl)
    ]

-- A written file at an offset.
write_at-inside :
    (offset k : ℕ) (bytes : Bytes) (f : File) (b : ℕ)
    → get_elem? bytes k ≡ some b
    → k < length bytes
    → write_at offset bytes f (offset + k) ≡ b
unfolding write_at
write_at-inside offset k bytes f b h lt =
    let covered : (leb offset (offset + k) && ltb (offset + k) (offset + length bytes)) ≡ true =
      ground arith in
    let index : offset + k - offset ≡ k = omega arith in rw (covered, index, h) refl

write_at-before :
    (offset i : ℕ) (bytes : Bytes) (f : File) → i < offset → write_at offset bytes f i ≡ f i
unfolding write_at
write_at-before offset i bytes f h =
    let outside : (leb offset i && ltb i (offset + length bytes)) ≡ false = ground arith in
    rw outside refl

module _ (log : ℕ → ℕ) (s : WalStorage) (n : ℕ) (bytes : Bytes)
    (is_log : take n bytes ≡ read_file log s.write_lsn n) (linked : s.linked ≡ true)
    (sized : 1 ≤ s.segment_size)
    (room_left : s.write_lsn % s.segment_size + n ≤ s.segment_size) where
  abbrev rewritten : File
  rewritten =
      write_at (s.write_lsn % s.segment_size) (take n bytes)
        (or_zeros (s.disk (s.write_lsn / s.segment_size)))

  -- The bytes of the round itself.
  round_new :
      (k : ℕ)
      → k < n
      → ((write_round n bytes s).disk ((s.write_lsn + k) / s.segment_size) ≡ some rewritten)
        × (rewritten ((s.write_lsn + k) % s.segment_size) ≡ log (s.write_lsn + k))
  round_new k lt =
      let step = same_segment s.segment_size s.write_lsn k (omega arith) in
      (
        round_disk n bytes s ((s.write_lsn + k) / s.segment_size) linked
            ∙ rw
                ((==_iff ((s.write_lsn + k) / s.segment_size) (s.write_lsn / s.segment_size)).1
                  step.0)
                refl,
        ap rewritten step.1
            ∙ write_at-inside (s.write_lsn % s.segment_size) k (take n bytes) _
                (log (s.write_lsn + k))
                (ap (λ bs. get_elem? bs k) is_log ∙ get_elem?-read_file log s.write_lsn n k lt)
                (omega (arith, ap length is_log, length-read_file log s.write_lsn n)),
      )

  -- The bytes before it.
  round_old :
      (p : ℕ) (f : File)
      → p < s.write_lsn
      → s.disk (p / s.segment_size) ≡ some f
      → f (p % s.segment_size) ≡ log p
      → (g : File) × ((write_round n bytes s).disk (p / s.segment_size) ≡ some g)
        × (g (p % s.segment_size) ≡ log p)
  round_old p f lt there value =
      elim (Bool-cases (p / s.segment_size == s.write_lsn / s.segment_size)) [
        | inl e ↦
            let q = (==_iff (p / s.segment_size) (s.write_lsn / s.segment_size)).0 e in
            let before : p % s.segment_size < s.write_lsn % s.segment_size = omega (
              arith,
              div-add-mod p s.segment_size,
              div-add-mod s.write_lsn s.segment_size,
              ap (λ i. s.segment_size * i) q,
            ) in
            (
              rewritten,
              round_disk n bytes s (p / s.segment_size) linked ∙ rw e refl,
              write_at-before (s.write_lsn % s.segment_size) (p % s.segment_size) (take n bytes) _
                    before
                  ∙ ap (λ o. or_zeros o (p % s.segment_size)) (ap s.disk (sym q) ∙ there)
                  ∙ value,
            )
        | inr e ↦ (f, round_disk n bytes s (p / s.segment_size) linked ∙ rw e there, value)
      ]

  round_at :
      OnDisk s log
      → (p : ℕ) → s.start_lsn ≤ p
      → p < s.write_lsn + n
      → (g : File) × ((write_round n bytes s).disk (p / s.segment_size) ≡ some g)
        × (g (p % s.segment_size) ≡ log p)
  round_at on_disk p lo hi = elim (Bool-cases (ltb p s.write_lsn)) [
    | inl e ↦
        let (f, there, value) = on_disk p lo (ground arith) in
        round_old p f (ground arith) there value
    | inr e ↦
        let k = p - s.write_lsn in
        let at : s.write_lsn + k ≡ p = ground arith in
        let new = round_new k (ground arith) in
        (
          rewritten,
          subst (λ j. (write_round n bytes s).disk (j / s.segment_size) ≡ some rewritten) at new.0,
          subst (λ j. rewritten (j % s.segment_size) ≡ log j) at new.1,
        )
  ]

-- What holds of a storage after `len` more bytes of the log are in its segments.
pub record IsGrown (log : ℕ → ℕ) (s t : WalStorage) (len : ℕ) : Type 0 where
  pub on_disk : OnDisk t log
  pub grown : t.write_lsn ≡ s.write_lsn + len
  pub linked : t.linked ≡ true
  pub start : t.start_lsn ≡ s.start_lsn
  pub size : t.segment_size ≡ s.segment_size
  pub ring : t.ring ≡ s.ring
  pub ring_start : t.ring_start ≡ s.ring_start

pub round-IsGrown :
    (log : ℕ → ℕ) (s : WalStorage) (n : ℕ) (bytes : Bytes)
    → take n bytes ≡ read_file log s.write_lsn n
    → s.linked ≡ true
    → 1 ≤ s.segment_size
    → s.write_lsn % s.segment_size + n ≤ s.segment_size
    → s.write_lsn + n < 2 ^ 64
    → OnDisk s log
    → IsGrown log s (write_round n bytes s) n
round-IsGrown log s n bytes is_log linked sized room_left small on_disk =
    let kept = round_rest n bytes s linked in
    let end : (write_round n bytes s).write_lsn ≡ s.write_lsn + n =
      unfold write_round in omega arith in
    record {
      on_disk = λ p lo hi. rw kept.2 (
          round_at log s n bytes is_log linked sized room_left on_disk p (omega (arith, kept.1))
            (omega (arith, end)));
      grown = end;
      linked = kept.0;
      start = kept.1;
      size = kept.2;
      ring = kept.3;
      ring_start = kept.4;
    }

pub IsGrown-trans :
    (log : ℕ → ℕ) (s t u : WalStorage) (n m : ℕ)
    → IsGrown log s t n
    → IsGrown log t u m
    → IsGrown log s u (n + m)
IsGrown-trans log s t u n m a b = record {
  on_disk = b.on_disk;
  grown = omega (arith, a.grown, b.grown);
  linked = b.linked;
  start = b.start ∙ a.start;
  size = b.size ∙ a.size;
  ring = b.ring ∙ a.ring;
  ring_start = b.ring_start ∙ a.ring_start;
}
