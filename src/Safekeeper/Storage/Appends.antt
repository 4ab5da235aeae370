-- ===== src/Safekeeper/Storage/Appends.antt =====
-- Appends to the log: the storage holds the log up to the new end.
use native.Mathlib.Nat.{mod-lt}
use aethel_db.Prelude.{
  ℕ, zero, suc, ◌+◌, ◌-◌, ◌%◌, ◌^◌, ◌≤◌, ◌<◌, ◌≡◌, refl, ap, ap₂, sym, subst, ◌∙◌, min, arith, true,
  some, [], ◌∷◌, ◌++◌, length, length-append, get_elem?-append, take, drop, get_elem?, ltb, ==_iff,
  Bool-cases, inl, inr,
}
use aethel_db.Result.{ok}
use aethel_db.Common.Bytes.{Bytes}
use aethel_db.Common.Lsn.{Lsn, is_valid}
use aethel_db.Safekeeper.Storage.{
  WalStorage, read_file, write_round, write_loop, evict, cache, seed, append,
}
use aethel_db.Safekeeper.Storage.Reads.{IsStored}
use aethel_db.Safekeeper.Storage.Rounds.{
  OnDisk, IsGrown, get_elem?-read_file, length-read_file, take-read_file, drop-read_file,
  round-IsGrown, IsGrown-trans,
}

IsGrown-refl :
    (log : ℕ → ℕ) (s : WalStorage) (len : ℕ)
    → OnDisk s log
    → s.linked ≡ true
    → len ≡ 0
    → IsGrown log s s len
IsGrown-refl log s len on_disk linked z = record {
  on_disk = on_disk;
  grown = omega arith;
  linked = linked;
  start = refl;
  size = refl;
  ring = refl;
  ring_start = refl;
}

write_loop-IsGrown :
    (log : ℕ → ℕ) (fuel len : ℕ) (bytes : Bytes) (s : WalStorage)
    → bytes ≡ read_file log s.write_lsn len
    → len ≤ fuel
    → s.linked ≡ true
    → 1 ≤ s.segment_size
    → s.write_lsn + len < 2 ^ 64
    → OnDisk s log
    → IsGrown log s (write_loop fuel bytes s) len
unfolding write_loop
write_loop-IsGrown log zero len bytes s is_log enough linked sized small on_disk =
    IsGrown-refl log s len on_disk linked (omega arith)
write_loop-IsGrown log (suc fuel) len [] s is_log enough linked sized small on_disk =
    IsGrown-refl log s len on_disk linked
      (sym (length-read_file log s.write_lsn len) ∙ ap length (sym is_log))
write_loop-IsGrown log (suc fuel) len (b ∷ bytes) s is_log enough linked sized small on_disk =
    let whole : length (b ∷ bytes) ≡ len =
      ap length is_log ∙ length-read_file log s.write_lsn len in
    let n = min (s.segment_size - s.write_lsn % s.segment_size) (length (b ∷ bytes)) in
    let inside : s.write_lsn % s.segment_size < s.segment_size = mod-lt s.write_lsn sized in
    let some_bytes : 1 ≤ length (b ∷ bytes) = omega arith in
    let n_le : n ≤ len = omega (arith, whole) in
    let round : IsGrown log s (write_round n (b ∷ bytes) s) n =
      round-IsGrown log s n (b ∷ bytes)
        (ap (take n) is_log ∙ take-read_file log s.write_lsn n len n_le) linked sized (omega arith)
        (omega (arith, whole)) on_disk in
    let left : drop n (b ∷ bytes)
        ≡ read_file log (write_round n (b ∷ bytes) s).write_lsn (len - n) =
      ap (drop n) is_log
      ∙ drop-read_file log s.write_lsn n len n_le
      ∙ ap (λ p. read_file log p (len - n)) (sym round.grown) in
    let rest =
      write_loop-IsGrown log fuel (len - n) (drop n (b ∷ bytes)) (write_round n (b ∷ bytes) s) left
        (omega (arith, whole)) round.linked (omega (arith, round.size))
        (omega (arith, round.grown, whole)) round.on_disk in
    subst (IsGrown log s _) (omega (arith, whole)) (IsGrown-trans log s _ _ n (len - n) round rest)

-- The bytes in memory are the log's, from a position on.
abbrev IsCached : (ℕ → ℕ) → Bytes → Lsn → Type 0
IsCached log ring start = (i : ℕ) → i < length ring → get_elem? ring i ≡ some (log (start + i))

evict-IsCached :
    (log : ℕ → ℕ) (capacity : ℕ) (ring : Bytes) (start : Lsn)
    → start + length ring < 2 ^ 64
    → IsCached log ring start
    → IsCached log (evict capacity ring start).0 (evict capacity ring start).1
      × ((evict capacity ring start).1 + length (evict capacity ring start).0 ≡ start + length ring)
unfolding evict
evict-IsCached log capacity [] start small is = (is, refl)
evict-IsCached log capacity (b ∷ ring) start small is =
    elim (Bool-cases (ltb capacity (length (b ∷ ring)))) [
      | inl e ↦
          let next : (start + 1) % 2 ^ 64 ≡ start + 1 = omega arith in
          let rest =
            evict-IsCached log capacity ring (start + 1) (omega arith)
              (λ i h. is (suc i) (omega arith) ∙ ap (λ p. some (log p)) (omega arith)) in
          rw (e, next) (rest.0, rest.1 ∙ omega arith)
      | inr e ↦ rw e (is, refl)
    ]

get_elem?-before : (xs ys : Bytes) (i : ℕ) → i < length xs → get_elem? (xs ++ ys) i ≡ get_elem? xs i
get_elem?-before [] ys i h = absurd (omega arith)
get_elem?-before (x ∷ xs) ys zero h = refl
get_elem?-before (x ∷ xs) ys (suc i) h = get_elem?-before xs ys i (omega arith)

IsCached-more :
    (log : ℕ → ℕ) (ring : Bytes) (start : Lsn) (len : ℕ)
    → IsCached log ring start
    → IsCached log (ring ++ read_file log (start + length ring) len) start
IsCached-more log ring start len is i h =
    let total : length (ring ++ read_file log (start + length ring) len) ≡ length ring + len =
      length-append ring _
      ∙ ap (λ n. length ring + n) (length-read_file log (start + length ring) len) in
    elim (Bool-cases (ltb i (length ring))) [
      | inl e ↦ get_elem?-before ring _ i (ground arith) ∙ is i (ground arith)
      | inr e ↦
          let beyond : length ring ≤ i = ground arith in
          get_elem?-append ring _ (i - length ring) i (omega arith)
          ∙ get_elem?-read_file log (start + length ring) len (i - length ring)
              (omega (arith, total))
          ∙ ap (λ p. some (log p)) (omega arith)
    ]

-- The bytes of an append in memory, behind those in the segments.
cache-IsStored :
    (log : ℕ → ℕ) (s t : WalStorage) (len : ℕ)
    → IsStored s log
    → IsGrown log s t len
    → s.write_lsn + len < 2 ^ 64
    → IsStored (cache (read_file log s.write_lsn len) t) log
unfolding cache
cache-IsStored log s t len stored grown small =
    let bytes = read_file log s.write_lsn len in
    let more : IsCached log (t.ring ++ bytes) t.ring_start =
      rw (grown.ring, grown.ring_start)
        (subst (λ p. IsCached log (s.ring ++ read_file log p len) s.ring_start) stored.full
          (IsCached-more log s.ring s.ring_start len stored.cached)) in
    let total : t.ring_start + length (t.ring ++ bytes) ≡ s.write_lsn + len =
      ap₂ (λ p r. p + length (r ++ bytes)) grown.ring_start grown.ring
      ∙ omega
          (arith, length-append s.ring bytes, length-read_file log s.write_lsn len, stored.full) in
    let kept =
      evict-IsCached log t.ring_capacity (t.ring ++ bytes) t.ring_start (omega (arith, total))
        more in
    record {
      sized = omega (arith, grown.size, stored.sized);
      on_disk = grown.on_disk;
      cached = kept.0;
      full = kept.1 ∙ total ∙ sym grown.grown;
    }

-- An append of the log's next bytes, to a storage that holds the log, is past the zero position and
-- has the file that it writes to still in the directory, succeeds while the new end fits 64 bits,
-- and the storage then holds the log up to the new end, from the same start.
pub append-IsStored :
    (log : ℕ → ℕ) (s : WalStorage) (len : ℕ)
    → IsStored s log
    → s.linked ≡ true
    → is_valid s.write_lsn ≡ true
    → s.write_lsn + len < 2 ^ 64
    → ((append s.write_lsn (read_file log s.write_lsn len) s).0 ≡ ok tt)
      × ((append s.write_lsn (read_file log s.write_lsn len) s).1.write_lsn ≡ s.write_lsn + len)
      × ((append s.write_lsn (read_file log s.write_lsn len) s).1.start_lsn ≡ s.start_lsn)
      × IsStored (append s.write_lsn (read_file log s.write_lsn len) s).1 log
unfolding append seed cache
append-IsStored log s zero stored linked valid small =
    rw (valid, (==_iff s.write_lsn s.write_lsn).1 refl) (refl, omega arith, refl, stored)
append-IsStored log s (suc len) stored linked valid small =
    let bytes = read_file log s.write_lsn (suc len) in
    let grown =
      write_loop-IsGrown log (length bytes) (suc len) bytes s refl
        (omega (arith, length-read_file log s.write_lsn (suc len))) linked stored.sized small
        stored.on_disk in
    rw (valid, (==_iff s.write_lsn s.write_lsn).1 refl)
      (
        refl,
        grown.grown,
        grown.start,
        cache-IsStored log s (write_loop (length bytes) bytes s) (suc len) stored grown small,
      )
