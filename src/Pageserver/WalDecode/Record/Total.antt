-- ===== src/Pageserver/WalDecode/Record/Total.antt =====
-- The decoder of records over all inputs: what its reads leave, and the fuel of its loop.
use aethel_db.Prelude.{
  ℕ, zero, suc, ◌+◌, ◌-◌, ◌%◌, ◌^◌, ◌≤◌, ◌≢◌, arith, inl, inr, Bool, true, false, not, ◌&&◌, Option,
  none, some, List, [], ◌∷◌, ◌++◌, length, drop, ltb, leb, ◌==◌, if◌then◌else◌, String, Bool-cases,
  length-drop,
}
use aethel_db.Result.{Result, ok, err, panic, ◌>>=◌}
use aethel_db.Common.Bytes.{Bytes, slice-front}
use aethel_db.Common.Lsn.{Lsn}
use aethel_db.Common.Page.{ForkNumber, from_raw}
use aethel_db.Pageserver.WalDecode.{WalDecodeError, size_of_xlog_record, bad_block_id}
use aethel_db.Pageserver.WalDecode.Record.{
  Read, take_bytes, skip, u8, le_number, has_flag, is_compressed, hole_length, ImageMeta, BlockWork,
  image_header, Locator, locator, fork_of, or_bad_fork, block_header, headers, block_image,
  block_bodies, sections, decode_wal_record,
}

-- A read returns, with no more bytes than there were.
abbrev Reads : {A : Type 0} → ℕ → Read A → Type 0
Reads k (ok (a, c)) = length c ≤ k
Reads k (err e) = Unit
Reads k panic = ⊥

then-Reads :
    {A B : Type 0}
    → (j k : ℕ) (r : Read A) (f : A × Bytes → Read B) → Reads j r
    → ((a : A) (c : Bytes) → length c ≤ j → Reads k (f (a, c)))
    → Reads k (r >>= f)
then-Reads j k (ok (a, c)) f h g = g a c h
then-Reads j k (err e) f h g = tt
then-Reads j k panic f h g = h

if-Reads :
    {A : Type 0}
    → (k : ℕ) (b : Bool) (x y : Read A) → Reads k x
    → Reads k y
    → Reads k (if b then x else y)
if-Reads k true x y h g = h
if-Reads k false x y h g = g

take-Reads : (k n : ℕ) (what : String) (c : Bytes) → length c ≤ k → Reads k (take_bytes n what c)
unfolding take_bytes
take-Reads k n what c h = elim (Bool-cases (ltb (length c) n)) [
  | inl e ↦ rw e tt
  | inr e ↦
      rw (e, slice-front {E = WalDecodeError} n c (ground arith)) (omega (arith, length-drop n c))
]

number-Reads : (k n : ℕ) (what : String) (c : Bytes) → length c ≤ k → Reads k (le_number n what c)
unfolding le_number
number-Reads k n what c h =
    then-Reads k k (take_bytes n what c) _ (take-Reads k n what c h) (λ bs x l. l)

u8-Reads : (k : ℕ) (what : String) (c : Bytes) → length c ≤ k → Reads k (u8 what c)
unfolding u8
u8-Reads k what [] h = tt
u8-Reads k what (b ∷ c) h = omega arith

hole-Reads : (k info n : ℕ) (c : Bytes) → length c ≤ k → Reads k (hole_length info n c)
unfolding hole_length
hole-Reads k info n c h =
    if-Reads k (has_flag 0 info && is_compressed info) _ _ (number-Reads k 2 "hole_length" c h)
      (if-Reads k (has_flag 0 info) (ok ((8192 + 2 ^ 16 - n) % 2 ^ 16, c)) (ok (0, c)) h h)

image_header-Reads : (k : ℕ) (c : Bytes) → length c ≤ k → Reads k (image_header c)
unfolding image_header
image_header-Reads k c h =
    then-Reads k k (le_number 2 "bimg_len" c) _ (number-Reads k 2 "bimg_len" c h) (λ n c h.
      then-Reads k k (le_number 2 "hole_offset" c) _ (number-Reads k 2 "hole_offset" c h) (λ o c h.
        then-Reads k k (u8 "bimg_info" c) _ (u8-Reads k "bimg_info" c h)
          (λ i c h. then-Reads k k (hole_length i n c) _ (hole-Reads k i n c h) (λ l c h. h))))

locator-Reads :
    (k : ℕ) (same : Bool) (last : Option Locator) (c : Bytes)
    → length c ≤ k
    → Reads k (locator same last c)
unfolding locator
locator-Reads k true none c h = tt
locator-Reads k true (some last) c h = h
locator-Reads k false last c h =
    then-Reads k k (le_number 4 "spcOid" c) _ (number-Reads k 4 "spcOid" c h) (λ s c h.
      then-Reads k k (le_number 4 "dbOid" c) _ (number-Reads k 4 "dbOid" c h) (λ d c h.
        then-Reads k k (le_number 4 "relNumber" c) _ (number-Reads k 4 "relNumber" c h)
          (λ r c h. h)))

or_bad_fork-Reads :
    {A : Type 0}
    → (k raw : ℕ) (r : Option ForkNumber) (f : ForkNumber → A) (c : Bytes) → length c ≤ k
    → Reads k (or_bad_fork raw r >>= λ x. ok (f x, c))
or_bad_fork-Reads k raw none f c h = tt
or_bad_fork-Reads k raw (some x) f c h = h

fork-Reads :
    {A : Type 0}
    → (k raw : ℕ) (f : ForkNumber → A) (c : Bytes) → length c ≤ k
    → Reads k (fork_of raw >>= λ x. ok (f x, c))
unfolding fork_of
fork-Reads k raw f c h = or_bad_fork-Reads k raw (from_raw raw) f c h

block_header-Reads :
    (k : ℕ) (last : Option Locator) (c : Bytes) → length c ≤ k → Reads k (block_header last c)
unfolding block_header
block_header-Reads k last c h =
    then-Reads k k (u8 "fork_flags" c) _ (u8-Reads k "fork_flags" c h) (λ flags c h.
      then-Reads k k (le_number 2 "block data_len" c) _ (number-Reads k 2 "block data_len" c h)
        (λ n c h.
          then-Reads k k (if has_flag 4 flags then image_header c else ok (none, c)) _
            (if-Reads k (has_flag 4 flags) _ (ok (none, c)) (image_header-Reads k c h) h)
            (λ m c h.
              then-Reads k k (locator (has_flag 7 flags) last c) _
                (locator-Reads k (has_flag 7 flags) last c h)
                (λ l c h.
                  then-Reads k k (le_number 4 "blkno" c) _ (number-Reads k 4 "blkno" c h)
                    (λ b c h. fork-Reads k (flags % 16) _ c h)))))

block_image-Reads :
    (k : ℕ) (m : Option ImageMeta) (c : Bytes) → length c ≤ k → Reads k (block_image m c)
unfolding block_image
block_image-Reads k none c h = h
block_image-Reads k (some m) c h =
    then-Reads k k (take_bytes m.bimg_len "block image" c) _
      (take-Reads k m.bimg_len "block image" c h) (λ bs c h. h)

block_bodies-Reads :
    (k : ℕ) (bs : List BlockWork) (c : Bytes) → length c ≤ k → Reads k (block_bodies bs c)
unfolding block_bodies
block_bodies-Reads k [] c h = h
block_bodies-Reads k (b ∷ bs) c h =
    then-Reads k k (block_image b.image_meta c) _ (block_image-Reads k b.image_meta c h) (λ i c h.
      then-Reads k k (if b.has_data then take_bytes b.data_len "block data" c else ok ([], c)) _
        (if-Reads k b.has_data _ (ok ([], c)) (take-Reads k b.data_len "block data" c h) h)
        (λ d c h. then-Reads k k (block_bodies bs c) _ (block_bodies-Reads k bs c h) (λ r c h. h)))

skip-Reads :
    {A : Type 0}
    → (k n : ℕ) (what : String) (c : Bytes) (f : Bytes → Read A)
    → ((x : Bytes) → length x ≤ length c → Reads k (f x))
    → Reads k (skip n what c >>= f)
unfolding skip take_bytes
skip-Reads k n what c f g = elim (Bool-cases (ltb (length c) n)) [
  | inl e ↦ rw e tt
  | inr e ↦
      rw (e, slice-front {E = WalDecodeError} n c (ground arith))
        (g (drop n c) (omega (arith, length-drop n c)))
]

headers-Reads :
    (fuel k : ℕ) (last : Option Locator) (bs : List BlockWork) (c : Bytes)
    → length c ≤ k
    → suc (length c) ≤ fuel
    → Reads k (headers fuel last bs c)
unfolding headers u8
headers-Reads zero k last bs c h l = absurd (omega arith)
headers-Reads (suc fuel) k last bs [] h l = tt
headers-Reads (suc fuel) k last bs (id ∷ c) h l =
    let again : (x : Bytes) → length x ≤ length c → Reads k (headers fuel last bs x) =
      λ x lx. headers-Reads fuel k last bs x (omega arith) (omega arith) in
    if-Reads k (id == 255) _ _
      (then-Reads (length c) k (u8 "main_data_len" c) _
        (u8-Reads (length c) "main_data_len" c (omega arith)) (λ n x m. omega arith))
      (if-Reads k (id == 254) _ _
        (then-Reads (length c) k (le_number 4 "main_data_len" c) _
          (number-Reads (length c) 4 "main_data_len" c (omega arith)) (λ n x m. omega arith))
        (if-Reads k (id == 253) _ _ (skip-Reads k 2 "replication origin" c _ again) (
          if-Reads k (id == 252) _ _ (skip-Reads k 8 "toplevel xid" c _ again) (
            if-Reads k (leb id 32) _ (err (bad_block_id id))
              (then-Reads (length c) k (block_header last c) _
                (block_header-Reads (length c) last c (omega arith))
                (λ (loc, b) x lx.
                  headers-Reads fuel k (some loc) (bs ++ (b ∷ [])) x (omega arith) (omega arith)))
              tt))))

-- A result that is no panic.
then_returns :
    {A B : Type 0}
    → (k : ℕ) (r : Read A) (f : A × Bytes → Result WalDecodeError B) → Reads k r
    → ((a : A) (c : Bytes) → f (a, c) ≢ panic)
    → (r >>= f) ≢ panic
then_returns k (ok (a, c)) f h g = g a c
then_returns k (err e) f h g = λ p. cc
then_returns k panic f h g = absurd h

if_returns :
    {A : Type 0}
    → (b : Bool) (x y : Result WalDecodeError A) → x ≢ panic
    → y ≢ panic
    → (if b then x else y) ≢ panic
if_returns true x y h g = h
if_returns false x y h g = g

skip_returns :
    {A : Type 0}
    → (n : ℕ) (what : String) (c : Bytes) (f : Bytes → Result WalDecodeError A)
    → ((x : Bytes) → f x ≢ panic)
    → (skip n what c >>= f) ≢ panic
unfolding skip take_bytes
skip_returns n what c f g = elim (Bool-cases (ltb (length c) n)) [
  | inl e ↦ rw e (λ p. cc)
  | inr e ↦ rw (e, slice-front {E = WalDecodeError} n c (ground arith)) (g (drop n c))
]

sections_returns :
    (lsn : Lsn) (xid info rmid : ℕ) (c : Bytes) → sections lsn xid info rmid c ≢ panic
unfolding sections
sections_returns lsn xid info rmid c =
    then_returns (length c) (headers (suc (length c)) none [] c) _
      (headers-Reads (suc (length c)) (length c) none [] c (omega arith) (omega arith))
      (λ (n, bs) c.
        then_returns (length c) (block_bodies bs c) _
          (block_bodies-Reads (length c) bs c (omega arith))
          (λ ds c.
            then_returns (length c) (take_bytes n "main data" c) _
              (take-Reads (length c) n "main data" c (omega arith)) (λ m c h. cc)))

-- Decoding a record returns a record or an error on every input.
pub decode_wal_record_returns : (lsn : Lsn) (rec : Bytes) → decode_wal_record lsn rec ≢ panic
unfolding decode_wal_record
decode_wal_record_returns lsn rec =
    then_returns (length rec) (le_number 4 "xl_tot_len" rec) _
      (number-Reads (length rec) 4 "xl_tot_len" rec (omega arith))
      (λ t c.
        then_returns (length c) (le_number 4 "xl_xid" c) _
          (number-Reads (length c) 4 "xl_xid" c (omega arith))
          (λ x c.
            then_returns (length c) (le_number 8 "xl_prev" c) _
              (number-Reads (length c) 8 "xl_prev" c (omega arith))
              (λ p c.
                then_returns (length c) (u8 "xl_info" c) _
                  (u8-Reads (length c) "xl_info" c (omega arith))
                  (λ i c.
                    then_returns (length c) (u8 "xl_rmid" c) _
                      (u8-Reads (length c) "xl_rmid" c (omega arith))
                      (λ r c. skip_returns 2 "xl_padding" c _ (λ c.
                        then_returns (length c) (le_number 4 "xl_crc" c) _
                          (number-Reads (length c) 4 "xl_crc" c (omega arith))
                          (λ z c.
                            if_returns (ltb t size_of_xlog_record) _ _ (λ h. cc)
                              (if_returns (not (t == length rec)) _ _ (λ h. cc)
                                (sections_returns lsn x i r c)))))))))
