-- ===== src/Common/Bytes.antt =====
-- Big-endian fields of byte buffers: `to_be_bytes`, `from_be_bytes` and the slices that the decoders
-- take, which panic when they leave the buffer.
use aethel_db.Prelude.{
  ℕ, zero, suc, ◌+◌, ◌*◌, ◌-◌, ◌/◌, ◌%◌, ◌^◌, ◌≤◌, ◌<◌, ◌≡◌, ◌⊎◌, refl, ap, ◌∙◌, Option, none, some,
  List, [], ◌∷◌, ◌++◌, length, take, drop, ltb, leb, ◌==◌, if◌then◌else◌, arith, length-append,
  length-drop, append_assoc, append-nil, subst, take-append, drop-append, le→leb, inl, inr, false,
}
use aethel_db.Result.{Result, ok, panic, ◌>>=◌}

abbrev pub Bytes : Type 0
Bytes = List ℕ

-- The `width` low bytes of a number, most significant first.
unfoldable pub be : ℕ → ℕ → Bytes
be zero v = []
be (suc width) v = be width (v / 256) ++ (v % 256 ∷ [])

abbrev pub from_be : ℕ → Bytes → ℕ
from_be acc [] = acc
from_be acc (b ∷ bs) = from_be (acc * 256 + b) bs

-- A field is its width in bytes and its value; fields are appended one after the other.
abbrev pub put_all : List (ℕ × ℕ) → Bytes
put_all [] = []
put_all ((width, v) ∷ fs) = be width v ++ put_all fs

-- `buf[from..from + n]`
unfoldable pub slice {ℓ} : {E : Type ℓ} → ℕ → ℕ → Bytes → Result E Bytes
slice from n buf = if leb (from + n) (length buf) then ok (take n (drop from buf)) else panic

-- The number in the `width` bytes at an offset.
unfoldable pub get {ℓ} : {E : Type ℓ} → ℕ → ℕ → Bytes → Result E ℕ
get width from buf = slice from width buf >>= λ bs. ok (from_be 0 bs)

-- The value of the field of a width at an offset.
abbrev pub field : List (ℕ × ℕ) → ℕ → ℕ → Option ℕ
field [] from width = none
field ((w, v) ∷ fs) from width =
    if from == 0
    then (if w == width then some v else none)
    else if ltb from w
    then none
    else field fs (from - w) width

abbrev pub widths : List (ℕ × ℕ) → ℕ
widths [] = 0
widths ((w, v) ∷ fs) = w + widths fs

pub length-be : (w v : ℕ) → length (be w v) ≡ w
unfolding be
length-be zero v = refl
length-be (suc w) v =
    length-append (be w (v / 256)) (v % 256 ∷ []) ∙ omega (arith, length-be w (v / 256))

pub length-put_all : (fs : List (ℕ × ℕ)) → length (put_all fs) ≡ widths fs
length-put_all [] = refl
length-put_all ((w, v) ∷ fs) =
    length-append (be w v) (put_all fs) ∙ omega (arith, length-be w v, length-put_all fs)

from_be-append : (acc : ℕ) (xs ys : Bytes) → from_be acc (xs ++ ys) ≡ from_be (from_be acc xs) ys
from_be-append acc [] ys = refl
from_be-append acc (x ∷ xs) ys = from_be-append (acc * 256 + x) xs ys

pub from_be-be : (w v : ℕ) → v < 256 ^ w → from_be 0 (be w v) ≡ v
unfolding be
from_be-be zero v h = omega arith
from_be-be (suc w) v h =
    from_be-append 0 (be w (v / 256)) (v % 256 ∷ [])
    ∙ ap (λ n. n * 256 + v % 256) (from_be-be w (v / 256) (omega arith))
    ∙ omega arith

pub take-append_le : (n : ℕ) (xs ys : Bytes) → n ≤ length xs → take n (xs ++ ys) ≡ take n xs
take-append_le zero xs ys h = refl
take-append_le (suc n) [] ys h = absurd (omega arith)
take-append_le (suc n) (x ∷ xs) ys h = ap (λ l. x ∷ l) (take-append_le n xs ys (omega arith))

-- A slice behind the first bytes, of a known number.
slice-skip :
    (xs ys : Bytes) (from n : ℕ)
    → length xs ≤ from
    → take n (drop from (xs ++ ys)) ≡ take n (drop (from - length xs) ys)
slice-skip xs ys from n h =
    ap (take n) (drop-append xs ys (length xs) (from - length xs) from refl (omega arith))

value-here : (w v : ℕ) (ys : Bytes) → v < 256 ^ w → from_be 0 (take w (drop 0 (be w v ++ ys))) ≡ v
value-here w v ys h = ap (from_be 0) (take-append (be w v) ys w (length-be w v)) ∙ from_be-be w v h

field-cases :
    (w' v' : ℕ) (fs : List (ℕ × ℕ)) (from w v : ℕ)
    → field ((w', v') ∷ fs) from w ≡ some v
    → ((from ≡ 0) × (w' ≡ w) × (v' ≡ v)) ⊎ ((w' ≤ from) × (field fs (from - w') w ≡ some v))
field-cases w' v' fs from w v at = ground arith

-- Where the fields have a value of a width, the bytes there spell it.
value-put_all :
    (fs : List (ℕ × ℕ)) (ys : Bytes) (from w v : ℕ)
    → field fs from w ≡ some v
    → v < 256 ^ w
    → from_be 0 (take w (drop from (put_all fs ++ ys))) ≡ v
value-put_all [] ys from w v at h = absurd (cc)
value-put_all ((w', v') ∷ fs) ys from w v at h = elim (field-cases w' v' fs from w v at) [
  | inl (z, ew, ev) ↦
      rw (z, ew, ev)
        (ap (λ b. from_be 0 (take w b)) (append_assoc (be w v) (put_all fs) ys)
          ∙ value-here w v (put_all fs ++ ys) h)
  | inr (le, at') ↦
      ap (λ b. from_be 0 (take w (drop from b))) (append_assoc (be w' v') (put_all fs) ys)
      ∙ ap (from_be 0)
          (slice-skip (be w' v') (put_all fs ++ ys) from w (omega (arith, length-be w' v')))
      ∙ ap (λ k. from_be 0 (take w (drop (from - k) (put_all fs ++ ys)))) (length-be w' v')
      ∙ value-put_all fs ys (from - w') w v at' h
]

pub slice-inside {ℓ} :
    {E : Type ℓ} (from n : ℕ) (buf : Bytes)
    → from + n ≤ length buf
    → slice {E = E} from n buf ≡ ok (take n (drop from buf))
unfolding slice
slice-inside from n buf h = rw (le→leb (from + n) (length buf) h) refl

pub slice-front {ℓ} :
    {E : Type ℓ} (n : ℕ) (buf : Bytes) → n ≤ length buf → slice {E = E} 0 n buf ≡ ok (take n buf)
slice-front n buf h = slice-inside 0 n buf (omega arith)

pub get-inside {ℓ} :
    {E : Type ℓ} (width from : ℕ) (buf : Bytes)
    → from + width ≤ length buf
    → get {E = E} width from buf ≡ ok (from_be 0 (take width (drop from buf)))
unfolding get
get-inside width from buf h = rw (slice-inside from width buf h) refl

pub length-message :
    (fs : List (ℕ × ℕ)) (ys : Bytes) → length (put_all fs ++ ys) ≡ widths fs + length ys
length-message fs ys = length-append (put_all fs) ys ∙ ap (λ n. n + length ys) (length-put_all fs)

-- The test for a message that is too short.
pub long_enough :
    (fs : List (ℕ × ℕ)) (ys : Bytes) (n k : ℕ)
    → n ≤ widths fs + k
    → k ≤ length ys
    → ltb (length (put_all fs ++ ys)) n ≡ false
long_enough fs ys n k h hk = ground (arith, length-message fs ys)

-- `get` of a field of the buffer.
pub get-put_all {ℓ} :
    {E : Type ℓ} (fs : List (ℕ × ℕ)) (ys : Bytes) (w from v : ℕ)
    → field fs from w ≡ some v
    → v < 256 ^ w
    → from + w ≤ widths fs
    → get {E = E} w from (put_all fs ++ ys) ≡ ok v
get-put_all fs ys w from v at h fits =
    get-inside w from (put_all fs ++ ys) (omega (arith, length-message fs ys))
    ∙ ap ok (value-put_all fs ys from w v at h)

-- The slice behind the fields.
pub slice-put_all {ℓ} :
    {E : Type ℓ} (fs : List (ℕ × ℕ)) (xs ys : Bytes) (from n : ℕ)
    → widths fs ≡ from
    → length xs ≡ n
    → slice {E = E} from n (put_all fs ++ (xs ++ ys)) ≡ ok xs
slice-put_all fs xs ys from n hf hn =
    let start : from - length (put_all fs) ≡ 0 = omega (arith, length-put_all fs) in
    slice-inside from n (put_all fs ++ (xs ++ ys))
      (omega (arith, length-message fs (xs ++ ys), length-append xs ys))
    ∙ ap ok (
        slice-skip (put_all fs) (xs ++ ys) from n (omega (arith, length-put_all fs))
        ∙ ap (λ k. take n (drop k (xs ++ ys))) start
        ∙ take-append xs ys n hn)

-- The same where nothing follows the fields.
pub get-fields {ℓ} :
    {E : Type ℓ} (fs : List (ℕ × ℕ)) (w from v : ℕ)
    → field fs from w ≡ some v
    → v < 256 ^ w
    → from + w ≤ widths fs
    → get {E = E} w from (put_all fs) ≡ ok v
get-fields {E = E} fs w from v at h fits =
    subst (λ buf. get {E = E} w from buf ≡ ok v) (append-nil (put_all fs))
      (get-put_all {E = E} fs [] w from v at h fits)

pub drop-append_le : (n : ℕ) (xs ys : Bytes) → n ≤ length xs → drop n (xs ++ ys) ≡ drop n xs ++ ys
drop-append_le zero xs ys h = refl
drop-append_le (suc n) [] ys h = absurd (omega arith)
drop-append_le (suc n) (x ∷ xs) ys h = drop-append_le n xs ys (omega arith)

-- A slice within the first bytes is not touched by what follows them.
pub slice-append {ℓ} :
    {E : Type ℓ} (from n : ℕ) (xs ys : Bytes)
    → from + n ≤ length xs
    → slice {E = E} from n (xs ++ ys) ≡ slice from n xs
slice-append from n xs ys h =
    rw
      (
        slice-inside from n xs h,
        slice-inside from n (xs ++ ys) (omega (arith, length-append xs ys)),
        drop-append_le from xs ys (omega arith),
        take-append_le n (drop from xs) ys (omega (arith, length-drop from xs)),
      )
      refl
