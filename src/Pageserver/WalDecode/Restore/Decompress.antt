-- ===== src/Pageserver/WalDecode/Restore/Decompress.antt =====
-- `pglz_decompress` over all inputs: its reads, its fuel and the length of its output.
use aethel_db.Prelude.{
  ℕ, zero, suc, ◌+◌, ◌-◌, ◌*◌, ◌/◌, ◌%◌, ◌≤◌, ◌≡◌, ◌≢◌, refl, arith, Bool, true, false, ◌||◌,
  Option, none, some, [], ◌∷◌, ◌++◌, length, get_elem?, ltb, leb, ◌==◌, if◌then◌else◌,
  length-append,
}
use aethel_db.Result.{Result, ok, err, panic, ◌>>=◌}
use aethel_db.Common.Bytes.{Bytes}
use aethel_db.Pageserver.WalDecode.{WalDecodeError}
use aethel_db.Pageserver.WalDecode.Restore.{
  Tokens, byte_back, copy, back_reference, reference_length, token, control, pglz_loop,
  pglz_decompress,
}

-- A result is no panic, and what it gives satisfies a predicate.
abbrev pub Gives : {A : Type 0} → (A → Type 0) → Result WalDecodeError A → Type 0
Gives P (ok a) = P a
Gives P (err e) = Unit
Gives P panic = ⊥

pub then-Gives :
    {A B : Type 0}
    → (P : A → Type 0) (Q : B → Type 0) (r : Result WalDecodeError A)
      (f : A → Result WalDecodeError B)
    → Gives P r
    → ((a : A) → P a → Gives Q (f a))
    → Gives Q (r >>= f)
then-Gives P Q (ok a) f h g = g a h
then-Gives P Q (err e) f h g = tt
then-Gives P Q panic f h g = h

pub if-Gives :
    {A : Type 0}
    → (P : A → Type 0) (b : Bool) (x y : Result WalDecodeError A) → (b ≡ true → Gives P x)
    → (b ≡ false → Gives P y)
    → Gives P (if b then x else y)
if-Gives P true x y h g = h refl
if-Gives P false x y h g = g refl

get_elem?-some : (xs : Bytes) (i : ℕ) → suc i ≤ length xs → get_elem? xs i ≢ none
get_elem?-some [] i h = absurd (omega arith)
get_elem?-some (x ∷ xs) zero h = λ e. cc
get_elem?-some (x ∷ xs) (suc i) h = get_elem?-some xs i (omega arith)

-- An offset that is not 0 and not beyond the output gives one of its bytes.
byte_back-some : (off : ℕ) (dst : Bytes) → 1 ≤ off → off ≤ length dst → byte_back off dst ≢ none
unfolding byte_back
byte_back-some off dst lo hi =
    let inside : ltb (length dst) off ≡ false = ground arith in
    rw inside (get_elem?-some dst (length dst - off) (omega arith))

-- No more output than asked for.
abbrev pub Within : ℕ → Bytes → Type 0
Within dst_len dst = length dst ≤ dst_len

-- No more source bytes either.
abbrev Left : ℕ → ℕ → Tokens → Type 0
Left k dst_len (src, dst) = (length src ≤ k) × (length dst ≤ dst_len)

copied :
    (P : Bytes → Type 0) (o : Option ℕ) (f : ℕ → Result WalDecodeError Bytes)
    → o ≢ none
    → ((b : ℕ) → Gives P (f b))
    → Gives P (elim o [ none ↦ panic | some b ↦ f b ])
copied P none f h g = h refl
copied P (some b) f h g = g b

copy-Within :
    (len off dst_len : ℕ) (dst : Bytes)
    → 1 ≤ off
    → off ≤ length dst
    → length dst ≤ dst_len
    → Gives (Within dst_len) (copy len off dst_len dst)
unfolding copy
copy-Within zero off dst_len dst lo hi h = h
copy-Within (suc len) off dst_len dst lo hi h =
    if-Gives (Within dst_len) (leb dst_len (length dst)) (ok dst) _ (λ _. h)
      (λ e.
        copied (Within dst_len) (byte_back off dst) (λ b. copy len off dst_len (dst ++ (b ∷ [])))
          (byte_back-some off dst lo hi)
          (λ b.
            copy-Within len off dst_len (dst ++ (b ∷ [])) lo
              (omega (arith, length-append dst (b ∷ [])))
              (ground (arith, length-append dst (b ∷ [])))))

back-Left :
    (k len off dst_len : ℕ) (src dst : Bytes)
    → length src ≤ k
    → length dst ≤ dst_len
    → Gives (Left k dst_len) (back_reference len off dst_len src dst)
unfolding back_reference
back-Left k len off dst_len src dst ls h =
    if-Gives (Left k dst_len) ((off == 0) || ltb (length dst) off) _ _ (λ _. tt)
      (λ e.
        then-Gives (Within dst_len) (Left k dst_len) (copy len off dst_len dst) _
          (copy-Within len off dst_len dst (ground arith) (ground arith) h) (λ d l. (ls, l)))

length-Left :
    (k len off dst_len : ℕ) (src dst : Bytes)
    → length src ≤ k
    → length dst ≤ dst_len
    → Gives (Left k dst_len) (reference_length len off dst_len src dst)
unfolding reference_length
length-Left k len off dst_len [] dst ls h =
    if-Gives (Left k dst_len) (len == 18) _ _ (λ _. tt)
      (λ _. back-Left k len off dst_len [] dst ls h)
length-Left k len off dst_len (b ∷ src) dst ls h =
    if-Gives (Left k dst_len) (len == 18) _ _
      (λ _. back-Left k (len + b) off dst_len src dst (omega arith) h)
      (λ _. back-Left k len off dst_len (b ∷ src) dst ls h)

token-Left :
    (k bit dst_len b0 : ℕ) (src dst : Bytes)
    → length src ≤ k
    → suc (length dst) ≤ dst_len
    → Gives (Left k dst_len) (token bit dst_len b0 src dst)
unfolding token
token-Left k bit dst_len b0 [] dst ls h =
    if-Gives (Left k dst_len) (bit == 0) _ _ (λ _. (ls, omega (arith, length-append dst (b0 ∷ []))))
      (λ _. tt)
token-Left k bit dst_len b0 (b1 ∷ src) dst ls h =
    if-Gives (Left k dst_len) (bit == 0) _ _ (λ _. (ls, omega (arith, length-append dst (b0 ∷ []))))
      (λ _.
        length-Left k (b0 % 16 + 3) (b0 / 16 % 16 * 256 + b1) dst_len src dst (omega arith)
          (omega arith))

control-Left :
    (k bits ctrl dst_len : ℕ) (t : Tokens)
    → Left k dst_len t
    → Gives (Left k dst_len) (control bits ctrl dst_len t)
unfolding control
control-Left k zero ctrl dst_len (src, dst) h = h
control-Left k (suc bits) ctrl dst_len ([], dst) h = h
control-Left k (suc bits) ctrl dst_len (b0 ∷ src, dst) (ls, h) =
    if-Gives (Left k dst_len) (leb dst_len (length dst)) (ok (b0 ∷ src, dst)) _ (λ _. (ls, h))
      (λ e.
        then-Gives (Left k dst_len) (Left k dst_len) (token (ctrl % 2) dst_len b0 src dst) _
          (token-Left k (ctrl % 2) dst_len b0 src dst (omega arith) (ground arith))
          (λ t l. control-Left k bits (ctrl / 2) dst_len t l))

pglz_loop-Within :
    (fuel dst_len : ℕ) (t : Tokens)
    → Left fuel dst_len t
    → Gives (Within dst_len) (pglz_loop fuel dst_len t)
unfolding pglz_loop
pglz_loop-Within zero dst_len ([], dst) (ls, h) = h
pglz_loop-Within (suc fuel) dst_len ([], dst) (ls, h) = h
pglz_loop-Within zero dst_len (c ∷ src, dst) (ls, h) = absurd (omega arith)
pglz_loop-Within (suc fuel) dst_len (c ∷ src, dst) (ls, h) =
    if-Gives (Within dst_len) (leb dst_len (length dst)) (ok dst) _ (λ _. h)
      (λ e.
        then-Gives (Left fuel dst_len) (Within dst_len) (control 8 c dst_len (src, dst)) _
          (control-Left fuel 8 c dst_len (src, dst) (omega arith, h))
          (λ t l. pglz_loop-Within fuel dst_len t l))

-- The decompressor returns on every input, with no more bytes than it was asked for.
pub pglz_decompress-Within :
    (src : Bytes) (dst_len : ℕ) → Gives (Within dst_len) (pglz_decompress src dst_len)
unfolding pglz_decompress
pglz_decompress-Within src dst_len =
    pglz_loop-Within (length src) dst_len (src, []) (omega arith, omega arith)
