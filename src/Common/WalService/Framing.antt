-- ===== src/Common/WalService/Framing.antt =====
-- The decoders against any bytes: they never panic, and take no message for one of another type.
use aethel_db.Prelude.{
  ℕ, ◌+◌, ◌≤◌, ◌≡◌, refl, arith, Bool, List, true, false, not, ◌&&◌, [], ◌∷◌, ◌++◌, length, ltb,
  ◌==◌, if◌then◌else◌,
}
use aethel_db.Result.{Result, ok, err, ◌>>=◌}
use aethel_db.Common.Bytes.{Bytes, slice, get, get-inside, slice-inside, long_enough}
use aethel_db.Common.WalService.{
  VoteRequest, WireError, unexpected_type, prefix_fields, type_append, type_replicate, magic,
  version, type_vote, message_type, bad_response, payload_len, decode_append, decode_read,
  encode_vote,
}
use aethel_db.Common.WalService.RoundTrip.{message_type-put_all}

-- The outcome is a value or an error.
pub data Returns {ℓ κ} {E : Type ℓ} {A : Type κ} : Result E A → Type (ℓ ⊔ κ) where
  returned : (a : A) → Returns (ok a)
  failed : (e : E) → Returns (err e)

-- A chain returns where its first step does, and the rest does for every value.
bind-Returns {ℓ κ ι} :
    {E : Type ℓ} {A : Type κ} {B : Type ι} (m : Result E A) (f : A → Result E B)
    → Returns m
    → ((a : A) → Returns (f a))
    → Returns (m >>= f)
bind-Returns m f (returned a) g = g a
bind-Returns m f (failed e) g = failed e

get-Returns :
    (w from : ℕ) (buf : Bytes) → from + w ≤ length buf → Returns (get {E = WireError} w from buf)
get-Returns w from buf h = rw (get-inside {E = WireError} w from buf h) (returned _)

slice-Returns :
    (from n : ℕ) (buf : Bytes) → from + n ≤ length buf → Returns (slice {E = WireError} from n buf)
slice-Returns from n buf h = rw (slice-inside {E = WireError} from n buf h) (returned _)

if-Returns {ℓ} :
    {A : Type ℓ} (b : Bool) (x y : Result WireError A)
    → (b ≡ true → Returns x)
    → (b ≡ false → Returns y)
    → Returns (if b then x else y)
if-Returns true x y h g = h refl
if-Returns false x y h g = g refl

message_type-Returns : (buf : Bytes) → Returns (message_type buf)
unfolding message_type
message_type-Returns buf =
    if-Returns (ltb (length buf) 8) _ _ (λ _. failed _)
      (λ long. bind-Returns _ _ (get-Returns 4 0 buf (ground arith)) (λ m.
        if-Returns (not (m == magic)) _ _ (λ _. failed _)
          (λ _. bind-Returns _ _ (get-Returns 1 4 buf (ground arith)) (λ v.
            if-Returns (not (v == version)) _ _ (λ _. failed _)
              (λ _. get-Returns 1 5 buf (ground arith))))))

payload_len-Returns : (buf : Bytes) → Returns (payload_len buf)
unfolding payload_len
payload_len-Returns buf =
    if-Returns (ltb (length buf) 60) _ _ (λ _. failed _)
      (λ long. bind-Returns _ _ (get-Returns 4 0 buf (ground arith)) (λ m.
        if-Returns (not (m == magic)) _ _ (λ _. failed _)
          (λ _. bind-Returns _ _ (get-Returns 1 4 buf (ground arith)) (λ v.
            if-Returns (not (v == version)) _ _ (λ _. failed _)
              (λ _. bind-Returns _ _ (get-Returns 1 5 buf (ground arith)) (λ t.
                if-Returns (not (t == type_append) && not (t == type_replicate)) _ _ (λ _. failed _)
                  (λ _. get-Returns 4 56 buf (ground arith))))))))

bad_response-Returns : (buf : Bytes) → 5 ≤ length buf → Returns (bad_response buf)
unfolding bad_response
bad_response-Returns buf h = bind-Returns _ _ (get-Returns 4 0 buf (omega arith)) (λ m.
    if-Returns (not (m == magic)) (ok true) (get 1 4 buf >>= λ v. ok (not (v == version)))
      (λ _. returned _)
      (λ _. bind-Returns _ _ (get-Returns 1 4 buf (omega arith)) (λ v. returned _)))

-- Decoding an append or a replication never panics, whatever the bytes.
pub decode_append-Returns : (buf : Bytes) → Returns (decode_append buf)
unfolding decode_append
decode_append-Returns buf = bind-Returns _ _ (payload_len-Returns buf) (λ plen.
    if-Returns (ltb (length buf) (60 + plen)) _ _ (λ _. failed _)
      (λ long. bind-Returns _ _ (get-Returns 16 8 buf (ground arith)) (λ tenant.
        bind-Returns _ _ (get-Returns 16 24 buf (ground arith)) (λ timeline.
          bind-Returns _ _ (get-Returns 8 40 buf (ground arith)) (λ term.
            bind-Returns _ _ (get-Returns 8 48 buf (ground arith)) (λ start_lsn.
              bind-Returns _ _ (slice-Returns 60 plen buf (ground arith))
                (λ payload. returned _)))))))

-- A vote request is no read request, and is refused as one.
pub decode_read-encode_vote :
    (r : VoteRequest) (rest : Bytes) → decode_read (encode_vote r ++ rest) ≡ err unexpected_type
unfolding decode_read encode_vote
decode_read-encode_vote r rest =
    let fs : List (ℕ × ℕ) =
      (16, r.tenant) ∷ (16, r.timeline) ∷ (8, r.term) ∷ (8, r.candidate) ∷ [] in
    rw
      (
        long_enough (prefix_fields type_vote fs) rest 52 0 (omega arith) (omega arith),
        message_type-put_all type_vote fs rest (omega arith),
      )
      refl
