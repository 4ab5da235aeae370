-- ===== src/Pageserver/Service/Ingest.antt =====
-- pageserver/src/server.rs: the connection that takes single modifications, each behind its length.
use aethel_db.Prelude.{
  ℕ, zero, suc, ◌+◌, ◌≤◌, ◌≡◌, refl, ap, ◌∙◌, arith, true, false, not, ◌&&◌, List, [], ◌∷◌, ◌++◌,
  length, take, drop, ltb, leb, if◌then◌else◌, take-append, drop-append, length-append,
}
use aethel_db.Result.{Result, ok, err, panic}
use aethel_db.Common.Bytes.{Bytes, be, from_be, length-be, from_be-be}
use aethel_db.Pageserver.Page.{PageError, Modification}
use aethel_db.Pageserver.Codec.{encode, decode}
use aethel_db.Pageserver.Codec.RoundTrip.{IsPlace, IsVersion, decode-encode}
use aethel_db.Pageserver.Repository
use aethel_db.Pageserver.Timeline.{Timeline, ingest}

-- What ends a connection, beside the end of its bytes in front of a length.
pub data IngestError : Type 0 where
  ingest_eof : IngestError
  out_of_range : ℕ → IngestError
  bad_modification : PageError → IngestError

-- `MAX_INGEST_BODY`
abbrev pub max_ingest_body : ℕ
max_ingest_body = 1048576

-- A modification that was decoded is ingested and acknowledged; `go` serves the bytes behind it.
unfoldable pub on_modification :
    (Timeline → Result IngestError ℕ × Timeline)
    → Timeline
    → Result PageError Modification
    → Result IngestError ℕ × Timeline
on_modification go t (ok m) = go (ingest t (m ∷ []))
on_modification go t (err e) = (err (bad_modification e), t)
on_modification go t panic = (panic, t)

-- The loop, with the modifications that were acknowledged. Running out of fuel is the outcome `panic`.
unfoldable pub ingest_conn : ℕ → ℕ → Bytes → Timeline → Result IngestError ℕ × Timeline
ingest_conn zero acks stream t = if ltb (length stream) 4 then (ok acks, t) else (panic, t)
ingest_conn (suc fuel) acks stream t =
    let len = from_be 0 (take 4 stream) in
    let next = ingest_conn fuel (acks + 1) (drop len (drop 4 stream)) in
    if ltb (length stream) 4
    then (ok acks, t)
    else if not (ltb 0 len && leb len max_ingest_body)
    then (err (out_of_range len), t)
    else if ltb (length (drop 4 stream)) len
    then (err ingest_eof, t)
    else on_modification next t (decode (take len (drop 4 stream)))

-- Every round takes the four bytes of a length at least.
unfoldable pub handle_ingest_conn : Bytes → Timeline → Result IngestError ℕ × Timeline
handle_ingest_conn stream t = ingest_conn (length stream) 0 stream t

-- What a client sends: each modification behind its length.
abbrev pub frames : List Modification → Bytes
frames [] = []
frames (m ∷ mods) = be 4 (length (encode m)) ++ (encode m ++ frames mods)

-- Modifications within the widths of their fields, that fit a frame.
abbrev pub AreFrames : List Modification → Type 0
AreFrames [] = Unit
AreFrames (m ∷ mods) =
    ((IsPlace m.rel m.block m.lsn × IsVersion m.version)
      × ((1 ≤ length (encode m)) × (length (encode m) ≤ max_ingest_body)))
    × AreFrames mods

one_frame :
    (fuel acks : ℕ) (m : Modification) (rest : Bytes) (t : Timeline)
    → IsPlace m.rel m.block m.lsn
    → IsVersion m.version
    → 1 ≤ length (encode m)
    → length (encode m) ≤ max_ingest_body
    → ingest_conn (suc fuel) acks (be 4 (length (encode m)) ++ (encode m ++ rest)) t
      ≡ ingest_conn fuel (acks + 1) rest (ingest t (m ∷ []))
unfolding ingest_conn on_modification
one_frame fuel acks m rest t place version lo hi =
    let n = length (encode m) in
    let size = length-be 4 n in
    let header : take 4 (be 4 n ++ (encode m ++ rest)) ≡ be 4 n =
      take-append (be 4 n) (encode m ++ rest) 4 size in
    let behind : drop 4 (be 4 n ++ (encode m ++ rest)) ≡ encode m ++ rest =
      drop-append (be 4 n) (encode m ++ rest) 4 0 4 size (omega arith) in
    let value : from_be 0 (be 4 n) ≡ n = from_be-be 4 n (omega arith) in
    let long : ltb (length (be 4 n ++ (encode m ++ rest))) 4 ≡ false =
      ground (arith, length-append (be 4 n) (encode m ++ rest)) in
    let inside : (ltb 0 n && leb n max_ingest_body) ≡ true = ground arith in
    let there : ltb (length (encode m ++ rest)) n ≡ false =
      ground (arith, length-append (encode m) rest) in
    rw
      (
        long,
        header,
        behind,
        value,
        inside,
        there,
        take-append (encode m) rest n refl,
        drop-append (encode m) rest n 0 n refl (omega arith),
        decode-encode m place version,
      )
      refl

nothing_left : (fuel acks : ℕ) (t : Timeline) → ingest_conn fuel acks [] t ≡ (ok (acks + 0), t)
unfolding ingest_conn
nothing_left zero acks t = let e : acks ≡ acks + 0 = omega arith in ap (λ n. (ok n, t)) e
nothing_left (suc fuel) acks t = let e : acks ≡ acks + 0 = omega arith in ap (λ n. (ok n, t)) e

frames_served :
    (fuel acks : ℕ) (mods : List Modification) (t : Timeline)
    → length mods ≤ fuel
    → AreFrames mods
    → ingest_conn fuel acks (frames mods) t ≡ (ok (acks + length mods), ingest t mods)
unfolding ingest Repository.ingest
frames_served fuel acks [] t le h = nothing_left fuel acks t
frames_served zero acks (m ∷ mods) t le h = absurd (omega arith)
frames_served (suc fuel) acks (m ∷ mods) t le (((place, version), (lo, hi)), hs) =
    let count : acks + 1 + length mods ≡ acks + length (m ∷ mods) = omega arith in
    one_frame fuel acks m (frames mods) t place version lo hi
    ∙ (frames_served fuel (acks + 1) mods (ingest t (m ∷ [])) (omega arith) hs
        ∙ ap (λ n. (ok n, ingest t (m ∷ mods))) count)

count_frames : (mods : List Modification) → length mods ≤ length (frames mods)
count_frames [] = omega arith
count_frames (m ∷ mods) = omega (
  arith,
  length-append (be 4 (length (encode m))) (encode m ++ frames mods),
  length-be 4 (length (encode m)),
  length-append (encode m) (frames mods),
  count_frames mods,
)

-- A client that sends modifications within the widths of their fields, each in a frame of at most 1 MiB,
-- has all of them acknowledged, and leaves the timeline as an ingest of all of them in their order does.
pub handle_ingest_conn-frames :
    (mods : List Modification) (t : Timeline)
    → AreFrames mods
    → handle_ingest_conn (frames mods) t ≡ (ok (length mods), ingest t mods)
unfolding handle_ingest_conn
handle_ingest_conn-frames mods t h =
    let e : 0 + length mods ≡ length mods = omega arith in
    frames_served (length (frames mods)) 0 mods t (count_frames mods) h
    ∙ ap (λ n. (ok n, ingest t mods)) e
