-- ===== src/Pageserver/Service/Connection.antt =====
-- A connection to the page service: how it tells the messages in its bytes apart, and its fuel.
use aethel_db.Prelude.{
  ℕ, zero, suc, ◌-◌, drop-append, length-drop, ◌≤◌, ◌≡◌, refl, sym, ap, ◌∙◌, arith, Bool, true,
  false, none, some, List, [], ◌∷◌, ◌++◌, length, take, drop, ltb, if◌then◌else◌, append-nil,
  take-append, append_assoc, length-append,
}
use aethel_db.Result.{Result, ok, err, panic, ◌>>=◌}
use aethel_db.Ord.{nat_ord}
use aethel_db.Common.Bytes.{Bytes, be, long_enough, put_all, get-put_all, length-put_all}
use aethel_db.Common.Ids.{TenantId}
use aethel_db.Common.PageService.{
  ServiceError, Request, get_page_request, get_rel_size_request, Response, request_fields,
  encode_request, total_len, decode_request, encode_response,
}
use aethel_db.Common.PageService.RoundTrip.{
  IsRequest, check_header-put_all, decode_request-encode_request,
}
use aethel_db.Pageserver.Redo.{WalRedoManager}
use aethel_db.Pageserver.Tenant.{Tenant}
use aethel_db.Pageserver.Service.{
  ConnError, Message, request_error, read_body, read_message, respond, Served, on_response,
  on_message, page_conn, handle_page_conn,
}

-- The header of a request by its fields.
abbrev header_fields : Request → List (ℕ × ℕ)
header_fields r = take 5 (request_fields r)

abbrev body_fields : Request → List (ℕ × ℕ)
body_fields r = drop 5 (request_fields r)

put_all-append : (fs gs : List (ℕ × ℕ)) → put_all (fs ++ gs) ≡ put_all fs ++ put_all gs
put_all-append [] gs = refl
put_all-append ((w, v) ∷ fs) gs =
    ap (λ l. be w v ++ l) (put_all-append fs gs)
    ∙ sym (append_assoc (be w v) (put_all fs) (put_all gs))

split_request :
    (r : Request) (later : Bytes)
    → encode_request r ++ later ≡ put_all (header_fields r) ++ (put_all (body_fields r) ++ later)
unfolding encode_request
split_request (get_page_request tenant timeline rel block lsn) later =
    let r = get_page_request tenant timeline rel block lsn in
    ap (λ l. l ++ later) (put_all-append (header_fields r) (body_fields r))
    ∙ append_assoc (put_all (header_fields r)) (put_all (body_fields r)) later
split_request (get_rel_size_request tenant timeline rel lsn) later =
    let r = get_rel_size_request tenant timeline rel lsn in
    ap (λ l. l ++ later) (put_all-append (header_fields r) (body_fields r))
    ∙ append_assoc (put_all (header_fields r)) (put_all (body_fields r)) later

abbrev size_of : Request → ℕ
size_of (get_page_request tenant timeline rel block lsn) = 64
size_of (get_rel_size_request tenant timeline rel lsn) = 60

length-encode_request : (r : Request) → length (encode_request r) ≡ size_of r
unfolding encode_request
length-encode_request (get_page_request tenant timeline rel block lsn) =
    length-put_all (request_fields (get_page_request tenant timeline rel block lsn))
length-encode_request (get_rel_size_request tenant timeline rel lsn) =
    length-put_all (request_fields (get_rel_size_request tenant timeline rel lsn))

total_len-header : (r : Request) → total_len (put_all (header_fields r) ++ []) ≡ ok (size_of r)
unfolding total_len
total_len-header (get_page_request tenant timeline rel block lsn) =
    let fs = header_fields (get_page_request tenant timeline rel block lsn) in
    rw
      (
        long_enough fs [] 8 0 (omega arith) (omega arith),
        check_header-put_all (drop 2 fs) [],
        get-put_all {E = ServiceError} fs [] 1 5 1 refl (omega arith) (omega arith),
      )
      refl
total_len-header (get_rel_size_request tenant timeline rel lsn) =
    let fs = header_fields (get_rel_size_request tenant timeline rel lsn) in
    rw
      (
        long_enough fs [] 8 0 (omega arith) (omega arith),
        check_header-put_all (drop 2 fs) [],
        get-put_all {E = ServiceError} fs [] 1 5 2 refl (omega arith) (omega arith),
      )
      refl

length-header : (r : Request) → length (put_all (header_fields r)) ≡ 8
length-header (get_page_request tenant timeline rel block lsn) =
    length-put_all (header_fields (get_page_request tenant timeline rel block lsn))
length-header (get_rel_size_request tenant timeline rel lsn) =
    length-put_all (header_fields (get_rel_size_request tenant timeline rel lsn))

size_of-bound : (r : Request) → 8 ≤ size_of r
size_of-bound (get_page_request tenant timeline rel block lsn) = omega arith
size_of-bound (get_rel_size_request tenant timeline rel lsn) = omega arith

length-body : (r : Request) → length (put_all (body_fields r)) ≡ size_of r - 8
length-body (get_page_request tenant timeline rel block lsn) =
    length-put_all (body_fields (get_page_request tenant timeline rel block lsn))
length-body (get_rel_size_request tenant timeline rel lsn) =
    length-put_all (body_fields (get_rel_size_request tenant timeline rel lsn))

-- A request and what follows it are told apart.
read_message-encode_request :
    (r : Request) (later : Bytes)
    → IsRequest r
    → read_message (encode_request r ++ later) ≡ ok (some (r, later))
unfolding read_message read_body
read_message-encode_request r later h =
    let header = put_all (header_fields r) in
    let body = put_all (body_fields r) in
    let bound = size_of-bound r in
    let size = length-body r in
    let long : ltb (length (header ++ (body ++ later))) 8 ≡ false =
      ground (arith, length-append header (body ++ later), length-header r) in
    let total : ltb (size_of r) 8 ≡ false = ground arith in
    let there : ltb (length (body ++ later)) (size_of r - 8) ≡ false =
      ground (arith, length-append body later) in
    let first : take 8 (header ++ (body ++ later)) ≡ header =
      take-append header (body ++ later) 8 (length-header r) in
    let behind : drop 8 (header ++ (body ++ later)) ≡ body ++ later =
      drop-append header (body ++ later) 8 0 8 (length-header r) (omega arith) in
    let announced : total_len header ≡ ok (size_of r) =
      ap total_len (sym (append-nil header)) ∙ total_len-header r in
    let whole : decode_request (header ++ body) ≡ ok r =
      ap decode_request (ap (λ l. header ++ l) (sym (append-nil body)) ∙ sym (split_request r []))
      ∙ decode_request-encode_request r [] h in
    rw
      (
        split_request r later,
        long,
        first,
        behind,
        announced,
        total,
        there,
        take-append body later (size_of r - 8) size,
        drop-append body later (size_of r - 8) 0 (size_of r - 8) size (omega arith),
        whole,
      )
      refl

-- The bytes behind a message are fewer than those that it was read from.
abbrev Shorter : ℕ → Result ConnError Message → Type 0
Shorter k (ok (some (r, rest))) = suc (length rest) ≤ k
Shorter k (ok none) = Unit
Shorter k (err e) = Unit
Shorter k panic = Unit

if-Shorter :
    (k : ℕ) (b : Bool) (x y : Result ConnError Message)
    → Shorter k x
    → (b ≡ false → Shorter k y)
    → Shorter k (if b then x else y)
if-Shorter k true x y h g = h
if-Shorter k false x y h g = g refl

then-Shorter :
    {A : Type 0}
    → (k : ℕ) (r : Result ConnError A) (f : A → Result ConnError Message)
    → ((a : A) → Shorter k (f a))
    → Shorter k (r >>= f)
then-Shorter k (ok a) f h = h a
then-Shorter k (err e) f h = tt
then-Shorter k panic f h = tt

read_message-Shorter : (stream : Bytes) → Shorter (length stream) (read_message stream)
unfolding read_message read_body
read_message-Shorter stream =
    if-Shorter (length stream) (ltb (length stream) 8) (ok none) _ tt (λ long.
      then-Shorter (length stream) (request_error (total_len (take 8 stream))) _ (λ total.
        if-Shorter (length stream) (ltb total 8) panic _ tt (λ _.
          if-Shorter (length stream) (ltb (length (drop 8 stream)) (total - 8)) _ _ tt (λ _.
            then-Shorter (length stream)
              (request_error (decode_request (take 8 stream ++ take (total - 8) (drop 8 stream)))) _
              (λ r.
                ground (arith, length-drop (total - 8) (drop 8 stream), length-drop 8 stream))))))

module _ (manager : WalRedoManager) (tenants : List (TenantId × Tenant)) where
  same_message :
      (k : ℕ) (go go' : Bytes → Served) (m : Result ConnError Message)
      → Shorter k m
      → ((rest : Bytes) → suc (length rest) ≤ k → go rest ≡ go' rest)
      → on_message manager go tenants m ≡ on_message manager go' tenants m
  unfolding on_message
  same_message k go go' (ok (some (r, rest))) h f =
      ap (λ next. on_response manager next (respond manager tenants r)) (f rest h)
  same_message k go go' (ok none) h f = refl
  same_message k go go' (err e) h f = refl
  same_message k go go' panic h f = refl

  -- More fuel than enough changes nothing.
  page_conn_fuel :
      (f g : ℕ) (stream : Bytes)
      → suc (length stream) ≤ f
      → suc (length stream) ≤ g
      → page_conn manager f tenants stream ≡ page_conn manager g tenants stream
  unfolding page_conn
  page_conn_fuel zero g stream lf lg = absurd (omega arith)
  page_conn_fuel (suc f) zero stream lf lg = absurd (omega arith)
  page_conn_fuel (suc f) (suc g) stream lf lg =
      same_message (length stream) (page_conn manager f tenants) (page_conn manager g tenants)
        (read_message stream) (read_message-Shorter stream)
        (λ rest h. page_conn_fuel f g rest (omega arith) (omega arith))

  -- A request is answered, and the connection goes on with the bytes behind it.
  pub handle_page_conn-next :
      (r : Request) (later : Bytes) (reply : Response)
      → IsRequest r
      → respond manager tenants r ≡ ok reply
      → handle_page_conn manager tenants (encode_request r ++ later) ≡ (
        (handle_page_conn manager tenants later).0,
        encode_response reply ++ (handle_page_conn manager tenants later).1,
      )
  unfolding handle_page_conn page_conn on_message on_response
  handle_page_conn-next r later reply h e =
      let fuel = length (encode_request r ++ later) in
      let size = length-encode_request r in
      let bound = size_of-bound r in
      let enough : suc (length later) ≤ fuel =
        omega (arith, length-append (encode_request r) later) in
      rw
        (
          read_message-encode_request r later h,
          e,
          page_conn_fuel fuel (suc (length later)) later enough (omega arith),
        )
        refl
