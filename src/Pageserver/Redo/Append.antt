-- ===== src/Pageserver/Redo/Append.antt =====
-- One more version that is no base is applied to the page that the versions before it give.
use aethel_db.Prelude.{
  ℕ, zero, suc, replicate, ◌+◌, ◌≡◌, refl, sym, ◌∙◌, ◌≤◌, ◌<◌, false, Option, none, some, List, [],
  ◌∷◌, ◌++◌, arith, length, drop, get_elem?, inl, inr, Option-cases,
}
use aethel_db.Result.{Result, ok, err, panic, ◌>>=◌, map_err}
use aethel_db.Common.Lsn.{Lsn}
use aethel_db.Common.Page.{PageKey, page_size}
use aethel_db.Pageserver.Page.{PageVersion, image, delta, wal_record, apply_to, is_base}
use aethel_db.Pageserver.Redo.{
  History, RedoError, apply, needs_postgres, replay, from_base, rposition_base, reconstruct_native,
}
use aethel_db.Pageserver.Redo.Pages.{rposition_base-at}

-- One version on the page, if there is one: a record needs a redo process, and all else is applied.
abbrev pub onto : Lsn → PageVersion → Option (List ℕ) → Result RedoError (Option (List ℕ))
onto l v none = ok none
onto l (wal_record w) (some page) = err (needs_postgres l)
onto l (image img) (some page) = map_err apply (apply_to (image img) page) >>= λ p. ok (some p)
onto l (delta edits) (some page) = map_err apply (apply_to (delta edits) page) >>= λ p. ok (some p)

drop-snoc {ℓ} :
    {A : Type ℓ} (n : ℕ) (xs : List A) (x : A)
    → n ≤ length xs
    → drop n (xs ++ (x ∷ [])) ≡ drop n xs ++ (x ∷ [])
drop-snoc zero xs x h = refl
drop-snoc (suc n) [] x h = absurd (omega arith)
drop-snoc (suc n) (y ∷ xs) x h = drop-snoc n xs x (omega arith)

get_elem?-snoc {ℓ} :
    {A : Type ℓ} (i : ℕ) (xs : List A) (x : A)
    → i < length xs
    → get_elem? (xs ++ (x ∷ [])) i ≡ get_elem? xs i
get_elem?-snoc i [] x h = absurd (omega arith)
get_elem?-snoc zero (y ∷ xs) x h = refl
get_elem?-snoc (suc i) (y ∷ xs) x h = get_elem?-snoc i xs x (omega arith)

bind_assoc {ℓ} :
    {E : Type ℓ} {A B C : Type ℓ} (m : Result E A) (f : A → Result E B) (g : B → Result E C)
    → ((m >>= f) >>= g) ≡ (m >>= λ a. f a >>= g)
bind_assoc (ok a) f g = refl
bind_assoc (err e) f g = refl
bind_assoc panic f g = refl

bind_ext {ℓ} :
    {E : Type ℓ} {A B : Type ℓ} (m : Result E A) (f g : A → Result E B)
    → ((a : A) → f a ≡ g a)
    → (m >>= f) ≡ (m >>= g)
bind_ext (ok a) f g h = h a
bind_ext (err e) f g h = refl
bind_ext panic f g h = refl

replay_one :
    (page : List ℕ) (l : Lsn) (v : PageVersion) → replay page ((l, v) ∷ []) ≡ onto l v (some page)
unfolding replay
replay_one page l (wal_record w) = refl
replay_one page l (image img) = refl
replay_one page l (delta edits) = refl

module _ (l : Lsn) (v : PageVersion) where
  replay-snoc :
      (vs : History) (page : List ℕ)
      → replay page (vs ++ ((l, v) ∷ [])) ≡ (replay page vs >>= onto l v)
  unfolding replay
  replay-snoc [] page = replay_one page l v
  replay-snoc ((k, wal_record w) ∷ vs) page = refl
  replay-snoc ((k, image img) ∷ vs) page =
      bind_ext (map_err apply (apply_to (image img) page)) _ _ (λ p. replay-snoc vs p)
      ∙ sym (bind_assoc (map_err apply (apply_to (image img) page)) _ (onto l v))
  replay-snoc ((k, delta edits) ∷ vs) page =
      bind_ext (map_err apply (apply_to (delta edits) page)) _ _ (λ p. replay-snoc vs p)
      ∙ sym (bind_assoc (map_err apply (apply_to (delta edits) page)) _ (onto l v))

  from_base-snoc :
      (o : Option (Lsn × PageVersion)) (rest : History)
      → from_base o (rest ++ ((l, v) ∷ [])) ≡ (from_base o rest >>= onto l v)
  unfolding from_base
  from_base-snoc none rest = refl
  from_base-snoc (some (k, wal_record w)) rest = refl
  from_base-snoc (some (k, delta edits)) rest = refl
  from_base-snoc (some (k, image img)) rest =
      let start = map_err apply (apply_to (image img) (replicate page_size 0)) in
      bind_ext start _ _ (λ p. replay-snoc rest p)
      ∙ sym (bind_assoc start (λ p. replay p rest) (onto l v))

  rposition-snoc :
      (vs : History) → is_base v ≡ false → rposition_base (vs ++ ((l, v) ∷ [])) ≡ rposition_base vs
  unfolding rposition_base
  rposition-snoc [] h = rw h
  rposition-snoc ((k, u) ∷ vs) h = ground (arith, rposition-snoc vs h)

  -- One more version behind a history, which is no base: where the history gives a page, the edits of
  -- a delta are applied to it, with the error of an edit out of bounds, and a record is refused with
  -- the error that asks for PostgreSQL at its LSN; where the history gives no page, an error or a
  -- panic, that stays.
  pub native-snoc :
      (key : PageKey) (lsn : Lsn) (vs : History)
      → is_base v ≡ false
      → reconstruct_native key lsn (vs ++ ((l, v) ∷ []))
        ≡ (reconstruct_native key lsn vs >>= onto l v)
  unfolding reconstruct_native
  native-snoc key lsn vs h = elim (Option-cases (rposition_base vs)) [
    | inl e ↦ rw (rposition-snoc vs h, e, reconstruct_native)
    | inr (i, e) ↦
        let (k, u, at, base, lt) = rposition_base-at vs i e in
        rw
          (
            rposition-snoc vs h,
            e,
            reconstruct_native,
            get_elem?-snoc i vs (l, v) lt,
            drop-snoc (i + 1) vs (l, v) (omega arith),
          )
          (from_base-snoc (get_elem? vs i) (drop (i + 1) vs))
  ]
