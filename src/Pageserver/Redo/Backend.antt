-- ===== src/Pageserver/Redo/Backend.antt =====
-- What a redo backend promises beyond the contract that the repository relies on, and that the native
-- backend keeps it.
use aethel_db.Prelude.{
  ℕ, ◌≡◌, refl, ap, ◌∙◌, arith, true, false, Option, none, some, List, [], ◌∷◌, ◌++◌, length, ◌==◌,
}
use aethel_db.Result.{Result, ok, err, panic, ◌>>=◌}
use aethel_db.Common.Lsn.{Lsn}
use aethel_db.Common.Page.{PageKey, page_size}
use aethel_db.Pageserver.Page.{PageVersion, image, wal_record, apply_to, is_base}
use aethel_db.Pageserver.Redo.{
  History, RedoError, WalRedoManager, replay, reconstruct_native, rust_apply, needs_postgres,
  rposition_base, from_base,
}
use aethel_db.Pageserver.Redo.Laws.{IsRedo, rust_apply-IsRedo}
use aethel_db.Pageserver.Redo.Append.{onto, native-snoc}
use aethel_db.Pageserver.Redo.Pages.{IsAnswer, reconstruct_native-IsAnswer}

-- A page of the full size or an error: neither no page nor a panic.
abbrev pub IsPage : Result RedoError (Option (List ℕ)) → Type 0
IsPage (ok none) = ⊥
IsPage (ok (some p)) = length p ≡ page_size
IsPage (err e) = Unit
IsPage panic = ⊥

-- A backend that applies no records itself, over all histories.
pub record IsBackend (m : WalRedoManager) : Type 0 where
  pub contract : IsRedo m
  -- with a base there is a full page or an error
  pub with_base :
      (key : PageKey) (lsn l : Lsn) (v : PageVersion) (before after : History)
      → is_base v ≡ true
      → IsPage (m.reconstruct key lsn (before ++ ((l, v) ∷ after)))
  -- an image of the full size that ends a history is the page
  pub last_image :
      (key : PageKey) (lsn l : Lsn) (page : List ℕ) (before : History)
      → length page ≡ page_size
      → m.reconstruct key lsn (before ++ ((l, image page) ∷ [])) ≡ ok (some page)
  -- a record that ends a history with a base is refused, if all before it was applied
  pub last_record :
      (key : PageKey) (lsn l : Lsn) (rec page : List ℕ) (before : History)
      → m.reconstruct key lsn before ≡ ok (some page)
      → m.reconstruct key lsn
          (before ++ ((l, wal_record (record { will_init = false; rec = rec })) ∷ []))
        ≡ err (needs_postgres l)

answer-IsPage : (r : Result RedoError (Option (List ℕ))) → IsAnswer r → ¬ (r ≡ ok none) → IsPage r
answer-IsPage (ok none) h g = g refl
answer-IsPage (ok (some p)) h g = h
answer-IsPage (err e) h g = tt
answer-IsPage panic h g = h

installed :
    (l : Lsn) (page : List ℕ)
    → length page ≡ page_size
    → from_base (some (l, image page)) [] ≡ ok (some page)
unfolding from_base apply_to replay
installed l page h = let whole : (length page == page_size) ≡ true = ground arith in rw whole refl

native_last :
    (key : PageKey) (lsn l : Lsn) (page : List ℕ) (before : History)
    → length page ≡ page_size
    → reconstruct_native key lsn (before ++ ((l, image page) ∷ [])) ≡ ok (some page)
unfolding reconstruct_native rposition_base is_base
native_last key lsn l page before h =
    rust_apply-IsRedo.from_base key lsn l (image page) before [] refl ∙ installed l page h

-- The native backend keeps the contract of the redo backends: versions before a base do not count,
-- and a history without one gives no page. A history with a base gives a page of the full size or an
-- error, and no panic; where it ends in an image of the full size, the page is that image; where it
-- ends in a record that is no base, and the versions before it give a page, the error asks for
-- PostgreSQL at the record's LSN.
pub rust_apply-IsBackend : IsBackend rust_apply
unfolding is_base
rust_apply-IsBackend = record {
  contract = rust_apply-IsRedo;
  with_base = λ key lsn l v before after h.
      answer-IsPage _ (reconstruct_native-IsAnswer key lsn (before ++ ((l, v) ∷ after)))
        (rust_apply-IsRedo.found key lsn l v before after h);
  last_image = native_last;
  last_record = λ key lsn l rec page before h.
      native-snoc l (wal_record (record { will_init = false; rec = rec })) key lsn before refl
      ∙ ap (λ r. r >>= onto l (wal_record (record { will_init = false; rec = rec }))) h;
}
