-- ===== src/Flashcards/Storage.antt =====
-- apps/web/src/components/learn/progress-storage.ts and apps/web/src/lib/flashcard-progress.ts: the
-- session that the browser keeps. localStorage is a map from keys to entries, of which JSON is the
-- text; a read or a write that throws is only logged, which the flags of a call say. The date of an
-- entry is never read.
use sealvo.Base.{
  ℕ, Bool, true, false, ◌&&◌, Option, none, some, List, [], ◌∷◌, map, length, every, any, find,
  ◌==◌, if◌then◌else◌,
}
use sealvo.Flashcards.State.{Word, CardProgress}
use sealvo.Flashcards.Shown.{ids}

pub record Saved : Type 0 where
  pub words : List ℕ
  pub progress : List CardProgress

-- `flashcards_progress_` with the package, and the key of before.
pub data Key : Type 0 where
  package_key : ℕ → Key
  legacy_key : Key

abbrev pub same_key : Key → Key → Bool
same_key (package_key a) (package_key b) = a == b
same_key (package_key a) legacy_key = false
same_key legacy_key (package_key b) = false
same_key legacy_key legacy_key = true

abbrev pub Storage : Type 0
Storage = Key → Option Saved

abbrev pub put : Key → Option Saved → Storage → Storage
put key entry storage k = if same_key k key then entry else storage k

-- `writes` is whether the browser stores the entry.
unfoldable pub save_progress : Bool → ℕ → List Word → List CardProgress → Storage → Storage
save_progress writes package_id deck progress storage =
    if writes
    then put (package_key package_id) (some (record { words = ids deck; progress = progress }))
        storage
    else storage

abbrev pub includes : List ℕ → ℕ → Bool
includes xs id = any (λ x. x == id) xs

-- The words of the saved order. An id that is missing is `undefined` in the source; the test before
-- excludes it.
unfoldable pub in_order : List ℕ → List Word → List Word
in_order [] deck = []
in_order (id ∷ more) deck =
    let rest = in_order more deck in
    elim (find (λ (w : Word). w.detail_id == id) deck) [ none ↦ rest | some w ↦ w ∷ rest ]

-- The same number of words, all of them in the deck.
unfoldable pub same_words : Saved → List Word → Bool
same_words saved deck =
    length saved.words == length (ids deck) && every (includes (ids deck)) saved.words

abbrev pub or_legacy : Option Saved → Option Saved → Option Saved
or_legacy (some own) legacy = some own
or_legacy none legacy = legacy

abbrev pub is_own : Option Saved → Bool
is_own none = false
is_own (some own) = true

-- The old key moves to the first package that its words match.
unfoldable pub load_progress :
    Bool → ℕ → List Word → Storage → Option (List Word × List CardProgress) × Storage
load_progress writes package_id deck storage =
    let own = storage (package_key package_id) in
    elim (or_legacy own (storage legacy_key)) [
      | none ↦ (none, storage)
      | some saved ↦
          let restored = in_order saved.words deck in
          let moved =
            put legacy_key none (save_progress writes package_id restored saved.progress storage) in
          if same_words saved deck
          then (some (restored, saved.progress), if is_own own then storage else moved)
          else (none, storage)
    ]

-- A word's details were copied under a new id.
unfoldable pub replace_flashcard_detail_id : Bool → ℕ → ℕ → ℕ → Storage → Storage
replace_flashcard_detail_id writes package_id from_id to_id storage =
    elim (storage (package_key package_id)) [
      | none ↦ storage
      | some saved ↦
          if includes saved.words from_id && writes
          then put (package_key package_id)
              (some (record {
                words = map (λ id. if id == from_id then to_id else id) saved.words;
                progress = saved.progress;
              }))
              storage
          else storage
    ]
