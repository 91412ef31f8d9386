-- ===== src/Flashcards/Restoring.antt =====
-- What a session that is stored comes back as.
use sealvo.Base.{
  ℕ, ◌≡◌, refl, sym, ap, subst, ◌∙◌, inl, inr, Bool, true, Option, none, some, List, [], ◌∷◌, arith,
  map, length, every, find, ◌==◌, if◌then◌else◌, Bool-cases, Option-cases, All, ==_refl, ==_iff,
  length-map,
}
use sealvo.Flashcards.State.{Word, CardProgress}
use sealvo.Flashcards.Shown.{ids}
use sealvo.Flashcards.Storage.{
  Saved, Key, package_key, legacy_key, same_key, Storage, save_progress, includes, in_order,
  same_words, or_legacy, load_progress, replace_flashcard_detail_id,
}

find-includes :
    (id : ℕ) (deck : List Word) (w : Word)
    → find (λ (v : Word). v.detail_id == id) deck ≡ some w
    → includes (ids deck) id ≡ true
find-includes id [] w e = absurd (ground arith)
find-includes id (v ∷ deck) w e = ground (arith, find-includes id deck w)

includes-find :
    (id : ℕ) (deck : List Word)
    → includes (ids deck) id ≡ true
    → (w : Word) × (find (λ (v : Word). v.detail_id == id) deck ≡ some w) × (w.detail_id ≡ id)
includes-find id [] e = absurd (ground arith)
includes-find id (v ∷ deck) e = elim (Bool-cases (v.detail_id == id)) [
  | inl same ↦ (v, rw same refl, (==_iff v.detail_id id).0 same)
  | inr other ↦
      let (w, found, named) = includes-find id deck (ground arith) in (w, rw other found, named)
]

-- The page has the words of the saved deck, in an order of its own.
abbrev pub SameCards : List Word → List Word → Type 0
SameCards deck page =
    All (λ (w : Word). find (λ (v : Word). v.detail_id == w.detail_id) page ≡ some w) deck
    × (length deck ≡ length page)

in_order-ids :
    (deck page : List Word)
    → All (λ (w : Word). find (λ (v : Word). v.detail_id == w.detail_id) page ≡ some w) deck
    → (in_order (ids deck) page ≡ deck) × (every (includes (ids page)) (ids deck) ≡ true)
unfolding in_order
in_order-ids [] page a = (refl, refl)
in_order-ids (w ∷ deck) page a =
    let rest = in_order-ids deck page a.1 in
    (
      rw (in_order, a.0) (ap (λ ws. w ∷ ws) rest.0),
      rw (find-includes w.detail_id page w a.0) rest.1,
    )

load_any :
    (writes : Bool) (package_id : ℕ) (page : List Word) (storage : Storage) (entry : Saved)
    → or_legacy (storage (package_key package_id)) (storage legacy_key) ≡ some entry
    → same_words entry page ≡ true
    → (load_progress writes package_id page storage).0
      ≡ some (in_order entry.words page, entry.progress)
unfolding load_progress
load_any writes package_id page storage entry stored same = rw (load_progress, stored, same) refl

load_own :
    (writes : Bool) (package_id : ℕ) (page : List Word) (storage : Storage) (entry : Saved)
    → storage (package_key package_id) ≡ some entry
    → same_words entry page ≡ true
    → (load_progress writes package_id page storage).0
      ≡ some (in_order entry.words page, entry.progress)
load_own writes package_id page storage entry stored same =
    load_any writes package_id page storage entry (rw stored refl) same

saved_entry :
    (package_id : ℕ) (deck : List Word) (progress : List CardProgress) (storage : Storage)
    → save_progress true package_id deck progress storage (package_key package_id)
      ≡ some (record { words = ids deck; progress = progress })
unfolding save_progress
saved_entry package_id deck progress storage = rw (==_refl package_id) refl

same_words-ids :
    (deck page : List Word) (progress : List CardProgress)
    → SameCards deck page
    → same_words (record { words = ids deck; progress = progress }) page ≡ true
unfolding same_words
same_words-ids deck page progress same = ground (
  arith,
  (in_order-ids deck page same.0).1,
  same.1,
  length-map (λ (w : Word). w.detail_id) deck,
  length-map (λ (w : Word). w.detail_id) page,
  ==_iff (length (ids deck)) (length (ids page)),
)

-- A session that was saved is loaded, on a page with the same words in any order, each word once,
-- with the saved order and progress.
pub load-save_progress :
    (writes : Bool) (package_id : ℕ) (deck page : List Word) (progress : List CardProgress)
    (storage : Storage)
    → SameCards deck page
    → (load_progress writes package_id page (save_progress true package_id deck progress storage)).0
      ≡ some (deck, progress)
load-save_progress writes package_id deck page progress storage same =
    load_own writes package_id page (save_progress true package_id deck progress storage)
      (record { words = ids deck; progress = progress })
      (saved_entry package_id deck progress storage) (same_words-ids deck page progress same)
    ∙ ap (λ (d : List Word). some (d, progress)) (in_order-ids deck page same.0).0

ids-in_order :
    (saved : List ℕ) (page : List Word)
    → every (includes (ids page)) saved ≡ true
    → ids (in_order saved page) ≡ saved
unfolding in_order
ids-in_order [] page e = refl
ids-in_order (id ∷ saved) page e =
    let (w, found, named) = includes-find id page (ground arith) in
    rw (in_order, found) (λ i. named i ∷ ids-in_order saved page (ground arith) i)

or_pair : {A : Type 0} → A → Option A → A
or_pair d none = d
or_pair d (some a) = a

-- A session that is restored has the progress and the word ids of the stored entry of the package,
-- or else of the old key, entry by entry, as many words as the page, and words of the page only.
pub load_progress-ids :
    (writes : Bool) (package_id : ℕ) (page deck : List Word) (progress : List CardProgress)
    (storage : Storage)
    → (load_progress writes package_id page storage).0 ≡ some (deck, progress)
    → (or_legacy (storage (package_key package_id)) (storage legacy_key)
        ≡ some (record { words = ids deck; progress = progress }))
      × (length deck ≡ length page)
      × (every (includes (ids page)) (ids deck) ≡ true)
unfolding load_progress same_words or_pair in_order
load_progress-ids writes package_id page deck progress storage e =
    elim (Option-cases (or_legacy (storage (package_key package_id)) (storage legacy_key))) [
      | inl nothing ↦ absurd (ground arith)
      | inr (entry, stored) ↦ elim (Bool-cases (same_words entry page)) [
        | inr others ↦ absurd (ground arith)
        | inl same ↦
            let in_page : every (includes (ids page)) entry.words ≡ true = ground arith in
            let named = ids-in_order entry.words page in_page in
            let got : (load_progress writes package_id page storage).0
                ≡ some (in_order entry.words page, entry.progress) =
              load_any writes package_id page storage entry stored same in
            subst
              (λ (q : List Word × List CardProgress).
                (or_legacy (storage (package_key package_id)) (storage legacy_key)
                  ≡ some (record { words = ids q.0; progress = q.1 }))
                × (length q.0 ≡ length page)
                × (every (includes (ids page)) (ids q.0) ≡ true))
              (ap (or_pair (deck, progress)) (sym got ∙ e))
              (
                stored
                    ∙ ap (λ (ws : List ℕ). some (record { words = ws; progress = entry.progress }))
                        (sym named),
                ground (
                  arith,
                  length-map (λ (w : Word). w.detail_id) (in_order entry.words page),
                  ap length named,
                  length-map (λ (w : Word). w.detail_id) page,
                  ==_iff (length entry.words) (length (ids page)),
                ),
                rw named in_page,
              )
      ]
    ]

-- A rename of an id in the saved session saves the renamed deck.
abbrev pub renamed : ℕ → ℕ → Word → Word
renamed from_id to_id w = if w.detail_id == from_id then record w { detail_id = to_id } else w

ids-renamed :
    (from_id to_id : ℕ) (deck : List Word)
    → map (λ id. if id == from_id then to_id else id) (ids deck)
      ≡ ids (map (renamed from_id to_id) deck)
ids-renamed from_id to_id [] = refl
ids-renamed from_id to_id (w ∷ deck) = ground (arith, ids-renamed from_id to_id deck)

-- The rename of the id of a word of the deck in a saved session gives the storage, key by key, that
-- saving the deck with the renamed word gives.
pub replace-save_progress :
    (package_id from_id to_id : ℕ) (deck : List Word) (progress : List CardProgress)
    (storage : Storage) (k : Key)
    → includes (ids deck) from_id ≡ true
    → replace_flashcard_detail_id true package_id from_id to_id
        (save_progress true package_id deck progress storage)
        k
      ≡ save_progress true package_id (map (renamed from_id to_id) deck) progress storage k
unfolding replace_flashcard_detail_id save_progress
replace-save_progress package_id from_id to_id deck progress storage k here =
    elim (Bool-cases (same_key k (package_key package_id))) [
      | inl its ↦
          rw
            (
              replace_flashcard_detail_id,
              ==_refl package_id,
              here,
              its,
              ids-renamed from_id to_id deck,
            )
            refl
      | inr other ↦ rw (replace_flashcard_detail_id, ==_refl package_id, here, other) refl
    ]
