-- ===== src/Vocabulary/Deleting.antt =====
-- Deletions take the rows that are meant, no detail that another row still shows, and leave no
-- details behind that nobody refers to.
use sealvo.Base.{
  ℕ, ◌≤◌, ◌≡◌, ◌≢◌, ◌⊎◌, inl, inr, refl, sym, ap, ◌∙◌, Bool, true, false, not, none, List, [], ◌∷◌,
  map, arith, ◌==◌, length, select, any, find, Bool-cases, Option-cases,
}
use sealvo.Learning.{Row}
use sealvo.Vocabulary.Tables.{
  Db, ok, not_found, view, is_entry, in_package, refers, delete_orphan_details,
}
use sealvo.Vocabulary.Editing.{delete_word, detail_ids, delete_entries, delete_all_words}
use sealvo.Vocabulary.Integrity.{
  In, Whole, view-detail, view_congr, any-In, In-any, select-In, In-select,
}

-- The rows that pass the test are gone, the others stay and show what they showed.
pub record Removed (gone : Row → Bool) (db after : Db) : Type 0 where
  pub whole : Whole after
  pub kept :
      (r : Row)
      → In r db.learning
      → gone r ≡ false
      → In r after.learning × (view after r ≡ view db r)
  pub none_left : (r : Row) → In r after.learning → gone r ≡ false

module _ (gone : Row → Bool) (ids : List ℕ) (db : Db) (w : Whole db) where
  abbrev rest : List Row
  rest = select (λ r. not (gone r)) db.learning

  abbrev after : Db
  after = delete_orphan_details ids (record db { learning = rest })

  referred : (r : Row) → In r rest → after.details r.detail_id ≡ db.details r.detail_id
  unfolding delete_orphan_details
  referred r there = ground (arith, In-any r.detail_id rest r there refl)

  still_shown : (r : Row) → In r db.learning → In r rest → view after r ≡ view db r
  unfolding delete_orphan_details
  still_shown r was there =
      let (d, e, k) = view-detail db r (w.shows r was) in
      view_congr db after r d e (referred r there ∙ e) refl

  details_left :
      (i : ℕ)
      → after.details i ≢ none
      → (db.details i ≢ none) × ((any (λ j. i == j) ids ≡ false) ⊎ (any (refers i) rest ≡ true))
  unfolding delete_orphan_details
  details_left i h = elim (Bool-cases (any (λ j. i == j) ids)) [
    | inl a ↦ elim (Bool-cases (any (refers i) rest)) [
      | inl b ↦ ((λ e. ground arith), inr b)
      | inr b ↦ absurd (ground arith)
    ]
    | inr a ↦ ((λ e. ground arith), inl a)
  ]

  module _
      (covered : (r : Row)
        → In r db.learning
        → gone r ≡ true
        → any (λ j. r.detail_id == j) ids ≡ true) where
    used_left : (i : ℕ) → after.details i ≢ none → (r : Row) × In r rest × (r.detail_id ≡ i)
    used_left i h =
        let (was, why) = details_left i h in
        let (r, there, e) = w.used i was in
        elim why [
          | inr b ↦ any-In i rest b
          | inl a ↦ elim (Bool-cases (gone r)) [
            | inl g ↦
                let covered_i : any (λ j. i == j) ids ≡ true =
                  ap (λ (n : ℕ). any (λ j. n == j) ids) (sym e) ∙ covered r there g in
                absurd (ground arith)
            | inr g ↦ (r, In-select (λ r. not (gone r)) db.learning r there (ground arith), e)
          ]
        ]

    below : (i : ℕ) → db.next_detail ≤ i → after.details i ≡ none
    unfolding delete_orphan_details
    below i le = ground (arith, w.details_below i le)

    pub removed_lem : Removed gone db after
    unfolding delete_orphan_details
    removed_lem = record {
      whole = record {
        words_below = w.words_below;
        details_below = below;
        shows = λ r there none_there.
            let (was, _) = select-In (λ r. not (gone r)) db.learning r there in
            w.shows r was (sym (still_shown r was there) ∙ none_there);
        used = used_left;
      };
      kept = λ r was g.
          let there = In-select (λ r. not (gone r)) db.learning r was (ground arith) in
          (there, still_shown r was there);
      none_left = λ r there.
          let (_, passes) = select-In (λ r. not (gone r)) db.learning r there in ground arith;
    }

-- Where the integrity holds: a word that is not in the package is a 404 and nothing changes. Otherwise its entry is gone, all
-- other rows stay and show what they showed, and details that nobody refers to are deleted.
pub delete_word_removes :
    (pkg detail : ℕ) (db : Db)
    → Whole db
    → let (r, after) = delete_word pkg detail db in
      ((find (is_entry pkg detail) db.learning ≡ none) × (r ≡ not_found) × (after ≡ db))
      ⊎ ((r ≡ ok tt) × Removed (is_entry pkg detail) db after)
unfolding delete_word
delete_word_removes pkg detail db w = elim (Option-cases (find (is_entry pkg detail) db.learning)) [
  | inl e ↦ rw (e, delete_word) (inl (refl, refl, refl))
  | inr (x, e) ↦
      rw (e, delete_word)
        (inr
          (refl, removed_lem (is_entry pkg detail) (detail ∷ []) db w (λ r there g. ground arith)))
]

ids_covered :
    (pkg : ℕ) (rows : List Row) (r : Row)
    → In r rows
    → in_package pkg r ≡ true
    → any (λ j. r.detail_id == j) (map (λ (r : Row). r.detail_id) (select (in_package pkg) rows))
      ≡ true
ids_covered pkg [] r h g = absurd h
ids_covered pkg (x ∷ rows) r (inl same) g =
    let g' : in_package pkg x ≡ true = ap (in_package pkg) (sym same) ∙ g in
    let e : r.detail_id ≡ x.detail_id = ap (λ (y : Row). y.detail_id) same in ground arith
ids_covered pkg (x ∷ rows) r (inr there) g = ground (arith, ids_covered pkg rows r there g)

pub delete_entries_removes :
    (pkg : ℕ) (db : Db) → Whole db → Removed (in_package pkg) db (delete_entries pkg db)
unfolding delete_entries
delete_entries_removes pkg db w =
    removed_lem (in_package pkg) (detail_ids pkg db) db w (ids_covered pkg db.learning)

no_ids :
    (pkg : ℕ) (rows : List Row) (r : Row)
    → map (λ (r : Row). r.detail_id) (select (in_package pkg) rows) ≡ []
    → In r rows
    → in_package pkg r ≡ false
no_ids pkg [] r e h = absurd h
no_ids pkg (x ∷ rows) r e (inl same) = ap (in_package pkg) same ∙ ground arith
no_ids pkg (x ∷ rows) r e (inr there) = no_ids pkg rows r (ground arith) there

ids_cases : (ids : List ℕ) → (ids ≡ []) ⊎ ((i : ℕ) × (rest : List ℕ) × (ids ≡ i ∷ rest))
ids_cases [] = inl refl
ids_cases (i ∷ rest) = inr (i, rest, refl)

all_kept : (pkg : ℕ) (db : Db) → Whole db → detail_ids pkg db ≡ [] → Removed (in_package pkg) db db
all_kept pkg db w e = record {
  whole = w;
  kept = λ r was g. (was, refl);
  none_left = λ r was. no_ids pkg db.learning r e was;
}

-- `deleteAllWords` takes the rows of the package and no other, leaves no orphan, and returns how
-- many there were.
pub delete_all_words_removes :
    (pkg : ℕ) (db : Db)
    → Whole db
    → let (n, after) = delete_all_words pkg db in
      Removed (in_package pkg) db after × (n ≡ length (detail_ids pkg db))
unfolding delete_all_words
delete_all_words_removes pkg db w = elim (ids_cases (detail_ids pkg db)) [
  | inl e ↦ rw (delete_all_words, e) (all_kept pkg db w e, refl)
  | inr (i, ids, e) ↦ rw (delete_all_words, e) (delete_entries_removes pkg db w, refl)
]
