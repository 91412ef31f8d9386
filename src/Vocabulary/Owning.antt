-- ===== src/Vocabulary/Owning.antt =====
-- `updateWord`: the details are changed for one package only.
use sealvo.Base.{
  ℕ, ◌≤◌, ◌<◌, ◌≡◌, ◌≢◌, ◌⊎◌, inl, inr, refl, sym, ap, subst, ◌∙◌, true, none, some, List, [], ◌∷◌,
  map, arith, ◌==◌, if◌then◌else◌, length, select, Bool-cases, Option-cases,
}
use sealvo.Learning.{Row}
use sealvo.Vocabulary.Tables.{Detail, Db, view, is_entry, refers, create_detail}
use sealvo.Vocabulary.Editing.{refs, move_entry, own_detail, write_detail}
use sealvo.Vocabulary.Integrity.{In, Whole, view-detail, view_congr}
use sealvo.Vocabulary.Sharing.{Others, In-map, map-In, pigeonhole, same_detail}

-- The rows are mapped, and one detail is written, to which a row refers.
pub record Rewritten (db db' : Db) (own : ℕ) (f : Row → Row) (n : Detail) : Type 0 where
  pub rows : db'.learning ≡ map f db.learning
  pub elsewhere : (i : ℕ) → i ≢ own → db'.details i ≡ db.details i
  pub here : db'.details own ≡ some n
  pub word : db'.words n.word_id ≢ none
  pub words_kept : (i : ℕ) → db.words i ≢ none → db'.words i ≡ db.words i
  pub words_below : (i : ℕ) → db'.next_word ≤ i → db'.words i ≡ none
  pub details_below : (i : ℕ) → db'.next_detail ≤ i → db'.details i ≡ none
  pub ids : (x : Row) → ((f x).detail_id ≡ x.detail_id) ⊎ ((f x).detail_id ≡ own)
  pub owner : (x : Row) × In x db.learning × ((f x).detail_id ≡ own)
  still :
      (i : ℕ) → i ≢ own → db.details i ≢ none → (x : Row) × In x db.learning × ((f x).detail_id ≡ i)

module _ (db db' : Db) (own : ℕ) (f : Row → Row) (n : Detail) (w : Whole db)
    (c : Rewritten db db' own f n) where
  shows_own : (r : Row) → r.detail_id ≡ own → view db' r ≢ none
  unfolding view
  shows_own r e gone = elim (Option-cases (db'.words n.word_id)) [
    | inl missing ↦ c.word missing
    | inr (k, there) ↦
        let found : db'.details r.detail_id ≡ some n = ap db'.details e ∙ c.here in ground arith
  ]

  same_elsewhere : (r : Row) → view db r ≢ none → r.detail_id ≢ own → view db' r ≡ view db r
  same_elsewhere r h other =
      let (d, e, k) = view-detail db r h in
      view_congr db db' r d e (c.elsewhere r.detail_id other ∙ e) (c.words_kept d.word_id k)

  shows_image : (x : Row) → In x db.learning → view db' (f x) ≢ none
  shows_image x there gone = elim (Bool-cases ((f x).detail_id == own)) [
    | inl e ↦ shows_own (f x) (ground arith) gone
    | inr e ↦
        let other : (f x).detail_id ≢ own = λ same. ground arith in
        let kept : (f x).detail_id ≡ x.detail_id = elim (c.ids x) [
          | inl same ↦ same
          | inr bad ↦ absurd (other bad)
        ] in
        let old = same_detail db db.learning (f x) x kept in
        w.shows x there (
          sym old
          ∙ sym (same_elsewhere (f x) (λ none_there. w.shows x there (sym old ∙ none_there)) other)
          ∙ gone)
  ]

  used_image : (i : ℕ) → db'.details i ≢ none → (x : Row) × In x db.learning × ((f x).detail_id ≡ i)
  used_image i h = elim (Bool-cases (i == own)) [
    | inl e ↦
        let (x, there, same) = c.owner in let eq : own ≡ i = ground arith in (x, there, same ∙ eq)
    | inr e ↦
        let other : i ≢ own = λ same. ground arith in
        c.still i other (λ gone. h (c.elsewhere i other ∙ gone))
  ]

  pub Rewritten-Whole : Whole db'
  Rewritten-Whole = record {
    words_below = c.words_below;
    details_below = c.details_below;
    shows = λ r there gone.
        let (x, was, same) = map-In f db.learning r (subst (In r) c.rows there) in
        shows_image x was (ap (view db') (sym same) ∙ gone);
    used = λ i h.
        let (x, there, e) = used_image i h in
        (f x, subst (In (f x)) (sym c.rows) (In-map f db.learning x there), e);
  }

  pub Rewritten-Others :
      (pkg : ℕ)
      → ((r : Row) → r.package_id ≢ pkg → f r ≡ r)
      → ((r : Row) → In r db.learning → r.package_id ≢ pkg → r.detail_id ≢ own)
      → Others pkg db db'
  Rewritten-Others pkg keeps apart r there other = (
    subst (In r) (sym c.rows)
        (subst (λ x. In x (map f db.learning)) (keeps r other) (In-map f db.learning r there)),
    same_elsewhere r (w.shows r there) (apart r there other),
  )

module _ (pkg detail : ℕ) (d new : Detail) (x : Row) (db : Db) (w : Whole db) where
  -- The rows after `own_detail`.
  abbrev pub moved : Row → Row
  moved r = if is_entry pkg detail r then record r { detail_id = db.next_detail } else r

  abbrev owned : ℕ × Db
  owned = own_detail pkg detail d db

  -- The details were there and are overwritten.
  pub overwritten :
      In x db.learning
      → x.detail_id ≡ detail
      → db.details detail ≢ none
      → db.words new.word_id ≢ none
      → Rewritten db (write_detail detail new db) detail (λ r. r) new
  unfolding write_detail
  overwritten there e old word = record {
    rows = sym (map_id db.learning);
    elsewhere = λ i other. ground arith;
    here = ground arith;
    word = word;
    words_kept = λ i h. refl;
    words_below = w.words_below;
    details_below = λ i le. ground (arith, w.details_below i, w.details_below detail);
    ids = λ y. inl refl;
    owner = (x, there, e);
    still = λ i other h. w.used i h;
  }
    where
      map_id : (rows : List Row) → map (λ r. r) rows ≡ rows
      map_id [] = refl
      map_id (y ∷ rows) = ap (λ ys. y ∷ ys) (map_id rows)

  -- They are shared: a copy is written, and the entry refers to it.
  pub copied :
      In x db.learning
      → is_entry pkg detail x ≡ true
      → 1 < refs detail db.learning
      → length (select (is_entry pkg detail) db.learning) ≤ 1
      → db.words new.word_id ≢ none
      → Rewritten db
          (write_detail db.next_detail new (record (create_detail d db).1 {
            learning = move_entry pkg detail db.next_detail db.learning;
          }))
          db.next_detail
          moved
          new
  unfolding write_detail create_detail move_entry
  copied there e shared unique word = record {
    rows = refl;
    elsewhere = λ i other. ground arith;
    here = ground arith;
    word = word;
    words_kept = λ i h. refl;
    words_below = w.words_below;
    details_below = λ i le. ground (arith, w.details_below i);
    ids = λ y. ground arith;
    owner = (x, there, ground arith);
    still = λ i other h. elim (Bool-cases (i == detail)) [
      | inl same ↦
          let (y, here, refer, apart) =
            pigeonhole (is_entry pkg detail) (refers detail) db.learning
              (omega (arith, shared, unique)) in
          (y, here, ground arith)
      | inr differs ↦ let (y, here, refer) = w.used i h in (y, here, ground arith)
    ];
  }
