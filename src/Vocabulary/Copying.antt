-- ===== src/Vocabulary/Copying.antt =====
-- `copyPublicPackage`: the copy has the words of the source, and shares no details with it.
use sealvo.Base.{
  ℕ, suc, ◌+◌, ◌≡◌, ◌≢◌, inl, inr, refl, sym, subst, ◌∙◌, none, some, List, [], ◌∷◌, arith, length,
  Option-cases,
}
use sealvo.Learning.{Row}
use sealvo.Levels.{level_x}
use sealvo.Vocabulary.Tables.{Key, Detail, Db, view, create_detail, create_learning}
use sealvo.Vocabulary.Packages.{read_details, clone_details}
use sealvo.Vocabulary.Integrity.{
  In, Whole, Extends, view-detail, view-Extends, Extends-refl, Extends-trans,
}
use sealvo.Vocabulary.Saving.{with_row, new_row, with_row-Extends, with_row_shows, with_row-Whole}

module _ (now new : ℕ) (source : Db) where
  -- The new package has a row at level x that shows what the row of the source shows.
  abbrev pub Copied : Db → Row → Type 0
  Copied db r =
      (r' : Row) × In r' db.learning
      × (r'.package_id ≡ new)
      × (r'.level ≡ level_x)
      × (view db r' ≡ view source r)

  pub record Cloned (rows : List Row) (db final : Db) : Type 0 where
    pub whole : Whole final
    pub extends : Extends db final
    pub rows_kept : (r : Row) → In r db.learning → In r final.learning
    pub copies : (r : Row) → In r rows → Copied final r
    pub count : length final.learning ≡ length rows + length db.learning

  clone_step :
      (d : Detail) (ds : List Detail) (db : Db)
      → clone_details now new (d ∷ ds) db ≡ clone_details now new ds (with_row now new level_x d db)
  unfolding clone_details
  clone_step d ds db = refl

  added :
      (d : Detail) (db : Db)
      → let db' = with_row now new level_x d db in
        ((r : Row) → In r db.learning → In r db'.learning)
        × In (new_row now new level_x db) db'.learning
        × (length db'.learning ≡ suc (length db.learning))
  unfolding create_detail create_learning
  added d db = ((λ r there. inr there), inl refl, refl)

  shown_as :
      (r : Row) (d : Detail) (k : Key)
      → source.details r.detail_id ≡ some d
      → source.words d.word_id ≡ some k
      → view source r ≡ some (k, d.fields)
  unfolding view
  shown_as r d k e e' = rw (view, e, e') refl

  Copied-later :
      (db final : Db) (r : Row)
      → Extends db final
      → ((x : Row) → In x db.learning → In x final.learning)
      → view source r ≢ none
      → Copied db r
      → Copied final r
  Copied-later db final r x kept h (r', there, of_new, at_x, same) = (
    r',
    kept r' there,
    of_new,
    at_x,
    view-Extends db final r' x (λ gone. h (sym same ∙ gone)) ∙ same,
  )

  pub clone_details_lem :
      (rows : List Row) (db : Db)
      → ((r : Row) → In r rows → view source r ≢ none)
      → Whole db
      → Extends source db
      → Cloned rows db (clone_details now new (read_details rows source) db)
  unfolding read_details clone_details
  clone_details_lem [] db shows w x = record {
    whole = w;
    extends = Extends-refl db;
    rows_kept = λ r there. there;
    copies = λ r h. absurd h;
    count = omega arith;
  }
  clone_details_lem (r ∷ rows) db shows w x =
      let (d, e, named) = view-detail source r (shows r (inl refl)) in
      elim (Option-cases (source.words d.word_id)) [
        | inl missing ↦ absurd (named missing)
        | inr (k, word) ↦
            let db' = with_row now new level_x d db in
            let word' : db.words d.word_id ≡ some k = x.words_kept d.word_id named ∙ word in
            let step = with_row-Extends now new level_x d db w in
            let whole = with_row-Whole now new level_x d db w k word' in
            let (kept, there, counted) = added d db in
            let c =
              clone_details_lem rows db' (λ y h. shows y (inr h)) whole
                (Extends-trans source db db' x step) in
            let final = clone_details now new (read_details rows source) db' in
            let row = new_row now new level_x db in
            let here : Copied db' r = (
              row,
              there,
              refl,
              refl,
              with_row_shows now new level_x d db w k word' ∙ sym (shown_as r d k e word),
            ) in
            rw (e, read_details)
              (record {
                whole = c.whole;
                extends = Extends-trans db db' final step c.extends;
                rows_kept = λ y was. c.rows_kept y (kept y was);
                copies = λ y h. elim h [
                  | inl same ↦
                      subst (Copied final) (sym same)
                        (Copied-later db' final r c.extends c.rows_kept (shows r (inl refl)) here)
                  | inr later ↦ c.copies y later
                ];
                count = omega (arith, c.count, counted);
              })
      ]
