-- ===== src/Vocabulary/Isolation.antt =====
-- `updateWord` as a whole: a change of a word in one package is not seen in another.
use sealvo.Base.{
  ℕ, ◌≤◌, ◌≡◌, inl, inr, refl, sym, ap, subst, ◌∙◌, Bool, true, some, arith, length, select, find,
  Bool-cases, Option-cases,
}
use sealvo.Learning.{Row}
use sealvo.Vocabulary.Tables.{Key, Fields, Detail, Db, ok, view, is_entry}
use sealvo.Vocabulary.Enrichment.{Gemini}
use sealvo.Vocabulary.Editing.{
  UpdateWord, new_word_id, new_key, has_update, updated_fields, enriched_example, set_level,
  update_entry, update_word,
}
use sealvo.Vocabulary.Integrity.{In, Whole, view-detail}
use sealvo.Vocabulary.Sharing.{
  Others, Others-trans, same_detail, set_level-Whole, set_level-Others, set_level-In,
}
use sealvo.Vocabulary.Updating.{find-In, own_written, own_detail_lem}
use sealvo.Vocabulary.Renaming.{new_word_id_lem, Upserted-Others}

module _ (collate : Key → Key → Bool) (reflexive : (k : Key) → collate k k ≡ true) where
  module _ (gemini : Gemini) (pkg detail : ℕ) (dto : UpdateWord) where
    -- The entry shows the word and the details that were asked for.
    abbrev pub Shows : Db → ℕ → Key → Fields → Type 0
    Shows db target k f =
        (r : Row) × In r db.learning
        × (r.package_id ≡ pkg)
        × (r.detail_id ≡ target)
        × (x : Key) × (collate k x ≡ true)
        × (view db r ≡ some (x, f))

    -- The written details, before the level is set.
    abbrev written_for : Key → Detail → Db → ℕ × Db
    written_for k d db =
        let (id, b) = new_word_id collate dto k d db in
        own_written pkg detail d
          (record {
            word_id = id;
            fields = updated_fields dto (enriched_example gemini dto k d.fields) d.fields;
          })
          b

    shows_written :
        (db db' : Db) (own : ℕ) (r : Row) (new : Detail) (x : Key)
        → r.detail_id ≡ own
        → db'.details own ≡ some new
        → db'.words ≡ db.words
        → db.words new.word_id ≡ some x
        → view db' r ≡ some (x, new.fields)
    unfolding view
    shows_written db db' own r new x e here words named =
        let there : db'.details r.detail_id ≡ some new = ap db'.details e ∙ here in
        let word : db'.words new.word_id ≡ some x = ap (λ f. f new.word_id) words ∙ named in
        rw (view, there, word) refl

    written_lem :
        (k : Key) (d : Detail) (x : Row) (db : Db)
        → Whole db
        → In x db.learning
        → is_entry pkg detail x ≡ true
        → length (select (is_entry pkg detail) db.learning) ≤ 1
        → db.details detail ≡ some d
        → db.words d.word_id ≡ some k
        → let (own, after) = written_for k d db in
          Whole after
          × Others pkg db after
          × Shows after own
              (new_key dto k)
              (updated_fields dto (enriched_example gemini dto k d.fields) d.fields)
    written_lem k d x db w there e unique is word =
        let (named, u) = new_word_id_lem collate reflexive dto k d db w word in
        let result = new_word_id collate dto k d db in
        let new : Detail = record {
          word_id = result.0;
          fields = updated_fields dto (enriched_example gemini dto k d.fields) d.fields;
        } in
        let after = own_written pkg detail d new result.1 in
        let (whole, others, (r, in_r, of_pkg, of_own), here, words) =
          own_detail_lem pkg detail d new x result.1 u.whole
            (subst (In x) (sym u.same_learning) there) e
            (subst (λ rows. length (select (is_entry pkg detail) rows) ≤ 1) (sym u.same_learning)
              unique)
            (λ gone. ground (arith, ap (λ f. f detail) u.same_details, is, gone))
            (λ gone. ground (arith, named.1, gone)) in
        (
          whole,
          Others-trans pkg db result.1 after.1
              (Upserted-Others collate reflexive pkg db result.1 w u) others,
          (
            r,
            in_r,
            of_pkg,
            of_own,
            named.0,
            named.2,
            shows_written result.1 after.1 after.0 r new named.0 of_own here words named.1,
          ),
        )

    level_kept :
        (db : Db) (target : ℕ) (k : Key) (f : Fields)
        → Shows db target k f
        → Shows (record db { learning = set_level pkg target dto.level db.learning }) target k f
    level_kept db target k f (r, there, of_pkg, of_target, x, same, shown) =
        let (r', there', of_pkg', same_id) =
          set_level-In pkg target dto.level db.learning r there in
        (
          r',
          there',
          of_pkg' ∙ of_pkg,
          same_id ∙ of_target,
          x,
          same,
          same_detail db (set_level pkg target dto.level db.learning) r' r same_id ∙ shown,
        )

    module _ (db : Db) (w : Whole db)
        (unique : length (select (is_entry pkg detail) db.learning) ≤ 1) where
      update_entry_lem :
          (k : Key) (d : Detail) (x : Row)
          → In x db.learning
          → is_entry pkg detail x ≡ true
          → db.details detail ≡ some d
          → db.words d.word_id ≡ some k
          → let (target, after) = update_entry collate gemini pkg detail dto k d db in
            Whole after
            × Others pkg db after
            × (has_update dto k ≡ true
                → Shows after target
                    (new_key dto k)
                    (updated_fields dto (enriched_example gemini dto k d.fields) d.fields))
      unfolding update_entry
      update_entry_lem k d x there e is word = elim (Bool-cases (has_update dto k)) [
        | inl has ↦
            let (whole, others, shows) = written_lem k d x db w there e unique is word in
            let result = written_for k d db in
            rw (has, update_entry)
              (
                set_level-Whole pkg result.0 dto.level result.1 whole,
                Others-trans pkg db result.1
                    (record result.1 {
                      learning = set_level pkg result.0 dto.level result.1.learning;
                    })
                    others (set_level-Others pkg result.0 dto.level result.1),
                λ _.
                    level_kept result.1 result.0 (new_key dto k)
                      (updated_fields dto (enriched_example gemini dto k d.fields) d.fields) shows,
              )
        | inr none_given ↦
            rw (none_given, update_entry)
              (
                set_level-Whole pkg detail dto.level db w,
                set_level-Others pkg detail dto.level db,
                λ bad. absurd (ground (arith, bad)),
              )
      ]

      -- Where the integrity and the primary key of `learning` hold, whatever is asked for, also when
      -- there is no such entry: the rows of the other packages
      -- show what they showed, although they may share the details; and the integrity holds, so
      -- that no details are left that no row refers to.
      pub update_word-Others :
          let after = (update_word collate gemini pkg detail dto db).1 in
          Whole after × Others pkg db after
      unfolding update_word
      update_word-Others = elim (Option-cases (find (is_entry pkg detail) db.learning)) [
        | inl e ↦ rw (e, update_word) (w, λ r there other. (there, refl))
        | inr (x, e) ↦
            let (there, entry) = find-In (is_entry pkg detail) db.learning x e in
            let same : x.detail_id ≡ detail = ground arith in
            let (d, is, word) = view-detail db x (w.shows x there) in
            let is' : db.details detail ≡ some d = ap db.details (sym same) ∙ is in
            elim (Option-cases (db.words d.word_id)) [
              | inl missing ↦ absurd (word missing)
              | inr (k, named) ↦
                  let (whole, others, _) = update_entry_lem k d x there entry is' named in
                  rw (e, is', named, update_word) (whole, others)
            ]
      ]

      -- Where the integrity and the primary key of `learning` hold: an entry for which more than the
      -- level is given shows the word and the details asked for:
      -- those given, and the old ones for the rest. The word is equal to it in the collation.
      pub update_word-Shows :
          (k : Key) (d : Detail) (x : Row)
          → find (is_entry pkg detail) db.learning ≡ some x
          → db.details detail ≡ some d
          → db.words d.word_id ≡ some k
          → has_update dto k ≡ true
          → let (r, after) = update_word collate gemini pkg detail dto db in
            (target : ℕ) × (r ≡ ok target)
            × Shows after target
                (new_key dto k)
                (updated_fields dto (enriched_example gemini dto k d.fields) d.fields)
      unfolding update_word
      update_word-Shows k d x e is named has =
          let (there, entry) = find-In (is_entry pkg detail) db.learning x e in
          let (_, _, shows) = update_entry_lem k d x there entry is named in
          rw (e, is, named, update_word)
            ((update_entry collate gemini pkg detail dto k d db).0, refl, shows has)
