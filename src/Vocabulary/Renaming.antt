-- ===== src/Vocabulary/Renaming.antt =====
-- `updateWord`: the word that the changed details refer to.
use text.Mathlib.TextEquality.{eq_iff}
use sealvo.Base.{
  ℕ, ◌≡◌, inl, inr, refl, sym, ap, subst, ◌∙◌, Bool, true, false, Option, none, some, String, arith,
  Bool-cases,
}
use sealvo.Vocabulary.Tables.{Key, Detail, Db}
use sealvo.Vocabulary.Enrichment.{or_default}
use sealvo.Vocabulary.Editing.{UpdateWord, differs, new_word_id, word_changed, new_key}
use sealvo.Vocabulary.Integrity.{In, Whole, view-Extends, Extends-refl}
use sealvo.Vocabulary.Saving.{Names, Upserted, upsert_word_lem}
use sealvo.Vocabulary.Sharing.{Others}

not_differs : (o : Option String) (s : String) → differs o s ≡ false → or_default o s ≡ s
not_differs none s h = refl
not_differs (some t) s h = ground (arith, eq_iff t s)

new_key_same : (dto : UpdateWord) (k : Key) → word_changed dto k ≡ false → new_key dto k ≡ k
unfolding word_changed new_key
new_key_same dto k h = ground (
  arith,
  not_differs dto.word k.word,
  not_differs dto.language_code k.language_code,
  not_differs dto.subject k.subject,
)

module _ (collate : Key → Key → Bool) (reflexive : (k : Key) → collate k k ≡ true) where
  pub new_word_id_lem :
      (dto : UpdateWord) (k : Key) (d : Detail) (db : Db)
      → Whole db
      → db.words d.word_id ≡ some k
      → let (id, db') = new_word_id collate dto k d db in
        Names collate db' (new_key dto k) id × Upserted collate db db'
  unfolding new_word_id
  new_word_id_lem dto k d db w e = elim (Bool-cases (word_changed dto k)) [
    | inl changed ↦
        rw (changed, new_word_id)
          (upsert_word_lem collate (λ a b. true) reflexive (new_key dto k) db w)
    | inr same ↦
        rw (same, new_word_id)
          (
            (k, e, ap (λ x. collate x k) (new_key_same dto k same) ∙ reflexive k),
            record {
              whole = w;
              extends = Extends-refl db;
              same_learning = refl;
              same_packages = refl;
              same_jobs = refl;
              same_details = refl;
              same_next = refl;
            },
          )
  ]

  pub Upserted-Others :
      (pkg : ℕ) (db db' : Db) → Whole db → Upserted collate db db' → Others pkg db db'
  Upserted-Others pkg db db' w u r there other =
      (subst (In r) (sym u.same_learning) there, view-Extends db db' r u.extends (w.shows r there))
