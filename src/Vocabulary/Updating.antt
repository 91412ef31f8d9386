-- ===== src/Vocabulary/Updating.antt =====
-- `updateWord`: the entry gets its own details, and the rest is kept.
use sealvo.Base.{
  ℕ, ◌≤◌, ◌≡◌, ◌≢◌, inl, inr, refl, sym, ap, ◌∙◌, Bool, true, none, some, List, [], ◌∷◌, arith, ltb,
  if◌then◌else◌, length, select, find, Bool-cases,
}
use sealvo.Learning.{Row}
use sealvo.Vocabulary.Tables.{Detail, Db, is_entry, create_detail}
use sealvo.Vocabulary.Editing.{refs, move_entry, own_detail, write_detail}
use sealvo.Vocabulary.Integrity.{In, Whole, view-detail}
use sealvo.Vocabulary.Sharing.{Others, In-map, refs_one}
use sealvo.Vocabulary.Owning.{Rewritten-Whole, Rewritten-Others, overwritten, copied, moved}

pub find-In :
    (p : Row → Bool) (rows : List Row) (r : Row) → find p rows ≡ some r → In r rows × (p r ≡ true)
find-In p [] r h = absurd (ground arith)
find-In p (x ∷ rows) r h = elim (Bool-cases (p x)) [
  | inl e ↦ let same : x ≡ r = ground arith in (inl (sym same), ap p (sym same) ∙ e)
  | inr e ↦ let (there, passes) = find-In p rows r (ground arith) in (inr there, passes)
]

-- The details written for the entry, and the tables with them.
abbrev pub own_written : ℕ → ℕ → Detail → Detail → Db → ℕ × Db
own_written pkg detail d new db =
    let (own, owned) = own_detail pkg detail d db in (own, write_detail own new owned)

module _ (pkg detail : ℕ) (d new : Detail) (x : Row) where
  -- The entry refers to the new details, the integrity holds, and the others show what they did.
  abbrev pub Owned : Db → Db → ℕ → Type 0
  Owned db db' own =
      Whole db'
      × Others pkg db db'
      × ((r : Row) × In r db'.learning × (r.package_id ≡ pkg) × (r.detail_id ≡ own))
      × (db'.details own ≡ some new)
      × (db'.words ≡ db.words)

  copied_lem :
      (db : Db)
      → In x db.learning
      → is_entry pkg detail x ≡ true
      → let after = write_detail db.next_detail new (record (create_detail d db).1 {
        learning = move_entry pkg detail db.next_detail db.learning;
      }) in
        ((r : Row) × In r after.learning × (r.package_id ≡ pkg) × (r.detail_id ≡ db.next_detail))
        × (after.words ≡ db.words)
  unfolding write_detail create_detail move_entry
  copied_lem db there e =
      let f =
        λ (r : Row). if is_entry pkg detail r then record r { detail_id = db.next_detail } else r in
      ((f x, In-map f db.learning x there, ground arith, ground arith), refl)

  overwritten_lem :
      (db : Db)
      → In x db.learning
      → is_entry pkg detail x ≡ true
      → let after = write_detail detail new db in
        ((r : Row) × In r after.learning × (r.package_id ≡ pkg) × (r.detail_id ≡ detail))
        × (after.words ≡ db.words)
  unfolding write_detail
  overwritten_lem db there e = ((x, there, ground arith, ground arith), refl)

  pub own_detail_lem :
      (db : Db)
      → Whole db
      → In x db.learning
      → is_entry pkg detail x ≡ true
      → length (select (is_entry pkg detail) db.learning) ≤ 1
      → db.details detail ≢ none
      → db.words new.word_id ≢ none
      → Owned db (own_written pkg detail d new db).1 (own_written pkg detail d new db).0
  unfolding own_detail
  own_detail_lem db w there e unique old word =
      elim (Bool-cases (ltb 1 (refs detail db.learning))) [
        | inl shared ↦
            let c = copied pkg detail d new x db w there e (ground arith) unique word in
            let after = write_detail db.next_detail new (record (create_detail d db).1 {
              learning = move_entry pkg detail db.next_detail db.learning;
            }) in
            let f = moved pkg detail d new x db w in
            rw (shared, own_detail)
              (
                Rewritten-Whole db after db.next_detail f new w c,
                Rewritten-Others db after db.next_detail f new w c pkg (λ r other. ground arith)
                    (λ r here other same.
                      let (dd, is, k) = view-detail db r (w.shows r here) in
                      ground (arith, is, w.details_below r.detail_id)),
                (copied_lem db there e).0,
                c.here,
                (copied_lem db there e).1,
              )
        | inr single ↦
            let same_id : x.detail_id ≡ detail = ground arith in
            let c = overwritten pkg detail d new x db w there same_id old word in
            let after = write_detail detail new db in
            rw (single, own_detail)
              (
                Rewritten-Whole db after detail (λ r. r) new w c,
                Rewritten-Others db after detail (λ r. r) new w c pkg (λ r other. refl)
                    (λ r here other same. other (
                      refs_one detail db.learning x r (ground arith) there here same_id same
                      ∙ ground arith)),
                (overwritten_lem db there e).0,
                c.here,
                (overwritten_lem db there e).1,
              )
      ]
