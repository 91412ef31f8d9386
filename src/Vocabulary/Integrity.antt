-- ===== src/Vocabulary/Integrity.antt =====
-- The integrity of the tables: the references hold, and no row of `word_details` is left that no
-- package refers to.
use sealvo.Base.{
  ℕ, ◌≤◌, ◌≡◌, ◌≢◌, ◌⊎◌, inl, inr, refl, sym, ap, ◌∙◌, Bool, true, none, some, List, [], ◌∷◌, arith,
  select, any, Bool-cases, Option-cases,
}
use sealvo.Learning.{Row}
use sealvo.Vocabulary.Tables.{Detail, Db, view, refers}

abbrev pub In : Row → List Row → Type 0
In r [] = ⊥
In r (x ∷ xs) = (r ≡ x) ⊎ In r xs

pub record Whole (db : Db) : Type 0 where
  pub words_below : (i : ℕ) → db.next_word ≤ i → db.words i ≡ none
  pub details_below : (i : ℕ) → db.next_detail ≤ i → db.details i ≡ none
  pub shows : (r : Row) → In r db.learning → view db r ≢ none
  pub used : (i : ℕ) → db.details i ≢ none → (r : Row) × In r db.learning × (r.detail_id ≡ i)

-- Nothing that a row shows is lost or changed.
pub record Extends (db db' : Db) : Type 0 where
  pub details_kept : (i : ℕ) → db.details i ≢ none → db'.details i ≡ db.details i
  pub words_kept : (i : ℕ) → db.words i ≢ none → db'.words i ≡ db.words i

pub view-detail :
    (db : Db) (r : Row)
    → view db r ≢ none
    → (d : Detail) × (db.details r.detail_id ≡ some d) × (db.words d.word_id ≢ none)
unfolding view
view-detail db r h = elim (Option-cases (db.details r.detail_id)) [
  | inl e ↦ absurd (ground arith)
  | inr (d, e) ↦ (d, e, λ missing. ground arith)
]

-- What a row shows depends on its two rows only.
pub view_congr :
    (db db' : Db) (r : Row) (d : Detail)
    → db.details r.detail_id ≡ some d
    → db'.details r.detail_id ≡ some d
    → db'.words d.word_id ≡ db.words d.word_id
    → view db' r ≡ view db r
unfolding view
view_congr db db' r d e e' w = rw (view, e, e', w) refl

pub view-Extends :
    (db db' : Db) (r : Row) → Extends db db' → view db r ≢ none → view db' r ≡ view db r
view-Extends db db' r x h =
    let (d, e, w) = view-detail db r h in
    view_congr db db' r d e (x.details_kept r.detail_id (λ gone. ground arith) ∙ e)
      (x.words_kept d.word_id w)

pub Extends-refl : (db : Db) → Extends db db
Extends-refl db = record { details_kept = λ i h. refl; words_kept = λ i h. refl }

pub Extends-trans : (a b c : Db) → Extends a b → Extends b c → Extends a c
Extends-trans a b c x y = record {
  details_kept =
      λ i h. y.details_kept i (λ e. h (sym (x.details_kept i h) ∙ e)) ∙ x.details_kept i h;
  words_kept = λ i h. y.words_kept i (λ e. h (sym (x.words_kept i h) ∙ e)) ∙ x.words_kept i h;
}

pub view_kept : (db db' : Db) (r : Row) → Extends db db' → view db r ≢ none → view db' r ≢ none
view_kept db db' r x h e = h (sym (view-Extends db db' r x h) ∙ e)

pub any-In :
    (i : ℕ) (rows : List Row)
    → any (refers i) rows ≡ true
    → (r : Row) × In r rows × (r.detail_id ≡ i)
any-In i [] h = absurd (ground arith)
any-In i (r ∷ rows) h = elim (Bool-cases (refers i r)) [
  | inl e ↦ (r, inl refl, ground arith)
  | inr e ↦ let (x, here, same) = any-In i rows (ground arith) in (x, inr here, same)
]

pub In-any :
    (i : ℕ) (rows : List Row) (r : Row) → In r rows → r.detail_id ≡ i → any (refers i) rows ≡ true
In-any i [] r h e = absurd h
In-any i (x ∷ rows) r (inl same) e =
    let e' : x.detail_id ≡ i = ap (λ (y : Row). y.detail_id) (sym same) ∙ e in ground arith
In-any i (x ∷ rows) r (inr there) e = ground (arith, In-any i rows r there e)

-- A row that a filter leaves out does not pass it, and one that it keeps was there.
pub select-In :
    (p : Row → Bool) (rows : List Row) (r : Row) → In r (select p rows) → In r rows × (p r ≡ true)
select-In p [] r h = absurd h
select-In p (x ∷ rows) r h = elim (Bool-cases (p x)) [
  | inl e ↦
      let split : (r ≡ x) ⊎ In r (select p rows) = rw e at h in
      elim split [
        | inl same ↦ (inl same, ap p same ∙ e)
        | inr there ↦ let (was, passes) = select-In p rows r there in (inr was, passes)
      ]
  | inr e ↦ let (was, passes) = select-In p rows r (rw e at h) in (inr was, passes)
]

pub In-select :
    (p : Row → Bool) (rows : List Row) (r : Row) → In r rows → p r ≡ true → In r (select p rows)
In-select p [] r h e = absurd h
In-select p (x ∷ rows) r (inl same) e =
    let e' : p x ≡ true = ap p (sym same) ∙ e in rw e' (inl same)
In-select p (x ∷ rows) r (inr there) e = elim (Bool-cases (p x)) [
  | inl e' ↦ rw e' (inr (In-select p rows r there e))
  | inr e' ↦ rw e' (In-select p rows r there e)
]
