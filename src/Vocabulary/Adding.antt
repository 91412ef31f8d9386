-- ===== src/Vocabulary/Adding.antt =====
-- `addWords` saves every word, at most once for a job.
use text.Mathlib.TextEquality.{eq_iff}
use sealvo.Base.{
  ℕ, ◌≡◌, inl, inr, refl, sym, ap, subst, ◌∙◌, Bool, true, false, ◌||◌, some, List, [], ◌∷◌, map,
  arith, any, Bool-cases, All,
}
use sealvo.Vocabulary.Tables.{Key, Db}
use sealvo.Vocabulary.Enrichment.{NewWord}
use sealvo.Vocabulary.Words.{
  same_key, distinct, insert_sorted, sort, upsert_word, upsert_all, upsert_words, get_id,
}
use sealvo.Vocabulary.Integrity.{Whole, Extends-refl, Extends-trans}
use sealvo.Vocabulary.Saving.{Names, Names-Extends, Upserted, upsert_word_lem}

same_key→eq : (a b : Key) → same_key a b ≡ true → a ≡ b
same_key→eq a b h = ground (
  arith,
  eq_iff a.word b.word,
  eq_iff a.subject b.subject,
  eq_iff a.language_code b.language_code,
)

pub same_key_refl : (a : Key) → same_key a a ≡ true
same_key_refl a = ground (
  arith,
  eq_iff a.word a.word,
  eq_iff a.subject a.subject,
  eq_iff a.language_code a.language_code,
)

distinct_lem :
    (k : Key) (seen keys : List Key)
    → any (same_key k) keys ≡ true
    → (any (same_key k) seen || any (same_key k) (distinct seen keys)) ≡ true
unfolding distinct
distinct_lem k seen [] h = absurd (ground arith)
distinct_lem k seen (x ∷ keys) h = elim (Bool-cases (same_key k x)) [
  | inl e ↦
      let same = same_key→eq k x e in
      let there : any (same_key x) seen ≡ any (same_key k) seen =
        ap (λ y. any (same_key y) seen) (sym same) in
      ground (arith, there)
  | inr e ↦ ground (arith, distinct_lem k (x ∷ seen) keys)
]

any-insert_sorted :
    (p : Key → Bool) (before : Key → Key → Bool) (k : Key) (xs : List Key)
    → any p (insert_sorted before k xs) ≡ (p k || any p xs)
unfolding insert_sorted
any-insert_sorted p before k [] = refl
any-insert_sorted p before k (x ∷ xs) = ground (arith, any-insert_sorted p before k xs)

any-sort :
    (p : Key → Bool) (before : Key → Key → Bool) (xs : List Key) → any p (sort before xs) ≡ any p xs
unfolding sort
any-sort p before [] = refl
any-sort p before (x ∷ xs) =
    ground (arith, any-insert_sorted p before x (sort before xs), any-sort p before xs)

module _ (collate before : Key → Key → Bool) (reflexive : (k : Key) → collate k k ≡ true) where
  Upserted-refl : (db : Db) → Whole db → Upserted collate db db
  Upserted-refl db w = record {
    whole = w;
    extends = Extends-refl db;
    same_learning = refl;
    same_packages = refl;
    same_jobs = refl;
    same_details = refl;
    same_next = refl;
  }

  Upserted-trans : (a b c : Db) → Upserted collate a b → Upserted collate b c → Upserted collate a c
  Upserted-trans a b c x y = record {
    whole = y.whole;
    extends = Extends-trans a b c x.extends y.extends;
    same_learning = y.same_learning ∙ x.same_learning;
    same_packages = y.same_packages ∙ x.same_packages;
    same_jobs = y.same_jobs ∙ x.same_jobs;
    same_details = y.same_details ∙ x.same_details;
    same_next = y.same_next ∙ x.same_next;
  }

  upsert_all_lem :
      (keys : List Key) (db : Db)
      → Whole db
      → let (ids, db') = upsert_all collate before keys db in
        Upserted collate db db'
        × ((k : Key)
            → any (same_key k) keys ≡ true
            → (id : ℕ) × (get_id k ids ≡ some id) × Names collate db' k id)
  unfolding upsert_all get_id
  upsert_all_lem [] db w = (Upserted-refl db w, λ k h. absurd (ground arith))
  upsert_all_lem (x ∷ keys) db w =
      let (named, up) = upsert_word_lem collate before reflexive x db w in
      let first = upsert_word collate before x db in
      let rest = upsert_all collate before keys first.1 in
      let (ups, names) = upsert_all_lem keys first.1 up.whole in
      (
        Upserted-trans db first.1 rest.1 up ups,
        λ k h. elim (Bool-cases (same_key x k)) [
          | inl e ↦
              let same = same_key→eq x k e in
              (
                first.0,
                rw e refl,
                subst (λ y. Names collate rest.1 y first.0) same
                    (Names-Extends collate first.1 rest.1 x first.0 ups.extends named),
              )
          | inr e ↦
              let other : same_key k x ≡ false = elim (Bool-cases (same_key k x)) [
                | inl bad ↦
                    absurd (
                      ground (arith, same_key_refl x, ap (λ y. same_key x y) (same_key→eq k x bad)))
                | inr good ↦ good
              ] in
              let (id, got, name) = names k (ground arith) in (id, ground arith, name)
        ],
      )

  -- Every word has an id.
  abbrev pub Identified : Db → List (Key × ℕ) → NewWord → Type 0
  Identified db ids w = (id : ℕ) × (get_id w.key ids ≡ some id) × Names collate db w.key id

  All-Identified :
      (keys : List Key) (ids : List (Key × ℕ)) (db : Db) (words : List NewWord)
      → ((k : Key)
          → any (same_key k) keys ≡ true
          → (id : ℕ) × (get_id k ids ≡ some id) × Names collate db k id)
      → ((k : Key)
          → any (same_key k) (map (λ (w : NewWord). w.key) words) ≡ true
          → any (same_key k) keys ≡ true)
      → All (Identified db ids) words
  All-Identified keys ids db [] names all = tt
  All-Identified keys ids db (w ∷ words) names all = (
    names w.key (all w.key (ground (arith, same_key_refl w.key))),
    All-Identified keys ids db words names (λ k h. all k (ground arith)),
  )

  pub upsert_words_lem :
      (words : List NewWord) (db : Db)
      → Whole db
      → let (ids, db') = upsert_words collate before words db in
        Upserted collate db db' × All (Identified db' ids) words
  unfolding upsert_words
  upsert_words_lem words db w =
      let keys = map (λ (w : NewWord). w.key) words in
      let sorted = sort before (distinct [] keys) in
      let (up, names) = upsert_all_lem sorted db w in
      let result = upsert_all collate before sorted db in
      (
        up,
        All-Identified sorted result.0 result.1 words names
            (λ k h. any-sort (same_key k) before (distinct [] keys) ∙ distinct_lem k [] keys h),
      )
