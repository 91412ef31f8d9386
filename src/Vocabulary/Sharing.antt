-- ===== src/Vocabulary/Sharing.antt =====
-- Changes to the rows of one package, and what the rows of the others show.
use sealvo.Base.{
  ℕ, ◌≤◌, ◌<◌, ◌≡◌, ◌≢◌, inl, inr, refl, sym, ap, subst, ◌∙◌, Bool, true, false, Option, none, some,
  List, [], ◌∷◌, map, arith, if◌then◌else◌, length, select, Bool-cases,
}
use sealvo.Learning.{Row}
use sealvo.Levels.{Level}
use sealvo.Vocabulary.Tables.{Db, view, is_entry, refers}
use sealvo.Vocabulary.Editing.{refs, set_level}
use sealvo.Vocabulary.Integrity.{In, Whole}

-- The rows of the other packages are still there and show what they showed.
abbrev pub Others : ℕ → Db → Db → Type 0
Others pkg db db' =
    (r : Row) → In r db.learning → r.package_id ≢ pkg → In r db'.learning × (view db' r ≡ view db r)

pub Others-trans : (pkg : ℕ) (a b c : Db) → Others pkg a b → Others pkg b c → Others pkg a c
Others-trans pkg a b c x y r here other =
    let (there, same) = x r here other in
    let (last, same') = y r there other in (last, same' ∙ same)

pub In-map : (f : Row → Row) (rows : List Row) (r : Row) → In r rows → In (f r) (map f rows)
In-map f [] r h = absurd h
In-map f (x ∷ rows) r (inl same) = inl (ap f same)
In-map f (x ∷ rows) r (inr there) = inr (In-map f rows r there)

pub map-In :
    (f : Row → Row) (rows : List Row) (r : Row)
    → In r (map f rows)
    → (x : Row) × In x rows × (r ≡ f x)
map-In f [] r h = absurd h
map-In f (x ∷ rows) r (inl same) = (x, inl refl, same)
map-In f (x ∷ rows) r (inr there) =
    let (y, here, same) = map-In f rows r there in (y, inr here, same)

-- A row that only one entry refers to is not referred to by another package.
none_refer : (d : ℕ) (rows : List Row) (r : Row) → refs d rows ≡ 0 → In r rows → refers d r ≡ false
none_refer d [] r e h = absurd h
none_refer d (x ∷ rows) r e (inl same) = ap (refers d) same ∙ ground arith
none_refer d (x ∷ rows) r e (inr there) = none_refer d rows r (ground arith) there

pub refs_one :
    (d : ℕ) (rows : List Row) (x r : Row)
    → refs d rows ≤ 1
    → In x rows
    → In r rows
    → x.detail_id ≡ d
    → r.detail_id ≡ d
    → r.package_id ≡ x.package_id
refs_one d [] x r le hx hr ex er = absurd hx
refs_one d (y ∷ rows) x r le (inl same) (inl same') ex er =
    ap (λ (z : Row). z.package_id) (same' ∙ sym same)
refs_one d (y ∷ rows) x r le (inl same) (inr there) ex er =
    let ey : y.detail_id ≡ d = ap (λ (z : Row). z.detail_id) (sym same) ∙ ex in
    absurd (ground (arith, none_refer d rows r (ground arith) there))
refs_one d (y ∷ rows) x r le (inr there) (inl same) ex er =
    let ey : y.detail_id ≡ d = ap (λ (z : Row). z.detail_id) (sym same) ∙ er in
    absurd (ground (arith, none_refer d rows x (ground arith) there))
refs_one d (y ∷ rows) x r le (inr there) (inr there') ex er =
    refs_one d rows x r (ground arith) there there' ex er

-- More rows pass one test than another: some row passes the one only.
pub pigeonhole :
    (p q : Row → Bool) (rows : List Row)
    → length (select p rows) < length (select q rows)
    → (r : Row) × In r rows × (q r ≡ true) × (p r ≡ false)
pigeonhole p q [] lt = absurd (omega (arith, lt))
pigeonhole p q (x ∷ rows) lt = elim (Bool-cases (p x)) [
  | inl px ↦ let (r, there, b, a) = pigeonhole p q rows (ground arith) in (r, inr there, b, a)
  | inr px ↦ elim (Bool-cases (q x)) [
    | inl qx ↦ (x, inl refl, qx, px)
    | inr qx ↦ let (r, there, b, a) = pigeonhole p q rows (ground arith) in (r, inr there, b, a)
  ]
]

pub same_detail :
    (db : Db) (rows : List Row) (r x : Row)
    → r.detail_id ≡ x.detail_id
    → view (record db { learning = rows }) r ≡ view db x
unfolding view
same_detail db rows r x e = rw (view, e) refl

-- A change of rows that keeps the details they refer to keeps the integrity.
pub map-Whole :
    (f : Row → Row) (db : Db)
    → ((r : Row) → (f r).detail_id ≡ r.detail_id)
    → Whole db
    → Whole (record db { learning = map f db.learning })
map-Whole f db keeps w = record {
  words_below = w.words_below;
  details_below = w.details_below;
  shows = λ r there gone.
      let (x, here, same) = map-In f db.learning r there in
      let e = ap (λ (y : Row). y.detail_id) same ∙ keeps x in
      w.shows x here (sym (same_detail db (map f db.learning) r x e) ∙ gone);
  used = λ i h. let (r, there, e) = w.used i h in (f r, In-map f db.learning r there, keeps r ∙ e);
}

-- A change of the rows of one package leaves the others.
pub map-Others :
    (f : Row → Row) (pkg : ℕ) (db : Db)
    → ((r : Row) → r.package_id ≢ pkg → f r ≡ r)
    → Others pkg db (record db { learning = map f db.learning })
map-Others f pkg db keeps r there other = (
  subst (λ x. In x (map f db.learning)) (keeps r other) (In-map f db.learning r there),
  same_detail db (map f db.learning) r r refl,
)

module _ (pkg detail : ℕ) where
  pub set_level-Whole :
      (level : Option Level) (db : Db)
      → Whole db
      → Whole (record db { learning = set_level pkg detail level db.learning })
  unfolding set_level
  set_level-Whole none db w = w
  set_level-Whole (some l) db w =
      map-Whole (λ r. if is_entry pkg detail r then record r { level = l } else r) db
        (λ r. ground arith) w

  pub set_level-Others :
      (level : Option Level) (db : Db)
      → Others pkg db (record db { learning = set_level pkg detail level db.learning })
  unfolding set_level
  set_level-Others none db r there other = (there, refl)
  set_level-Others (some l) db r there other =
      map-Others (λ r. if is_entry pkg detail r then record r { level = l } else r) pkg db
        (λ r other. ground arith) r there other

  pub set_level-In :
      (level : Option Level) (rows : List Row) (r : Row)
      → In r rows
      → (r' : Row) × In r' (set_level pkg detail level rows)
        × (r'.package_id ≡ r.package_id)
        × (r'.detail_id ≡ r.detail_id)
  unfolding set_level
  set_level-In none rows r there = (r, there, refl, refl)
  set_level-In (some l) rows r there =
      let f = λ (r : Row). if is_entry pkg detail r then record r { level = l } else r in
      (f r, In-map f rows r there, ground arith, ground arith)
