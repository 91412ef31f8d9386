-- ===== src/Session/Table.antt =====
-- Laws of the session table: reads after writes, one row for each id.
use sealvo.Base.{
  ℕ, ◌≡◌, ◌≢◌, refl, sym, ◌∙◌, subst, inl, inr, false, not, ◌&&◌, none, some, List, [], ◌∷◌, arith,
  if◌then◌else◌, All, select, Bool-cases, ◌==◌,
}
use sealvo.Session.Token.{Text, same_text, same_text_iff}
use sealvo.Session.{Session, find_session, delete_session, swap}

-- The primary key.
abbrev pub Distinct : List Session → Type 0
Distinct [] = Unit
Distinct (s ∷ rows) = All (λ q. q.id ≢ s.id) rows × Distinct rows

pub find-delete_session :
    (j id : Text) (rows : List Session)
    → find_session j (delete_session id rows)
      ≡ (if same_text j id then none else find_session j rows)
unfolding find_session delete_session
find-delete_session j id [] = ground arith
find-delete_session j id (s ∷ rows) = ground (
  arith,
  find-delete_session j id rows,
  same_text_iff j id,
  same_text_iff s.id id,
  same_text_iff s.id j,
)

pub find_session-id :
    (id : Text) (rows : List Session) (s : Session) → find_session id rows ≡ some s → s.id ≡ id
unfolding find_session
find_session-id id [] s h = absurd (ground arith)
find_session-id id (q ∷ rows) s h = ground (arith, find_session-id id rows s, same_text_iff q.id id)

find_session-absent :
    (id : Text) (rows : List Session) → All (λ q. q.id ≢ id) rows → find_session id rows ≡ none
unfolding find_session
find_session-absent id [] a = refl
find_session-absent id (q ∷ rows) a =
    ground (arith, find_session-absent id rows a.1, same_text_iff q.id id, a.0)

module _ (id expected : Text) (write : Session → Session)
    (keeps : (s : Session) → (write s).id ≡ s.id) where
  pub find-swap_ne :
      (j : Text) (rows : List Session)
      → same_text j id ≡ false
      → find_session j (swap id expected write rows).1 ≡ find_session j rows
  unfolding find_session swap
  find-swap_ne j [] h = refl
  find-swap_ne j (s ∷ rows) h = ground (
    arith,
    find-swap_ne j rows h,
    keeps s,
    same_text_iff s.id id,
    same_text_iff s.id j,
    same_text_iff j id,
  )

  pub find-swap_self :
      (rows : List Session) (s : Session)
      → find_session id rows ≡ some s
      → s.token_hash ≡ expected
      → find_session id (swap id expected write rows).1 ≡ some (write s)
  unfolding find_session swap
  find-swap_self [] s h e = absurd (ground arith)
  find-swap_self (q ∷ rows) s h e = ground (
    arith,
    find-swap_self rows s,
    keeps q,
    same_text_iff q.id id,
    same_text_iff q.token_hash expected,
  )

  swap-absent :
      (rows : List Session) → All (λ q. q.id ≢ id) rows → (swap id expected write rows).0 ≡ 0
  unfolding swap
  swap-absent [] a = refl
  swap-absent (q ∷ rows) a = ground (arith, swap-absent rows a.1, same_text_iff q.id id, a.0)

  -- How many rows are written: one if the session is there with the expected hash.
  pub swap-count :
      (rows : List Session)
      → Distinct rows
      → (swap id expected write rows).0 ≡ elim (find_session id rows) [
        | none ↦ 0
        | some s ↦ if same_text s.token_hash expected then 1 else 0
      ]
  unfolding find_session swap
  swap-count [] d = refl
  swap-count (q ∷ rows) d = elim (Bool-cases (same_text q.id id)) [
    | inl here ↦
        let same_id = (same_text_iff q.id id).0 here in
        ground
          (arith, swap-absent rows (subst (λ t. All (λ (x : Session). x.id ≢ t) rows) same_id d.0))
    | inr there ↦ ground (arith, swap-count rows d.1)
  ]

  others-apart :
      (t : Text) (rows : List Session)
      → All (λ q. q.id ≢ t) rows
      → All (λ q. q.id ≢ t) (swap id expected write rows).1
  unfolding swap
  others-apart t [] a = tt
  others-apart t (q ∷ rows) a = ground (arith, others-apart t rows a.1, a.0, kept_apart q t a.0)
    where
      kept_apart : (q : Session) (t : Text) → q.id ≢ t → (write q).id ≢ t
      kept_apart q t h e = h (sym (keeps q) ∙ e)

  pub swap-Distinct :
      (rows : List Session) → Distinct rows → Distinct (swap id expected write rows).1
  unfolding swap
  swap-Distinct [] d = tt
  swap-Distinct (q ∷ rows) d =
      elim (Bool-cases (same_text q.id id && same_text q.token_hash expected)) [
        | inl hit ↦ rw hit (
          subst (λ t. All (λ (x : Session). x.id ≢ t) (swap id expected write rows).1)
              (sym (keeps q)) (others-apart q.id rows d.0),
          swap-Distinct rows d.1,
        )
        | inr miss ↦ rw miss (others-apart q.id rows d.0, swap-Distinct rows d.1)
      ]

pub swap-unmatched :
    (id expected : Text) (write : Session → Session) (rows : List Session)
    → (swap id expected write rows).0 ≡ 0
    → (swap id expected write rows).1 ≡ rows
unfolding swap
swap-unmatched id expected write [] h = refl
swap-unmatched id expected write (q ∷ rows) h =
    ground (arith, swap-unmatched id expected write rows)

none_left :
    (user : ℕ) (id : Text) (rows : List Session)
    → All (λ q. q.id ≢ id) rows
    → find_session id (select (λ q. not (same_text q.id id && q.user_id == user)) rows) ≡ none
unfolding find_session
none_left user id [] a = refl
none_left user id (q ∷ rows) a =
    ground (arith, none_left user id rows a.1, same_text_iff q.id id, a.0)

-- The row of the id is removed if it is this user's.
pub revoke_row :
    (user : ℕ) (id : Text) (s : Session) (rows : List Session)
    → find_session id rows ≡ some s
    → Distinct rows
    → find_session id (select (λ q. not (same_text q.id id && q.user_id == user)) rows)
      ≡ (if s.user_id == user then none else some s)
unfolding find_session
revoke_row user id s [] h d = absurd (ground arith)
revoke_row user id s (q ∷ rows) h d = elim (Bool-cases (same_text q.id id)) [
  | inl here ↦
      let same_id = (same_text_iff q.id id).0 here in
      let others = subst (λ t. All (λ (x : Session). x.id ≢ t) rows) same_id d.0 in
      ground (arith, none_left user id rows others)
  | inr there ↦ ground (arith, revoke_row user id s rows)
]
