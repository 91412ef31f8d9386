-- ===== src/Session/Owner.antt =====
-- Whose session a rotation exchanges.
use sealvo.Base.{
  ℕ, zero, suc, ◌+◌, ◌≡◌, ◌≢◌, refl, sym, ap, ◌∙◌, inl, inr, Option, some, List, [], ◌∷◌, arith,
  All, Option-cases, subst,
}
use sealvo.Session.Token.{Text, parse}
use sealvo.Session.{
  Session, find_session, swap, rotated, Env, rotate_from, rotate_parsed, rotate,
  max_rotation_attempts,
}

abbrev pub NoneOf : ℕ → List Session → Type 0
NoneOf user = All (λ (x : Session). x.user_id ≢ user)

find-NoneOf :
    (user : ℕ) (id : Text) (rows : List Session) (x : Session)
    → NoneOf user rows
    → find_session id rows ≡ some x
    → x.user_id ≢ user
unfolding find_session
find-NoneOf user id [] x a e = absurd (ground arith)
find-NoneOf user id (q ∷ rows) x a e = ground (arith, find-NoneOf user id rows x a.1, a.0)

swap-NoneOf :
    (user : ℕ) (id expected : Text) (write : Session → Session) (rows : List Session)
    → ((x : Session) → (write x).user_id ≡ x.user_id)
    → NoneOf user rows
    → NoneOf user (swap id expected write rows).1
unfolding swap
swap-NoneOf user id expected write [] keeps a = tt
swap-NoneOf user id expected write (q ∷ rows) keeps a =
    ground (arith, swap-NoneOf user id expected write rows keeps a.1, a.0, keeps q)

-- The owner that a reply names, if there is one, is another user.
abbrev pub NotFor : ℕ → Option (ℕ × Text) → Type 0
NotFor user reply = (owner : ℕ) (token : Text) → reply ≡ some (owner, token) → owner ≢ user

module _ (hash : Text → Text) (e : Env hash)
    (quiet : (i : ℕ) (rows : List Session) → e.others i rows ≡ rows) (user : ℕ)
    (id presented : Text) where
  rotate_from-NotFor :
      (left i : ℕ) (rows : List Session)
      → NoneOf user rows
      → NotFor user (rotate_from hash e id presented left i rows).0
  unfolding rotate_from rotated
  rotate_from-NotFor zero i rows a owner token r = absurd (ground arith)
  rotate_from-NotFor (suc left) i rows a owner token r =
      elim (Option-cases (find_session id rows)) [
        | inl missing ↦ absurd (ground arith)
        | inr (x, found) ↦
            let kept = subst (NoneOf user) (sym (quiet i rows)) a in
            let written =
              swap-NoneOf user x.id x.token_hash (rotated hash (e.clock i) (e.fresh i) x)
                (e.others i rows) (λ q. refl) kept in
            ground (
              arith,
              find-NoneOf user id rows x a found,
              rotate_from-NotFor left (i + 1) _ written owner token,
            )
      ]

-- With no session of the user, no token that is presented gives one for that user.
pub rotate-NotFor :
    (hash : Text → Text) (e : Env hash) (user : ℕ) (token : Option Text) (rows : List Session)
    → ((i : ℕ) (rows : List Session) → e.others i rows ≡ rows)
    → NoneOf user rows
    → NotFor user (rotate hash e token rows).0
unfolding rotate rotate_parsed
rotate-NotFor hash e user token rows quiet a owner t r = elim (Option-cases (parse token)) [
  | inl unread ↦ absurd (ground arith)
  | inr ((id, secret), reads) ↦
      rotate_from-NotFor hash e quiet user id (hash secret) max_rotation_attempts 0 rows a owner t
        (sym (ap (λ (o : Option (Text × Text)). (rotate_parsed hash e o rows).0) reads) ∙ r)
]
