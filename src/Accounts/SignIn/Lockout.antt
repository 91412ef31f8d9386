-- ===== src/Accounts/SignIn/Lockout.antt =====
-- Who is signed in: by a refresh token, by a password, after a reset.
use sealvo.Base.{
  ℕ, ◌≡◌, ◌≢◌, refl, sym, ap, subst, inl, inr, Bool, true, Option, none, some, List, arith,
  Option-cases, ==_refl,
}
use sealvo.Session.{Session, Env}
use sealvo.Session.Token.{Text}
use sealvo.Session.Owner.{NoneOf, rotate-NotFor}
use sealvo.Accounts.{User, ResetToken, Store, Reply, Platform, ok, find_user, by_username}
use sealvo.Accounts.Table.{find_user-id, by_username-update_user}
use sealvo.Accounts.Reset.{find_reset, reset_account, reset_password}
use sealvo.Accounts.Reset.Effect.{new_password, resets, reset_password-LockedOut}
use sealvo.Accounts.SignIn.{
  Tokens, sign_access_token, refresh_tokens, refreshed, login, sign_in, issue_tokens,
}

refreshed-sub :
    (p : Platform) (r : Option (ℕ × Text)) (s : Store) (t : Tokens)
    → (refreshed p r s).0 ≡ ok t
    → r ≡ some (t.access_token.sub, t.refresh_token)
unfolding refreshed sign_access_token
refreshed-sub p none s t e = absurd (ground arith)
refreshed-sub p (some (user_id, token)) s t e = elim (Option-cases (find_user user_id s.users)) [
  | inl gone ↦ absurd (ground arith)
  | inr (u, found) ↦ ground (arith, find_user-id user_id s.users u found)
]

-- A user without a session gets no tokens from any refresh token.
pub refresh_tokens-locked :
    (p : Platform) (e : Env p.hash_token) (user : ℕ) (token : Option Text) (s : Store) (t : Tokens)
    → ((i : ℕ) (rows : List Session) → e.others i rows ≡ rows)
    → NoneOf user s.sessions
    → (refresh_tokens p e token s).0 ≡ ok t
    → t.access_token.sub ≢ user
unfolding refresh_tokens
refresh_tokens-locked p e user token s t quiet locked r =
    rotate-NotFor p.hash_token e user token s.sessions quiet locked t.access_token.sub
      t.refresh_token (refreshed-sub p _ _ t r)

-- The password that is stored, of a verified account, signs in.
pub login_accepts :
    (p : Platform) (journals : Bool) (id secret : Text) (now : ℕ) (name password : Text) (s : Store)
    (u : User)
    → by_username p name s.users ≡ some u
    → p.bcrypt_compare password u.password ≡ true
    → u.is_verified ≡ true
    → login p journals id secret now name password s ≡ sign_in p journals id secret now u s
unfolding login sign_in
login_accepts p journals id secret now name password s u found same verified =
    rw (login, found, same, verified) refl

-- After a reset, the new password signs in as the user, and no refresh token of before does.
module _ (p : Platform) (others : Store → Store) (now : ℕ) (salt token password : Text) (s : Store)
    (t t' : ResetToken) (u : User) (found : find_reset p now (p.hash_token token) s.resets ≡ some t)
    (still_there : find_reset p now (p.hash_token token) (others s).resets ≡ some t')
    (account : find_user t.user_id (others s).users ≡ some u) where
  abbrev after : Store
  after = (reset_password p others now salt token password s).1

  by_username-after :
      by_username p u.username (others s).users ≡ some u
      → by_username p u.username after.users ≡ some (new_password (p.bcrypt_hash salt password) u)
  unfolding reset_account
  by_username-after only =
      subst
        (λ (r : Reply Unit × Store).
          by_username p u.username r.1.users ≡ some (new_password (p.bcrypt_hash salt password) u))
        (sym (resets p others now salt token password s t t' u found still_there account))
        (rw
          (
            by_username-update_user t.user_id (new_password (p.bcrypt_hash salt password)) p
                u.username (others s).users u (λ v. refl) only,
            find_user-id t.user_id (others s).users u account,
            ==_refl t.user_id,
          )
          refl)

  -- After a reset as above, no refresh token that is presented, whatever its origin, is exchanged
  -- for tokens of the account, when no other request writes the sessions during the exchange.
  pub reset_password-refresh_tokens :
      (e : Env p.hash_token) (old : Option Text) (tokens : Tokens)
      → ((i : ℕ) (rows : List Session) → e.others i rows ≡ rows)
      → tokens.access_token.sub ≡ t.user_id
      → (refresh_tokens p e old after).0 ≢ ok tokens
  reset_password-refresh_tokens e old tokens quiet theirs r =
      refresh_tokens-locked p e t.user_id old after tokens quiet
        (reset_password-LockedOut p others now salt token password s t t' u found still_there
          account).2.no_session
        r theirs

  -- After a reset as above, the account's name and the new password sign in as the account, if
  -- bcrypt accepts a password for its own hash and the name is found as this account's row.
  pub reset_password-login :
      (journals : Bool) (id secret : Text) (later : ℕ)
      → p.bcrypt_compare password (p.bcrypt_hash salt password) ≡ true
      → by_username p u.username (others s).users ≡ some u
      → (tokens : Tokens) × ((login p journals id secret later u.username password after).0
          ≡ ok tokens)
        × (tokens.access_token.sub ≡ t.user_id)
  unfolding sign_in issue_tokens sign_access_token
  reset_password-login journals id secret later bcrypt only =
      let hashed = p.bcrypt_hash salt password in
      let u' = new_password hashed u in
      let named = by_username-after only in
      (
        (issue_tokens p id secret later u' after).0,
        ap (λ (r : Reply Tokens × Store). r.0)
            (login_accepts p journals id secret later u.username password after u' named bcrypt
              refl),
        find_user-id t.user_id (others s).users u account,
      )
