-- ===== src/Accounts/Google/Takeover.antt =====
-- A Google sign-in to an account that somebody registered and never verified.
use sealvo.Base.{ℕ, ◌≡◌, refl, sym, subst, Bool, true, false, not, Option, some, All, ◌==◌, select}
use sealvo.Session.{Session, create}
use sealvo.Session.Token.{Text}
use sealvo.Accounts.{User, Link, Store, Platform, Reply, ok, find_user, pending_of, update_user}
use sealvo.Accounts.Table.{find_user-update_user, revoke-pending_of, All-apart, All-imp}
use sealvo.Accounts.Reset.Effect.{new_password}
use sealvo.Accounts.SignIn.{NewUser, Tokens, sign_in, issue_tokens, note_login, sign_access_token}
use sealvo.Accounts.Google.{profile, google_account, google_login, take_over}

module _ (p : Platform) (journals : Bool) (ids : ℕ → ℕ) (accepts : NewUser → Bool)
    (suffix : ℕ → Text) (salt token id secret : Text) (now : ℕ) (name : Option Text) (raw : Text)
    (s : Store) (u : User) (matched : google_account p raw s.users ≡ some u)
    (account : find_user u.id s.users ≡ some u) (never_verified : u.is_verified ≡ false) where
  abbrev request : Reply Tokens × Store
  request =
      google_login p journals ids accepts suffix salt token id secret now (profile name raw true) s

  taken_over :
      request ≡ sign_in p journals id secret now u (take_over p u.id (p.bcrypt_hash salt token) s)
  unfolding google_login
  taken_over = simp (google_login, matched, never_verified) refl

  users_after :
      find_user u.id (
        update_user u.id
          (λ u. record u { is_verified = true; password = p.bcrypt_hash salt token })
          s.users)
      ≡ some (new_password (p.bcrypt_hash salt token) u)
  users_after =
      find_user-update_user u.id (new_password (p.bcrypt_hash salt token)) s.users u (λ v. refl)
        account

  sessions_after :
      All
        (λ (x : Session). x.user_id ≡ u.id → x.id ≡ id)
        (select (λ (x : Session). not (x.user_id == u.id)) s.sessions)
  sessions_after =
      All-imp _ _ _ (λ x apart e. absurd (apart e))
        (All-apart (λ (x : Session). x.user_id) u.id s.sessions)

  -- Tokens for the account, whose password, sessions and links of before are gone.
  abbrev TakenOver : Reply Tokens × Store → Type 0
  TakenOver r =
      ((tokens : Tokens) × (r.0 ≡ ok tokens) × (tokens.access_token.sub ≡ u.id))
      × (find_user u.id r.1.users ≡ some (new_password (p.bcrypt_hash salt token) u))
      × All (λ (x : Session). x.user_id ≡ u.id → x.id ≡ id) r.1.sessions
      × All (λ (l : Link). pending_of u.id l ≡ false) r.1.links

  signed_in :
      (j : Bool)
      → TakenOver (sign_in p j id secret now u (take_over p u.id (p.bcrypt_hash salt token) s))
  unfolding sign_in issue_tokens note_login take_over create sign_access_token
  signed_in true =
      ((_, refl, refl), users_after, (λ e. refl, sessions_after), revoke-pending_of u.id s.links)
  signed_in false =
      ((_, refl, refl), users_after, (λ e. refl, sessions_after), revoke-pending_of u.id s.links)

  -- A Google sign-in, with an address that Google has verified, to the account that matches it and
  -- was never verified: it gives tokens of that account, which is verified from then on with a
  -- password that nobody knows; of its sessions only the new one is left, and no link is pending.
  pub google_login-take_over : TakenOver request
  google_login-take_over = subst TakenOver (sym taken_over) (signed_in journals)
