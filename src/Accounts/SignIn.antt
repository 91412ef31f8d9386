-- ===== src/Accounts/SignIn.antt =====
-- apps/api/src/auth/auth.service.ts, token.service.ts and create-user.ts: registration, sign-in by
-- password, the refresh of tokens.
mod Tests
pub mod Lockout
pub mod Enumeration
use sealvo.Base.{
  String, ℕ, zero, suc, ◌+◌, Bool, true, false, not, ◌&&◌, ◌||◌, Option, none, some, List, [], ◌∷◌,
  any, ◌==◌, if◌then◌else◌,
}
use sealvo.Session.Token.{Text}
use sealvo.Session.{Session, Env, create, rotate, revoke}
use sealvo.Accounts.{
  Role, User, Store, Mail, Entry, Reply, Platform, ok, bad_request, unauthorized, unverified,
  conflict, internal_error, try_later, role_user, account_exists_mail, login_entry, find_user,
  has_id, by_username, collated, on_ok,
}
use sealvo.Accounts.Reset.{account_of_email, normalize_email}
use sealvo.Accounts.Verification.{Fresh, send_verification_email, verification_email_failed}

abbrev pub user_id_max_attempts : ℕ
user_id_max_attempts = 5

abbrev pub register_response : String
register_response = "Un email de vérification a été envoyé à votre adresse email"

-- The columns that the caller gives; the others are defaults.
pub record NewUser : Type 0 where
  pub username : Text
  pub email : Text
  pub password : Text
  pub is_verified : Bool
  pub ava : ℕ

-- The payload of an access token.
pub record Access : Type 0 where
  pub sub : ℕ
  pub username : Text
  pub role : Role

pub record Tokens : Type 0 where
  pub access_token : Access
  pub refresh_token : Text

unfoldable pub sign_access_token : User → Access
sign_access_token u = record { sub = u.id; username = u.username; role = u.role }

unfoldable pub new_user : ℕ → ℕ → NewUser → User
new_user id now d = record {
  id = id;
  username = d.username;
  email = d.email;
  role = role_user;
  password = d.password;
  created_at = now;
  is_verified = d.is_verified;
  ava = d.ava;
}

pub record Registration : Type 0 where
  pub username : Text
  pub email : Text
  pub password : Text
  pub avatar : Option ℕ

abbrev pub or_default_avatar : Option ℕ → ℕ
or_default_avatar none = 1
or_default_avatar (some a) = a

module _ (p : Platform) where
  -- The unique keys of `users` other than the primary one.
  unfoldable pub name_or_email_taken : NewUser → List User → Bool
  name_or_email_taken d users =
      any (λ (u : User). collated p u.username d.username || collated p u.email d.email) users

  -- `ids i` is the random id of attempt i, `accepts` the CHECK constraints of the table. A user or
  -- the error of the request.
  unfoldable pub create_user :
      (ℕ → ℕ) → (NewUser → Bool) → ℕ → NewUser → ℕ → ℕ → Store → Reply User × Store
  create_user ids accepts now d zero i s = (internal_error try_later, s)
  create_user ids accepts now d (suc left) i s =
      let again = create_user ids accepts now d left (i + 1) s in
      if not (accepts d)
      then (bad_request, s)
      else (if any (has_id (ids i)) s.users
          then again
          else (if name_or_email_taken d s.users then (conflict, s) else (
            ok (new_user (ids i) now d),
            record s { users = new_user (ids i) now d ∷ s.users },
          )))

  unfoldable pub send_account_exists_email : Bool → User → Store → Reply Unit × Store
  send_account_exists_email queued u s =
      if queued
      then (ok tt, record s { mails = account_exists_mail u.email u.username ∷ s.mails })
      else (internal_error verification_email_failed, s)

  -- `others` is what other requests do between the lookups and the insertion.
  unfoldable pub register :
      (Store → Store)
      → (ℕ → ℕ)
      → (NewUser → Bool)
      → Fresh
      → ℕ
      → Bool
      → Text
      → Registration
      → Store
      → Reply String × Store
  register others ids accepts f now queued salt dto s = elim (by_username p dto.username s.users) [
    | some taken ↦ (conflict, s)
    | none ↦ elim (account_of_email p dto.email s.users) [
      | some existing ↦
          on_ok (send_account_exists_email queued existing s) (λ _ s'. (ok register_response, s'))
      | none ↦
          on_ok
            (create_user ids accepts now
              (record {
                username = dto.username;
                email = normalize_email p dto.email;
                password = p.bcrypt_hash salt dto.password;
                is_verified = false;
                ava = or_default_avatar dto.avatar;
              })
              user_id_max_attempts 0 (others s))
            (λ user s'.
              on_ok (send_verification_email p f now queued user none s')
                (λ _ s''. (ok register_response, s'')))
    ]
  ]

  -- A new session for this device: `id` and `secret` are fresh.
  unfoldable pub issue_tokens : Text → Text → ℕ → User → Store → Tokens × Store
  issue_tokens id secret now user s =
      let (token, sessions) = create p.hash_token id secret now user.id s.sessions in
      (
        record { access_token = sign_access_token user; refresh_token = token },
        record s { sessions = sessions },
      )

  -- `journals` is whether the journal takes the entry: a failure is only logged.
  unfoldable pub note_login : Bool → ℕ → Store → Store
  note_login journals id s =
      if journals then record s { journal = login_entry id ∷ s.journal } else s

  unfoldable pub sign_in : Bool → Text → Text → ℕ → User → Store → Reply Tokens × Store
  sign_in journals id secret now user s =
      let (tokens, s') = issue_tokens id secret now user s in
      (ok tokens, note_login journals user.id s')

  unfoldable pub login : Bool → Text → Text → ℕ → Text → Text → Store → Reply Tokens × Store
  login journals id secret now username password s = elim (by_username p username s.users) [
    | none ↦ (unauthorized, s)
    | some user ↦
        if not (p.bcrypt_compare password user.password)
        then (unauthorized, s)
        else (if not user.is_verified
            then (unverified, s)
            else sign_in journals id secret now user s)
  ]

  -- The user of a rotated session.
  unfoldable pub refreshed : Option (ℕ × Text) → Store → Reply Tokens × Store
  refreshed none s = (unauthorized, s)
  refreshed (some (user_id, token)) s = elim (find_user user_id s.users) [
    | none ↦ (unauthorized, s)
    | some user ↦ (ok (record { access_token = sign_access_token user; refresh_token = token }), s)
  ]

  unfoldable pub refresh_tokens : Env p.hash_token → Option Text → Store → Reply Tokens × Store
  refresh_tokens e token s =
      let (rotated, sessions) = rotate p.hash_token e token s.sessions in
      refreshed rotated (record s { sessions = sessions })

  unfoldable pub logout : ℕ → Option Text → Store → Store
  logout user_id token s = record s { sessions = revoke user_id token s.sessions }

  unfoldable pub get_me : ℕ → Store → Reply User
  get_me user_id s = elim (find_user user_id s.users) [ none ↦ unauthorized | some u ↦ ok u ]
