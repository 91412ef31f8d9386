-- ===== src/Accounts.antt =====
-- apps/api/src/auth and apps/api/prisma/schema.prisma: the tables of the accounts (`users`,
-- `email_verification`, `password_reset_tokens`, `refresh_sessions`, the journal) and the emails
-- handed to the email queue. Hashing, the collation of the database, the email validator and
-- Unicode's tables are parameters. Times are milliseconds, keys of users are numbers, texts are
-- lists of codes; a column that a default fills with the database's clock gets the request's clock.
mod Tests
mod Samples
pub mod Table
pub mod Reset
pub mod Verification
pub mod SignIn
pub mod Google
pub mod Profile
pub mod Username
pub mod Unlike
pub mod Valid
pub mod Kept
pub mod Life
pub mod Requests
use sealvo.Base.{
  String, ℕ, Bool, true, false, not, ◌&&◌, Option, none, some, List, [], ◌∷◌, map, select, any,
  find, ◌==◌, if◌then◌else◌, length, ltb,
}
use sealvo.Session.Token.{Text, same_text}
use sealvo.Session.{Session}

pub data Role : Type 0 where
  role_user role_admin : Role

pub record User : Type 0 where
  pub id : ℕ
  pub username : Text
  pub email : Text
  pub role : Role
  pub password : Text
  pub created_at : ℕ
  pub is_verified : Bool
  pub ava : ℕ

pub data LinkStatus : Type 0 where
  pending used revoked : LinkStatus

abbrev pub is_pending : LinkStatus → Bool
is_pending pending = true
is_pending used = false
is_pending revoked = false

-- A row of `email_verification`.
pub record Link : Type 0 where
  pub id : Text
  pub user_id : ℕ
  pub token_hash : Text
  pub expires_at : ℕ
  pub status : LinkStatus
  pub created_at : ℕ
  pub used_at : Option ℕ
  pub new_email : Option Text

-- A row of `password_reset_tokens`.
pub record ResetToken : Type 0 where
  pub token_hash : Text
  pub user_id : ℕ
  pub expires_at : ℕ

-- The entries that these services write into the journal.
pub data Entry : Type 0 where
  login_entry password_change_entry email_change_entry : ℕ → Entry

-- The address, and the token of the link or the name that the template shows.
pub data Mail : Type 0 where
  reset_mail verification_mail account_exists_mail : Text → Text → Mail

pub record Store : Type 0 where
  pub users : List User
  pub links : List Link
  pub resets : List ResetToken
  pub sessions : List Session
  pub journal : List Entry
  pub mails : List Mail
  -- The users whose dashboard is in the cache.
  pub dashboards : List ℕ

-- What a request ends with: a value, or the error whose status the client gets.
pub data Reply (A : Type 0) : Type 0 where
  ok : A → Reply A
  bad_request : Reply A
  unauthorized : Reply A
  unverified : Reply A
  forbidden : Reply A
  not_found : Reply A
  conflict : Reply A
  too_many_requests : Reply A
  internal_error : (message : String) → Reply A

abbrev pub try_later : String
try_later = "Une erreur est survenue. Veuillez réessayer plus tard."

-- What follows a step that may fail: nothing, once it has.
unfoldable pub on_ok :
    {A B : Type 0} → Reply A × Store → (A → Store → Reply B × Store) → Reply B × Store
on_ok (ok a, s) next = next a s
on_ok (bad_request, s) next = (bad_request, s)
on_ok (unauthorized, s) next = (unauthorized, s)
on_ok (unverified, s) next = (unverified, s)
on_ok (forbidden, s) next = (forbidden, s)
on_ok (not_found, s) next = (not_found, s)
on_ok (conflict, s) next = (conflict, s)
on_ok (too_many_requests, s) next = (too_many_requests, s)
on_ok (internal_error message, s) next = (internal_error message, s)

-- What is outside: SHA-256 (`hash_token`), bcrypt with its salt, the database's collation as the
-- key by which it compares two texts, validator.js, and String's toLowerCase and normalize('NFD').
pub record Platform : Type 0 where
  pub hash_token : Text → Text
  pub bcrypt_hash : Text → Text → Text
  pub bcrypt_compare : Text → Text → Bool
  pub collate : Text → Text
  pub is_email : Text → Bool
  pub canonical_email : Text → Option Text
  pub lower : Text → Text
  pub nfd : Text → Text

abbrev pub used_before : Option ℕ → Bool
used_before none = false
used_before (some t) = true

-- The rows of one user.
abbrev pub has_id : ℕ → User → Bool
has_id id u = u.id == id

abbrev pub of_user : ℕ → Link → Bool
of_user id l = l.user_id == id

abbrev pub find_user : ℕ → List User → Option User
find_user id users = find (has_id id) users

-- Equal for the database, which compares by the collation.
unfoldable pub collated : Platform → Text → Text → Bool
collated p a b = same_text (p.collate a) (p.collate b)

abbrev pub by_username : Platform → Text → List User → Option User
by_username p name users = find (λ u. collated p u.username name) users

abbrev pub by_email : Platform → Text → List User → Option User
by_email p email users = find (λ u. collated p u.email email) users

-- users.update: every row of the key, of which there is one.
unfoldable pub update_user : ℕ → (User → User) → List User → List User
update_user id write [] = []
update_user id write (u ∷ users) = (if u.id == id then write u else u) ∷ update_user id write users

-- email_verification.updateMany with the status `revoked`; `used_at` stays.
unfoldable pub revoke_links : (Link → Bool) → List Link → List Link
revoke_links where_ [] = []
revoke_links where_ (l ∷ links) =
    (if where_ l then record l { status = revoked } else l) ∷ revoke_links where_ links

abbrev pub pending_of : ℕ → Link → Bool
pending_of id l = l.user_id == id && is_pending l.status
