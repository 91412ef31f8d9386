-- ===== src/Accounts/Google.antt =====
-- apps/api/src/auth/google-auth.service.ts: sign-in with a Google account. The answers of Google
-- are a parameter.
pub mod Takeover
use sealvo.Base.{
  ℕ, zero, suc, ◌+◌, Bool, true, not, ◌&&◌, ◌||◌, Option, none, some, List, [], ◌∷◌, ◌++◌, find,
  select, take, length, ◌==◌, leb, if◌then◌else◌,
}
use sealvo.Session.Token.{Text, same_text}
use sealvo.Session.{Session}
use sealvo.Accounts.{
  User, Store, Reply, Platform, unauthorized, internal_error, try_later, collated, by_username,
  update_user, revoke_links, pending_of, on_ok,
}
use sealvo.Accounts.Reset.{normalize_email, or_first}
use sealvo.Accounts.SignIn.{NewUser, Tokens, create_user, sign_in, user_id_max_attempts}

abbrev pub username_max_attempts : ℕ
username_max_attempts = 5

abbrev pub username_min : ℕ
username_min = 3

-- The exchange of the code, then the profile.
pub data Answer : Type 0 where
  exchange_failed : Answer
  profile_failed : Answer
  profile : Option Text → Text → Bool → Answer

abbrev pub between : ℕ → ℕ → ℕ → Bool
between lo c hi = leb lo c && leb c hi

-- What [^a-zA-Z0-9_.-] does not match.
unfoldable pub is_allowed : ℕ → Bool
is_allowed c =
    between 97 c 122 || between 65 c 90 || between 48 c 57 || c == 95 || c == 46 || c == 45

-- A combining mark, U+0300 to U+036F.
unfoldable pub is_mark : ℕ → Bool
is_mark c = between 768 c 879

unfoldable pub sanitize : Platform → Text → Text
sanitize p value = take 40 (select is_allowed (select (λ c. not (is_mark c)) (p.nfd value)))

-- email.split('@')[0]
unfoldable pub before_at : Text → Text
before_at [] = []
before_at (c ∷ cs) = let rest = before_at cs in if c == 64 then [] else c ∷ rest

abbrev pub or_user : Option Text → Text
or_user none = b'u' ∷ b's' ∷ b'e' ∷ b'r' ∷ []
or_user (some t) = t

abbrev pub or_empty_name : Option Text → Text
or_empty_name none = []
or_empty_name (some t) = t

unfoldable pub username_base : Platform → Option Text → Text → Text
username_base p name email = or_user (
    find (λ t. leb username_min (length t))
      (sanitize p (or_empty_name name) ∷ sanitize p (before_at email) ∷ []))

-- `suffix i` is the random suffix of attempt i, six hexadecimal digits.
unfoldable pub candidate : (ℕ → Text) → Text → ℕ → Text
candidate suffix base zero = base
candidate suffix base (suc i) = base ++ 95 ∷ suffix (suc i)

module _ (p : Platform) where
  unfoldable pub free_username : (ℕ → Text) → Text → ℕ → ℕ → List User → Option Text
  free_username suffix base zero i users = none
  free_username suffix base (suc left) i users =
      let again = free_username suffix base left (i + 1) users in
      elim (by_username p (candidate suffix base i) users) [
        | none ↦ some (candidate suffix base i)
        | some taken ↦ again
      ]

  unfoldable pub generate_username : (ℕ → Text) → Option Text → Text → List User → Option Text
  generate_username suffix name email users =
      free_username suffix (username_base p name email) username_max_attempts 0 users

  -- The account of the address as Google spells it, or normalized.
  unfoldable pub google_account : Text → List User → Option User
  google_account raw users =
      let email = normalize_email p raw in
      let matches =
        select (λ (u : User). collated p u.email email || collated p u.email raw) users in
      or_first p matches (find (λ (u : User). same_text (p.lower u.email) (p.lower email)) matches)

  -- An account that was never verified: its password, its sessions and its links are dropped. The
  -- transaction fails with P2025 when the row is gone, which cannot be seen here: the row is read in
  -- the same state.
  unfoldable pub take_over : ℕ → Text → Store → Store
  take_over user_id hashed s = record s {
    users = update_user user_id (λ u. record u { is_verified = true; password = hashed }) s.users;
    sessions = select (λ (x : Session). not (x.user_id == user_id)) s.sessions;
    links = revoke_links (pending_of user_id) s.links;
  }

  -- `hashed` is the hash of a fresh password that nobody knows.
  unfoldable pub google_create :
      (ℕ → ℕ)
      → (NewUser → Bool)
      → (ℕ → Text)
      → Text
      → ℕ
      → Option Text
      → Text
      → Store
      → Reply User × Store
  google_create ids accepts suffix hashed now name raw s =
      elim (generate_username suffix name raw s.users) [
        | none ↦ (internal_error try_later, s)
        | some username ↦
            create_user p ids accepts now
              (record {
                username = username;
                email = normalize_email p raw;
                password = hashed;
                is_verified = true;
                ava = 1;
              })
              user_id_max_attempts 0 s
      ]

  unfoldable pub google_login :
      Bool
      → (ℕ → ℕ)
      → (NewUser → Bool)
      → (ℕ → Text)
      → Text
      → Text
      → Text
      → Text
      → ℕ
      → Answer
      → Store
      → Reply Tokens × Store
  google_login journals ids accepts suffix salt token id secret now exchange_failed s =
      (unauthorized, s)
  google_login journals ids accepts suffix salt token id secret now profile_failed s =
      (unauthorized, s)
  google_login journals ids accepts suffix salt token id secret now (profile name raw verified) s =
      let hashed = p.bcrypt_hash salt token in
      if not verified then (unauthorized, s) else elim (google_account raw s.users) [
        | none ↦
            on_ok (google_create ids accepts suffix hashed now name raw s)
              (λ user s'. sign_in p journals id secret now user s')
        | some user ↦
            if user.is_verified
            then sign_in p journals id secret now user s
            else sign_in p journals id secret now user (take_over user.id hashed s)
      ]
