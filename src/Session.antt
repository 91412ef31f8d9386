-- ===== src/Session.antt =====
-- apps/api/src/auth/session.service.ts: refresh sessions, their rotation with reuse detection and
-- their revocation. The hash of a secret (SHA-256) is a parameter, as are the clock, the fresh
-- secrets, and what other requests do to the table between a read and a write. Texts are lists of
-- codes.
pub mod Token
pub mod Table
pub mod Rotation
mod Tests
pub mod Replay
pub mod Owner
use sealvo.Base.{
  ℕ, zero, suc, ◌+◌, ◌*◌, min, Bool, true, false, not, ◌&&◌, ◌||◌, Option, none, some, List, [],
  ◌∷◌, ◌++◌, if◌then◌else◌, leb, ◌==◌, length, map, select, find,
}
use Token.{Text, same_text, parse, format}

pub record Session : Type 0 where
  pub id : Text
  pub user_id : ℕ
  pub token_hash : Text
  pub previous_hash : Option Text
  pub rotated_at : Option ℕ
  pub expires_at : ℕ
  pub created_at : ℕ

abbrev pub rotation_leeway : ℕ
rotation_leeway = 10_000

abbrev pub max_rotation_attempts : ℕ
max_rotation_attempts = 3

abbrev pub session_ttl : ℕ
session_ttl = 7 * 24 * 60 * 60 * 1_000

abbrev pub session_max_age : ℕ
session_max_age = 30 * 24 * 60 * 60 * 1_000

unfoldable pub expiry : ℕ → ℕ → ℕ
expiry now created_at = min (now + session_ttl) (created_at + session_max_age)

-- findUnique, deleteMany and updateMany on the table
unfoldable pub find_session : Text → List Session → Option Session
find_session id [] = none
find_session id (s ∷ rows) =
    let rest = find_session id rows in if same_text s.id id then some s else rest

unfoldable pub delete_session : Text → List Session → List Session
delete_session id rows = select (λ s. not (same_text s.id id)) rows

-- The rows with this id and this hash are written; the count of the rows written.
unfoldable pub swap : Text → Text → (Session → Session) → List Session → ℕ × List Session
swap id expected write [] = (0, [])
swap id expected write (s ∷ rows) =
    let (count, rest) = swap id expected write rows in
    if same_text s.id id && same_text s.token_hash expected
    then (count + 1, write s ∷ rest)
    else (count, s ∷ rest)

unfoldable pub recent : ℕ → Text → Option Text → Option ℕ → Bool
recent now presented (some previous) (some at) =
    leb now (at + rotation_leeway) && same_text presented previous
recent now presented (some previous) none = false
recent now presented none at = false

unfoldable pub is_just_rotated : ℕ → Text → Session → Bool
unfolding recent
is_just_rotated now presented s = recent now presented s.previous_hash s.rotated_at

module _ (hash : Text → Text) where
  unfoldable pub create : Text → Text → ℕ → ℕ → List Session → Text × List Session
  unfolding expiry
  create id secret now user rows = (
    format id secret,
    record {
      id = id;
      user_id = user;
      token_hash = hash secret;
      previous_hash = none;
      rotated_at = none;
      expires_at = expiry now now;
      created_at = now;
    }
        ∷ rows,
  )

  unfoldable pub rotated : ℕ → Text → Session → Session → Session
  unfolding expiry
  rotated now secret read s = record s {
    previous_hash = some read.token_hash;
    token_hash = hash secret;
    rotated_at = some now;
    expires_at = expiry now read.created_at;
  }

  -- What others write between the read and the write of each attempt; the clock and the fresh
  -- secret of each attempt.
  pub record Env : Type 0 where
    pub others : ℕ → List Session → List Session
    pub clock : ℕ → ℕ
    pub fresh : ℕ → Text

  -- `left` attempts from attempt `i` on; the owner and the new token, or none.
  unfoldable pub rotate_from :
      Env → Text → Text → ℕ → ℕ → List Session → Option (ℕ × Text) × List Session
  unfolding is_just_rotated rotated
  rotate_from e id presented zero i rows = (none, rows)
  rotate_from e id presented (suc left) i rows =
      let now = e.clock i in
      let found = find_session id rows in
      let rows' = e.others i rows in
      elim found [
        | none ↦ (none, rows)
        | some s ↦
            if leb s.expires_at now
            then (none, rows)
            else (if same_text presented s.token_hash || is_just_rotated now presented s
                then (let (count, rows'') =
                      swap s.id s.token_hash (rotated now (e.fresh i) s) rows' in
                    let again = rotate_from e id presented left (i + 1) rows'' in
                    if count == 1
                    then (some (s.user_id, format s.id (e.fresh i)), rows'')
                    else again)
                else (none, delete_session s.id rows'))
      ]

  unfoldable pub rotate_parsed :
      Env → Option (Text × Text) → List Session → Option (ℕ × Text) × List Session
  unfolding rotate_from
  rotate_parsed e none rows = (none, rows)
  rotate_parsed e (some (id, secret)) rows =
      rotate_from e id (hash secret) max_rotation_attempts 0 rows

  unfoldable pub rotate : Env → Option Text → List Session → Option (ℕ × Text) × List Session
  unfolding rotate_parsed
  rotate e token rows = rotate_parsed e (parse token) rows

unfoldable pub revoke_parsed : ℕ → Option (Text × Text) → List Session → List Session
revoke_parsed user none rows = rows
revoke_parsed user (some (id, secret)) rows =
    select (λ s. not (same_text s.id id && s.user_id == user)) rows

-- Only a session of this user.
unfoldable pub revoke : ℕ → Option Text → List Session → List Session
unfolding revoke_parsed
revoke user token rows = revoke_parsed user (parse token) rows
