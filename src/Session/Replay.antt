-- ===== src/Session/Replay.antt =====
-- A token presented again after its rotation, and two rotations that race.
use sealvo.Base.{
  ℕ, ◌+◌, ◌≤◌, ◌<◌, ◌≡◌, ◌≢◌, refl, ◌∙◌, true, false, Option, none, some, List, arith,
  if◌then◌else◌, leb, leb_iff, ◌==◌,
}
use sealvo.Session.Token.{Text, same_text_iff, same_text_refl, parse, format}
use sealvo.Session.Table.{
  Distinct, swap-Distinct, swap-count, find-swap_self, swap-unmatched, revoke_row,
}
use sealvo.Session.{
  Session, rotation_leeway, expiry, find_session, swap, is_just_rotated, rotated, Env, rotate_from,
  rotate_parsed, rotate, revoke, revoke_parsed,
}
use sealvo.Session.Rotation.{acceptable, rotate_accepted, rotate_exchanges, rotate_revokes}

rotate_missing :
    (hash : Text → Text) (e : Env hash) (id secret : Text) (token : Option Text)
    (rows : List Session)
    → parse token ≡ some (id, secret)
    → find_session id rows ≡ none
    → (rotate hash e token rows).0 ≡ none
unfolding rotate rotate_parsed rotate_from
rotate_missing hash e id secret token rows p m = ground arith

-- A current token is rotated once, and then presented again.
module _ (hash : Text → Text) (e₁ e₂ : Env hash) (id secret : Text) (token : Option Text)
    (rows : List Session) (s : Session) (reads : parse token ≡ some (id, secret))
    (found : find_session id rows ≡ some s) (one_row : Distinct rows)
    (quiet₁ : e₁.others 0 rows ≡ rows) (live₁ : e₁.clock 0 < s.expires_at)
    (current : hash secret ≡ s.token_hash) (fresh_hash : hash (e₁.fresh 0) ≢ hash secret)
    (quiet₂ : e₂.others 0 (rotate hash e₁ token rows).1 ≡ (rotate hash e₁ token rows).1)
    (live₂ : e₂.clock 0 < expiry (e₁.clock 0) s.created_at) where
  is_current : acceptable hash e₁ id secret token rows s reads found one_row quiet₁ live₁ ≡ true
  is_current = rw current (ground (arith, same_text_refl s.token_hash))

  distinct_after : Distinct (rotate hash e₁ token rows).1
  unfolding rotated
  distinct_after =
      rw
        (rotate_accepted hash e₁ id secret token rows s reads found one_row quiet₁ live₁ is_current)
        (swap-Distinct s.id s.token_hash (rotated hash (e₁.clock 0) (e₁.fresh 0) s) (λ q. refl) rows
          one_row)

  abbrev after_first : Session
  after_first = rotated hash (e₁.clock 0) (e₁.fresh 0) s s

  first : find_session id (rotate hash e₁ token rows).1 ≡ some after_first
  unfolding rotated
  first =
      (rotate_exchanges hash e₁ id secret token rows s reads found one_row quiet₁ live₁
        is_current).1

  second_verdict :
      acceptable hash e₂ id secret token
        (rotate hash e₁ token rows).1
        after_first
        reads
        first
        distinct_after
        quiet₂
        (unfold rotated in live₂)
      ≡ leb (e₂.clock 0) (e₁.clock 0 + rotation_leeway)
  unfolding rotated is_just_rotated
  second_verdict = ground (
    arith,
    same_text_iff (hash secret) (hash (e₁.fresh 0)),
    same_text_iff (hash secret) s.token_hash,
  )

  -- Within the leeway it is a lost response or a concurrent tab: it is exchanged again.
  pub replay_in_leeway :
      e₂.clock 0 ≤ e₁.clock 0 + rotation_leeway
      → (rotate hash e₂ token (rotate hash e₁ token rows).1).0
        ≡ some (s.user_id, format id (e₂.fresh 0))
  unfolding rotated
  replay_in_leeway h =
      (rotate_exchanges hash e₂ id secret token (rotate hash e₁ token rows).1 after_first reads
        first distinct_after quiet₂ live₂ (second_verdict ∙ (leb_iff _ _).1 h)).0

  -- After the leeway it revokes the session: no token of the session is accepted from then on,
  -- the one that the first rotation handed out included.
  pub replay_revokes :
      (e₃ : Env hash) (later : Option Text) (any_secret : Text)
      → e₁.clock 0 + rotation_leeway < e₂.clock 0
      → parse later ≡ some (id, any_secret)
      → let (reply, rows₂) = rotate hash e₂ token (rotate hash e₁ token rows).1 in
        (reply ≡ none) × (find_session id rows₂ ≡ none) × ((rotate hash e₃ later rows₂).0 ≡ none)
  unfolding rotated
  replay_revokes e₃ later any_secret h p =
      let too_late : leb (e₂.clock 0) (e₁.clock 0 + rotation_leeway) ≡ false = ground arith in
      let gone =
        rotate_revokes hash e₂ id secret token (rotate hash e₁ token rows).1 after_first reads first
          distinct_after quiet₂ live₂ (second_verdict ∙ too_late) in
      (gone.0, gone.1, rotate_missing hash e₃ id any_secret later _ p gone.1)

-- Two requests that read the same row: once one has written, the other's write, which expects the
-- hash it read, matches no row and changes nothing.
pub swap_race :
    (hash : Text → Text) (id : Text) (now₁ now₂ : ℕ) (secret₁ secret₂ : Text) (s : Session)
    (rows : List Session)
    → find_session id rows ≡ some s
    → Distinct rows
    → hash secret₁ ≢ s.token_hash
    → let rows₁ = (swap id s.token_hash (rotated hash now₁ secret₁ s) rows).1 in
      ((swap id s.token_hash (rotated hash now₁ secret₁ s) rows).0 ≡ 1)
      × (swap id s.token_hash (rotated hash now₂ secret₂ s) rows₁ ≡ (0, rows₁))
unfolding rotated
swap_race hash id now₁ now₂ secret₁ secret₂ s rows found d differs =
    let w₁ = rotated hash now₁ secret₁ s in
    let w₂ = rotated hash now₂ secret₂ s in
    let rows₁ = (swap id s.token_hash w₁ rows).1 in
    let first = find-swap_self id s.token_hash w₁ (λ q. refl) rows s found refl in
    let none_written =
      swap-count id s.token_hash w₂ (λ q. refl) rows₁
        (swap-Distinct id s.token_hash w₁ (λ q. refl) rows d)
      ∙ rw first (ground (arith, same_text_iff (hash secret₁) s.token_hash)) in
    (
      swap-count id s.token_hash w₁ (λ q. refl) rows d
          ∙ rw found (rw (same_text_refl s.token_hash)),
      λ i. (none_written i, swap-unmatched id s.token_hash w₂ rows₁ none_written i),
    )

-- Revocation needs the user's own session: another user's token removes nothing.
pub revoke_own :
    (user : ℕ) (token : Option Text) (id secret : Text) (s : Session) (rows : List Session)
    → parse token ≡ some (id, secret)
    → find_session id rows ≡ some s
    → Distinct rows
    → find_session id (revoke user token rows) ≡ (if s.user_id == user then none else some s)
unfolding revoke revoke_parsed
revoke_own user token id secret s rows p found d = rw p (revoke_row user id s rows found d)
