-- ===== src/Session/Tests.antt =====
-- Tests of sessions, with a hash that puts one character in front.
use sealvo.Base.{ℕ, ◌≡◌, ◌≢◌, refl, ap, Option, none, some, [], ◌∷◌, arith, replicate}
use sealvo.Session.Token.{Text, parse, format, same_text}
use sealvo.Session.{Session, Env, find_session, rotate, expiry}
use sealvo.Session.Rotation.{rotate_exchanges}
use sealvo.Session.Replay.{replay_revokes}

abbrev mark_hash : Text → Text
mark_hash t = 1 ∷ t

abbrev sid : Text
sid = replicate 36 b'a'

abbrev first_secret : Text
first_secret = replicate 64 b'b'

abbrev second_secret : Text
second_secret = replicate 64 b'c'

abbrev third_secret : Text
third_secret = replicate 64 b'd'

abbrev device : Session
device = record {
  id = sid;
  user_id = 7;
  token_hash = mark_hash first_secret;
  previous_hash = none;
  rotated_at = none;
  expires_at = 604_800_000;
  created_at = 0;
}

abbrev token : Option Text
token = some (format sid first_secret)

abbrev at_one : Text → ℕ
at_one (c ∷ d ∷ t) = d
at_one t = 0

other_hash : mark_hash second_secret ≢ mark_hash first_secret
other_hash e = let h : ◌≡◌ {A = ℕ} 99 98 = ap at_one e in absurd (omega arith)

at_time : ℕ → Text → Env mark_hash
at_time t secret = record { others = λ i rows. rows; clock = λ i. t; fresh = λ i. secret }

parse-token : parse token ≡ some (sid, first_secret)
unfolding parse
parse-token = refl

rotate_exchanges_example :
    (rotate mark_hash (at_time 1_000 second_secret) token (device ∷ [])).0
    ≡ some (7, format sid second_secret)
unfolding at_time parse find_session same_text
rotate_exchanges_example =
    (rotate_exchanges mark_hash (at_time 1_000 second_secret) sid first_secret token (device ∷ [])
      device parse-token refl (tt, tt) refl (omega arith) refl).0

replay_revokes_example :
    let (reply, rows₂) =
      rotate mark_hash
        (at_time 50_000 third_secret)
        token
        (rotate mark_hash (at_time 1_000 second_secret) token (device ∷ [])).1 in
    (reply ≡ none)
    × (find_session sid rows₂ ≡ none)
    × ((rotate mark_hash (at_time 60_000 third_secret) (some (format sid second_secret)) rows₂).0
        ≡ none)
unfolding at_time parse find_session same_text expiry
replay_revokes_example =
    replay_revokes mark_hash (at_time 1_000 second_secret) (at_time 50_000 third_secret) sid
      first_secret token (device ∷ []) device parse-token refl (tt, tt) refl (omega arith) refl
      other_hash refl (omega arith) (at_time 60_000 third_secret) (some (format sid second_secret))
      second_secret (omega arith) refl
