-- ===== src/Accounts/SignIn/Tests.antt =====
-- Tests of registration, of Google sign-in, and of a sequence of requests.
use sealvo.Base.{
  ℕ, ◌≤◌, ◌≡◌, refl, Bool, true, false, none, some, List, [], ◌∷◌, arith, replicate, All, length,
}
use sealvo.Session.{Session, Env, create}
use sealvo.Session.Token.{Text, format}
use sealvo.Accounts.{
  Store, User, Link, Reply, ok, find_user, by_username, pending_of, account_exists_mail, revoked,
}
use sealvo.Accounts.Samples.{
  plain, bob, bob_name, bob_mail, next_password, old_password, store, unchanged, reset_token,
  link_token,
}
use sealvo.Accounts.Reset.{account_of_email, reset_password}
use sealvo.Accounts.Reset.Effect.{new_password}
use sealvo.Accounts.Verification.{Fresh, generate_verification_token}
use sealvo.Accounts.SignIn.{
  register_response, Registration, NewUser, Tokens, register, create_user, new_user, Access,
}
use sealvo.Accounts.SignIn.Enumeration.{register_hides, registered}
use sealvo.Accounts.Google.{google_login, profile, google_account, generate_username, is_allowed}
use sealvo.Accounts.Google.Takeover.{google_login-take_over}
use sealvo.Accounts.Username.{Allowed, Suffixes, generate_username_lem}
use sealvo.Accounts.Valid.{Valid, count_pending, count_resets}
use sealvo.Accounts.Life.{stay}
use sealvo.Accounts.Requests.Run.{
  Request, run_all, run_all-Valid, forgot_request, reset_request, verify_request, login_request,
}

abbrev fresh : Fresh
fresh = record { key = 4 ∷ []; token = λ i. 6 ∷ i ∷ [] }

abbrev ann_name : Text
ann_name = b'a' ∷ b'n' ∷ b'n' ∷ []

-- A registration with bob's address.
abbrev dto : Registration
dto = record { username = ann_name; email = bob_mail; password = old_password; avatar = none }

abbrev empty_store : Store
empty_store = record store { users = []; links = []; resets = []; sessions = [] }

abbrev any_id : ℕ → ℕ
any_id i = i

abbrev all_accepted : NewUser → Bool
all_accepted d = true

known_address : account_of_email plain bob_mail store.users ≡ some bob
unfolding account_of_email sealvo.Accounts.Reset.preferred_stored_email
    sealvo.Accounts.Reset.email_lookup_forms sealvo.Session.Token.same_text
    sealvo.Accounts.Reset.trim_start sealvo.Accounts.Reset.trim_end sealvo.Accounts.Reset.is_space
    sealvo.Accounts.Reset.normalize_email sealvo.Accounts.collated
known_address = refl

unknown_address : account_of_email plain bob_mail empty_store.users ≡ none
unfolding account_of_email sealvo.Accounts.Reset.preferred_stored_email
unknown_address = refl

created :
    (create_user plain any_id all_accepted 1_000 (registered plain [] dto) 5 0 empty_store).0
    ≡ ok (new_user 0 1_000 (registered plain [] dto))
unfolding create_user sealvo.Accounts.SignIn.name_or_email_taken
created = refl

first_token :
    generate_verification_token plain fresh 5 0
      (create_user plain any_id all_accepted 1_000
        (registered plain [] dto)
        5
        0
        empty_store).1.links
    ≡ some (6 ∷ 0 ∷ [])
unfolding create_user generate_verification_token sealvo.Accounts.SignIn.name_or_email_taken
first_token = refl

register_hides_example :
    ((register plain unchanged any_id all_accepted fresh 1_000 true [] dto store).0
      ≡ (register plain unchanged any_id all_accepted fresh 1_000 true [] dto empty_store).0)
    × (register plain unchanged any_id all_accepted fresh 1_000 true [] dto store ≡ (
      ok register_response,
      record store { mails = account_exists_mail bob_mail bob_name ∷ [] },
    ))
unfolding sealvo.Accounts.collated sealvo.Session.Token.same_text
register_hides_example =
    register_hides plain unchanged any_id all_accepted fresh 1_000 true [] dto store empty_store bob
      (new_user 0 1_000 (registered plain [] dto)) (6 ∷ 0 ∷ []) refl known_address refl
      unknown_address created first_token

abbrev hex_suffix : ℕ → Text
hex_suffix i = replicate 6 b'f'

matched : google_account plain bob_mail store.users ≡ some bob
unfolding google_account sealvo.Accounts.collated sealvo.Session.Token.same_text
    sealvo.Accounts.Reset.normalize_email sealvo.Accounts.Reset.trim_start
    sealvo.Accounts.Reset.trim_end sealvo.Accounts.Reset.is_space
matched = refl

google_login-take_over_example :
    let (reply, s') =
      google_login plain true any_id all_accepted hex_suffix [] next_password
        (replicate 36 b'd')
        (replicate 64 b'e')
        1_000
        (profile none bob_mail true)
        store in
    ((tokens : Tokens) × (reply ≡ ok tokens) × (tokens.access_token.sub ≡ 7))
    × (find_user 7 s'.users ≡ some (new_password (2 ∷ next_password) bob))
    × All (λ (x : Session). x.user_id ≡ 7 → x.id ≡ replicate 36 b'd') s'.sessions
    × All (λ (l : Link). pending_of 7 l ≡ false) s'.links
google_login-take_over_example =
    google_login-take_over plain true any_id all_accepted hex_suffix [] next_password
      (replicate 36 b'd') (replicate 64 b'e') 1_000 none bob_mail store bob matched refl refl

hex_suffix-Suffixes : Suffixes hex_suffix
unfolding is_allowed
hex_suffix-Suffixes i = (ground arith, refl)

-- The short local part of the address and the missing name leave `user`, which is free.
abbrev user_name : Text
user_name = b'u' ∷ b's' ∷ b'e' ∷ b'r' ∷ []

free_name : generate_username plain hex_suffix none bob_mail store.users ≡ some user_name
unfolding generate_username sealvo.Accounts.Google.free_username sealvo.Accounts.collated
    sealvo.Session.Token.same_text sealvo.Accounts.Google.candidate
    sealvo.Accounts.Google.username_base sealvo.Accounts.Google.sanitize
    sealvo.Accounts.Google.before_at sealvo.Accounts.Google.is_mark
    sealvo.Accounts.Google.is_allowed
free_name = refl

generate_username_lem_example :
    (by_username plain user_name store.users ≡ none)
    × Allowed user_name
    × (3 ≤ length user_name)
    × (length user_name ≤ 47)
generate_username_lem_example =
    generate_username_lem plain hex_suffix none bob_mail store.users user_name hex_suffix-Suffixes
      free_name

store-Valid : Valid plain store
unfolding count_pending count_resets
store-Valid = record {
  unique_keys = (tt, tt);
  one_link = λ id. ground arith;
  one_reset = λ id. ground arith;
}

-- A reset, a new reset link, then the confirmation of a link that the reset has revoked.
abbrev requests : List (Request plain)
requests =
    reset_request unchanged stay 1_000 [] reset_token next_password
    ∷ forgot_request 2_000 (5 ∷ []) true bob_mail
    ∷ verify_request (λ i s. s) (λ i s. stay s) 3_000 link_token
    ∷ login_request true (replicate 36 b'd') (replicate 64 b'e') 4_000 bob_name next_password
    ∷ []

run_all-Valid_example : Valid plain (run_all plain requests store)
run_all-Valid_example = run_all-Valid plain requests store store-Valid
