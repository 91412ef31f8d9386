-- ===== src/Accounts/Tests.antt =====
-- Tests of accounts.
use sealvo.Base.{ℕ, ◌≡◌, refl, true, some, [], ◌∷◌, arith}
use sealvo.Session.{Session, Env, create}
use sealvo.Session.Token.{Text, format}
use sealvo.Accounts.{
  role_user, Store, User, Link, ResetToken, Reply, ok, bad_request, find_user, by_username,
  pending_of, account_exists_mail, Mail,
}
use sealvo.Accounts.Samples.{
  plain, bob, new_mail, old_password, next_password, bob_reset, bob_link, store, reset_token,
  link_token, unchanged,
}
use sealvo.Accounts.Reset.{reset_password, find_reset, account_of_email}
use sealvo.Accounts.Reset.Effect.{LockedOut, new_password, reset_password-LockedOut, reset_once}
use sealvo.Accounts.Verification.{Fresh, verify_email, find_link, request_email_change, or_email}
use sealvo.Accounts.Verification.Rate.{Seldom, changes_in_hour, request_email_change-Seldom}

reset_reply : (reset_password plain unchanged 1_000 [] reset_token next_password store).0 ≡ ok tt
unfolding reset_password find_reset sealvo.Session.Token.same_text sealvo.Accounts.Reset.reset_tx
reset_reply = refl

found_reset : find_reset plain 1_000 (1 ∷ reset_token) store.resets ≡ some bob_reset
unfolding find_reset sealvo.Session.Token.same_text
found_reset = refl

reset_password-LockedOut_example :
    let (reply, s') = reset_password plain unchanged 1_000 [] reset_token next_password store in
    (reply ≡ ok tt)
    × (find_user 7 s'.users ≡ some (new_password (2 ∷ next_password) bob))
    × LockedOut 7 s'
reset_password-LockedOut_example =
    reset_password-LockedOut plain unchanged 1_000 [] reset_token next_password store bob_reset
      bob_reset bob found_reset found_reset refl

abbrev after_reset : Store
after_reset = (reset_password plain unchanged 1_000 [] reset_token next_password store).1

reset_once_example :
    (reset_password plain unchanged 2_000 [] reset_token old_password after_reset
      ≡ (bad_request, after_reset))
    × ((reset_password plain (λ s. after_reset) 2_000 [] reset_token old_password store).0
        ≡ bad_request)
reset_once_example =
    reset_once plain unchanged 1_000 [] reset_token next_password store reset_reply unchanged 2_000
      [] old_password

found_link : find_link plain 1_000 (1 ∷ link_token) store.links ≡ some bob_link
unfolding find_link sealvo.Session.Token.same_text
found_link = refl

abbrev quietly : ℕ → Store → Store
quietly i s = s

link_reply : (verify_email plain quietly 1_000 link_token store).0 ≡ ok true
unfolding verify_email find_link sealvo.Session.Token.same_text
    sealvo.Accounts.Verification.owner_differs sealvo.Accounts.collated
    sealvo.Accounts.Verification.verify_tx sealvo.Accounts.Verification.use_link
    sealvo.Accounts.Verification.email_taken
link_reply = refl

found_later : find_link plain 1_500 (1 ∷ link_token) store.links ≡ some bob_link
unfolding find_link sealvo.Session.Token.same_text
found_later = refl

abbrev fresh : Fresh
fresh = record { key = 4 ∷ []; token = λ i. 6 ∷ i ∷ [] }

store-Seldom : Seldom store.links
unfolding changes_in_hour
store-Seldom t id = ground arith

request_email_change-Seldom_example :
    Seldom
      (request_email_change plain fresh 2_000 true 7 new_mail (some old_password) store).1.links
request_email_change-Seldom_example =
    request_email_change-Seldom plain fresh 2_000 true 7 new_mail (some old_password) store
      store-Seldom
