-- ===== src/Accounts/Verification.antt =====
-- apps/api/src/auth/email-verification.service.ts and email-change.service.ts: the links that
-- confirm an address. `others i` is what other requests do before the i-th access of a request.
pub mod Effect
pub mod Rate
use sealvo.Base.{
  String, ℕ, zero, suc, ◌+◌, ◌*◌, Bool, true, false, not, ◌&&◌, Option, none, some, List, [], ◌∷◌,
  select, any, find, ◌==◌, if◌then◌else◌, length, ltb, leb,
}
use sealvo.Session.Token.{Text, same_text}
use sealvo.Accounts.{
  User, Link, Store, Entry, Reply, Platform, ok, bad_request, unauthorized, forbidden, not_found,
  conflict, too_many_requests, internal_error, try_later, pending, used, verification_mail,
  email_change_entry, find_user, by_email, by_username, collated, update_user, revoke_links,
  is_pending, used_before, of_user,
}

abbrev pub verification_token_ttl : ℕ
verification_token_ttl = 3 * 60 * 60 * 1_000

abbrev pub verification_token_max_attempts : ℕ
verification_token_max_attempts = 5

abbrev pub email_change_window : ℕ
email_change_window = 60 * 60 * 1_000

abbrev pub email_change_max_per_window : ℕ
email_change_max_per_window = 3

-- The conditions of the row that an update of verifyEmail expects.
abbrev pub open_link : Link → Bool
open_link l = is_pending l.status && not (used_before l.used_at)

-- updateMany of one link, and the count of the rows it wrote.
unfoldable pub use_link : ℕ → Text → List Link → ℕ × List Link
use_link now id [] = (0, [])
use_link now id (l ∷ links) =
    let (count, rest) = use_link now id links in
    if same_text l.id id && open_link l
    then (count + 1, record l { status = used; used_at = some now } ∷ rest)
    else (count, l ∷ rest)

abbrev pub or_email : Option Text → User → User
or_email none u = u
or_email (some email) u = record u { email = email }

-- Fresh randomness of a request: the key of a new row, and the token of each attempt.
pub record Fresh : Type 0 where
  pub key : Text
  pub token : ℕ → Text

abbrev pub verification_email_failed : String
verification_email_failed = "Une erreur est survenue lors de l'envoi de l'email de vérification."

module _ (p : Platform) where
  unfoldable pub find_link : ℕ → Text → List Link → Option Link
  find_link now token_hash links =
      find (λ (l : Link). same_text l.token_hash token_hash && open_link l && ltb now l.expires_at)
        links

  -- Another account than `user_id` has this address.
  unfoldable pub email_taken : ℕ → Option Text → List User → Bool
  email_taken user_id none users = false
  email_taken user_id (some email) users =
      any (λ (u : User). collated p u.email email && not (u.id == user_id)) users

  -- The lookup before the transaction: the row of the address, whose owner is another account.
  unfoldable pub owner_differs : ℕ → Option Text → List User → Bool
  owner_differs user_id none users = false
  owner_differs user_id (some email) users = elim (by_email p email users) [
    | none ↦ false
    | some owner ↦ not (owner.id == user_id)
  ]

  abbrev pub change_entry : ℕ → Option Text → List Entry → List Entry
  change_entry user_id none journal = journal
  change_entry user_id (some email) journal = email_change_entry user_id ∷ journal

  -- The transaction, all of it or nothing; the unique key of the address is the error P2002.
  unfoldable pub verify_tx : ℕ → Link → Store → Reply Bool × Store
  verify_tx now l s =
      let (count, links) = use_link now l.id s.links in
      if not (count == 1) then (bad_request, s) else elim (find_user l.user_id s.users) [
        | none ↦ (not_found, s)
        | some u ↦ if email_taken l.user_id l.new_email s.users then (conflict, s) else (
          ok (elim l.new_email [ none ↦ false | some e ↦ true ]),
          record s {
            links = links;
            users =
                update_user l.user_id (λ u. or_email l.new_email (record u { is_verified = true }))
                  s.users;
            journal = change_entry l.user_id l.new_email s.journal;
          },
        )
      ]

  -- The answer says whether an address was changed.
  unfoldable pub verify_email : (ℕ → Store → Store) → ℕ → Text → Store → Reply Bool × Store
  verify_email others now token s = elim (find_link now (p.hash_token token) s.links) [
    | none ↦ (bad_request, s)
    | some l ↦
        if owner_differs l.user_id l.new_email (others 0 s).users
        then (conflict, others 0 s)
        else verify_tx now l (others 1 (others 0 s))
  ]

  -- The first token whose hash no link has; its attempts number from `i`.
  unfoldable pub generate_verification_token : Fresh → ℕ → ℕ → List Link → Option Text
  generate_verification_token f zero i links = none
  generate_verification_token f (suc left) i links =
      let again = generate_verification_token f left (i + 1) links in
      if any (λ (l : Link). same_text l.token_hash (p.hash_token (f.token i))) links
      then again
      else some (f.token i)

  abbrev pub or_own : User → Option Text → Text
  or_own user none = user.email
  or_own user (some email) = email

  -- Every older link of the user is revoked, the new one is added.
  unfoldable pub replace_link : ℕ → Text → Text → User → Option Text → Store → Store
  replace_link now key token user new_email s = record s {
    links =
        record {
          id = key;
          user_id = user.id;
          token_hash = p.hash_token token;
          expires_at = now + verification_token_ttl;
          status = pending;
          created_at = now;
          used_at = none;
          new_email = new_email;
        }
        ∷ revoke_links (of_user user.id) s.links;
  }

  -- `queued` is whether the email queue takes the email: if not, the request fails.
  unfoldable pub send_verification_email :
      Fresh → ℕ → Bool → User → Option Text → Store → Reply Unit × Store
  send_verification_email f now queued user new_email s =
      elim (generate_verification_token f verification_token_max_attempts 0 s.links) [
        | none ↦ (internal_error try_later, s)
        | some token ↦
            let s' = replace_link now f.key token user new_email s in
            if queued
            then (
              ok tt,
              record s' { mails = verification_mail (or_own user new_email) token ∷ s.mails },
            )
            else (internal_error verification_email_failed, s')
      ]

  -- Errors are only logged: the answer does not tell whether an account matched.
  unfoldable pub resend_verification : Fresh → ℕ → Bool → Text → Store → Reply Unit × Store
  resend_verification f now queued username s = elim (by_username p username s.users) [
    | none ↦ (ok tt, s)
    | some user ↦
        let sent = send_verification_email f now queued user none s in
        if user.is_verified then (ok tt, s) else (ok tt, sent.1)
  ]

  abbrev pub changes_address : Link → Bool
  changes_address l = elim l.new_email [ none ↦ false | some e ↦ true ]

  -- The requests of the account that are younger than the window at `now`.
  unfoldable pub recent_changes : ℕ → ℕ → List Link → ℕ
  recent_changes now user_id links = length (
      select
        (λ (l : Link).
          l.user_id == user_id && changes_address l && ltb now (l.created_at + email_change_window))
        links)

  -- An empty password counts as none.
  unfoldable pub request_email_change :
      Fresh → ℕ → Bool → ℕ → Text → Option Text → Store → Reply Unit × Store
  request_email_change f now queued user_id new_email none s = (bad_request, s)
  request_email_change f now queued user_id new_email (some []) s = (bad_request, s)
  request_email_change f now queued user_id new_email (some (c ∷ cs)) s =
      elim (find_user user_id s.users) [
        | none ↦ (unauthorized, s)
        | some user ↦
            if not (p.bcrypt_compare (c ∷ cs) user.password)
            then (forbidden, s)
            else (if leb email_change_max_per_window (recent_changes now user_id s.links)
                then (too_many_requests, s)
                else (if owner_differs user_id (some new_email) s.users
                    then (conflict, s)
                    else send_verification_email f now queued user (some new_email) s))
      ]
