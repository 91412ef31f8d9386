-- ===== src/Accounts/Verification/Rate.antt =====
-- How often an account can have an address of its choice emailed.
use sealvo.Base.{
  ℕ, ◌+◌, ◌≤◌, ◌<◌, ◌≡◌, refl, inl, inr, Bool, true, false, ◌&&◌, Option, none, some, List, [], ◌∷◌,
  arith, ◌==◌, if◌then◌else◌, leb, ltb, Bool-cases, Option-cases, leb_iff, ==_iff,
}
use sealvo.Session.Token.{Text}
use sealvo.Accounts.{User, Link, Store, Platform, find_user, revoke_links, of_user}
use sealvo.Accounts.Table.{find_user-id}
use sealvo.Accounts.Verification.{
  Fresh, recent_changes, email_change_window, email_change_max_per_window, replace_link,
  generate_verification_token, send_verification_email, request_email_change, owner_differs,
  verification_token_max_attempts,
}

-- A request of the account in the hour that ends at `t`.
abbrev pub in_hour : ℕ → ℕ → Link → Bool
in_hour t id l =
    l.user_id == id
    && elim l.new_email [ none ↦ false | some e ↦ true ]
    && (leb l.created_at t && ltb t (l.created_at + email_change_window))

unfoldable pub changes_in_hour : ℕ → ℕ → List Link → ℕ
changes_in_hour t id [] = 0
changes_in_hour t id (l ∷ links) =
    let rest = changes_in_hour t id links in if in_hour t id l then rest + 1 else rest

-- In no hour has an account had more than three.
abbrev pub Seldom : List Link → Type 0
Seldom links = (t id : ℕ) → changes_in_hour t id links ≤ 3

revoke_links-changes_in_hour :
    (t id : ℕ) (f : Link → Bool) (links : List Link)
    → changes_in_hour t id (revoke_links f links) ≡ changes_in_hour t id links
unfolding changes_in_hour revoke_links
revoke_links-changes_in_hour t id f [] = refl
revoke_links-changes_in_hour t id f (l ∷ links) =
    ground (arith, revoke_links-changes_in_hour t id f links)

-- What the request counts covers every hour that the new link falls into.
recent-covers :
    (p : Platform) (now t id : ℕ) (links : List Link)
    → now ≤ t
    → changes_in_hour t id links ≤ recent_changes p now id links
unfolding changes_in_hour recent_changes
recent-covers p now t id [] h = omega arith
recent-covers p now t id (l ∷ links) h = ground (arith, recent-covers p now t id links h)

replace_link-Seldom :
    (p : Platform) (now : ℕ) (key token : Text) (user : User) (email : Text) (s : Store)
    → recent_changes p now user.id s.links < 3
    → Seldom s.links
    → Seldom (replace_link p now key token user (some email) s).links
unfolding changes_in_hour replace_link
replace_link-Seldom p now key token user email s few seldom t id = ground (
  arith,
  seldom t id,
  revoke_links-changes_in_hour t id (of_user user.id) s.links,
  recent-covers p now t id s.links,
  ==_iff user.id id,
  leb_iff now t,
)

-- A request for another address keeps that no account has more than three such requests in any
-- hour, on every branch of the request, when no other request writes in between.
pub request_email_change-Seldom :
    (p : Platform) (f : Fresh) (now : ℕ) (queued : Bool) (user_id : ℕ) (new_email : Text)
    (password : Option Text) (s : Store)
    → Seldom s.links
    → Seldom (request_email_change p f now queued user_id new_email password s).1.links
unfolding request_email_change send_verification_email
request_email_change-Seldom p f now queued user_id new_email none s o = o
request_email_change-Seldom p f now queued user_id new_email (some []) s o = o
request_email_change-Seldom p f now queued user_id new_email (some (c ∷ cs)) s o =
    elim (Option-cases (find_user user_id s.users)) [
      | inl gone ↦ rw (request_email_change, gone) o
      | inr (u, found) ↦ elim (Bool-cases (p.bcrypt_compare (c ∷ cs) u.password)) [
        | inr wrong ↦ rw (request_email_change, found, wrong) o
        | inl right ↦
            elim (Bool-cases
              (leb email_change_max_per_window (recent_changes p now user_id s.links))) [
                | inl often ↦ rw (request_email_change, found, right, often) o
                | inr few ↦ elim (Bool-cases (owner_differs p user_id (some new_email) s.users)) [
                  | inl taken ↦ rw (request_email_change, found, right, few, taken) o
                  | inr free ↦
                      elim (Option-cases (
                        generate_verification_token p f verification_token_max_attempts 0
                          s.links)) [
                            | inl no_token ↦
                                rw
                                  (
                                    request_email_change, found, right, few, free,
                                    send_verification_email, no_token,
                                  )
                                  o
                            | inr (token, fresh) ↦
                                let sent =
                                  replace_link-Seldom p now f.key token u new_email s
                                    (ground (arith, find_user-id user_id s.users u found)) o in
                                elim (Bool-cases queued) [
                                  | inl yes_queued ↦
                                      rw
                                        (
                                          request_email_change, found, right, few, free,
                                          send_verification_email, fresh, yes_queued,
                                        )
                                        sent
                                  | inr not_queued ↦
                                      rw
                                        (
                                          request_email_change, found, right, few, free,
                                          send_verification_email, fresh, not_queued,
                                        )
                                        sent
                                ]
                          ]
                ]
              ]
      ]
    ]
