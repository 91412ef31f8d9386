-- ===== src/Accounts/Requests/Access.antt =====
-- Registration and sign-in as sequences of statements.
use sealvo.Base.{
  ℕ, ◌≡◌, refl, inl, inr, Bool, true, false, Option, none, some, Bool-cases, Option-cases,
}
use sealvo.Session.Token.{Text}
use sealvo.Accounts.{User, Store, Platform, find_user, by_username}
use sealvo.Accounts.Reset.{account_of_email}
use sealvo.Accounts.Verification.{Fresh}
use sealvo.Accounts.SignIn.{
  NewUser, register, Registration, login, sign_in, issue_tokens, note_login, refreshed,
  send_account_exists_email, user_id_max_attempts,
}
use sealvo.Accounts.Google.{
  Answer, exchange_failed, profile_failed, profile, google_login, google_create, google_account,
  generate_username,
}
use sealvo.Accounts.Life.{Reach, stay, next, step_take_over, step_sessions, step_notes}
use sealvo.Accounts.Requests.{
  Others, Reach-trans, one, on_ok-Reach, send_verification_email-Reach, create_user-Reach,
}

pub sign_in-Reach :
    (p : Platform) (journals : Bool) (id secret : Text) (now : ℕ) (u : User) (s : Store)
    → Reach p s (sign_in p journals id secret now u s).1
unfolding sign_in issue_tokens note_login
sign_in-Reach p true id secret now u s =
    next s _ _ (step_sessions _ s) (one p _ _ (step_notes _ s.mails _))
sign_in-Reach p false id secret now u s = one p s _ (step_sessions _ s)

pub send_account_exists_email-Reach :
    (p : Platform) (queued : Bool) (u : User) (s : Store)
    → Reach p s (send_account_exists_email p queued u s).1
unfolding send_account_exists_email
send_account_exists_email-Reach p true u s = one p s _ (step_notes s.journal _ s)
send_account_exists_email-Reach p false u s = stay s

pub register-Reach :
    (p : Platform) (others : Store → Store) (ids : ℕ → ℕ) (accepts : NewUser → Bool) (f : Fresh)
    (now : ℕ) (queued : Bool) (salt : Text) (dto : Registration) (s : Store)
    → Others p others
    → Reach p s (register p others ids accepts f now queued salt dto s).1
unfolding register
register-Reach p others ids accepts f now queued salt dto s o =
    elim (Option-cases (by_username p dto.username s.users)) [
      | inr (u, taken) ↦ rw (register, taken) (stay s)
      | inl free ↦ elim (Option-cases (account_of_email p dto.email s.users)) [
        | inr (u, exists) ↦
            rw (register, free, exists)
              (on_ok-Reach p s _ _ (send_account_exists_email-Reach p queued u s) (λ _ t. stay t))
        | inl unknown ↦
            rw (register, free, unknown)
              (Reach-trans p s (others s) _ (o s) (
                on_ok-Reach p (others s) _ _
                  (create_user-Reach p ids accepts now _ user_id_max_attempts 0 (others s))
                  (λ u t.
                    on_ok-Reach p t _ _ (send_verification_email-Reach p f now queued u none t)
                      (λ _ t'. stay t'))))
      ]
    ]

pub login-Reach :
    (p : Platform) (journals : Bool) (id secret : Text) (now : ℕ) (name password : Text) (s : Store)
    → Reach p s (login p journals id secret now name password s).1
unfolding login
login-Reach p journals id secret now name password s =
    elim (Option-cases (by_username p name s.users)) [
      | inl nobody ↦ rw (login, nobody) (stay s)
      | inr (u, found) ↦ elim (Bool-cases (p.bcrypt_compare password u.password)) [
        | inr wrong ↦ rw (login, found, wrong) (stay s)
        | inl right ↦ elim (Bool-cases u.is_verified) [
          | inr not_yet ↦ simp (login, found, right, not_yet) (stay s)
          | inl verified ↦
              simp (login, found, right, verified) (sign_in-Reach p journals id secret now u s)
        ]
      ]
    ]

pub refreshed-state : (p : Platform) (r : Option (ℕ × Text)) (s : Store) → (refreshed p r s).1 ≡ s
unfolding refreshed
refreshed-state p none s = refl
refreshed-state p (some (user_id, token)) s = elim (Option-cases (find_user user_id s.users)) [
  | inl gone ↦ rw (refreshed, gone) refl
  | inr (u, found) ↦ rw (refreshed, found) refl
]

pub google_create-Reach :
    (p : Platform) (ids : ℕ → ℕ) (accepts : NewUser → Bool) (suffix : ℕ → Text) (hashed : Text)
    (now : ℕ) (name : Option Text) (raw : Text) (s : Store)
    → Reach p s (google_create p ids accepts suffix hashed now name raw s).1
unfolding google_create
google_create-Reach p ids accepts suffix hashed now name raw s =
    elim (Option-cases (generate_username p suffix name raw s.users)) [
      | inl none_free ↦ rw (google_create, none_free) (stay s)
      | inr (username, free) ↦
          rw (google_create, free) (create_user-Reach p ids accepts now _ user_id_max_attempts 0 s)
    ]

pub google_login-Reach :
    (p : Platform) (journals : Bool) (ids : ℕ → ℕ) (accepts : NewUser → Bool) (suffix : ℕ → Text)
    (salt token id secret : Text) (now : ℕ) (a : Answer) (s : Store)
    → Reach p s (google_login p journals ids accepts suffix salt token id secret now a s).1
unfolding google_login
google_login-Reach p journals ids accepts suffix salt token id secret now exchange_failed s = stay s
google_login-Reach p journals ids accepts suffix salt token id secret now profile_failed s = stay s
google_login-Reach p journals ids accepts suffix salt token id secret now (profile name raw false)
      s =
    stay s
google_login-Reach p journals ids accepts suffix salt token id secret now (profile name raw true)
      s =
    elim (Option-cases (google_account p raw s.users)) [
      | inl nobody ↦
          rw (google_login, nobody)
            (on_ok-Reach p s _ _
              (google_create-Reach p ids accepts suffix (p.bcrypt_hash salt token) now name raw s)
              (λ u t. sign_in-Reach p journals id secret now u t))
      | inr (u, found) ↦ elim (Bool-cases u.is_verified) [
        | inl verified ↦
            simp (google_login, found, verified) (sign_in-Reach p journals id secret now u s)
        | inr not_yet ↦
            simp (google_login, found, not_yet)
              (next s _ _ (step_take_over u.id (p.bcrypt_hash salt token) s)
                (sign_in-Reach p journals id secret now u _))
      ]
    ]
