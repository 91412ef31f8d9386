-- ===== src/Accounts/Requests.antt =====
-- The requests of the services as sequences of statements: in between, other requests may do any
-- number of statements of their own.
pub mod Access
pub mod Run
use sealvo.Base.{
  ℕ, zero, suc, ◌+◌, ◌≤◌, ◌≡◌, refl, sym, ap, subst, ◌∙◌, inl, inr, Bool, true, false, not, ◌&&◌,
  Option, none, some, List, [], ◌∷◌, arith, All, any, select, length, ◌==◌, if◌then◌else◌, leb,
  Bool-cases, Option-cases,
}
use sealvo.Session.{Session, Env, create, rotate, revoke}
use sealvo.Session.Token.{Text}
use sealvo.SpacedRepetition.{Calendar}
use sealvo.Accounts.{
  User, Link, ResetToken, Store, Platform, Reply, ok, has_id, find_user, by_username, on_ok,
}
use sealvo.Accounts.Reset.{
  send_reset_link, reset_tx, forgot_password, reset_password, find_reset, account_of_email,
}
use sealvo.Accounts.Verification.{
  Fresh, verify_tx, verify_email, replace_link, find_link, owner_differs, send_verification_email,
  generate_verification_token, resend_verification, request_email_change, recent_changes,
  verification_token_max_attempts, email_change_max_per_window,
}
use sealvo.Accounts.SignIn.{
  NewUser, create_user, name_or_email_taken, register, Registration, login, sign_in, issue_tokens,
  note_login, refresh_tokens, refreshed, logout, send_account_exists_email, Tokens,
}
use sealvo.Accounts.Life.{
  Step, Reach, stay, next, step_create, step_reset, step_reset_link, step_verify, step_link,
  step_take_over, step_profile, step_clean, step_sessions, step_notes,
}

pub Reach-trans : (p : Platform) (s t u : Store) → Reach p s t → Reach p t u → Reach p s u
Reach-trans p _ _ u (stay s) r = r
Reach-trans p _ _ u (next s s' t step rest) r = next s s' u step (Reach-trans p s' t u rest r)

pub one : (p : Platform) (s t : Store) → Step p s t → Reach p s t
one p s t step = next s t t step (stay t)

-- What other requests do: any statements.
abbrev pub Others : Platform → (Store → Store) → Type 0
Others p others = (s : Store) → Reach p s (others s)

pub on_ok-Reach :
    {A B : Type 0} (p : Platform) (s : Store) (r : Reply A × Store)
    (f : A → Store → Reply B × Store)
    → Reach p s r.1
    → ((a : A) (t : Store) → Reach p t (f a t).1)
    → Reach p s (on_ok r f).1
unfolding on_ok
on_ok-Reach p s (ok a, t) f r h = Reach-trans p s t (f a t).1 r (h a t)
on_ok-Reach p s (Reply.bad_request, t) f r h = r
on_ok-Reach p s (Reply.unauthorized, t) f r h = r
on_ok-Reach p s (Reply.unverified, t) f r h = r
on_ok-Reach p s (Reply.forbidden, t) f r h = r
on_ok-Reach p s (Reply.not_found, t) f r h = r
on_ok-Reach p s (Reply.conflict, t) f r h = r
on_ok-Reach p s (Reply.too_many_requests, t) f r h = r
on_ok-Reach p s (Reply.internal_error m, t) f r h = r

pub forgot_password-Reach :
    (p : Platform) (now : ℕ) (token : Text) (queued : Bool) (email : Text) (s : Store)
    → Reach p s (forgot_password p now token queued email s).1
unfolding forgot_password
forgot_password-Reach p now token queued email s =
    elim (Option-cases (account_of_email p email s.users)) [
      | inl nobody ↦ rw (forgot_password, nobody) (stay s)
      | inr (u, found) ↦
          rw (forgot_password, found) (one p s _ (step_reset_link now token queued u s))
    ]

pub reset_password-Reach :
    (p : Platform) (others : Store → Store) (now : ℕ) (salt token password : Text) (s : Store)
    → Others p others
    → Reach p s (reset_password p others now salt token password s).1
unfolding reset_password
reset_password-Reach p others now salt token password s o =
    elim (Option-cases (find_reset p now (p.hash_token token) s.resets)) [
      | inl missing ↦ rw (reset_password, missing) (stay s)
      | inr (t, found) ↦
          rw (reset_password, found)
            (Reach-trans p s _ _ (o s) (one p (others s) _ (step_reset _ _ _ (others s))))
    ]

pub verify_email-Reach :
    (p : Platform) (others : ℕ → Store → Store) (now : ℕ) (token : Text) (s : Store)
    → ((i : ℕ) → Others p (others i))
    → Reach p s (verify_email p others now token s).1
unfolding verify_email
verify_email-Reach p others now token s o =
    elim (Option-cases (find_link p now (p.hash_token token) s.links)) [
      | inl missing ↦ rw (verify_email, missing) (stay s)
      | inr (l, found) ↦
          elim (Bool-cases (owner_differs p l.user_id l.new_email (others 0 s).users)) [
            | inl taken ↦ rw (verify_email, found, taken) (o 0 s)
            | inr free ↦
                rw (verify_email, found, free)
                  (Reach-trans p s (others 0 s) _ (o 0 s) (
                    Reach-trans p (others 0 s) (others 1 (others 0 s)) _ (o 1 (others 0 s))
                      (one p _ _ (step_verify now l (others 1 (others 0 s))))))
          ]
    ]

pub send_verification_email-Reach :
    (p : Platform) (f : Fresh) (now : ℕ) (queued : Bool) (user : User) (new_email : Option Text)
    (s : Store)
    → Reach p s (send_verification_email p f now queued user new_email s).1
unfolding send_verification_email
send_verification_email-Reach p f now queued user new_email s =
    elim (Option-cases
      (generate_verification_token p f verification_token_max_attempts 0 s.links)) [
        | inl none_free ↦ rw (send_verification_email, none_free) (stay s)
        | inr (token, fresh) ↦
            let linked =
              one p s (replace_link p now f.key token user new_email s)
                (step_link now f.key token user new_email s) in
            elim (Bool-cases queued) [
              | inl sent ↦
                  rw (send_verification_email, fresh, sent)
                    (Reach-trans p s _ _ linked (one p _ _ (step_notes _ _ _)))
              | inr failed ↦ rw (send_verification_email, fresh, failed) linked
            ]
      ]

pub resend_verification-Reach :
    (p : Platform) (f : Fresh) (now : ℕ) (queued : Bool) (username : Text) (s : Store)
    → Reach p s (resend_verification p f now queued username s).1
unfolding resend_verification send_verification_email replace_link
resend_verification-Reach p f now queued username s =
    elim (Option-cases (by_username p username s.users)) [
      | inl nobody ↦ rw (resend_verification, nobody) (stay s)
      | inr (u, found) ↦ elim (Bool-cases u.is_verified) [
        | inl done ↦ rw (resend_verification, found, done) (stay s)
        | inr not_yet ↦
            rw (resend_verification, found, not_yet)
              (send_verification_email-Reach p f now queued u none s)
      ]
    ]

pub request_email_change-Reach :
    (p : Platform) (f : Fresh) (now : ℕ) (queued : Bool) (user_id : ℕ) (new_email : Text)
    (password : Option Text) (s : Store)
    → Reach p s (request_email_change p f now queued user_id new_email password s).1
unfolding request_email_change
request_email_change-Reach p f now queued user_id new_email none s = stay s
request_email_change-Reach p f now queued user_id new_email (some []) s = stay s
request_email_change-Reach p f now queued user_id new_email (some (c ∷ cs)) s =
    elim (Option-cases (find_user user_id s.users)) [
      | inl gone ↦ rw (request_email_change, gone) (stay s)
      | inr (u, found) ↦ elim (Bool-cases (p.bcrypt_compare (c ∷ cs) u.password)) [
        | inr wrong ↦ rw (request_email_change, found, wrong) (stay s)
        | inl right ↦
            elim (Bool-cases
              (leb email_change_max_per_window (recent_changes p now user_id s.links))) [
                | inl often ↦ rw (request_email_change, found, right, often) (stay s)
                | inr seldom ↦
                    elim (Bool-cases (owner_differs p user_id (some new_email) s.users)) [
                      | inl taken ↦ rw (request_email_change, found, right, seldom, taken) (stay s)
                      | inr free ↦
                          rw (request_email_change, found, right, seldom, free)
                            (send_verification_email-Reach p f now queued u (some new_email) s)
                    ]
              ]
      ]
    ]

pub create_user-Reach :
    (p : Platform) (ids : ℕ → ℕ) (accepts : NewUser → Bool) (now : ℕ) (d : NewUser) (left i : ℕ)
    (s : Store)
    → Reach p s (create_user p ids accepts now d left i s).1
unfolding create_user
create_user-Reach p ids accepts now d zero i s = stay s
create_user-Reach p ids accepts now d (suc left) i s = elim (Bool-cases (accepts d)) [
  | inr refused ↦ rw (create_user, refused) (stay s)
  | inl fine ↦ elim (Bool-cases (any (has_id (ids i)) s.users)) [
    | inl here ↦ rw (create_user, fine, here) (create_user-Reach p ids accepts now d left (i + 1) s)
    | inr absent ↦
        let step = one p s _ (step_create accepts (ids i) now d s) in
        subst (λ (t : Store). Reach p s t) (rw (create_user, fine, absent) refl) step
  ]
]
