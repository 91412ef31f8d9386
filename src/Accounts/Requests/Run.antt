-- ===== src/Accounts/Requests/Run.antt =====
-- Every request of the accounts, and what any sequence of them keeps.
use sealvo.Base.{
  ℕ, sym, subst, inl, inr, Bool, Option, none, some, List, [], ◌∷◌, Bool-cases, Option-cases,
}
use sealvo.Session.{Env}
use sealvo.Session.Token.{Text, same_text}
use sealvo.SpacedRepetition.{Calendar}
use sealvo.Accounts.{Store, Platform, ok, find_user, on_ok}
use sealvo.Accounts.Reset.{forgot_password, reset_password, normalize_email}
use sealvo.Accounts.Verification.{Fresh, verify_email, resend_verification, request_email_change}
use sealvo.Accounts.SignIn.{NewUser, register, Registration, login, refresh_tokens, logout}
use sealvo.Accounts.Google.{Answer, google_login}
use sealvo.Accounts.Profile.{
  ProfileUpdate, update_profile, username_conflicts, change_email, given, cleanup_expired,
  run_tasks, Task, tasks,
}
use sealvo.Accounts.Valid.{Valid}
use sealvo.Accounts.Life.{Reach, stay, next, Reach-Valid, step_profile, step_clean, step_sessions}
use sealvo.Accounts.Requests.{
  Others, Reach-trans, one, on_ok-Reach, forgot_password-Reach, reset_password-Reach,
  verify_email-Reach, resend_verification-Reach, request_email_change-Reach,
}
use sealvo.Accounts.Requests.Access.{
  register-Reach, login-Reach, refreshed-state, google_login-Reach,
}

change_email-Reach :
    (p : Platform) (f : Fresh) (now : ℕ) (queued : Bool) (user_id : ℕ)
    (email password : Option Text) (s : Store)
    → Reach p s (change_email p f now queued user_id email password s).1
unfolding change_email
change_email-Reach p f now queued user_id none password s = stay s
change_email-Reach p f now queued user_id (some email) password s =
    elim (Option-cases (find_user user_id s.users)) [
      | inl gone ↦ rw (change_email, gone) changed
      | inr (u, found) ↦ elim (Bool-cases (same_text (normalize_email p u.email) email)) [
        | inl same ↦ rw (change_email, found, same) (stay s)
        | inr other ↦ rw (change_email, found, other) changed
      ]
    ]
  where
    changed :
        Reach p s
          (on_ok
            (request_email_change p f now queued user_id email password s)
            (λ done (s' : Store). (ok (some email), s'))).1
    changed =
        on_ok-Reach p s _ _ (request_email_change-Reach p f now queued user_id email password s)
          (λ done t. stay t)

update_profile-Reach :
    (p : Platform) (others : Store → Store) (f : Fresh) (now : ℕ) (queued : Bool) (user_id : ℕ)
    (dto : ProfileUpdate) (s : Store)
    → Others p others
    → Reach p s (update_profile p others f now queued user_id dto s).1
unfolding update_profile
update_profile-Reach p others f now queued user_id dto s o =
    elim (Bool-cases (username_conflicts p user_id (given dto.username) s.users)) [
      | inl taken ↦ rw (update_profile, taken) (stay s)
      | inr free ↦
          rw (update_profile, free)
            (on_ok-Reach p s _ _
              (change_email-Reach p f now queued user_id (given dto.email) dto.current_password s)
              (λ pending_email t. Reach-trans p t (others t) _ (o t) (
                on_ok-Reach p (others t) _ _
                  (one p (others t) _ (step_profile user_id _ _ (others t))) (λ done u. stay u))))
    ]

run_tasks-Reach :
    (p : Platform) (c : Calendar) (fails : Task → Bool) (now : ℕ) (ts : List Task) (s : Store)
    → Reach p s (run_tasks c fails now ts s)
unfolding run_tasks
run_tasks-Reach p c fails now [] s = stay s
run_tasks-Reach p c fails now (t ∷ ts) s = elim (Bool-cases (fails t)) [
  | inl failed ↦ rw (run_tasks, failed) (run_tasks-Reach p c fails now ts s)
  | inr ran ↦
      rw (run_tasks, ran) (next s _ _ (step_clean c now t s) (run_tasks-Reach p c fails now ts _))
]

-- A request, with all it gets from outside.
pub data Request (p : Platform) : Type 0 where
  forgot_request : ℕ → Text → Bool → Text → Request p
  reset_request : (others : Store → Store) → Others p others → ℕ → Text → Text → Text → Request p
  verify_request :
      (others : ℕ → Store → Store) → ((i : ℕ) → Others p (others i)) → ℕ → Text → Request p
  resend_request : Fresh → ℕ → Bool → Text → Request p
  change_request : Fresh → ℕ → Bool → ℕ → Text → Option Text → Request p
  register_request :
      (others : Store → Store)
      → Others p others
      → (ℕ → ℕ)
      → (NewUser → Bool)
      → Fresh
      → ℕ
      → Bool
      → Text
      → Registration
      → Request p
  login_request : Bool → Text → Text → ℕ → Text → Text → Request p
  refresh_request : Env p.hash_token → Option Text → Request p
  logout_request : ℕ → Option Text → Request p
  google_request :
      Bool
      → (ℕ → ℕ)
      → (NewUser → Bool)
      → (ℕ → Text)
      → Text
      → Text
      → Text
      → Text
      → ℕ
      → Answer
      → Request p
  profile_request :
      (others : Store → Store) → Others p others → Fresh → ℕ → Bool → ℕ → ProfileUpdate → Request p
  cleanup_request : Calendar → (Task → Bool) → ℕ → Request p

unfoldable pub run : (p : Platform) → Request p → Store → Store
run p (forgot_request now token queued email) s = (forgot_password p now token queued email s).1
run p (reset_request others o now salt token password) s =
    (reset_password p others now salt token password s).1
run p (verify_request others o now token) s = (verify_email p others now token s).1
run p (resend_request f now queued username) s = (resend_verification p f now queued username s).1
run p (change_request f now queued user_id new_email password) s =
    (request_email_change p f now queued user_id new_email password s).1
run p (register_request others o ids accepts f now queued salt dto) s =
    (register p others ids accepts f now queued salt dto s).1
run p (login_request journals id secret now name password) s =
    (login p journals id secret now name password s).1
run p (refresh_request e token) s = (refresh_tokens p e token s).1
run p (logout_request user_id token) s = logout p user_id token s
run p (google_request journals ids accepts suffix salt token id secret now a) s =
    (google_login p journals ids accepts suffix salt token id secret now a s).1
run p (profile_request others o f now queued user_id dto) s =
    (update_profile p others f now queued user_id dto s).1
run p (cleanup_request c fails now) s = cleanup_expired c fails now s

unfoldable pub run_all : (p : Platform) → List (Request p) → Store → Store
run_all p [] s = s
run_all p (r ∷ rs) s = run_all p rs (run p r s)

pub run-Reach : (p : Platform) (r : Request p) (s : Store) → Reach p s (run p r s)
unfolding run refresh_tokens logout cleanup_expired
run-Reach p (forgot_request now token queued email) s =
    forgot_password-Reach p now token queued email s
run-Reach p (reset_request others o now salt token password) s =
    reset_password-Reach p others now salt token password s o
run-Reach p (verify_request others o now token) s = verify_email-Reach p others now token s o
run-Reach p (resend_request f now queued username) s =
    resend_verification-Reach p f now queued username s
run-Reach p (change_request f now queued user_id new_email password) s =
    request_email_change-Reach p f now queued user_id new_email password s
run-Reach p (register_request others o ids accepts f now queued salt dto) s =
    register-Reach p others ids accepts f now queued salt dto s o
run-Reach p (login_request journals id secret now name password) s =
    login-Reach p journals id secret now name password s
run-Reach p (refresh_request e token) s =
    subst (Reach p s) (sym (refreshed-state p _ _)) (one p s _ (step_sessions _ s))
run-Reach p (logout_request user_id token) s = one p s _ (step_sessions _ s)
run-Reach p (google_request journals ids accepts suffix salt token id secret now a) s =
    google_login-Reach p journals ids accepts suffix salt token id secret now a s
run-Reach p (profile_request others o f now queued user_id dto) s =
    update_profile-Reach p others f now queued user_id dto s o
run-Reach p (cleanup_request c fails now) s = run_tasks-Reach p c fails now tasks s

-- From tables whose unique keys hold, with at most one pending link and one reset token for each
-- account, any sequence of requests of the account services leaves such tables. A registration, a
-- reset, a confirmation and a change of the profile have any statements of concurrent requests in
-- between, at the places of the model; every other request is taken without any.
pub run_all-Valid :
    (p : Platform) (rs : List (Request p)) (s : Store) → Valid p s → Valid p (run_all p rs s)
unfolding run_all
run_all-Valid p [] s v = v
run_all-Valid p (r ∷ rs) s v =
    run_all-Valid p rs (run p r s) (Reach-Valid p s _ (run-Reach p r s) v)
