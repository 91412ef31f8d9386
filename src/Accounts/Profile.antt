-- ===== src/Accounts/Profile.antt =====
-- apps/api/src/account/account.service.ts (updateProfile) and
-- apps/api/src/maintenance/maintenance.service.ts (cleanupExpired).
use sealvo.Base.{
  ℕ, zero, suc, Bool, true, false, not, ◌&&◌, ◌||◌, Option, none, some, List, [], ◌∷◌, any, select,
  ◌==◌, if◌then◌else◌, leb,
}
use sealvo.Session.{Session}
use sealvo.Session.Token.{Text, same_text}
use sealvo.SpacedRepetition.{Calendar, start_of_today, days_cutoff}
use sealvo.Accounts.{
  User, Link, ResetToken, Entry, Store, Reply, Platform, ok, not_found, conflict, find_user,
  by_username, collated, update_user, on_ok, login_entry, password_change_entry, email_change_entry,
}
use sealvo.Accounts.Reset.{normalize_email}
use sealvo.Accounts.Verification.{Fresh, request_email_change}

pub record ProfileUpdate : Type 0 where
  pub username : Option Text
  pub email : Option Text
  pub current_password : Option Text
  pub ava : Option ℕ

-- An empty text and the number 0 count as absent.
abbrev pub given : Option Text → Option Text
given none = none
given (some []) = none
given (some (c ∷ cs)) = some (c ∷ cs)

abbrev pub given_number : Option ℕ → Option ℕ
given_number none = none
given_number (some zero) = none
given_number (some (suc n)) = some (suc n)

module _ (p : Platform) where
  unfoldable pub username_conflicts : ℕ → Option Text → List User → Bool
  username_conflicts user_id none users = false
  username_conflicts user_id (some name) users = elim (by_username p name users) [
    | none ↦ false
    | some existing ↦ not (existing.id == user_id)
  ]

  -- The address that waits for its confirmation, if the request asks for another one.
  unfoldable pub change_email :
      Fresh → ℕ → Bool → ℕ → Option Text → Option Text → Store → Reply (Option Text) × Store
  change_email f now queued user_id none password s = (ok none, s)
  change_email f now queued user_id (some email) password s =
      let same : Bool = elim (find_user user_id s.users) [
        | none ↦ false
        | some user ↦ same_text (normalize_email p user.email) email
      ] in
      if same
      then (ok none, s)
      else on_ok (request_email_change p f now queued user_id email password s)
          (λ done s'. (ok (some email), s'))

  abbrev pub with_name : Option Text → User → User
  with_name none u = u
  with_name (some name) u = record u { username = name }

  abbrev pub with_ava : Option ℕ → User → User
  with_ava none u = u
  with_ava (some a) u = record u { ava = a }

  abbrev pub name_taken : ℕ → Option Text → List User → Bool
  name_taken user_id none users = false
  name_taken user_id (some name) users =
      any (λ (u : User). collated p u.username name && not (u.id == user_id)) users

  abbrev pub changes_profile : Option Text → Option ℕ → Bool
  changes_profile none none = false
  changes_profile none (some a) = true
  changes_profile (some name) ava = true

  -- users.update and the drop of the cached dashboard. The unique key of the name is the error P2002.
  unfoldable pub write_profile : ℕ → Option Text → Option ℕ → Store → Reply Unit × Store
  write_profile user_id name ava s =
      if not (changes_profile name ava) then (ok tt, s) else elim (find_user user_id s.users) [
        | none ↦ (not_found, s)
        | some user ↦ if name_taken user_id name s.users then (conflict, s) else (
          ok tt,
          record s {
            users = update_user user_id (λ u. with_ava ava (with_name name u)) s.users;
            dashboards = select (λ d. not (d == user_id)) s.dashboards;
          },
        )
      ]

  -- `others` is what other requests do before the last write.
  unfoldable pub update_profile :
      (Store → Store) → Fresh → ℕ → Bool → ℕ → ProfileUpdate → Store → Reply (Option Text) × Store
  update_profile others f now queued user_id dto s =
      if username_conflicts user_id (given dto.username) s.users
      then (conflict, s)
      else on_ok (change_email f now queued user_id (given dto.email) dto.current_password s)
          (λ pending_email s'.
            on_ok (write_profile user_id (given dto.username) (given_number dto.ava) (others s'))
              (λ done s''. (ok pending_email, s'')))

abbrev pub unverified_user_retention_days : ℕ
unverified_user_retention_days = 3

abbrev pub verification_retention_days : ℕ
verification_retention_days = 15

-- A verified account, or one younger than the retention.
unfoldable pub keeps_user : ℕ → User → Bool
keeps_user cutoff u = u.is_verified || leb cutoff u.created_at

abbrev pub entry_user : Entry → ℕ
entry_user (login_entry id) = id
entry_user (password_change_entry id) = id
entry_user (email_change_entry id) = id

-- Whether the user has been deleted.
unfoldable pub is_deleted : ℕ → List User → ℕ → Bool
is_deleted cutoff users id = any (λ (u : User). u.id == id && not (keeps_user cutoff u)) users

-- The foreign keys cascade: the rows of a deleted user go with it.
unfoldable pub delete_unverified : ℕ → Store → Store
delete_unverified cutoff s =
    let gone = is_deleted cutoff s.users in
    record s {
      users = select (keeps_user cutoff) s.users;
      links = select (λ (l : Link). not (gone l.user_id)) s.links;
      resets = select (λ (t : ResetToken). not (gone t.user_id)) s.resets;
      sessions = select (λ (x : Session). not (gone x.user_id)) s.sessions;
      journal = select (λ e. not (gone (entry_user e))) s.journal;
    }

-- The tables that a cleanup goes through, in its order. The last one, `applied_jobs`, is not part of
-- this store.
pub data Task : Type 0 where
  clean_links clean_users clean_sessions clean_resets : Task

abbrev pub tasks : List Task
tasks = clean_links ∷ clean_users ∷ clean_sessions ∷ clean_resets ∷ []

module _ (c : Calendar) where
  unfoldable pub cutoff_of : ℕ → ℕ → ℕ
  cutoff_of days now = days_cutoff c days (start_of_today c now)

  unfoldable pub run_task : ℕ → Task → Store → Store
  run_task now clean_links s = record s {
    links =
        select (λ (l : Link). leb (cutoff_of verification_retention_days now) l.created_at) s.links;
  }
  run_task now clean_users s = delete_unverified (cutoff_of unverified_user_retention_days now) s
  run_task now clean_sessions s = record s {
    sessions = select (λ (x : Session). leb now x.expires_at) s.sessions;
  }
  run_task now clean_resets s = record s {
    resets = select (λ (t : ResetToken). leb now t.expires_at) s.resets;
  }

  -- A task that fails is logged, the next ones run.
  unfoldable pub run_tasks : (Task → Bool) → ℕ → List Task → Store → Store
  run_tasks fails now [] s = s
  run_tasks fails now (t ∷ ts) s = run_tasks fails now ts (if fails t then s else run_task now t s)

  unfoldable pub cleanup_expired : (Task → Bool) → ℕ → Store → Store
  cleanup_expired fails now s = run_tasks fails now tasks s
