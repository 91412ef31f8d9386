-- ===== src/Reminders.antt =====
-- apps/api/src/reminder/reminder.service.ts: one email to every user with words that are due. The
-- templates are left out; the email queue answers whether it takes an email.
pub mod Counting
mod Tests
use sealvo.Base.{
  ℕ, ◌+◌, Bool, true, false, not, ◌&&◌, ◌||◌, Option, none, some, List, [], ◌∷◌, ◌++◌, map, any,
  find, length, ltb, leb, ◌==◌, if◌then◌else◌, select,
}
use sealvo.Levels.{Level}
use sealvo.SpacedRepetition.{Calendar, start_of_today, is_due}

-- A row of `learning` with the owner of its package, and whether the package is active.
pub record DueRow : Type 0 where
  pub detail_id : ℕ
  pub level : Level
  pub date_memorized : Option ℕ
  pub user_id : ℕ
  pub is_active : Bool

pub record DueSummary : Type 0 where
  pub total : ℕ
  pub preview : List (ℕ × Level)

pub record ReminderUser : Type 0 where
  pub id : ℕ
  pub streak : ℕ

abbrev pub preview_limit : ℕ
preview_limit = 5

-- byUser: a map from users to their summary, in the order of their first row.
abbrev pub ByUser : Type 0
ByUser = List (ℕ × DueSummary)

abbrev pub no_words : DueSummary
no_words = record { total = 0; preview = [] }

-- One more word of the user.
unfoldable pub count_row : DueRow → DueSummary → DueSummary
count_row r s = record {
  total = s.total + 1;
  preview =
      if ltb (length s.preview) preview_limit
      then s.preview ++ (r.detail_id, r.level) ∷ []
      else s.preview;
}

unfoldable pub add_row : DueRow → ByUser → ByUser
add_row r [] = (r.user_id, count_row r no_words) ∷ []
add_row r ((user, s) ∷ more) =
    let rest = add_row r more in
    if user == r.user_id then (user, count_row r s) ∷ more else (user, s) ∷ rest

unfoldable pub group_rows : List DueRow → ByUser → ByUser
group_rows [] acc = acc
group_rows (r ∷ rows) acc = group_rows rows (add_row r acc)

unfoldable pub summary_of : ℕ → ByUser → Option DueSummary
summary_of user [] = none
summary_of user ((u, s) ∷ more) =
    let rest = summary_of user more in if u == user then some s else rest

abbrev pub of_whom : Option ℕ → DueRow → Bool
of_whom none r = true
of_whom (some user) r = r.user_id == user

module _ (c : Calendar) where
  unfoldable pub due_row : Option ℕ → ℕ → DueRow → Bool
  due_row user now r =
      r.is_active && of_whom user r && is_due c r.level r.date_memorized (start_of_today c now)

  unfoldable pub find_due_words_by_user : Option ℕ → ℕ → List DueRow → ByUser
  find_due_words_by_user user now rows = group_rows (select (due_row user now) rows) []

-- What the template of the email shows; the words of a preview whose details are gone are left out.
pub record Reminder : Type 0 where
  pub user : ℕ
  pub word_count : ℕ
  pub words : List (ℕ × Level)
  pub has_more_words : Bool
  pub is_at_risk : Bool

unfoldable pub reminder : (ℕ → Bool) → ReminderUser → DueSummary → Reminder
reminder has_details u s = record {
  user = u.id;
  word_count = s.total;
  words = select (λ w. has_details w.0) s.preview;
  has_more_words = ltb preview_limit s.total;
  is_at_risk = ltb 0 u.streak && ltb 0 s.total;
}

pub record Counts : Type 0 where
  pub sent : ℕ
  pub failed : ℕ
  pub skipped : Bool

-- The users in the order that the database gives them in; `accepts` is the queue's answer.
unfoldable pub send_each :
    (Reminder → Bool) → (ℕ → Bool) → ByUser → List ReminderUser → Counts × List Reminder
send_each accepts has_details by_user [] = (record { sent = 0; failed = 0; skipped = false }, [])
send_each accepts has_details by_user (u ∷ users) =
    let (n, mails) = send_each accepts has_details by_user users in
    elim (summary_of u.id by_user) [
      | none ↦ (n, mails)
      | some s ↦
          let mail = reminder has_details u s in
          if accepts mail
          then (record n { sent = n.sent + 1 }, mail ∷ mails)
          else (record n { failed = n.failed + 1 }, mails)
    ]

abbrev pub has_summary : ByUser → ReminderUser → Bool
has_summary by_user u = elim (summary_of u.id by_user) [ none ↦ false | some s ↦ true ]

-- The hours that a run has claimed; with Redis down (`none`) every run sends.
unfoldable pub send_reminders :
    Calendar
    → Option (List ℕ)
    → (Reminder → Bool)
    → (ℕ → Bool)
    → ℕ
    → ℕ
    → List DueRow
    → List ReminderUser
    → Counts × List Reminder × Option (List ℕ)
send_reminders c claimed accepts has_details hour now rows users =
    let by_user = find_due_words_by_user c none now rows in
    let (counts, mails) =
      send_each accepts has_details by_user (select (has_summary by_user) users) in
    let taken : Bool = elim claimed [ none ↦ false | some hours ↦ any (λ h. h == hour) hours ] in
    if taken
    then (record { sent = 0; failed = 0; skipped = true }, [], claimed)
    else (counts, mails, elim claimed [ none ↦ none | some hours ↦ some (hour ∷ hours) ])

pub data TestReply : Type 0 where
  nothing_due no_such_user enqueued not_enqueued : TestReply

-- The reminder that a user asks for; `user_of` is the table of users.
unfoldable pub send_test_reminder :
    Calendar
    → (Reminder → Bool)
    → (ℕ → Bool)
    → (ℕ → Option ReminderUser)
    → ℕ
    → ℕ
    → List DueRow
    → TestReply × List Reminder
send_test_reminder c accepts has_details user_of user now rows =
    elim (summary_of user (find_due_words_by_user c (some user) now rows)) [
      | none ↦ (nothing_due, [])
      | some s ↦ elim (user_of user) [
        | none ↦ (no_such_user, [])
        | some u ↦
            let mail = reminder has_details u s in
            if accepts mail then (enqueued, mail ∷ []) else (not_enqueued, [])
      ]
    ]
