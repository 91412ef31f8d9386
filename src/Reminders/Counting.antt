-- ===== src/Reminders/Counting.antt =====
-- What the summaries count, and how many emails a run sends.
use sealvo.Base.{
  ℕ, ◌+◌, ◌≡◌, refl, inl, inr, Bool, true, false, Option, none, some, List, [], ◌∷◌, arith, any,
  select, length, ◌==◌, if◌then◌else◌, ◌&&◌, Bool-cases, Option-cases, ==_iff, ==_refl,
  length-append, zero, suc, ◌≤◌, ◌++◌, map, take, ltb, sym, ap, subst, ◌∙◌,
}
use sealvo.Levels.{Level}
use sealvo.SpacedRepetition.{Calendar}
use sealvo.Reminders.{
  DueRow, DueSummary, ReminderUser, ByUser, Reminder, count_row, add_row, group_rows, summary_of,
  due_row, find_due_words_by_user, reminder, send_each, has_summary, no_words, send_reminders,
}

-- The words that a summary counts, and those it shows.
unfoldable pub total_of : Option DueSummary → ℕ
total_of none = 0
total_of (some s) = s.total

-- The words that a summary shows.
unfoldable pub preview_of : Option DueSummary → List (ℕ × Level)
preview_of none = []
preview_of (some s) = s.preview

abbrev pub shown : DueRow → ℕ × Level
shown r = (r.detail_id, r.level)

mine : ℕ → DueRow → Bool
mine user r = r.user_id == user

add_row-total :
    (r : DueRow) (acc : ByUser) (user : ℕ)
    → total_of (summary_of user (add_row r acc))
      ≡ (if mine user r then 1 else 0) + total_of (summary_of user acc)
unfolding add_row summary_of total_of mine count_row
add_row-total r [] user = ground arith
add_row-total r ((u, s) ∷ more) user =
    ground
      (arith, add_row-total r more user, ==_iff u r.user_id, ==_iff u user, ==_iff r.user_id user)

group_rows-total :
    (rows : List DueRow) (acc : ByUser) (user : ℕ)
    → total_of (summary_of user (group_rows rows acc))
      ≡ length (select (mine user) rows) + total_of (summary_of user acc)
unfolding group_rows
group_rows-total [] acc user = omega arith
group_rows-total (r ∷ rows) acc user =
    ground (arith, group_rows-total rows (add_row r acc) user, add_row-total r acc user)

-- What a user has so far, after one more row.
counted_in : ℕ → DueRow → Option DueSummary → Option DueSummary
counted_in user r o =
    if mine user r then some (count_row r (elim o [ none ↦ no_words | some s ↦ s ])) else o

summary_of-add_row :
    (r : DueRow) (acc : ByUser) (user : ℕ)
    → summary_of user (add_row r acc) ≡ counted_in user r (summary_of user acc)
unfolding add_row summary_of mine counted_in
summary_of-add_row r [] user = ground (arith, ==_iff r.user_id user)
summary_of-add_row r ((u, s) ∷ more) user = ground (
  arith,
  summary_of-add_row r more user,
  ==_iff u r.user_id,
  ==_iff u user,
  ==_iff r.user_id user,
)

module _ {A : Type 0} where
  push_five : List A → A → List A
  push_five p x = if ltb (length p) 5 then p ++ x ∷ [] else p

  take-append-all : (n : ℕ) (p : List A) → length p ≤ n → take n (p ++ []) ≡ p
  take-append-all zero [] le = refl
  take-append-all (suc n) [] le = refl
  take-append-all zero (x ∷ p) le = absurd (omega (arith, le))
  take-append-all (suc n) (x ∷ p) le = ap (λ q. x ∷ q) (take-append-all n p (omega (arith, le)))

  take-append-full : (n : ℕ) (p xs : List A) → length p ≡ n → take n (p ++ xs) ≡ p
  take-append-full zero [] xs e = refl
  take-append-full (suc n) [] xs e = absurd (omega (arith, e))
  take-append-full zero (x ∷ p) xs e = absurd (omega (arith, e))
  take-append-full (suc n) (x ∷ p) xs e =
      ap (λ q. x ∷ q) (take-append-full n p xs (omega (arith, e)))

  append_one : (p : List A) (x : A) (xs : List A) → (p ++ x ∷ []) ++ xs ≡ p ++ x ∷ xs
  append_one [] x xs = refl
  append_one (y ∷ p) x xs = ap (λ q. y ∷ q) (append_one p x xs)

  -- A push keeps the first five, and at most five.
  take-push_five :
      (p : List A) (x : A) (xs : List A)
      → length p ≤ 5
      → (take 5 (push_five p x ++ xs) ≡ take 5 (p ++ x ∷ xs)) × (length (push_five p x) ≤ 5)
  unfolding push_five
  take-push_five p x xs le = elim (Bool-cases (ltb (length p) 5)) [
    | inl room ↦ rw room (ap (take 5) (append_one p x xs), ground (arith, length-append p (x ∷ [])))
    | inr full ↦
        let e : length p ≡ 5 = ground (arith, full, le) in
        rw full (take-append-full 5 p xs e ∙ sym (take-append-full 5 p (x ∷ xs) e), le)
  ]

preview_of-counted_in :
    (user : ℕ) (r : DueRow) (o : Option DueSummary)
    → preview_of (counted_in user r o)
      ≡ (if mine user r then push_five (preview_of o) (shown r) else preview_of o)
unfolding preview_of counted_in count_row push_five
preview_of-counted_in user r none = ground arith
preview_of-counted_in user r (some s) = ground arith

group_rows-preview :
    (rows : List DueRow) (acc : ByUser) (user : ℕ)
    → length (preview_of (summary_of user acc)) ≤ 5
    → preview_of (summary_of user (group_rows rows acc))
      ≡ take 5 (preview_of (summary_of user acc) ++ map shown (select (mine user) rows))
unfolding group_rows
group_rows-preview [] acc user le = sym (take-append-all 5 (preview_of (summary_of user acc)) le)
group_rows-preview (r ∷ rows) acc user le =
    let p = preview_of (summary_of user acc) in
    let more = map shown (select (mine user) rows) in
    let added =
      ap preview_of (summary_of-add_row r acc user)
      ∙ preview_of-counted_in user r (summary_of user acc) in
    elim (Bool-cases (mine user r)) [
      | inl own ↦
          let pushed : preview_of (summary_of user (add_row r acc)) ≡ push_five p (shown r) =
            added ∙ rw own refl in
          let (same, short) = take-push_five p (shown r) more le in
          rw own (
            group_rows-preview rows (add_row r acc) user
              (subst (λ q. length q ≤ 5) (sym pushed) short)
            ∙ ap (λ q. take 5 (q ++ more)) pushed
            ∙ same)
      | inr other ↦
          let kept : preview_of (summary_of user (add_row r acc)) ≡ p = added ∙ rw other refl in
          rw other (
            group_rows-preview rows (add_row r acc) user (subst (λ q. length q ≤ 5) (sym kept) le)
            ∙ ap (λ q. take 5 (q ++ more)) kept)
    ]

&&-false : (b : Bool) → (b && false) ≡ false
&&-false true = refl
&&-false false = refl

due_row-mine :
    (c : Calendar) (now user : ℕ) (r : DueRow)
    → due_row c (some user) now r ≡ (mine user r && due_row c none now r)
unfolding due_row mine
due_row-mine c now user r = ground arith

-- Only the rows of a user count for the user.
summary_of-select :
    (c : Calendar) (now user : ℕ) (rows : List DueRow) (acc acc' : ByUser)
    → summary_of user acc ≡ summary_of user acc'
    → summary_of user (group_rows (select (due_row c (some user) now) rows) acc)
      ≡ summary_of user (group_rows (select (due_row c none now) rows) acc')
unfolding group_rows counted_in
summary_of-select c now user [] acc acc' same = same
summary_of-select c now user (r ∷ rows) acc acc' same = elim (Bool-cases (due_row c none now r)) [
  | inr idle ↦
      rw (due_row-mine c now user r, idle, &&-false (mine user r))
        (summary_of-select c now user rows acc acc' same)
  | inl due ↦ elim (Bool-cases (mine user r)) [
    | inl own ↦
        rw (due_row-mine c now user r, due, own)
          (summary_of-select c now user rows (add_row r acc) (add_row r acc')
            (rw (summary_of-add_row r acc user, summary_of-add_row r acc' user, same) refl))
    | inr other ↦
        rw (due_row-mine c now user r, due, other)
          (summary_of-select c now user rows acc (add_row r acc')
            (rw (summary_of-add_row r acc' user, counted_in, other) same))
  ]
]

-- The total of a user in the summaries is the number of the due words of the user's active
-- packages, and the summary shows the first five of these words, with their levels, in order. The
-- search for one user only, for the reminder that the user asks for, gives that user the same
-- summary.
pub find_due_words-counts :
    (c : Calendar) (now user : ℕ) (rows : List DueRow)
    → let by_user = find_due_words_by_user c none now rows in
      (total_of (summary_of user by_user)
        ≡ length (select (λ (r : DueRow). r.user_id == user) (select (due_row c none now) rows)))
      × (preview_of (summary_of user by_user)
          ≡ take 5 (
              map
                (λ (r : DueRow). (r.detail_id, r.level))
                (select (λ (r : DueRow). r.user_id == user) (select (due_row c none now) rows))))
      × (summary_of user (find_due_words_by_user c (some user) now rows) ≡ summary_of user by_user)
unfolding find_due_words_by_user total_of preview_of summary_of mine
find_due_words-counts c now user rows =
    let due = select (due_row c none now) rows in
    (
      omega (arith, group_rows-total due [] user),
      group_rows-preview due [] user (omega arith),
      summary_of-select c now user rows [] [] refl,
    )

-- A run counts every user who has a summary once, as sent or as failed, and sent is the number of
-- the emails that the queue took.
pub send_each-counts :
    (accepts : Reminder → Bool) (has_details : ℕ → Bool) (by_user : ByUser)
    (users : List ReminderUser)
    → let (n, mails) = send_each accepts has_details by_user users in
      (n.sent + n.failed ≡ length (select (has_summary by_user) users)) × (n.sent ≡ length mails)
unfolding send_each
send_each-counts accepts has_details by_user [] = (refl, refl)
send_each-counts accepts has_details by_user (u ∷ users) =
    let rest = send_each-counts accepts has_details by_user users in
    elim (Option-cases (summary_of u.id by_user)) [
      | inl nothing ↦
          let absent : has_summary by_user u ≡ false = rw (has_summary, nothing) refl in
          ground (arith, rest, absent, nothing)
      | inr (s, here) ↦
          let present : has_summary by_user u ≡ true = rw (has_summary, here) refl in
          elim (Bool-cases (accepts (reminder has_details u s))) [
            | inl accepted ↦ ground (arith, rest, present, here, accepted)
            | inr refused ↦ ground (arith, rest, present, here, refused)
          ]
    ]

any_self : (hour : ℕ) (hours : List ℕ) → any (λ h. h == hour) (hour ∷ hours) ≡ true
any_self hour hours = rw (==_refl hour) refl

-- With Redis up: after a run in an hour, another run in that hour is skipped, whatever has become
-- due since, and sends no email.
pub once_an_hour :
    (c : Calendar) (hours : List ℕ) (accepts : Reminder → Bool) (has_details : ℕ → Bool)
    (hour now now' : ℕ) (rows rows' : List DueRow) (users users' : List ReminderUser)
    → let (counts, mails, claimed) =
        send_reminders c (some hours) accepts has_details hour now rows users in
      let (counts', mails', claimed') =
        send_reminders c claimed accepts has_details hour now' rows' users' in
      (counts'.skipped ≡ true) × (mails' ≡ []) × (claimed' ≡ claimed)
unfolding send_reminders
once_an_hour c hours accepts has_details hour now now' rows rows' users users' =
    elim (Bool-cases (any (λ h. h == hour) hours)) [
      | inl taken ↦ rw taken (rw taken (refl, refl, refl))
      | inr free ↦ rw free (rw (any_self hour hours) (refl, refl, refl))
    ]
