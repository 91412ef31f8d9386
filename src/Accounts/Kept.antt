-- ===== src/Accounts/Kept.antt =====
-- What each statement on the tables of the accounts keeps.
use sealvo.Base.{
  ℕ, ◌≤◌, ◌≡◌, refl, inl, inr, Bool, not, Option, arith, any, select, length, ◌==◌, Bool-cases,
  Option-cases, ==_iff,
}
use sealvo.Session.Token.{Text, same_text}
use sealvo.SpacedRepetition.{Calendar}
use sealvo.Accounts.{User, Link, ResetToken, Store, Platform, has_id, update_user, find_user}
use sealvo.Accounts.Reset.{send_reset_link, reset_tx, reset_account}
use sealvo.Accounts.Verification.{verify_tx, use_link, email_taken}
use sealvo.Accounts.SignIn.{NewUser, create_user, name_or_email_taken}
use sealvo.Accounts.Profile.{
  write_profile, changes_profile, Task, run_task, delete_unverified, clean_links, clean_users,
  clean_sessions, clean_resets, name_taken,
}
use sealvo.Accounts.Unlike.{Apart, Unlike, update_user-Apart, new_user-Unlike, Apart-select}
use sealvo.Accounts.Valid.{
  Valid, count_resets, Fits-same, Fits-email, Fits-name, use_link-count_pending,
  revoke_links-count_pending, select-count_pending, select-count_resets, deleted-count_resets,
}

pub same_users :
    (p : Platform) (id : ℕ) (write : User → User) (s : Store)
    → ((w : User) → (write w).id ≡ w.id)
    → ((w : User) → (write w).email ≡ w.email)
    → ((w : User) → (write w).username ≡ w.username)
    → Apart (Unlike p) s.users
    → Apart (Unlike p) (update_user id write s.users)
same_users p id write s i e n a =
    update_user-Apart p id write s.users a (Fits-same p id write s.users i e n)

pub create_user-Valid :
    (p : Platform) (accepts : NewUser → Bool) (id now : ℕ) (d : NewUser) (s : Store)
    → Valid p s
    → Valid p (create_user p (λ i. id) accepts now d 1 0 s).1
unfolding create_user
create_user-Valid p accepts id now d s v = elim (Bool-cases (accepts d)) [
  | inl fine ↦ elim (Bool-cases (any (has_id id) s.users)) [
    | inl here ↦ rw (fine, here) v
    | inr absent ↦ elim (Bool-cases (name_or_email_taken p d s.users)) [
      | inl taken ↦ rw (fine, absent, taken) v
      | inr free ↦
          rw (fine, absent, free)
            (record {
              unique_keys = (new_user-Unlike p id now d s.users absent free, v.unique_keys);
              one_link = v.one_link;
              one_reset = v.one_reset;
            })
    ]
  ]
  | inr refused ↦ rw refused v
]

pub at_most : (a b : ℕ) → a ≤ b → b ≤ 1 → a ≤ 1
at_most a b f g = omega arith

pub reset_account-Valid :
    (p : Platform) (user_id : ℕ) (h hashed : Text) (s : Store)
    → Valid p s
    → Valid p (reset_account p user_id h hashed s)
unfolding reset_account
reset_account-Valid p user_id h hashed s v = record {
  unique_keys = same_users p user_id _ s (λ w. refl) (λ w. refl) (λ w. refl) v.unique_keys;
  one_link = λ id. at_most _ _ (revoke_links-count_pending _ id s.links) (v.one_link id);
  one_reset = λ id.
      at_most _ _ (select-count_resets _ id _)
        (at_most _ _ (select-count_resets _ id s.resets) (v.one_reset id));
}

pub reset_tx-Valid :
    (p : Platform) (user_id : ℕ) (h hashed : Text) (s : Store)
    → Valid p s
    → Valid p (reset_tx p user_id h hashed s).1
unfolding reset_tx
reset_tx-Valid p user_id h hashed s v =
    elim (Bool-cases
      (length (select (λ (t : ResetToken). same_text t.token_hash h) s.resets) == 0)) [
        | inl none_left ↦ rw none_left v
        | inr some_left ↦ elim (Option-cases (find_user user_id s.users)) [
          | inl gone ↦ rw (some_left, gone) v
          | inr (u, here) ↦ rw (some_left, here) (reset_account-Valid p user_id h hashed s v)
        ]
      ]

pub verify_tx-Valid :
    (p : Platform) (now : ℕ) (l : Link) (s : Store) → Valid p s → Valid p (verify_tx p now l s).1
unfolding verify_tx
verify_tx-Valid p now l s v = elim (Bool-cases ((use_link now l.id s.links).0 == 1)) [
  | inr miss ↦ rw miss v
  | inl hit ↦ elim (Option-cases (find_user l.user_id s.users)) [
    | inl gone ↦ rw (hit, gone) v
    | inr (u, here) ↦ elim (Bool-cases (email_taken p l.user_id l.new_email s.users)) [
      | inl taken ↦ rw (hit, here, taken) v
      | inr free ↦
          rw (hit, here, free)
            (record {
              unique_keys =
                  update_user-Apart p l.user_id _ s.users v.unique_keys
                    (Fits-email p l.user_id l.new_email s.users free);
              one_link =
                  λ id. at_most _ _ (use_link-count_pending now l.id id s.links) (v.one_link id);
              one_reset = v.one_reset;
            })
    ]
  ]
]

one_token :
    (p : Platform) (now : ℕ) (token : Text) (queued : Bool) (user : User) (s : Store) (id : ℕ)
    → count_resets id s.resets ≤ 1
    → count_resets id (send_reset_link p now token queued user s).resets ≤ 1
unfolding count_resets send_reset_link
one_token p now token queued user s id one = elim (Bool-cases (user.id == id)) [
  | inl same ↦ ground (arith, ==_iff user.id id, deleted-count_resets user.id s.resets)
  | inr other ↦
      ground
        (arith, select-count_resets (λ (t : ResetToken). not (t.user_id == user.id)) id s.resets)
]

pub send_reset_link-Valid :
    (p : Platform) (now : ℕ) (token : Text) (queued : Bool) (user : User) (s : Store)
    → Valid p s
    → Valid p (send_reset_link p now token queued user s)
unfolding send_reset_link
send_reset_link-Valid p now token queued user s v = record {
  unique_keys = v.unique_keys;
  one_link = v.one_link;
  one_reset = λ id. one_token p now token queued user s id (v.one_reset id);
}

pub write_profile-Valid :
    (p : Platform) (user_id : ℕ) (name : Option Text) (ava : Option ℕ) (s : Store)
    → Valid p s
    → Valid p (write_profile p user_id name ava s).1
unfolding write_profile
write_profile-Valid p user_id name ava s v = elim (Bool-cases (changes_profile p name ava)) [
  | inr idle ↦ rw idle v
  | inl busy ↦ elim (Option-cases (find_user user_id s.users)) [
    | inl gone ↦ rw (busy, gone) v
    | inr (u, here) ↦ elim (Bool-cases (name_taken p user_id name s.users)) [
      | inl taken ↦ rw (busy, here, taken) v
      | inr free ↦
          rw (busy, here, free)
            (record {
              unique_keys =
                  update_user-Apart p user_id _ s.users v.unique_keys
                    (Fits-name p user_id name ava s.users free);
              one_link = v.one_link;
              one_reset = v.one_reset;
            })
    ]
  ]
]

pub run_task-Valid :
    (p : Platform) (c : Calendar) (now : ℕ) (t : Task) (s : Store)
    → Valid p s
    → Valid p (run_task c now t s)
unfolding run_task delete_unverified
run_task-Valid p c now clean_links s v = record {
  unique_keys = v.unique_keys;
  one_link = λ id. at_most _ _ (select-count_pending _ id s.links) (v.one_link id);
  one_reset = v.one_reset;
}
run_task-Valid p c now clean_users s v = record {
  unique_keys = Apart-select (Unlike p) _ s.users v.unique_keys;
  one_link = λ id. at_most _ _ (select-count_pending _ id s.links) (v.one_link id);
  one_reset = λ id. at_most _ _ (select-count_resets _ id s.resets) (v.one_reset id);
}
run_task-Valid p c now clean_sessions s v = record {
  unique_keys = v.unique_keys;
  one_link = v.one_link;
  one_reset = v.one_reset;
}
run_task-Valid p c now clean_resets s v = record {
  unique_keys = v.unique_keys;
  one_link = v.one_link;
  one_reset = λ id. at_most _ _ (select-count_resets _ id s.resets) (v.one_reset id);
}
