-- ===== src/Accounts/Life.antt =====
-- The statements on the tables of the accounts as steps, in any order that concurrent requests
-- bring them into, and what all of them keep.
use sealvo.Base.{ℕ, refl, Bool, Option, List}
use sealvo.Session.{Session}
use sealvo.Session.Token.{Text}
use sealvo.SpacedRepetition.{Calendar}
use sealvo.Accounts.{User, Link, Entry, Mail, Store, Platform}
use sealvo.Accounts.Reset.{send_reset_link, reset_tx}
use sealvo.Accounts.Verification.{verify_tx, replace_link}
use sealvo.Accounts.SignIn.{NewUser, create_user}
use sealvo.Accounts.Google.{take_over}
use sealvo.Accounts.Profile.{write_profile, Task, run_task}
use sealvo.Accounts.Valid.{Valid, replace_link-count_pending, revoke_links-count_pending}
use sealvo.Accounts.Kept.{
  create_user-Valid, reset_tx-Valid, verify_tx-Valid, send_reset_link-Valid, write_profile-Valid,
  run_task-Valid, same_users, at_most,
}

-- One statement or transaction.
pub data Step (p : Platform) : Store → Store → Type 0 where
  step_create :
      (accepts : NewUser → Bool) (id now : ℕ) (d : NewUser) (s : Store)
      → Step p s (create_user p (λ i. id) accepts now d 1 0 s).1
  step_reset :
      (user_id : ℕ) (token_hash hashed : Text) (s : Store)
      → Step p s (reset_tx p user_id token_hash hashed s).1
  step_reset_link :
      (now : ℕ) (token : Text) (queued : Bool) (user : User) (s : Store)
      → Step p s (send_reset_link p now token queued user s)
  step_verify : (now : ℕ) (l : Link) (s : Store) → Step p s (verify_tx p now l s).1
  step_link :
      (now : ℕ) (key token : Text) (user : User) (new_email : Option Text) (s : Store)
      → Step p s (replace_link p now key token user new_email s)
  step_take_over :
      (user_id : ℕ) (hashed : Text) (s : Store) → Step p s (take_over p user_id hashed s)
  step_profile :
      (user_id : ℕ) (name : Option Text) (ava : Option ℕ) (s : Store)
      → Step p s (write_profile p user_id name ava s).1
  step_clean : (c : Calendar) (now : ℕ) (t : Task) (s : Store) → Step p s (run_task c now t s)
  step_sessions : (rows : List Session) (s : Store) → Step p s (record s { sessions = rows })
  step_notes :
      (entries : List Entry) (mails : List Mail) (s : Store)
      → Step p s (record s { journal = entries; mails = mails })

pub data Reach (p : Platform) : Store → Store → Type 0 where
  stay : (s : Store) → Reach p s s
  next : (s s' s'' : Store) → Step p s s' → Reach p s' s'' → Reach p s s''

pub Step-Valid : (p : Platform) (s s' : Store) → Step p s s' → Valid p s → Valid p s'
unfolding take_over replace_link
Step-Valid p _ _ (step_create accepts id now d s) v = create_user-Valid p accepts id now d s v
Step-Valid p _ _ (step_reset user_id h hashed s) v = reset_tx-Valid p user_id h hashed s v
Step-Valid p _ _ (step_reset_link now token queued user s) v =
    send_reset_link-Valid p now token queued user s v
Step-Valid p _ _ (step_verify now l s) v = verify_tx-Valid p now l s v
Step-Valid p _ _ (step_link now key token user new_email s) v = record {
  unique_keys = v.unique_keys;
  one_link = λ id. replace_link-count_pending p now key token user new_email s id (v.one_link id);
  one_reset = v.one_reset;
}
Step-Valid p _ _ (step_take_over user_id hashed s) v = record {
  unique_keys = same_users p user_id _ s (λ w. refl) (λ w. refl) (λ w. refl) v.unique_keys;
  one_link = λ id. at_most _ _ (revoke_links-count_pending _ id s.links) (v.one_link id);
  one_reset = v.one_reset;
}
Step-Valid p _ _ (step_profile user_id name ava s) v = write_profile-Valid p user_id name ava s v
Step-Valid p _ _ (step_clean c now t s) v = run_task-Valid p c now t s v
Step-Valid p _ _ (step_sessions rows s) v = record {
  unique_keys = v.unique_keys;
  one_link = v.one_link;
  one_reset = v.one_reset;
}
Step-Valid p _ _ (step_notes entries mails s) v = record {
  unique_keys = v.unique_keys;
  one_link = v.one_link;
  one_reset = v.one_reset;
}

pub Reach-Valid : (p : Platform) (s s' : Store) → Reach p s s' → Valid p s → Valid p s'
Reach-Valid p _ _ (stay s) v = v
Reach-Valid p _ _ (next s s' s'' step rest) v = Reach-Valid p s' s'' rest (Step-Valid p s s' step v)
