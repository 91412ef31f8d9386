-- ===== src/Accounts/Valid.antt =====
-- What holds of the tables of the accounts between any two statements.
use sealvo.Base.{
  ℕ, ◌+◌, ◌≤◌, ◌≡◌, refl, sym, ap, ◌∙◌, inl, inr, Bool, true, false, not, Option, none, some, List,
  [], ◌∷◌, arith, All, select, ◌==◌, if◌then◌else◌, Bool-cases, ==_iff,
}
use sealvo.Session.Token.{Text, same_text_iff}
use sealvo.Accounts.{
  User, Link, ResetToken, Store, Platform, collated, revoke_links, pending_of, of_user,
}
use sealvo.Accounts.Table.{revoke-of_user}
use sealvo.Accounts.Unlike.{Apart, Unlike, Fits}
use sealvo.Accounts.Verification.{email_taken, or_email, use_link, replace_link}
use sealvo.Accounts.Profile.{name_taken, with_name, with_ava}

-- How many pending links, and how many reset tokens, an account has.
unfoldable pub count_pending : ℕ → List Link → ℕ
count_pending id [] = 0
count_pending id (l ∷ links) =
    let rest = count_pending id links in if pending_of id l then rest + 1 else rest

unfoldable pub count_resets : ℕ → List ResetToken → ℕ
count_resets id [] = 0
count_resets id (t ∷ resets) =
    let rest = count_resets id resets in if t.user_id == id then rest + 1 else rest

-- The unique keys, and at most one link and one reset token that an account can use.
pub record Valid (p : Platform) (s : Store) : Type 0 where
  pub unique_keys : Apart (Unlike p) s.users
  pub one_link : (id : ℕ) → count_pending id s.links ≤ 1
  pub one_reset : (id : ℕ) → count_resets id s.resets ≤ 1

-- Statements on the links
pub revoke_links-count_pending :
    (f : Link → Bool) (id : ℕ) (links : List Link)
    → count_pending id (revoke_links f links) ≤ count_pending id links
unfolding count_pending revoke_links
revoke_links-count_pending f id [] = omega arith
revoke_links-count_pending f id (l ∷ links) = ground (arith, revoke_links-count_pending f id links)

none_pending :
    (id : ℕ) (links : List Link)
    → All (λ l. pending_of id l ≡ false) links
    → count_pending id links ≡ 0
unfolding count_pending
none_pending id [] a = refl
none_pending id (l ∷ links) a = ground (arith, none_pending id links a.1, a.0)

pub use_link-count_pending :
    (now : ℕ) (key : Text) (id : ℕ) (links : List Link)
    → count_pending id (use_link now key links).1 ≤ count_pending id links
unfolding count_pending use_link
use_link-count_pending now key id [] = omega arith
use_link-count_pending now key id (l ∷ links) =
    ground (arith, use_link-count_pending now key id links)

pub select-count_pending :
    (f : Link → Bool) (id : ℕ) (links : List Link)
    → count_pending id (select f links) ≤ count_pending id links
unfolding count_pending
select-count_pending f id [] = omega arith
select-count_pending f id (l ∷ links) = ground (arith, select-count_pending f id links)

pub replace_link-count_pending :
    (p : Platform) (now : ℕ) (key token : Text) (user : User) (new_email : Option Text) (s : Store)
    (id : ℕ)
    → count_pending id s.links ≤ 1
    → count_pending id (replace_link p now key token user new_email s).links ≤ 1
unfolding count_pending replace_link
replace_link-count_pending p now key token user new_email s id one =
    let fewer = revoke_links-count_pending (of_user user.id) id s.links in
    elim (Bool-cases (user.id == id)) [
      | inl same ↦
          let none_left = none_pending user.id _ (revoke-of_user user.id s.links) in
          ground (arith, ==_iff user.id id, none_left)
      | inr other ↦ ground arith
    ]

-- Statements on the reset tokens
pub select-count_resets :
    (f : ResetToken → Bool) (id : ℕ) (resets : List ResetToken)
    → count_resets id (select f resets) ≤ count_resets id resets
unfolding count_resets
select-count_resets f id [] = omega arith
select-count_resets f id (t ∷ resets) = ground (arith, select-count_resets f id resets)

pub deleted-count_resets :
    (id : ℕ) (resets : List ResetToken)
    → count_resets id (select (λ (t : ResetToken). not (t.user_id == id)) resets) ≡ 0
unfolding count_resets
deleted-count_resets id [] = refl
deleted-count_resets id (t ∷ resets) = ground (arith, deleted-count_resets id resets)

-- Statements on the users
module _ (p : Platform) (id : ℕ) where
  pub Fits-same :
      (write : User → User) (users : List User)
      → ((w : User) → (write w).id ≡ w.id)
      → ((w : User) → (write w).email ≡ w.email)
      → ((w : User) → (write w).username ≡ w.username)
      → All (Fits p id write) users
  Fits-same write [] i e n = tt
  Fits-same write (v ∷ users) i e n = (
    λ differs w same unlike. record {
      ids = λ h. unlike.ids (sym (i w) ∙ h);
      emails = λ h. unlike.emails (ap p.collate (sym (e w)) ∙ h);
      names = λ h. unlike.names (ap p.collate (sym (n w)) ∙ h);
    },
    Fits-same write users i e n,
  )

  pub Fits-email :
      (email : Option Text) (users : List User)
      → email_taken p id email users ≡ false
      → All (Fits p id (λ u. or_email email (record u { is_verified = true }))) users
  unfolding email_taken collated
  Fits-email none users h = Fits-same _ users (λ w. refl) (λ w. refl) (λ w. refl)
  Fits-email (some email) [] h = tt
  Fits-email (some email) (v ∷ users) h = (
    λ differs w same unlike. record {
      ids = unlike.ids;
      emails = ground (arith, ==_iff v.id id, same_text_iff (p.collate v.email) (p.collate email));
      names = unlike.names;
    },
    Fits-email (some email) users (ground arith),
  )

  pub Fits-name :
      (name : Option Text) (ava : Option ℕ) (users : List User)
      → name_taken p id name users ≡ false
      → All (Fits p id (λ u. with_ava p ava (with_name p name u))) users
  unfolding collated
  Fits-name none none users h = Fits-same _ users (λ w. refl) (λ w. refl) (λ w. refl)
  Fits-name none (some a) users h = Fits-same _ users (λ w. refl) (λ w. refl) (λ w. refl)
  Fits-name (some name) none [] h = tt
  Fits-name (some name) (some a) [] h = tt
  Fits-name (some name) none (v ∷ users) h = (
    λ differs w same unlike. record {
      ids = unlike.ids;
      emails = unlike.emails;
      names = ground (arith, ==_iff v.id id, same_text_iff (p.collate v.username) (p.collate name));
    },
    Fits-name (some name) none users (ground arith),
  )
  Fits-name (some name) (some a) (v ∷ users) h = (
    λ differs w same unlike. record {
      ids = unlike.ids;
      emails = unlike.emails;
      names = ground (arith, ==_iff v.id id, same_text_iff (p.collate v.username) (p.collate name));
    },
    Fits-name (some name) (some a) users (ground arith),
  )
