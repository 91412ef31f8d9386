-- ===== src/Accounts/Table.antt =====
-- Laws of the tables of the accounts: reads after writes, and what an update leaves out.
use sealvo.Base.{
  ap, ℕ, ◌≡◌, ◌≢◌, refl, Bool, false, not, some, List, [], ◌∷◌, arith, select, All, ◌==◌,
  if◌then◌else◌, ==_iff,
}
use sealvo.Session.Token.{Text}
use sealvo.Accounts.{
  Store, Reply, ok, on_ok, User, Link, Platform, find_user, update_user, revoke_links, pending_of,
  by_username, collated, of_user,
}

pub find_user-id : (id : ℕ) (users : List User) (u : User) → find_user id users ≡ some u → u.id ≡ id
find_user-id id [] u h = absurd (ground arith)
find_user-id id (v ∷ users) u h = ground (arith, find_user-id id users u)

module _ (id : ℕ) (write : User → User) where
  pub find_user-update_user :
      (users : List User) (u : User)
      → ((v : User) → (write v).id ≡ v.id)
      → find_user id users ≡ some u
      → find_user id (update_user id write users) ≡ some (write u)
  unfolding update_user
  find_user-update_user [] u keeps h = absurd (ground arith)
  find_user-update_user (v ∷ users) u keeps h =
      ground (arith, find_user-update_user users u keeps, keeps v)

  pub find_user-update_user_ne :
      (j : ℕ) (users : List User)
      → ((v : User) → (write v).id ≡ v.id)
      → j ≢ id
      → find_user j (update_user id write users) ≡ find_user j users
  unfolding update_user
  find_user-update_user_ne j [] keeps h = refl
  find_user-update_user_ne j (v ∷ users) keeps h =
      ground (arith, find_user-update_user_ne j users keeps h, keeps v)

  pub by_username-update_user :
      (p : Platform) (name : Text) (users : List User) (u : User)
      → ((v : User) → (write v).username ≡ v.username)
      → by_username p name users ≡ some u
      → by_username p name (update_user id write users) ≡ some (if u.id == id then write u else u)
  unfolding update_user collated
  by_username-update_user p name [] u keeps h = absurd (ground arith)
  by_username-update_user p name (v ∷ users) u keeps h =
      ground (arith, by_username-update_user p name users u keeps, keeps v)

-- No pending link of the user is left.
pub revoke-pending_of :
    (id : ℕ) (links : List Link)
    → All (λ l. pending_of id l ≡ false) (revoke_links (pending_of id) links)
unfolding revoke_links
revoke-pending_of id [] = tt
revoke-pending_of id (l ∷ links) = ground (arith, revoke-pending_of id links)

pub revoke-of_user :
    (id : ℕ) (links : List Link)
    → All (λ l. pending_of id l ≡ false) (revoke_links (of_user id) links)
unfolding revoke_links
revoke-of_user id [] = tt
revoke-of_user id (l ∷ links) = ground (arith, revoke-of_user id links)

pub All-imp :
    {A : Type 0} (P Q : A → Type 0) (xs : List A) → ((x : A) → P x → Q x) → All P xs → All Q xs
All-imp P Q [] h a = tt
All-imp P Q (x ∷ xs) h a = (h x a.0, All-imp P Q xs h a.1)

pub All-select :
    {A : Type 0} (P : A → Type 0) (p : A → Bool) (xs : List A) → All P xs → All P (select p xs)
All-select P p [] a = tt
All-select P p (x ∷ xs) a = ground (arith, All-select P p xs a.1, a.0)

-- What is left once the rows of a key have been deleted.
pub All-apart :
    {A : Type 0} (key : A → ℕ) (id : ℕ) (xs : List A)
    → All (λ x. key x ≢ id) (select (λ x. not (key x == id)) xs)
All-apart key id [] = tt
All-apart key id (x ∷ xs) = ground (arith, All-apart key id xs, ==_iff (key x) id)

ok_or : {A : Type 0} → A → Reply A → A
ok_or d (ok a) = a
ok_or d _ = d

pub on_ok_ok :
    {A B : Type 0} (r : Reply A × Store) (f : A → Store → Reply B × Store) (a : A)
    → r.0 ≡ ok a
    → on_ok r f ≡ f a r.1
unfolding on_ok ok_or
on_ok_ok (ok b, s) f a e = ap (λ c. f c s) (ap (ok_or b) e)
on_ok_ok (Reply.bad_request, s) f a e = absurd (ground arith)
on_ok_ok (Reply.unauthorized, s) f a e = absurd (ground arith)
on_ok_ok (Reply.unverified, s) f a e = absurd (ground arith)
on_ok_ok (Reply.forbidden, s) f a e = absurd (ground arith)
on_ok_ok (Reply.not_found, s) f a e = absurd (ground arith)
on_ok_ok (Reply.conflict, s) f a e = absurd (ground arith)
on_ok_ok (Reply.too_many_requests, s) f a e = absurd (ground arith)
on_ok_ok (Reply.internal_error m, s) f a e = absurd (ground arith)
