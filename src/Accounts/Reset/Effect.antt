-- ===== src/Accounts/Reset/Effect.antt =====
-- What a reset leaves, and what it takes away from whoever was signed in.
use sealvo.Base.{
  ℕ, ◌≡◌, ◌≢◌, refl, sym, ap, inl, inr, ◌∙◌, Bool, true, false, not, ◌&&◌, none, some, List, [],
  ◌∷◌, arith, select, All, find, length, ◌==◌, Bool-cases, Option-cases, ltb,
}
use sealvo.Session.{Session}
use sealvo.Session.Token.{Text, same_text}
use sealvo.Accounts.{
  User, Link, ResetToken, Store, Reply, Platform, ok, bad_request, find_user, pending_of,
}
use sealvo.Accounts.Table.{find_user-update_user, revoke-pending_of, All-apart}
use sealvo.Accounts.Reset.{find_reset, reset_account, reset_tx, reset_password}

abbrev pub new_password : Text → User → User
new_password hashed u = record u { password = hashed; is_verified = true }

-- Nothing is left by which somebody could act as the user without the new password.
pub record LockedOut (user_id : ℕ) (s : Store) : Type 0 where
  pub no_session : All (λ (x : Session). x.user_id ≢ user_id) s.sessions
  pub no_reset : All (λ (t : ResetToken). t.user_id ≢ user_id) s.resets
  pub no_link : All (λ (l : Link). pending_of user_id l ≡ false) s.links

count-found :
    (now : ℕ) (h : Text) (resets : List ResetToken) (t : ResetToken)
    → find (λ (t : ResetToken). same_text t.token_hash h && ltb now t.expires_at) resets ≡ some t
    → (length (select (λ (t : ResetToken). same_text t.token_hash h) resets) == 0) ≡ false
count-found now h [] t e = absurd (ground arith)
count-found now h (q ∷ resets) t e = ground (arith, count-found now h resets t)

reset_account-LockedOut :
    (p : Platform) (user_id : ℕ) (h hashed : Text) (s : Store)
    → LockedOut user_id (reset_account p user_id h hashed s)
unfolding reset_account
reset_account-LockedOut p user_id h hashed s = record {
  no_session = All-apart (λ (x : Session). x.user_id) user_id s.sessions;
  no_reset = All-apart (λ (t : ResetToken). t.user_id) user_id _;
  no_link = revoke-pending_of user_id s.links;
}

reset_tx_ok :
    (p : Platform) (user_id : ℕ) (h hashed : Text) (s : Store) (u : User)
    → (length (select (λ (t : ResetToken). same_text t.token_hash h) s.resets) == 0) ≡ false
    → find_user user_id s.users ≡ some u
    → reset_tx p user_id h hashed s ≡ (ok tt, reset_account p user_id h hashed s)
unfolding reset_tx
reset_tx_ok p user_id h hashed s u c f = rw (c, f) refl

-- A token that is found and that nobody else has consumed before the transaction. `s` is the state
-- that the token is read in, `s'` the state the transaction finds.
module _ (p : Platform) (others : Store → Store) (now : ℕ) (salt token password : Text) (s : Store)
    (t t' : ResetToken) (u : User) (found : find_reset p now (p.hash_token token) s.resets ≡ some t)
    (still_there : find_reset p now (p.hash_token token) (others s).resets ≡ some t')
    (account : find_user t.user_id (others s).users ≡ some u) where
  abbrev hashed_password : Text
  hashed_password = p.bcrypt_hash salt password

  pub resets :
      reset_password p others now salt token password s
      ≡ (ok tt, reset_account p t.user_id (p.hash_token token) hashed_password (others s))
  unfolding reset_password reset_account
  resets =
      rw (reset_password, found)
        (reset_tx_ok p t.user_id (p.hash_token token) hashed_password (others s) u
          (count-found now (p.hash_token token) (others s).resets t'
            (unfold find_reset in still_there))
          account)

  -- A reset with a token that is valid when it is read, and not consumed before the transaction, of
  -- an account that exists then: it succeeds, the account has the new password and is verified, and
  -- no session, no reset token and no pending link of the account is left.
  pub reset_password-LockedOut :
      let (reply, s') = reset_password p others now salt token password s in
      (reply ≡ ok tt)
      × (find_user t.user_id s'.users ≡ some (new_password hashed_password u))
      × LockedOut t.user_id s'
  unfolding reset_account
  reset_password-LockedOut = rw resets (
    refl,
    find_user-update_user t.user_id (new_password hashed_password) (others s).users u (λ v. refl)
        account,
    reset_account-LockedOut p t.user_id (p.hash_token token) hashed_password (others s),
  )

find-deleted :
    (now : ℕ) (h : Text) (resets : List ResetToken)
    → find
        (λ (t : ResetToken). same_text t.token_hash h && ltb now t.expires_at)
        (select (λ (t : ResetToken). not (same_text t.token_hash h)) resets)
      ≡ none
find-deleted now h [] = refl
find-deleted now h (q ∷ resets) = ground (arith, find-deleted now h resets)

find-kept :
    (f : ResetToken → Bool) (keep : ResetToken → Bool) (resets : List ResetToken)
    → find f resets ≡ none
    → find f (select keep resets) ≡ none
find-kept f keep [] e = refl
find-kept f keep (q ∷ resets) e = ground (arith, find-kept f keep resets)

none-deleted :
    (user_id : ℕ) (h : Text) (resets : List ResetToken)
    → (length (
          select
            (λ (t : ResetToken). same_text t.token_hash h)
            (select
              (λ (t : ResetToken). not (t.user_id == user_id))
              (select (λ (t : ResetToken). not (same_text t.token_hash h)) resets)))
        == 0)
      ≡ true
none-deleted user_id h [] = refl
none-deleted user_id h (q ∷ resets) = ground (arith, none-deleted user_id h resets)

reset_tx_inv :
    (p : Platform) (user_id : ℕ) (h hashed : Text) (s : Store)
    → (reset_tx p user_id h hashed s).0 ≡ ok tt
    → reset_tx p user_id h hashed s ≡ (ok tt, reset_account p user_id h hashed s)
unfolding reset_tx
reset_tx_inv p user_id h hashed s e =
    elim (Bool-cases
      (length (select (λ (t : ResetToken). same_text t.token_hash h) s.resets) == 0)) [
        | inl none_left ↦ absurd (ground arith)
        | inr some_left ↦ elim (Option-cases (find_user user_id s.users)) [
          | inl gone ↦ absurd (ground arith)
          | inr (u, here) ↦ rw (some_left, here) refl
        ]
      ]

reset_tx-spent :
    (p : Platform) (user_id other : ℕ) (h hashed hashed' : Text) (s : Store)
    → reset_tx p other h hashed' (reset_account p user_id h hashed s)
      ≡ (bad_request, reset_account p user_id h hashed s)
unfolding reset_tx reset_account
reset_tx-spent p user_id other h hashed hashed' s = rw (none-deleted user_id h s.resets) refl

find_reset-spent :
    (p : Platform) (now user_id : ℕ) (h hashed : Text) (s : Store)
    → find_reset p now h (reset_account p user_id h hashed s).resets ≡ none
unfolding find_reset reset_account
find_reset-spent p now user_id h hashed s =
    find-kept _ (λ (t : ResetToken). not (t.user_id == user_id)) _ (find-deleted now h s.resets)

reset_missing :
    (p : Platform) (others : Store → Store) (now : ℕ) (salt token password : Text) (s : Store)
    → find_reset p now (p.hash_token token) s.resets ≡ none
    → reset_password p others now salt token password s ≡ (bad_request, s)
unfolding reset_password
reset_missing p others now salt token password s missing = rw (reset_password, missing) refl

-- A request that read no token, or a token that another request has consumed since.
module _ (p : Platform) (others : Store → Store) (now : ℕ) (salt token password : Text) (s : Store)
    (done : (reset_password p others now salt token password s).0 ≡ ok tt) where
  abbrev after : Store
  after = (reset_password p others now salt token password s).1

  found_step :
      (t : ResetToken)
      → find_reset p now (p.hash_token token) s.resets ≡ some t
      → reset_password p others now salt token password s
        ≡ reset_tx p t.user_id (p.hash_token token) (p.bcrypt_hash salt password) (others s)
  unfolding reset_password reset_tx
  found_step t found = rw (reset_password, found) refl

  spent :
      (user_id : ℕ) × (after
        ≡ reset_account p user_id (p.hash_token token) (p.bcrypt_hash salt password) (others s))
  spent = elim (Option-cases (find_reset p now (p.hash_token token) s.resets)) [
    | inl missing ↦
        absurd (ground (arith, reset_missing p others now salt token password s missing))
    | inr (t, found) ↦
        let same = found_step t found in
        let tx =
          reset_tx_inv p t.user_id (p.hash_token token) (p.bcrypt_hash salt password) (others s)
            (sym (ap (λ (r : Reply Unit × Store). r.0) same) ∙ done) in
        (t.user_id, ap (λ (r : Reply Unit × Store). r.1) (same ∙ tx))
  ]

  -- After a reset that succeeded, the same token is refused at any time, with any password, and
  -- changes nothing; also a second request that read the token before the first one's transaction
  -- is refused.
  pub reset_once :
      (others' : Store → Store) (now' : ℕ) (salt' password' : Text)
      → (reset_password p others' now' salt' token password' after ≡ (bad_request, after))
        × ((reset_password p (λ _. after) now' salt' token password' s).0 ≡ bad_request)
  unfolding reset_password
  reset_once others' now' salt' password' =
      let (user_id, same) = spent in
      (
        reset_missing p others' now' salt' token password' after (
            ap (λ (s : Store). find_reset p now' (p.hash_token token) s.resets) same
            ∙ find_reset-spent p now' user_id (p.hash_token token) (p.bcrypt_hash salt password)
                (others s)),
        elim (Option-cases (find_reset p now' (p.hash_token token) s.resets)) [
          | inl missing ↦
              ap (λ (r : Reply Unit × Store). r.0)
                (reset_missing p (λ _. after) now' salt' token password' s missing)
          | inr (t, found) ↦
              rw (reset_password, found, same)
                (ap (λ (r : Reply Unit × Store). r.0)
                  (reset_tx-spent p user_id t.user_id (p.hash_token token) _ _ (others s)))
        ],
      )
