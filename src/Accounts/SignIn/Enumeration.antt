-- ===== src/Accounts/SignIn/Enumeration.antt =====
-- Registration does not tell whether an address has an account.
use sealvo.Base.{
  String, ℕ, ◌≡◌, refl, sym, ap, ◌∙◌, inl, inr, Bool, false, none, some, ◌∷◌, Bool-cases,
  if◌then◌else◌,
}
use sealvo.Session.Token.{Text}
use sealvo.Accounts.{
  User, Store, Platform, Reply, ok, by_username, account_exists_mail, internal_error, on_ok,
}
use sealvo.Accounts.Table.{on_ok_ok}
use sealvo.Accounts.Reset.{account_of_email, normalize_email}
use sealvo.Accounts.Verification.{
  Fresh, send_verification_email, generate_verification_token, verification_token_max_attempts,
  verification_email_failed,
}
use sealvo.Accounts.SignIn.{
  NewUser, Registration, create_user, register, send_account_exists_email, user_id_max_attempts,
  or_default_avatar, register_response,
}

-- The columns that a registration gives.
abbrev pub registered : Platform → Text → Registration → NewUser
registered p salt dto = record {
  username = dto.username;
  email = normalize_email p dto.email;
  password = p.bcrypt_hash salt dto.password;
  is_verified = false;
  ava = or_default_avatar dto.avatar;
}

module _ (p : Platform) (others : Store → Store) (ids : ℕ → ℕ) (accepts : NewUser → Bool)
    (f : Fresh) (now : ℕ) (queued : Bool) (salt : Text) (dto : Registration) where
  abbrev answer : Reply String
  answer = if queued then ok register_response else internal_error verification_email_failed

  -- The address of an account: only an email to that account's own address.
  register_known :
      (s : Store) (owner : User)
      → by_username p dto.username s.users ≡ none
      → account_of_email p dto.email s.users ≡ some owner
      → register p others ids accepts f now queued salt dto s ≡ (
        answer,
        if queued
            then record s { mails = account_exists_mail owner.email owner.username ∷ s.mails }
            else s,
      )
  unfolding register send_account_exists_email on_ok
  register_known s owner free known = elim (Bool-cases queued) [
    | inl yes_queued ↦ rw (register, free, known, yes_queued) refl
    | inr not_queued ↦ rw (register, free, known, not_queued) refl
  ]

  -- What the new account is made in, and what follows.
  abbrev creation : Store → Reply User × Store
  creation s =
      create_user p ids accepts now (registered p salt dto) user_id_max_attempts 0 (others s)

  register_new :
      (s : Store) (u : User) (token : Text)
      → by_username p dto.username s.users ≡ none
      → account_of_email p dto.email s.users ≡ none
      → (creation s).0 ≡ ok u
      → generate_verification_token p f verification_token_max_attempts 0 (creation s).1.links
        ≡ some token
      → (register p others ids accepts f now queued salt dto s).0 ≡ answer
  unfolding register send_verification_email on_ok
  register_new s u token free unknown created fresh =
      let follows =
        on_ok_ok (creation s)
          (λ user s'.
            on_ok (send_verification_email p f now queued user none s')
              (λ _ s''. (ok register_response, s'')))
          u created in
      elim (Bool-cases queued) [
        | inl yes_queued ↦
            rw (register, free, unknown, follows, send_verification_email, fresh, yes_queued) refl
        | inr not_queued ↦
            rw (register, free, unknown, follows, send_verification_email, fresh, not_queued) refl
      ]

  -- For a free user name, the reply to a registration is the same whether its address has an
  -- account (in `s`) or not (in `s'`, where the account is created and a fresh token is found),
  -- also when the email cannot be queued; in the first case nothing changes but the email to the
  -- owner's stored address.
  pub register_hides :
      (s s' : Store) (owner u : User) (token : Text)
      → by_username p dto.username s.users ≡ none
      → account_of_email p dto.email s.users ≡ some owner
      → by_username p dto.username s'.users ≡ none
      → account_of_email p dto.email s'.users ≡ none
      → (creation s').0 ≡ ok u
      → generate_verification_token p f verification_token_max_attempts 0 (creation s').1.links
        ≡ some token
      → ((register p others ids accepts f now queued salt dto s).0
          ≡ (register p others ids accepts f now queued salt dto s').0)
        × (register p others ids accepts f now queued salt dto s ≡ (
          answer,
          if queued
              then record s { mails = account_exists_mail owner.email owner.username ∷ s.mails }
              else s,
        ))
  register_hides s s' owner u token free known free' unknown created fresh =
      let told = register_known s owner free known in
      (
        ap (λ (r : Reply String × Store). r.0) told
            ∙ sym (register_new s' u token free' unknown created fresh),
        told,
      )
