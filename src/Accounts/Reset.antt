-- ===== src/Accounts/Reset.antt =====
-- apps/api/src/auth/password-reset.service.ts and apps/api/src/common/utils/normalize-email.ts: the
-- reset link and the new password. What other requests do between the read of the token and the
-- transaction is a parameter.
pub mod Effect
use sealvo.Base.{
  ℕ, ◌+◌, ◌*◌, Bool, true, false, not, ◌&&◌, ◌||◌, Option, none, some, List, [], ◌∷◌, select, any,
  find, ◌==◌, if◌then◌else◌, length, ltb,
}
use sealvo.Session.Token.{Text, same_text}
use sealvo.Session.{Session}
use sealvo.Accounts.{
  User, Link, ResetToken, Store, Mail, Entry, Reply, Platform, ok, bad_request, not_found,
  reset_mail, password_change_entry, find_user, collated, update_user, revoke_links, pending_of,
}

abbrev pub reset_token_ttl : ℕ
reset_token_ttl = 60 * 60 * 1_000

-- The characters that String.trim removes.
unfoldable pub is_space : ℕ → Bool
is_space c =
    c == 32
    || ltb 8 c && ltb c 14
    || c == 160
    || c == 5760
    || ltb 8191 c && ltb c 8203
    || c == 8232
    || c == 8233
    || c == 8239
    || c == 8287
    || c == 12288
    || c == 65279

unfoldable pub trim_start : Text → Text
trim_start [] = []
trim_start (c ∷ cs) = let rest = trim_start cs in if is_space c then rest else c ∷ cs

-- A space is kept only in front of something that is.
unfoldable pub trim_end : Text → Text
trim_end [] = []
trim_end (c ∷ cs) = elim (trim_end cs) [
  | [] ↦ if is_space c then [] else c ∷ []
  | d ∷ ds ↦ c ∷ d ∷ ds
]

abbrev pub trim : Text → Text
trim t = trim_start (trim_end t)

-- An empty result is falsy.
abbrev pub or_trimmed : Text → Option Text → Text
or_trimmed trimmed none = trimmed
or_trimmed trimmed (some []) = trimmed
or_trimmed trimmed (some (c ∷ cs)) = c ∷ cs

module _ (p : Platform) where
  unfoldable pub normalize_email : Text → Text
  normalize_email email =
      let trimmed = trim email in
      if p.is_email trimmed then or_trimmed trimmed (p.canonical_email trimmed) else email

  unfoldable pub email_lookup_forms : Text → List Text
  email_lookup_forms email =
      let trimmed = trim email in
      let normalized = normalize_email trimmed in
      if same_text trimmed normalized then normalized ∷ [] else trimmed ∷ normalized ∷ []

  abbrev pub or_first : {A : Type 0} → List A → Option A → Option A
  or_first xs (some x) = some x
  or_first [] none = none
  or_first (x ∷ xs) none = some x

  unfoldable pub preferred_stored_email : Text → List User → Option User
  preferred_stored_email email matches =
      let normalized = p.lower (normalize_email (trim email)) in
      or_first matches (find (λ (u : User). same_text (p.lower u.email) normalized) matches)

  -- findMany with `email in forms`, and the preferred row.
  unfoldable pub account_of_email : Text → List User → Option User
  account_of_email email users = preferred_stored_email email (
      select (λ (u : User). any (λ form. collated p u.email form) (email_lookup_forms email)) users)

  -- `token` is the fresh token, `queued` whether the email queue takes the email: if not, it is
  -- only logged.
  unfoldable pub send_reset_link : ℕ → Text → Bool → User → Store → Store
  send_reset_link now token queued user s = record s {
    resets =
        record {
          token_hash = p.hash_token token;
          user_id = user.id;
          expires_at = now + reset_token_ttl;
        }
        ∷ select (λ (t : ResetToken). not (t.user_id == user.id)) s.resets;
    mails = if queued then reset_mail user.email token ∷ s.mails else s.mails;
  }

  -- The answer is the same whether or not there is an account, and does not wait for the link.
  unfoldable pub forgot_password : ℕ → Text → Bool → Text → Store → Reply Unit × Store
  forgot_password now token queued email s = (
    ok tt,
    elim (account_of_email email s.users) [
      | none ↦ s
      | some user ↦ send_reset_link now token queued user s
    ],
  )

  unfoldable pub find_reset : ℕ → Text → List ResetToken → Option ResetToken
  find_reset now token_hash resets =
      find (λ (t : ResetToken). same_text t.token_hash token_hash && ltb now t.expires_at) resets

  -- What the transaction writes once it has consumed the token.
  unfoldable pub reset_account : ℕ → Text → Text → Store → Store
  reset_account user_id token_hash hashed s = record s {
    users = update_user user_id (λ u. record u { password = hashed; is_verified = true }) s.users;
    links = revoke_links (pending_of user_id) s.links;
    resets =
        select (λ (t : ResetToken). not (t.user_id == user_id))
          (select (λ (t : ResetToken). not (same_text t.token_hash token_hash)) s.resets);
    sessions = select (λ (x : Session). not (x.user_id == user_id)) s.sessions;
    journal = password_change_entry user_id ∷ s.journal;
  }

  -- The transaction: all of it or nothing. A user that is gone is Prisma's P2025, a 404.
  unfoldable pub reset_tx : ℕ → Text → Text → Store → Reply Unit × Store
  reset_tx user_id token_hash hashed s =
      let consumed =
        length (select (λ (t : ResetToken). same_text t.token_hash token_hash) s.resets) in
      if consumed == 0 then (bad_request, s) else elim (find_user user_id s.users) [
        | none ↦ (not_found, s)
        | some u ↦ (ok tt, reset_account user_id token_hash hashed s)
      ]

  unfoldable pub reset_password :
      (Store → Store) → ℕ → Text → Text → Text → Store → Reply Unit × Store
  reset_password others now salt token password s =
      let token_hash = p.hash_token token in
      elim (find_reset now token_hash s.resets) [
        | none ↦ (bad_request, s)
        | some t ↦ reset_tx t.user_id token_hash (p.bcrypt_hash salt password) (others s)
      ]
