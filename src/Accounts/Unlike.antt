-- ===== src/Accounts/Unlike.antt =====
-- apps/api/prisma/schema.prisma: the unique keys of `users`, under every statement that writes them.
use sealvo.Base.{
  ℕ, ◌≡◌, ◌≢◌, sym, ◌∙◌, inl, inr, Bool, false, List, [], ◌∷◌, arith, All, any, select, ◌==◌,
  Bool-cases, ==_iff,
}
use sealvo.Session.Token.{same_text_iff}
use sealvo.Accounts.{User, Platform, collated, has_id, update_user}
use sealvo.Accounts.Table.{All-select}
use sealvo.Accounts.SignIn.{NewUser, new_user, name_or_email_taken}

-- Every element is related to every later one.
abbrev pub Apart : {A : Type 0} → (A → A → Type 0) → List A → Type 0
Apart R [] = Unit
Apart R (x ∷ xs) = All (R x) xs × Apart R xs

pub Apart-select :
    {A : Type 0} (R : A → A → Type 0) (keep : A → Bool) (xs : List A)
    → Apart R xs
    → Apart R (select keep xs)
Apart-select R keep [] a = tt
Apart-select R keep (x ∷ xs) a =
    ground (arith, All-select (R x) keep xs a.0, Apart-select R keep xs a.1)

module _ (p : Platform) where
  -- No unique key holds the same for both.
  pub record Unlike (u v : User) : Type 0 where
    pub ids : u.id ≢ v.id
    pub emails : p.collate u.email ≢ p.collate v.email
    pub names : p.collate u.username ≢ p.collate v.username

  Unlike-sym : (u v : User) → Unlike u v → Unlike v u
  Unlike-sym u v a = record {
    ids = λ e. a.ids (sym e);
    emails = λ e. a.emails (sym e);
    names = λ e. a.names (sym e);
  }

  -- A write of the row `id` that stays unlike a row of another account.
  abbrev pub Fits : ℕ → (User → User) → User → Type 0
  Fits id write v = v.id ≢ id → (w : User) → w.id ≡ id → Unlike w v → Unlike (write w) v

  module _ (id : ℕ) (write : User → User) where
    written_apart :
        (u : User) (users : List User)
        → u.id ≡ id
        → All (Unlike u) users
        → All (Fits id write) users
        → All (Unlike (write u)) (update_user id write users)
    unfolding update_user
    written_apart u [] e a f = tt
    written_apart u (v ∷ users) e a f = elim (Bool-cases (v.id == id)) [
      | inl same ↦ absurd (a.0.ids (e ∙ sym ((==_iff v.id id).0 same)))
      | inr other ↦
          let differs : v.id ≢ id = λ same. a.0.ids (e ∙ sym same) in
          rw other (f.0 differs u e a.0, written_apart u users e a.1 f.1)
    ]

    others_apart :
        (u : User) (users : List User)
        → u.id ≢ id
        → All (Unlike u) users
        → Fits id write u
        → All (Unlike u) (update_user id write users)
    unfolding update_user
    others_apart u [] e a f = tt
    others_apart u (v ∷ users) e a f = elim (Bool-cases (v.id == id)) [
      | inl same ↦ rw same (
        Unlike-sym (write v) u (f e v ((==_iff v.id id).0 same) (Unlike-sym u v a.0)),
        others_apart u users e a.1 f,
      )
      | inr other ↦ rw other (a.0, others_apart u users e a.1 f)
    ]

    pub update_user-Apart :
        (users : List User)
        → Apart Unlike users
        → All (Fits id write) users
        → Apart Unlike (update_user id write users)
    unfolding update_user
    update_user-Apart [] a f = tt
    update_user-Apart (u ∷ users) a f = elim (Bool-cases (u.id == id)) [
      | inl same ↦
          rw same (
            written_apart u users ((==_iff u.id id).0 same) a.0 f.1,
            update_user-Apart users a.1 f.1,
          )
      | inr other ↦
          let differs : u.id ≢ id = ground (arith, ==_iff u.id id) in
          rw other (others_apart u users differs a.0 f.0, update_user-Apart users a.1 f.1)
    ]

  pub new_user-Unlike :
      (id now : ℕ) (d : NewUser) (users : List User)
      → any (has_id id) users ≡ false
      → name_or_email_taken p d users ≡ false
      → All (Unlike (new_user id now d)) users
  unfolding new_user name_or_email_taken collated
  new_user-Unlike id now d [] h k = tt
  new_user-Unlike id now d (v ∷ users) h k = (
    record {
      ids = ground (arith, ==_iff v.id id);
      emails = ground (arith, same_text_iff (p.collate v.email) (p.collate d.email));
      names = ground (arith, same_text_iff (p.collate v.username) (p.collate d.username));
    },
    new_user-Unlike id now d users (ground arith) (ground arith),
  )
