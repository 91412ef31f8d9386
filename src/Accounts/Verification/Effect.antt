-- ===== src/Accounts/Verification/Effect.antt =====
-- What a confirmed link leaves, and that it confirms once.
use sealvo.Base.{
  ℕ, ◌≡◌, ◌≢◌, refl, sym, ap, subst, ◌∙◌, inl, inr, Bool, true, false, ◌&&◌, Option, none, some,
  List, [], ◌∷◌, arith, All, ◌==◌, Bool-cases, Option-cases,
}
use sealvo.Session.Token.{Text, same_text, same_text_iff}
use sealvo.Accounts.{User, Link, Store, Platform, Reply, ok, bad_request, find_user}
use sealvo.Accounts.Table.{find_user-update_user}
use sealvo.Accounts.Verification.{
  open_link, use_link, or_email, find_link, owner_differs, email_taken, verify_tx, verify_email,
}

-- No row of this key can be confirmed.
abbrev pub Closed : Text → List Link → Type 0
Closed id = All (λ (l : Link). l.id ≡ id → open_link l ≡ false)

use_link-Closed : (now : ℕ) (id : Text) (links : List Link) → Closed id (use_link now id links).1
unfolding use_link
use_link-Closed now id [] = tt
use_link-Closed now id (l ∷ links) = elim (Bool-cases (same_text l.id id && open_link l)) [
  | inl hit ↦ rw hit (λ e. refl, use_link-Closed now id links)
  | inr miss ↦ rw miss (λ e. ground (arith, same_text_iff l.id id), use_link-Closed now id links)
]

Closed-use_link :
    (now : ℕ) (id : Text) (links : List Link) → Closed id links → (use_link now id links).0 ≡ 0
unfolding use_link
Closed-use_link now id [] c = refl
Closed-use_link now id (l ∷ links) c =
    ground (arith, Closed-use_link now id links c.1, c.0, same_text_iff l.id id)

or_email-id :
    (email : Option Text) (v : User) → (or_email email (record v { is_verified = true })).id ≡ v.id
or_email-id none v = refl
or_email-id (some e) v = refl

refused_when-Closed :
    (p : Platform) (now : ℕ) (l : Link) (s : Store)
    → Closed l.id s.links
    → verify_tx p now l s ≡ (bad_request, s)
unfolding verify_tx
refused_when-Closed p now l s c = rw (verify_tx, Closed-use_link now l.id s.links c) refl

module _ (p : Platform) (now : ℕ) (l : Link) (s : Store) (changed : Bool) where
  verify_tx_inv :
      (verify_tx p now l s).0 ≡ ok changed
      → (u : User) × (find_user l.user_id s.users ≡ some u)
        × (find_user l.user_id (verify_tx p now l s).1.users
            ≡ some (or_email l.new_email (record u { is_verified = true })))
        × ((verify_tx p now l s).1.links ≡ (use_link now l.id s.links).1)
  unfolding verify_tx
  verify_tx_inv e = elim (Bool-cases ((use_link now l.id s.links).0 == 1)) [
    | inr miss ↦ absurd (ground arith)
    | inl hit ↦ elim (Option-cases (find_user l.user_id s.users)) [
      | inl gone ↦ absurd (ground arith)
      | inr (u, here) ↦ elim (Bool-cases (email_taken p l.user_id l.new_email s.users)) [
        | inl taken ↦ absurd (ground arith)
        | inr free ↦
            let confirmed =
              find_user-update_user l.user_id
                (λ u. or_email l.new_email (record u { is_verified = true })) s.users u
                (or_email-id l.new_email) here in
            (
              u,
              here,
              rw (verify_tx, hit, here, free) confirmed,
              rw (verify_tx, hit, here, free) refl,
            )
      ]
    ]
  ]

  -- A second transaction on the row that the first one has confirmed writes nothing.
  verify_tx_once :
      (now' : ℕ)
      → (verify_tx p now l s).0 ≡ ok changed
      → verify_tx p now' l (verify_tx p now l s).1 ≡ (bad_request, (verify_tx p now l s).1)
  verify_tx_once now' e =
      refused_when-Closed p now' l (verify_tx p now l s).1
        (subst (Closed l.id) (sym (verify_tx_inv e).3) (use_link-Closed now l.id s.links))

-- A link that was confirmed: `l` is the row that the request read.
module _ (p : Platform) (others : ℕ → Store → Store) (now : ℕ) (token : Text) (s : Store) (l : Link)
    (changed : Bool) (found : find_link p now (p.hash_token token) s.links ≡ some l)
    (confirmed : (verify_email p others now token s).0 ≡ ok changed) where
  abbrev after : Store
  after = (verify_email p others now token s).1

  is_tx : verify_email p others now token s ≡ verify_tx p now l (others 1 (others 0 s))
  unfolding verify_email
  is_tx = elim (Bool-cases (owner_differs p l.user_id l.new_email (others 0 s).users)) [
    | inl taken ↦ absurd (ground arith)
    | inr free ↦ rw (verify_email, found, free) refl
  ]

  tx_ok : (verify_tx p now l (others 1 (others 0 s))).0 ≡ ok changed
  tx_ok = sym (ap (λ (r : Reply Bool × Store). r.0) is_tx) ∙ confirmed

  -- When a confirmation succeeds with the row `l` that it read: the account of the link existed at
  -- the transaction, and is then verified, with the link's new address if the link has one and its
  -- own otherwise.
  pub verify_email-Shows :
      (u : User) × (find_user l.user_id (others 1 (others 0 s)).users ≡ some u)
      × (find_user l.user_id after.users
          ≡ some (or_email l.new_email (record u { is_verified = true })))
  verify_email-Shows =
      let tx = verify_tx_inv p now l (others 1 (others 0 s)) changed tx_ok in
      (
        tx.0,
        tx.1,
        subst
            (λ (r : Reply Bool × Store).
              find_user l.user_id r.1.users
              ≡ some (or_email l.new_email (record tx.0 { is_verified = true })))
            (sym is_tx) tx.2,
      )

  -- A link confirms once: of two requests that read the same row, the one whose transaction comes
  -- right after the other's successful one does not succeed.
  pub verify_once :
      (others' : ℕ → Store → Store) (now' : ℕ)
      → find_link p now' (p.hash_token token) s.links ≡ some l
      → others' 1 (others' 0 s) ≡ after
      → (again : Bool) → (verify_email p others' now' token s).0 ≢ ok again
  unfolding verify_email
  verify_once others' now' found' meanwhile again e =
      let second = verify_tx_once p now l (others 1 (others 0 s)) changed now' tx_ok in
      elim (Bool-cases (owner_differs p l.user_id l.new_email (others' 0 s).users)) [
        | inl taken ↦ absurd (ground arith)
        | inr free ↦
            let same : verify_email p others' now' token s
                ≡ verify_tx p now' l (others' 1 (others' 0 s)) =
              rw (verify_email, found', free) refl in
            let refused : (verify_tx p now' l (others' 1 (others' 0 s))).0 ≡ bad_request =
              subst (λ (t : Store). (verify_tx p now' l t).0 ≡ bad_request)
                (sym (meanwhile ∙ ap (λ (r : Reply Bool × Store). r.1) is_tx))
                (ap (λ (r : Reply Bool × Store). r.0) second) in
            let clash : bad_request ≡ ok again =
              sym refused ∙ sym (ap (λ (r : Reply Bool × Store). r.0) same) ∙ e in
            ground arith
      ]
