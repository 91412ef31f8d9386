-- ===== src/Cache/Hash.antt =====
-- Laws of a hash's fields.
use sealvo.Base.{
  ◌≡◌, refl, ◌↔◌, inl, inr, Bool, true, not, ◌||◌, ◌&&◌, ap, List, [], ◌∷◌, arith, any, every,
  select, length, length-select-le, Bool-cases,
}
use sealvo.Cache.{has, put, without, removed}

every_of_length {ℓ} :
    {A : Type ℓ} (p : A → Bool) (xs : List A) → length (select p xs) ≡ length xs → every p xs ≡ true
every_of_length p [] h = refl
every_of_length p (x ∷ xs) h = elim (Bool-cases (p x)) [
  | inl e ↦ ground (arith, every_of_length p xs)
  | inr e ↦ ground (arith, length-select-le p xs)
]

length_of_every {ℓ} :
    {A : Type ℓ} (p : A → Bool) (xs : List A) → every p xs ≡ true → length (select p xs) ≡ length xs
length_of_every p [] h = refl
length_of_every p (x ∷ xs) h = ground (arith, length_of_every p xs)

module _ {F : Type 0} (same : F → F → Bool)
    (same_iff : (a b : F) → (same a b ≡ true) ↔ (a ≡ b)) where
  has_of_same :
      (f g : F) (fields : List F) → same g f ≡ true → any (same g) fields ≡ any (same f) fields
  has_of_same f g fields h = ap (λ z. any (same z) fields) ((same_iff g f).0 h)

  has_head : (g : F) (gs : List F) → has same g (g ∷ gs) ≡ true
  unfolding has
  has_head g gs = ground (arith, (same_iff g g).1 refl)

  has_tail : (f g : F) (gs : List F) → has same f gs ≡ true → has same f (g ∷ gs) ≡ true
  unfolding has
  has_tail f g gs h = ground arith

  pub has-put :
      (f g : F) (fields : List F) → has same g (put same f fields) ≡ (same g f || has same g fields)
  unfolding put has
  has-put f g fields = ground (arith, has_of_same f g fields)

  pub has-without :
      (g : F) (fs fields : List F)
      → has same g (without same fs fields) ≡ (has same g fields && not (has same g fs))
  unfolding without has
  has-without g fs [] = ground arith
  has-without g fs (f ∷ fields) = ground (arith, has_of_same f g fs, has-without g fs fields)

  -- All the named fields were there when as many were removed.
  pub every-removed :
      (fs fields : List F)
      → removed same fs fields ≡ length fs
      → every (λ f. has same f fields) fs ≡ true
  unfolding removed has
  every-removed fs fields h = every_of_length _ fs h

  -- They are all removed when they were all there.
  pub removed-every :
      (fs fields : List F)
      → every (λ f. has same f fields) fs ≡ true
      → removed same fs fields ≡ length fs
  unfolding removed has
  removed-every fs fields h = length_of_every _ fs h

  none_left :
      (fs fields gs : List F)
      → ((f : F) → has same f gs ≡ true → has same f fs ≡ true)
      → length (select (λ f. has same f (without same fs fields)) gs) ≡ 0
  none_left fs fields [] sub = refl
  none_left fs fields (g ∷ gs) sub = ground (
    arith,
    has-without g fs fields,
    sub g (has_head g gs),
    none_left fs fields gs (λ f h. sub f (has_tail f g gs h)),
  )

  -- A second HDEL of the same fields finds none of them.
  pub removed-without : (fs fields : List F) → removed same fs (without same fs fields) ≡ 0
  unfolding removed
  removed-without fs fields = none_left fs fields fs (λ f h. h)
