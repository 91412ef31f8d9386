-- ===== src/Accounts/Username.antt =====
-- The user name of a new Google account.
use sealvo.Base.{
  ℕ, zero, suc, ◌+◌, ◌≤◌, ◌≡◌, refl, inl, inr, true, Option, none, some, List, [], ◌∷◌, ◌++◌, arith,
  All, take, length, leb_iff, Option-cases, select-All, length-take-le, length-append, subst,
}
use sealvo.Session.Token.{Text}
use sealvo.Accounts.{Platform, User, by_username}
use sealvo.Accounts.Google.{
  is_allowed, sanitize, before_at, username_base, candidate, free_username, generate_username,
  or_empty_name, username_max_attempts,
}

abbrev pub Allowed : Text → Type 0
Allowed = All (λ c. is_allowed c ≡ true)

All-take : {A : Type 0} (P : A → Type 0) (n : ℕ) (xs : List A) → All P xs → All P (take n xs)
All-take P zero xs a = tt
All-take P (suc n) [] a = tt
All-take P (suc n) (x ∷ xs) a = (a.0, All-take P n xs a.1)

All-append : {A : Type 0} (P : A → Type 0) (xs ys : List A) → All P xs → All P ys → All P (xs ++ ys)
All-append P [] ys a b = b
All-append P (x ∷ xs) ys a b = (a.0, All-append P xs ys a.1 b)

-- What a name may be: allowed characters only, 3 to 40 of them.
abbrev pub BaseName : Text → Type 0
BaseName t = Allowed t × (3 ≤ length t) × (length t ≤ 40)

sanitize-Allowed :
    (p : Platform) (value : Text) → Allowed (sanitize p value) × (length (sanitize p value) ≤ 40)
unfolding sanitize
sanitize-Allowed p value = (All-take _ 40 _ (select-All is_allowed _), length-take-le 40 _)

username_base-BaseName :
    (p : Platform) (name : Option Text) (email : Text) → BaseName (username_base p name email)
unfolding username_base is_allowed
username_base-BaseName p name email = ground (
  arith,
  sanitize-Allowed p (or_empty_name name),
  sanitize-Allowed p (before_at email),
  leb_iff 3 (length (sanitize p (or_empty_name name))),
  leb_iff 3 (length (sanitize p (before_at email))),
)

-- The random suffixes: six allowed characters.
abbrev pub Suffixes : (ℕ → Text) → Type 0
Suffixes suffix = (i : ℕ) → Allowed (suffix i) × (length (suffix i) ≡ 6)

candidate-Allowed :
    (suffix : ℕ → Text) (base : Text) (i : ℕ)
    → Suffixes suffix
    → BaseName base
    → Allowed (candidate suffix base i)
      × (3 ≤ length (candidate suffix base i))
      × (length (candidate suffix base i) ≤ 47)
unfolding candidate is_allowed
candidate-Allowed suffix base zero w b = ground (arith, b)
candidate-Allowed suffix base (suc i) w b = (
  All-append _ base (95 ∷ suffix (suc i)) b.0 (refl, (w (suc i)).0),
  ground (arith, b, w (suc i), length-append base (95 ∷ suffix (suc i))),
  ground (arith, b, w (suc i), length-append base (95 ∷ suffix (suc i))),
)

free_username_lem :
    (p : Platform) (suffix : ℕ → Text) (base : Text) (left i : ℕ) (users : List User) (t : Text)
    → Suffixes suffix
    → BaseName base
    → free_username p suffix base left i users ≡ some t
    → (by_username p t users ≡ none) × Allowed t × (3 ≤ length t) × (length t ≤ 47)
unfolding free_username
free_username_lem p suffix base zero i users t w b e = absurd (ground arith)
free_username_lem p suffix base (suc left) i users t w b e =
    elim (Option-cases (by_username p (candidate suffix base i) users)) [
      | inl free ↦
          let same : candidate suffix base i ≡ t = ground arith in
          let fits = candidate-Allowed suffix base i w b in
          subst (λ t. (by_username p t users ≡ none) × Allowed t × (3 ≤ length t) × (length t ≤ 47))
            same (free, fits.0, fits.1, fits.2)
      | inr (u, taken) ↦ ground (arith, free_username_lem p suffix base left (i + 1) users t w b)
    ]

-- A generated user name is free, made of allowed characters only, and 3 to 47 characters long (the
-- limits are 3 and 50), if the random suffixes are six allowed characters.
pub generate_username_lem :
    (p : Platform) (suffix : ℕ → Text) (name : Option Text) (email : Text) (users : List User)
    (t : Text)
    → Suffixes suffix
    → generate_username p suffix name email users ≡ some t
    → (by_username p t users ≡ none) × Allowed t × (3 ≤ length t) × (length t ≤ 47)
unfolding generate_username
generate_username_lem p suffix name email users t w e =
    free_username_lem p suffix _ username_max_attempts 0 users t w
      (username_base-BaseName p name email) e
