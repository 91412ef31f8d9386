-- ===== src/Session/Token.antt =====
-- The refresh token `<sessionId>.<secret>`, and its parser.
use sealvo.Base.{
  ℕ, ◌≡◌, ◌≢◌, ◌↔◌, refl, Bool, true, false, ◌&&◌, Option, none, some, List, [], ◌∷◌, ◌++◌, arith,
  if◌then◌else◌, ◌==◌, length, All,
}

abbrev pub Text : Type 0
Text = List ℕ

unfoldable pub same_text : Text → Text → Bool
same_text [] [] = true
same_text [] (d ∷ ds) = false
same_text (c ∷ cs) [] = false
same_text (c ∷ cs) (d ∷ ds) = c == d && same_text cs ds

pub same_text_iff : (s t : Text) → (same_text s t ≡ true) ↔ (s ≡ t)
unfolding same_text
same_text_iff [] [] = ground arith
same_text_iff [] (d ∷ ds) = ground arith
same_text_iff (c ∷ cs) [] = ground arith
same_text_iff (c ∷ cs) (d ∷ ds) = ground (arith, same_text_iff cs ds)

pub same_text_refl : (s : Text) → same_text s s ≡ true
same_text_refl s = (same_text_iff s s).1 refl

abbrev pub dot : ℕ
dot = b'.'

-- The first part before a dot, put in front of the other parts.
abbrev pub onto : ℕ → List Text → List Text
onto c [] = (c ∷ []) ∷ []
onto c (p ∷ ps) = (c ∷ p) ∷ ps

-- split('.')
unfoldable pub split_dots : Text → List Text
split_dots [] = [] ∷ []
split_dots (c ∷ cs) = let rest = split_dots cs in if c == dot then [] ∷ rest else onto c rest

-- Exactly two parts, of 36 and 64 characters.
unfoldable pub two_parts : List Text → Option (Text × Text)
two_parts (id ∷ secret ∷ []) =
    if length id == 36 && length secret == 64 then some (id, secret) else none
two_parts _ = none

abbrev pub or_empty : Option Text → Text
or_empty none = []
or_empty (some t) = t

unfoldable pub parse : Option Text → Option (Text × Text)
unfolding split_dots two_parts
parse token = two_parts (split_dots (or_empty token))

abbrev pub format : Text → Text → Text
format id secret = id ++ dot ∷ secret

-- No character of the text is a dot.
abbrev pub NoDot : Text → Type 0
NoDot = All (λ c. c ≢ dot)

split-last : (t : Text) → NoDot t → split_dots t ≡ t ∷ []
unfolding split_dots
split-last [] h = refl
split-last (c ∷ cs) h = ground (arith, split-last cs h.1, h.0)

split-first : (id rest : Text) → NoDot id → split_dots (id ++ dot ∷ rest) ≡ id ∷ split_dots rest
unfolding split_dots
split-first [] rest h = refl
split-first (c ∷ cs) rest h = ground (arith, split-first cs rest h.1, h.0)

-- A token that `create` or `rotate` hands out is read back as its session id and secret.
pub parse-format :
    (id secret : Text)
    → NoDot id
    → NoDot secret
    → length id ≡ 36
    → length secret ≡ 64
    → parse (some (format id secret)) ≡ some (id, secret)
unfolding parse
parse-format id secret p q l k = ground (arith, split-first id secret p, split-last secret q)
