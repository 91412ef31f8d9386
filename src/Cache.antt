-- ===== src/Cache.antt =====
-- apps/api/src/redis/cache.service.ts: the hash operations that hold a level's progress.
-- Redis itself is not code of the repository. A hash whose values are all '1' is the list of its
-- fields, and each call is met with one of three fates.
pub mod Hash
use sealvo.Base.{
  ℕ, Bool, true, false, Option, none, some, List, [], ◌∷◌, not, any, select, length, if◌then◌else◌,
}

-- `up`: carried out and answered. `down`: not carried out (not ready, or an error before). `lost`:
-- carried out, but the caller gets an error.
pub data Link : Type 0 where
  up down lost : Link

module _ {F : Type 0} (same : F → F → Bool) where
  unfoldable pub has : F → List F → Bool
  has f fields = any (same f) fields

  -- HSET of the value '1'
  unfoldable pub put : F → List F → List F
  unfolding has
  put f fields = if has f fields then fields else f ∷ fields

  -- HDEL: the fields that stay
  unfoldable pub without : List F → List F → List F
  unfolding has
  without fs fields = select (λ f. not (has f fs)) fields

  -- HDEL: how many of the named fields were there
  unfoldable pub removed : List F → List F → ℕ
  unfolding has
  removed fs fields = length (select (λ f. has f fields) fs)

  unfoldable pub h_set : Link → F → List F → Bool × List F
  h_set up f fields = (true, put f fields)
  h_set down f fields = (false, fields)
  h_set lost f fields = (false, put f fields)

  unfoldable pub h_get_all : Link → List F → Option (List F)
  h_get_all up fields = some fields
  h_get_all down fields = none
  h_get_all lost fields = none

  unfoldable pub h_del : Link → List F → List F → Option ℕ × List F
  h_del up fs fields = (some (removed fs fields), without fs fields)
  h_del down fs fields = (none, fields)
  h_del lost fs fields = (none, without fs fields)
