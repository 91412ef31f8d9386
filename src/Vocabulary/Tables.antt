-- ===== src/Vocabulary/Tables.antt =====
-- apps/api/prisma/schema.prisma: the tables `words`, `word_details`, `learning`, `packages` and
-- `applied_jobs`, and the statements that the services share. A table with a generated key is a
-- function of that key, with the next key to be given; a generated key is a number, and the gaps
-- that MySQL leaves between keys are not modelled.
use sealvo.Base.{
  ℕ, ◌+◌, Bool, true, false, not, ◌&&◌, Option, none, some, List, ◌∷◌, String, ◌==◌, if◌then◌else◌,
  any,
}
use sealvo.Levels.{Level}
use sealvo.Learning.{Row}

-- The unique key of `words`.
pub record Key : Type 0 where
  pub word : String
  pub subject : String
  pub language_code : String

pub record Fields : Type 0 where
  pub word_type : String
  pub meaning : String
  pub pronunciation : String
  pub synonyms : String
  pub antonyms : String
  pub example : String
  pub grammar : String

pub record Detail : Type 0 where
  pub word_id : ℕ
  pub fields : Fields

pub data Mode : Type 0 where
  public_mode private_mode protected_mode : Mode

abbrev pub is_public : Mode → Bool
is_public public_mode = true
is_public private_mode = false
is_public protected_mode = false

pub record PackageRow : Type 0 where
  pub user_id : ℕ
  pub package_name : String
  pub package_description : Option String
  pub mode : Mode
  pub is_active : Bool

-- The entries that the packages service writes into the journal.
pub data Activity : Type 0 where
  package_create : ℕ → ℕ → String → Activity
  package_delete : ℕ → ℕ → String → Activity

pub record Db : Type 0 where
  pub words : ℕ → Option Key
  pub next_word : ℕ
  pub details : ℕ → Option Detail
  pub next_detail : ℕ
  pub learning : List Row
  pub packages : ℕ → Option PackageRow
  pub next_package : ℕ
  pub applied_jobs : List ℕ
  pub journal : List Activity

-- What a request ends with: a value, a 404, a 403, or an error of the database.
pub data Result (A : Type 0) : Type 0 where
  ok : A → Result A
  not_found : Result A
  forbidden : Result A
  db_error : Result A

abbrev pub update_at : {A : Type 0} → (ℕ → Option A) → ℕ → Option A → ℕ → Option A
update_at f i v j = if j == i then v else f j

-- The row of (detail_id, package_id).
abbrev pub is_entry : ℕ → ℕ → Row → Bool
is_entry pkg detail r = r.package_id == pkg && r.detail_id == detail

abbrev pub in_package : ℕ → Row → Bool
in_package pkg r = r.package_id == pkg

abbrev pub refers : ℕ → Row → Bool
refers detail r = r.detail_id == detail

-- What a row of `learning` shows: its word and its details, by the two relations.
unfoldable pub view : Db → Row → Option (Key × Fields)
view db r = elim (db.details r.detail_id) [
  | none ↦ none
  | some d ↦ elim (db.words d.word_id) [ none ↦ none | some k ↦ some (k, d.fields) ]
]

unfoldable pub create_detail : Detail → Db → ℕ × Db
create_detail d db = (
  db.next_detail,
  record db {
    details = update_at db.details db.next_detail (some d);
    next_detail = db.next_detail + 1;
  },
)

-- date_memorized is now() by default.
unfoldable pub create_learning : ℕ → ℕ → ℕ → Level → Db → Db
create_learning now pkg detail level db = record db {
  learning =
      (record { package_id = pkg; detail_id = detail; level = level; date_memorized = some now })
      ∷ db.learning;
}

-- word_details.deleteMany where detail_id is one of the ids and no row of `learning` refers to it
unfoldable pub delete_orphan_details : List ℕ → Db → Db
delete_orphan_details ids db = record db {
  details =
      λ i. if any (λ j. i == j) ids && not (any (refers i) db.learning) then none else db.details i;
}
