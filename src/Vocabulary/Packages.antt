-- ===== src/Vocabulary/Packages.antt =====
-- apps/api/src/packages/packages.service.ts: the packages. Each operation is one transaction.
-- Messages and the order of the lists are left out.
use sealvo.Base.{
  ℕ, ◌+◌, Bool, true, false, not, Option, none, some, List, [], ◌∷◌, String, ◌==◌, if◌then◌else◌,
  select,
}
use sealvo.Levels.{level_x}
use sealvo.Learning.{Row}
use sealvo.Vocabulary.Tables.{
  Detail, Db, Result, ok, not_found, forbidden, db_error, update_at, in_package, create_detail,
  create_learning, Mode, private_mode, is_public, PackageRow, package_create, package_delete,
}
use sealvo.Vocabulary.Enrichment.{or_default}
use sealvo.Vocabulary.Editing.{delete_entries}

-- CreatePackageDto
pub record CreatePackage : Type 0 where
  pub package_name : String
  pub package_description : Option String
  pub mode : Option Mode

-- UpdatePackageDto
pub record UpdatePackage : Type 0 where
  pub package_name : Option String
  pub package_description : Option String
  pub mode : Option Mode

abbrev pub asks_public : Option Mode → Bool
asks_public none = false
asks_public (some m) = is_public m

unfoldable pub add_package : PackageRow → Db → ℕ × Db
add_package p db = (
  db.next_package,
  record db {
    packages = update_at db.packages db.next_package (some p);
    next_package = db.next_package + 1;
    journal = package_create p.user_id db.next_package p.package_name ∷ db.journal;
  },
)

unfoldable pub create : ℕ → CreatePackage → Db → ℕ × Db
unfolding add_package
create user dto db =
    add_package
      (record {
        user_id = user;
        package_name = dto.package_name;
        package_description = dto.package_description;
        mode = or_default dto.mode private_mode;
        is_active = not (asks_public dto.mode);
      })
      db

-- A description that is given replaces the old one; one that is not given leaves it.
abbrev pub or_kept : Option String → Option String → Option String
or_kept none old = old
or_kept (some s) old = some s

unfoldable pub update : ℕ → UpdatePackage → Db → Result Unit × Db
update pkg dto db = elim (db.packages pkg) [
  | none ↦ (db_error, db)
  | some p ↦ (
    ok tt,
    record db {
      packages = update_at db.packages pkg (
          some (record p {
            package_name = or_default dto.package_name p.package_name;
            package_description = or_kept dto.package_description p.package_description;
            mode = or_default dto.mode p.mode;
            is_active = if asks_public dto.mode then false else p.is_active;
          }));
    },
  )
]

-- The rows of `learning` go with the package, by ON DELETE CASCADE.
unfoldable pub delete : ℕ → Db → Result Unit × Db
delete pkg db = elim (db.packages pkg) [
  | none ↦ (not_found, db)
  | some p ↦
      let gone = delete_entries pkg db in
      (
        ok tt,
        record gone {
          packages = update_at db.packages pkg none;
          journal = package_delete p.user_id pkg p.package_name ∷ db.journal;
        },
      )
]

-- The status after the toggle.
unfoldable pub toggle_activation : ℕ → Db → Result Bool × Db
toggle_activation pkg db = elim (db.packages pkg) [
  | none ↦ (not_found, db)
  | some p ↦ (
    ok (not p.is_active),
    record db {
      packages = update_at db.packages pkg (some (record p { is_active = not p.is_active }));
    },
  )
]

-- findOne: the package, and whether it is the user's.
unfoldable pub find_one : ℕ → ℕ → Db → Result (PackageRow × Bool)
find_one pkg user db = elim (db.packages pkg) [
  | none ↦ not_found
  | some p ↦ ok (p, p.user_id == user)
]

-- The entries read before the transaction: the details of each row of the package.
unfoldable pub read_details : List Row → Db → List Detail
read_details [] db = []
read_details (r ∷ rows) db =
    let rest = read_details rows db in
    elim (db.details r.detail_id) [ none ↦ rest | some d ↦ d ∷ rest ]

unfoldable pub clone_details : ℕ → ℕ → List Detail → Db → Db
unfolding create_detail create_learning
clone_details now pkg [] db = db
clone_details now pkg (d ∷ ds) db =
    let (detail, db') = create_detail d db in
    clone_details now pkg ds (create_learning now pkg detail level_x db')

unfoldable pub copy_public_package : ℕ → ℕ → ℕ → Db → Result ℕ × Db
copy_public_package now pkg user db = elim (db.packages pkg) [
  | none ↦ (not_found, db)
  | some p ↦
      let copy : PackageRow = record p { user_id = user; mode = private_mode; is_active = true } in
      let (new, created) = add_package copy db in
      if not (is_public p.mode) then (forbidden, db) else (
        ok new,
        clone_details now new (read_details (select (in_package pkg) db.learning) db) created,
      )
]
