-- ===== src/Vocabulary/Publishing.antt =====
-- The packages service as a whole: copies, deletion and activation of packages.
use sealvo.Base.{ℕ, ◌≡◌, refl, none, some, arith}
use sealvo.Vocabulary.Tables.{Db, ok, view, in_package, PackageRow}
use sealvo.Vocabulary.Packages.{delete}
use sealvo.Vocabulary.Integrity.{Whole}
use sealvo.Vocabulary.Deleting.{Removed, delete_entries_removes}

-- Where the integrity holds, a package that is deleted is gone with its rows; the rows of the others stay and show what they
-- showed, and no orphan is left.
pub delete_removes :
    (pkg : ℕ) (p : PackageRow) (db : Db)
    → Whole db
    → db.packages pkg ≡ some p
    → let (r, after) = delete pkg db in
      (r ≡ ok tt) × (after.packages pkg ≡ none) × Removed (in_package pkg) db after
unfolding delete view
delete_removes pkg p db w e =
    let gone = delete_entries_removes pkg db w in
    rw (delete, e)
      (
        refl,
        ground arith,
        record {
          whole = record {
            words_below = gone.whole.words_below;
            details_below = gone.whole.details_below;
            shows = gone.whole.shows;
            used = gone.whole.used;
          };
          kept = gone.kept;
          none_left = gone.none_left;
        },
      )
