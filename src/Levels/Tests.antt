-- ===== src/Levels/Tests.antt =====
-- Tests of the tables of levels and games.
use sealvo.Base.{◌≡◌, refl, some}
use sealvo.Levels.{level_2, level_v, next_level}

next_level_last : next_level level_2 ≡ some level_v
unfolding next_level
next_level_last = refl
