-- ===== src/Learning/Progress.antt =====
-- The progress of a level, as the service sees it, against the fields that Redis holds.
use sealvo.Base.{◌≡◌, ◌↔◌, refl, ap, ap₂, Bool, true, false, ◌||◌, List, [], ◌∷◌, arith, &&_iff}
use sealvo.Levels.{Level, GameType, same_level, same_game}
use sealvo.Levels.Laws.{same_level_iff, same_game_iff, same_level_refl}
use sealvo.Cache.{up, down, has, put, h_set, h_get_all}
use sealvo.Cache.Hash.{has-put}
use sealvo.Learning.{Env, Field, same_field, mark, to_progress, seen, record_game}

pub same_field_iff : (a b : Field) → (same_field a b ≡ true) ↔ (a ≡ b)
same_field_iff (l, g) (k, h) = (
  λ e.
      let both = (&&_iff (same_level l k) (same_game g h)).0 e in
      ap₂ {C = Field} (λ x y. (x, y)) ((same_level_iff l k).0 both.0)
        ((same_game_iff g h).0 both.1),
  λ e. (&&_iff _ _).1 (
    (same_level_iff l k).1 (ap (λ (x : Field). x.0) e),
    (same_game_iff g h).1 (ap (λ (x : Field). x.1) e),
  ),
)

-- `toProgress` holds exactly the stored fields.
pub to_progress-eq-has :
    (fields : List Field) (l : Level) (g : GameType)
    → to_progress fields l g ≡ has same_field (l, g) fields
unfolding to_progress mark has
to_progress-eq-has [] l g = refl
to_progress-eq-has (f ∷ fields) l g =
    ap (λ b. same_field (l, g) f || b) (to_progress-eq-has fields l g)

-- The game was stored before, or is the one just completed.
unfoldable pub played : List Field → Level → GameType → GameType → Bool
played fields level game g = same_game g game || has same_field (level, g) fields

module _ (fields : List Field) (level : Level) (game : GameType) where
  -- Whatever becomes of the Redis calls, no game is seen as completed that was not.
  pub record_game_sound :
      (e : Env) (g : GameType)
      → (record_game e fields (level, game)).0 level g ≡ true
      → played fields level game g ≡ true
  unfolding record_game seen mark h_set h_get_all played
  record_game_sound e g h = ground (
    arith,
    to_progress-eq-has fields level g,
    to_progress-eq-has [] level g,
    to_progress-eq-has (put same_field (level, game) fields) level g,
    has-put same_field same_field_iff (level, game) (level, g) fields,
    same_level_refl level,
  )

  -- With Redis up the service sees exactly the games played.
  pub record_game_up :
      (e : Env) (g : GameType)
      → e.set_link ≡ up
      → e.get_link ≡ up
      → ((record_game e fields (level, game)).0 level g ≡ played fields level game g)
        × ((record_game e fields (level, game)).1 ≡ put same_field (level, game) fields)
  unfolding record_game seen mark h_set h_get_all played
  record_game_up e g p q = ground (
    arith,
    to_progress-eq-has (put same_field (level, game) fields) level g,
    has-put same_field same_field_iff (level, game) (level, g) fields,
    same_level_refl level,
  )

  -- Without Redis it sees the current game alone.
  pub record_game_down :
      (e : Env) (g : GameType)
      → e.set_link ≡ down
      → e.get_link ≡ down
      → ((record_game e fields (level, game)).0 level g ≡ same_game g game)
        × ((record_game e fields (level, game)).1 ≡ fields)
  unfolding record_game seen mark h_set h_get_all
  record_game_down e g p q =
      ground (arith, to_progress-eq-has [] level g, same_level_refl level, has_nil (level, g))
    where
      has_nil : (f : Field) → has same_field f [] ≡ false
      has_nil f = unfold has in refl
