-- ===== src/Session/Rotation.antt =====
-- What rotation does to a session, and what a replayed token leads to.
use sealvo.Base.{
  ◌+◌, min, ◌<◌, ◌≡◌, refl, sym, subst, ap, ◌∙◌, Bool, true, false, ◌||◌, Option, none, some, List,
  arith,
}
use sealvo.Session.Token.{Text, same_text, same_text_iff, same_text_refl, parse, format}
use sealvo.Session.Table.{
  Distinct, find-delete_session, find_session-id, find-swap_ne, find-swap_self, swap-count,
}
use sealvo.Session.{
  Session, session_max_age, session_ttl, expiry, find_session, delete_session, swap,
  is_just_rotated, rotated, Env, rotate_from, rotate_parsed, rotate,
}

module _ (hash : Text → Text) (e : Env hash) (id secret : Text) (token : Option Text)
    (rows : List Session) (s : Session) (reads : parse token ≡ some (id, secret))
    (found : find_session id rows ≡ some s) (one_row : Distinct rows)
    (quiet : e.others 0 rows ≡ rows) (live : e.clock 0 < s.expires_at) where
  abbrev pub acceptable : Bool
  acceptable = same_text (hash secret) s.token_hash || is_just_rotated (e.clock 0) (hash secret) s

  abbrev written : Session → Session
  written = rotated hash (e.clock 0) (e.fresh 0) s

  found_by_own_id : find_session s.id rows ≡ some s
  found_by_own_id = ap (λ t. find_session t rows) (find_session-id id rows s found) ∙ found

  written_once : (swap s.id s.token_hash written rows).0 ≡ 1
  unfolding rotated
  written_once =
      swap-count s.id s.token_hash written (λ q. refl) rows one_row
      ∙ rw found_by_own_id (rw (same_text_refl s.token_hash))

  pub rotate_accepted :
      acceptable ≡ true
      → rotate hash e token rows
        ≡ (some (s.user_id, format s.id (e.fresh 0)), (swap s.id s.token_hash written rows).1)
  unfolding rotate rotate_parsed rotate_from
  rotate_accepted ok = ground (arith, written_once)

  rotate_refused : acceptable ≡ false → rotate hash e token rows ≡ (none, delete_session s.id rows)
  unfolding rotate rotate_parsed rotate_from
  rotate_refused bad = ground arith

  -- A live token that is the session's current one, or the one before within the leeway, is
  -- exchanged, where no other request writes in between: the reply is a fresh token of the
  -- session's owner; the row holds its hash, remembers the hash replaced and the time, and expires
  -- after the time to live, but not later than the maximal age since its creation; and no other
  -- session changes.
  pub rotate_exchanges :
      acceptable ≡ true
      → let (reply, after) = rotate hash e token rows in
        (reply ≡ some (s.user_id, format id (e.fresh 0)))
        × (find_session id after
            ≡ some (record s {
              previous_hash = some s.token_hash;
              token_hash = hash (e.fresh 0);
              rotated_at = some (e.clock 0);
              expires_at = min (e.clock 0 + session_ttl) (s.created_at + session_max_age);
            }))
        × ((j : Text) → same_text j id ≡ false → find_session j after ≡ find_session j rows)
  unfolding rotated expiry
  rotate_exchanges ok =
      let same_id = find_session-id id rows s found in
      rw (rotate_accepted ok) (
        ap (λ t. some (s.user_id, format t (e.fresh 0))) same_id,
        subst (λ t. find_session t (swap s.id s.token_hash written rows).1 ≡ some (written s))
            same_id
            (find-swap_self s.id s.token_hash written (λ q. refl) rows s found_by_own_id refl),
        λ j h.
            find-swap_ne s.id s.token_hash written (λ q. refl) j rows
              (subst (λ t. same_text j t ≡ false) (sym same_id) h),
      )

  -- Any other token of a live session revokes that session, and no other.
  pub rotate_revokes :
      acceptable ≡ false
      → let (reply, after) = rotate hash e token rows in
        (reply ≡ none)
        × (find_session id after ≡ none)
        × ((j : Text) → same_text j id ≡ false → find_session j after ≡ find_session j rows)
  rotate_revokes bad =
      let same_id = find_session-id id rows s found in
      rw (rotate_refused bad) (
        refl,
        find-delete_session id s.id rows ∙ rw ((same_text_iff id s.id).1 (sym same_id)),
        λ j h.
            find-delete_session j s.id rows
            ∙ rw (subst (λ t. same_text j t ≡ false) (sym same_id) h),
      )
