-- ===== src/JobTracker/Seeing.antt =====
-- What a user sees of the jobs, after any requests.
use sealvo.Base.{
  ℕ, ◌+◌, ◌≡◌, ◌∙◌, inl, inr, Bool, true, false, Option, none, some, List, [], ◌∷◌, All, arith,
  Bool-cases, Option-cases,
}
use sealvo.Session.Token.{Text}
use sealvo.Cache.{Link, up, down, lost}
use sealvo.JobTracker.{create, get, update, remove, active, visit, push, sweep, get_active_by_user}
use sealvo.JobTracker.Redis.{
  Job, Meta, Fields, Members, Store, no_jobs, carried, members, is_live, is_finished,
}
use sealvo.JobTracker.Owners.{
  Mine, Owned, no_jobs-Owned, drop-Owned, if-Owned, create-Owned, update-Owned, remove-Owned,
  look-owner, get-look,
}

-- The requests on the jobs, each with the fates of its calls. A request sees the store as it is, but
-- for an update, in which other requests come between its calls.
pub data Request : Type 0 where
  create_request : Bool → (ℕ → Link) → ℕ → ℕ → Text → Meta → Request
  update_request : Bool → (ℕ → Link) → (ℕ → Store → Store) → ℕ → ℕ → Fields → Request
  remove_request : Bool → (ℕ → Link) → ℕ → ℕ → Request
  active_request : Bool → Link → (ℕ → Link) → (ℕ → Link) → ℕ → ℕ → Request

unfoldable pub run : Request → Store → Store
run (create_request ready fates now id type meta) s = (create ready fates now id type meta s).1
run (update_request ready fates others now id f) s = (update ready fates others now id f s).1
run (remove_request ready fates now id) s = (remove ready fates now id s).1
run (active_request ready fate gets drops now user) s =
    (get_active_by_user ready fate gets drops now user s).1

unfoldable pub run_all : List Request → Store → Store
run_all [] s = s
run_all (r ∷ rs) s = run_all rs (run r s)

module _ (owner : ℕ → Option ℕ) where
  abbrev pub Seen : ℕ → List Job → Type 0
  Seen user = All (λ job. (job.user_id ≡ some user) × (is_finished job.status ≡ false))

  active-some :
      (o : Option Job) (job : Job)
      → active o ≡ some job
      → (o ≡ some job) × (is_finished job.status ≡ false)
  active-some none job h = absurd (ground arith)
  active-some (some j) job h = elim (Bool-cases (is_finished j.status)) [
    | inl over ↦ absurd (ground (arith, over, h))
    | inr runs ↦ ground (arith, runs, h)
  ]

  visit-Seen :
      (fate drop : Link) (now user id : ℕ) (s : Store)
      → owner id ≡ some user
      → Owned owner s
      → let (kept, s') = visit fate drop now user id s in Seen user (push kept []) × Owned owner s'
  unfolding visit
  visit-Seen fate drop now user id s own o = elim (Option-cases (active (get true fate now id s))) [
    | inl nothing ↦
        rw (visit, nothing) (tt, if-Owned owner (carried drop) _ s (drop-Owned owner user id s o) o)
    | inr (job, here) ↦
        let (found, runs) = active-some (get true fate now id s) job here in
        let of_owner =
          look-owner owner now id s job o (get-look owner true fate now id s job found) in
        rw (visit, here) (((of_owner ∙ own, runs), tt), o)
  ]

  push-Seen :
      (user : ℕ) (kept : Option Job) (jobs : List Job)
      → Seen user (push kept [])
      → Seen user jobs
      → Seen user (push kept jobs)
  push-Seen user none jobs seen rest = rest
  push-Seen user (some job) jobs seen rest = (seen.0, rest)

  sweep-Seen :
      (gets drops : ℕ → Link) (now user : ℕ) (ids : List ℕ) (i : ℕ) (s : Store)
      → All (λ id. owner id ≡ some user) ids
      → Owned owner s
      → let (jobs, s') = sweep gets drops now user ids i s in Seen user jobs × Owned owner s'
  unfolding sweep
  sweep-Seen gets drops now user [] i s own o = (tt, o)
  sweep-Seen gets drops now user (id ∷ ids) i s own o =
      let (seen, o') = visit-Seen (gets i) (drops i) now user id s own.0 o in
      let rest = sweep-Seen gets drops now user ids (i + 1) _ own.1 o' in
      (push-Seen user _ _ seen rest.0, rest.1)

  members-Mine :
      (now user : ℕ) (m : Members)
      → Mine owner user m
      → All (λ id. owner id ≡ some user) (members now m)
  unfolding members
  members-Mine now user m own = elim (Bool-cases (is_live now m)) [
    | inl live ↦ rw live own
    | inr ended ↦ rw ended tt
  ]

  active-Owned :
      (ready : Bool) (fate : Link) (gets drops : ℕ → Link) (now user : ℕ) (s : Store)
      → Owned owner s
      → let (jobs, s') = get_active_by_user ready fate gets drops now user s in
        Seen user jobs × Owned owner s'
  unfolding get_active_by_user
  active-Owned false fate gets drops now user s o = (tt, o)
  active-Owned true up gets drops now user s o =
      sweep-Seen gets drops now user (members now (s.sets user)) 0 s
        (members-Mine now user (s.sets user) (o.of_sets user)) o
  active-Owned true down gets drops now user s o = (tt, o)
  active-Owned true lost gets drops now user s o = (tt, o)

  -- A new id names the job of one user, and what comes between keeps the owners.
  abbrev pub Fits : Request → Type 0
  Fits (create_request ready fates now id type meta) = owner id ≡ meta.user_id
  Fits (update_request ready fates others now id f) =
      (i : ℕ) (t : Store) → Owned owner t → Owned owner (others i t)
  Fits (remove_request ready fates now id) = Unit
  Fits (active_request ready fate gets drops now user) = Unit

  run-Owned : (r : Request) (s : Store) → Fits r → Owned owner s → Owned owner (run r s)
  unfolding run
  run-Owned (create_request ready fates now id type meta) s fits o =
      create-Owned owner ready fates now id type meta s fits o
  run-Owned (update_request ready fates others now id f) s fits o =
      update-Owned owner ready fates others now id f s fits o
  run-Owned (remove_request ready fates now id) s fits o = remove-Owned owner ready fates now id s o
  run-Owned (active_request ready fate gets drops now user) s fits o =
      (active-Owned ready fate gets drops now user s o).1

  run_all-Owned :
      (rs : List Request) (s : Store) → All Fits rs → Owned owner s → Owned owner (run_all rs s)
  unfolding run_all
  run_all-Owned [] s fits o = o
  run_all-Owned (r ∷ rs) s fits o = run_all-Owned rs (run r s) fits.1 (run-Owned r s fits.0 o)

  -- Where every id that is created names the job of one user, and what comes between the calls of
  -- an update keeps each job and each set with its user: after any requests from no jobs on,
  -- whatever calls of Redis failed, the list of a user has jobs of that user only, and none that is
  -- finished.
  pub run_all-Seen :
      (rs : List Request) (ready : Bool) (fate : Link) (gets drops : ℕ → Link) (now user : ℕ)
      → All Fits rs
      → Seen user (get_active_by_user ready fate gets drops now user (run_all rs no_jobs)).0
  run_all-Seen rs ready fate gets drops now user fits =
      (active-Owned ready fate gets drops now user (run_all rs no_jobs)
        (run_all-Owned rs no_jobs fits (no_jobs-Owned owner))).0
