-- ===== src/JobTracker/Listing.antt =====
-- Which running jobs a user's list has.
use sealvo.Base.{
  ℕ, ◌+◌, ◌<◌, ◌≡◌, refl, ◌∙◌, inl, inr, Bool, true, false, Option, none, some, List, [], ◌∷◌, any,
  ◌==◌, if◌then◌else◌, arith, Bool-cases, Option-cases, ==_refl, lt→ltb,
}
use sealvo.Session.Token.{Text}
use sealvo.Cache.{Link, up, down}
use sealvo.JobTracker.{enlist, new_job, create, get, active, visit, push, sweep, get_active_by_user}
use sealvo.JobTracker.Redis.{
  Job, Meta, Entry, Members, Store, carried, look, put_job, on_set, members, is_live, s_add, s_rem,
  expire, is_finished, job_ttl_seconds,
}

abbrev pub all_up : ℕ → Link
all_up i = up

abbrev pub all_down : ℕ → Link
all_down i = down

abbrev pub lists : ℕ → List Job → Bool
lists id jobs = any (λ (job : Job). job.id == id) jobs

eq_of : (a b : ℕ) → (a == b) ≡ true → a ≡ b
eq_of a b h = ground arith

lists-push :
    (id : ℕ) (kept : Option Job) (jobs : List Job)
    → lists id jobs ≡ true
    → lists id (push kept jobs) ≡ true
lists-push id none jobs h = h
lists-push id (some job) jobs h = ground (arith, h)

look-if :
    (b : Bool) (now user id : ℕ) (f : Members → Members) (s : Store)
    → look now id (if b then on_set user f s else s) ≡ look now id s
unfolding look on_set
look-if true now user id f s = refl
look-if false now user id f s = refl

-- No visit changes a job.
visit-look :
    (fate drop : Link) (now user i id : ℕ) (s : Store)
    → look now id (visit fate drop now user i s).1 ≡ look now id s
unfolding visit
visit-look fate drop now user i id s = elim (Option-cases (active (get true fate now i s))) [
  | inl nothing ↦ rw (visit, nothing) (look-if (carried drop) now user id (s_rem i) s)
  | inr (job, here) ↦ rw (visit, here) refl
]

active_runs :
    (o : Option Job) (job : Job)
    → o ≡ some job
    → is_finished job.status ≡ false
    → active o ≡ some job
active_runs o job e runs = rw (e, runs) refl

get_up :
    (now id : ℕ) (job : Job) (s : Store)
    → look now id s ≡ some job
    → get true up now id s ≡ some job
unfolding get
get_up now id job s h = h

visit_active :
    (drop : Link) (now user id : ℕ) (job : Job) (s : Store)
    → is_finished job.status ≡ false
    → look now id s ≡ some job
    → visit up drop now user id s ≡ (some job, s)
unfolding visit
visit_active drop now user id job s runs here =
    rw (visit, active_runs (get true up now id s) job (get_up now id job s here) runs) refl

sweep-lists :
    (drops : ℕ → Link) (now user id : ℕ) (job : Job) (ids : List ℕ) (i : ℕ) (s : Store)
    → job.id ≡ id
    → is_finished job.status ≡ false
    → any (λ j. j == id) ids ≡ true
    → look now id s ≡ some job
    → lists id (sweep all_up drops now user ids i s).0 ≡ true
unfolding sweep
sweep-lists drops now user id job [] i s named runs there here = absurd (ground arith)
sweep-lists drops now user id job (j ∷ ids) i s named runs there here =
    elim (Bool-cases (j == id)) [
      | inl same ↦
          let here' : look now j s ≡ some job = rw (eq_of j id same) here in
          rw (visit_active (drops i) now user j job s runs here') (ground (arith, named))
      | inr other ↦ lists-push id (visit up (drops i) now user j s).0 _ (
          sweep-lists drops now user id job ids (i + 1) (visit up (drops i) now user j s).1 named
            runs (ground (arith, there, other)) (visit-look up (drops i) now user j id s ∙ here))
    ]

any-s_add : (now id : ℕ) (m : Members) → any (λ j. j == id) (s_add now id m).ids ≡ true
unfolding s_add
any-s_add now id m = elim (Bool-cases (any (λ j. j == id) (members now m))) [
  | inl there ↦ rw (there, there) refl
  | inr new ↦ rw (new, ==_refl id) refl
]

-- A set of one id that is taken out is empty.
members-s_rem :
    (now later id : ℕ) (m : Members) → members now m ≡ id ∷ [] → members later (s_rem id m) ≡ []
unfolding members s_rem
members-s_rem now later id m one = elim (Bool-cases (is_live now m)) [
  | inl live ↦
      let ids : m.ids ≡ id ∷ [] = ground (arith, live, one) in
      elim (Bool-cases (is_live later (s_rem id m))) [
        | inl still ↦ rw (still, ids, ==_refl id) refl
        | inr over ↦ rw over refl
      ]
  | inr ended ↦ absurd (ground (arith, ended, one))
]

any-expire :
    (now later user id : ℕ) (s : Store)
    → later < now + job_ttl_seconds
    → any
        (λ j. j == id)
        (members later ((on_set user (expire now) (on_set user (s_add now id) s)).sets user))
      ≡ true
unfolding members is_live expire on_set
any-expire now later user id s soon =
    rw (==_refl user, lt→ltb later (now + job_ttl_seconds) soon) (any-s_add now id (s.sets user))

look-put_job :
    (later user id : ℕ) (e : Entry) (f g : Members → Members) (s : Store)
    → later < e.ends
    → look later id (on_set user f (on_set user g (put_job id e s))) ≡ some e.job
unfolding look on_set put_job
look-put_job later user id e f g s soon = rw (look, ==_refl id, lt→ltb later e.ends soon) refl

-- A job that a user creates while Redis answers is returned, and is in the user's list for as long
-- as its time to live, when nothing else is done in between and Redis answers GET.
pub create-lists :
    (drops : ℕ → Link) (now later user id : ℕ) (type : Text) (package_id word_count : Option ℕ)
    (s : Store)
    → later < now + job_ttl_seconds
    → let meta : Meta = record {
      user_id = some user;
      package_id = package_id;
      word_count = word_count;
    } in
      let (job, s') = create true all_up now id type meta s in
      (job ≡ some (new_job now id type meta))
      × (lists id (get_active_by_user true up all_up drops later user s').0 ≡ true)
unfolding create enlist get_active_by_user is_finished
create-lists drops now later user id type package_id word_count s soon =
    let meta : Meta = record {
      user_id = some user;
      package_id = package_id;
      word_count = word_count;
    } in
    let e : Entry = record { job = new_job now id type meta; ends = now + job_ttl_seconds } in
    (
      refl,
      sweep-lists drops later user id e.job _ 0 _ refl refl
          (any-expire now later user id (put_job id e s) soon)
          (look-put_job later user id e (expire now) (s_add now id) s soon),
    )

-- When the set of a user has one id, of a job that runs, and GET fails while the list is read but
-- SREM does not: the list is empty, the job is still stored, and from then on the list is empty
-- although Redis answers.
pub failed_get_forgets :
    (now later user id : ℕ) (job : Job) (s : Store)
    → members now (s.sets user) ≡ id ∷ []
    → look now id s ≡ some job
    → is_finished job.status ≡ false
    → let (jobs, s') = get_active_by_user true up all_down all_up now user s in
      (jobs ≡ [])
      × (look now id s' ≡ some job)
      × ((get_active_by_user true up all_up all_up later user s').0 ≡ [])
unfolding get_active_by_user sweep visit get on_set look
failed_get_forgets now later user id job s one here runs =
    rw one (refl, here, rw (==_refl user, members-s_rem now later id (s.sets user) one) refl)
