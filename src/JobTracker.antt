-- ===== src/JobTracker.antt =====
-- apps/api/src/import/job-tracker.service.ts: the jobs in Redis and the sets of the users' jobs. Each
-- call of Redis meets a fate of its own (Cache); `ready` is what isReady answers. The events are
-- left out: nothing here reads them.
pub mod Owners
pub mod Listing
pub mod Redis
pub mod Seeing
mod Tests
use sealvo.Base.{
  ℕ, ◌+◌, ◌-◌, Bool, true, false, not, Option, none, some, List, [], ◌∷◌, any, select, ltb, ◌==◌,
  if◌then◌else◌,
}
use sealvo.Session.Token.{Text}
use sealvo.Cache.{Link, up, down, lost}
use Redis.{
  Progress, Job, Meta, Fields, Entry, Members, Store, no_jobs, job_ttl_seconds, is_finished,
  carried, answered, look, put_job, del_job, on_set, is_live, members, s_add, expire, s_rem,
}
use sealvo.Imports.{JobStatus, pending, processing, retrying, completed, failed}

abbrev pub new_job : ℕ → ℕ → Text → Meta → Job
new_job now id type meta = record {
  id = id;
  type = type;
  status = pending;
  progress = none;
  result = none;
  error = none;
  user_id = meta.user_id;
  package_id = meta.package_id;
  word_count = meta.word_count;
  created_at = now;
  updated_at = now;
}

-- sAdd and expire, if the job has a user, with the fates 1 and 2.
unfoldable pub enlist : (ℕ → Link) → ℕ → ℕ → Option ℕ → Store → Bool × Store
enlist fates now id none s = (true, s)
enlist fates now id (some user) s =
    let added = if carried (fates 1) then on_set user (s_add now id) s else s in
    let kept = if carried (fates 2) then on_set user (expire now) added else added in
    if answered (fates 1) then (answered (fates 2), kept) else (false, added)

-- The fates of set, sAdd, expire and publish, in this order.
unfoldable pub create : Bool → (ℕ → Link) → ℕ → ℕ → Text → Meta → Store → Option Job × Store
create ready fates now id type meta s =
    let job = new_job now id type meta in
    let stored = put_job id (record { job = job; ends = now + job_ttl_seconds }) s in
    let s' = if carried (fates 0) then stored else s in
    let (listed, s'') = enlist fates now id meta.user_id s' in
    if not ready
    then (none, s)
    else if not (answered (fates 0))
    then (none, s')
    else (if listed then (if answered (fates 3) then some job else none) else none, s'')

unfoldable pub get : Bool → Link → ℕ → ℕ → Store → Option Job
get ready fate now id s = if not ready then none else if answered fate then look now id s else none

pub data Found : Type 0 where
  owned : Job → Found
  not_found forbidden : Found

unfoldable pub get_owned : Bool → Link → ℕ → ℕ → ℕ → Store → Found
get_owned ready fate now id user s = elim (get ready fate now id s) [
  | none ↦ not_found
  | some job ↦ elim job.user_id [
    | none ↦ forbidden
    | some u ↦ if u == user then owned job else forbidden
  ]
]

abbrev pub given {ℓ} : {A : Type ℓ} → Option A → Option A → Option A
given none old = old
given (some new) old = some new

-- Object.assign
unfoldable pub assign : ℕ → Fields → Job → Job
assign now f job = record job {
  status = elim f.status [ none ↦ job.status | some new ↦ new ];
  progress = given f.progress job.progress;
  result = given f.result job.result;
  error = given f.error job.error;
  updated_at = now;
}

-- TTL, with 0 for a key that is not there or has ended.
unfoldable pub ttl_left : ℕ → ℕ → Store → ℕ
ttl_left now id s = elim (s.jobs id) [ none ↦ 0 | some e ↦ e.ends - now ]

-- `others 0` and `others 1` are what other requests do before TTL and before SET. The fates are
-- those of get, ttl and set.
unfoldable pub update :
    Bool → (ℕ → Link) → (ℕ → Store → Store) → ℕ → ℕ → Fields → Store → Bool × Store
update ready fates others now id f s = elim (get ready (fates 0) now id s) [
  | none ↦ (false, s)
  | some job ↦
      let asked = others 0 s in
      let left = ttl_left now id asked in
      let ends = now + (if ltb 0 left then left else job_ttl_seconds) in
      let before = others 1 asked in
      let written = put_job id (record { job = assign now f job; ends = ends }) before in
      if not (answered (fates 1))
      then (false, asked)
      else (answered (fates 2), if carried (fates 2) then written else before)
]

-- sRem, if the job has a user.
unfoldable pub unlist : Link → ℕ → Option ℕ → Store → Bool × Store
unlist fate id none s = (true, s)
unlist fate id (some user) s = (answered fate, if carried fate then on_set user (s_rem id) s else s)

abbrev pub user_of : Option Job → Option ℕ
user_of none = none
user_of (some job) = job.user_id

-- The fates of get, sRem and del.
unfoldable pub remove : Bool → (ℕ → Link) → ℕ → ℕ → Store → Bool × Store
remove ready fates now id s =
    let (unlisted, s') = unlist (fates 1) id (user_of (look now id s)) s in
    if not ready
    then (false, s)
    else if not (answered (fates 0))
    then (false, s)
    else if not unlisted
    then (false, s')
    else (answered (fates 2), if carried (fates 2) then del_job id s' else s')

abbrev pub active : Option Job → Option Job
active none = none
active (some job) = if is_finished job.status then none else some job

-- One turn of the loop, with the fates of get and sRem: the job, if it still runs, or else its id
-- leaves the set.
unfoldable pub visit : Link → Link → ℕ → ℕ → ℕ → Store → Option Job × Store
visit fate drop now user id s = elim (active (get true fate now id s)) [
  | none ↦ (none, if carried drop then on_set user (s_rem id) s else s)
  | some job ↦ (some job, s)
]

abbrev pub push : Option Job → List Job → List Job
push none jobs = jobs
push (some job) jobs = job ∷ jobs

-- The loop: `gets` and `drops` are the fates, for the place in the list.
unfoldable pub sweep : (ℕ → Link) → (ℕ → Link) → ℕ → ℕ → List ℕ → ℕ → Store → List Job × Store
sweep gets drops now user [] i s = ([], s)
sweep gets drops now user (id ∷ ids) i s =
    let (kept, next) = visit (gets i) (drops i) now user id s in
    let (jobs, s') = sweep gets drops now user ids (i + 1) next in (push kept jobs, s')

unfoldable pub get_active_by_user :
    Bool → Link → (ℕ → Link) → (ℕ → Link) → ℕ → ℕ → Store → List Job × Store
get_active_by_user ready fate gets drops now user s =
    let (jobs, s') = sweep gets drops now user (members now (s.sets user)) 0 s in
    if not ready then ([], s) else if answered fate then (jobs, s') else ([], s)
