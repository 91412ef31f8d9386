-- ===== src/JobTracker/Owners.antt =====
-- Whose jobs a user sees.
use sealvo.Base.{
  ℕ, ◌+◌, ◌≡◌, sym, inl, inr, Bool, true, false, not, Option, none, some, List, [], ◌∷◌, any,
  select, ◌==◌, if◌then◌else◌, All, arith, Bool-cases, Option-cases, ==_iff,
}
use sealvo.Session.Token.{Text}
use sealvo.Cache.{Link, up, down, lost}
use sealvo.JobTracker.{new_job, enlist, unlist, user_of, create, get, assign, update, remove}
use sealvo.JobTracker.Redis.{
  Job, Meta, Fields, Entry, Members, Store, no_jobs, carried, answered, look, put_job, del_job,
  on_set, members, is_live, s_add, expire, s_rem, job_ttl_seconds,
}

eq_of : (a b : ℕ) → (a == b) ≡ true → a ≡ b
eq_of a b h = ground arith

module _ (owner : ℕ → Option ℕ) where
  abbrev pub Mine : ℕ → Members → Type 0
  Mine user m = All (λ id. owner id ≡ some user) m.ids

  -- Every job carries the owner of its id, and the set of a user has the user's ids only.
  pub record Owned (s : Store) : Type 0 where
    pub of_jobs : (id : ℕ) (e : Entry) → s.jobs id ≡ some e → e.job.user_id ≡ owner id
    pub of_sets : (user : ℕ) → Mine user (s.sets user)

  pub no_jobs-Owned : Owned no_jobs
  no_jobs-Owned = record { of_jobs = λ id e h. absurd (ground arith); of_sets = λ user. tt }

  put_job-Owned :
      (id : ℕ) (e : Entry) (s : Store) → e.job.user_id ≡ owner id → Owned s → Owned (put_job id e s)
  unfolding put_job
  put_job-Owned id e s mine o = record {
    of_jobs = λ i e' h. ground (arith, h, o.of_jobs i e', ==_iff i id, mine);
    of_sets = o.of_sets;
  }

  del_job-Owned : (id : ℕ) (s : Store) → Owned s → Owned (del_job id s)
  unfolding del_job
  del_job-Owned id s o = record {
    of_jobs = λ i e' h. ground (arith, h, o.of_jobs i e', ==_iff i id);
    of_sets = o.of_sets;
  }

  on_set-Owned :
      (user : ℕ) (f : Members → Members) (s : Store)
      → ((m : Members) → Mine user m → Mine user (f m))
      → Owned s
      → Owned (on_set user f s)
  unfolding on_set
  on_set-Owned user f s keeps o = record {
    of_jobs = o.of_jobs;
    of_sets = λ u. elim (Bool-cases (u == user)) [
      | inl same ↦ rw (same, eq_of u user same) (keeps (s.sets user) (o.of_sets user))
      | inr other ↦ rw other (o.of_sets u)
    ];
  }

  s_add-Mine :
      (now id user : ℕ) (m : Members)
      → owner id ≡ some user
      → Mine user m
      → Mine user (s_add now id m)
  unfolding s_add members
  s_add-Mine now id user m mine own = elim (Bool-cases (is_live now m)) [
    | inl live ↦ elim (Bool-cases (any (λ i. i == id) m.ids)) [
      | inl there ↦ rw (live, there) own
      | inr new ↦ rw (live, new) (mine, own)
    ]
    | inr ended ↦ rw ended (mine, tt)
  ]

  select-Mine :
      (id user : ℕ) (ids : List ℕ)
      → All (λ i. owner i ≡ some user) ids
      → All (λ i. owner i ≡ some user) (select (λ i. not (i == id)) ids)
  select-Mine id user [] own = tt
  select-Mine id user (i ∷ ids) own = elim (Bool-cases (i == id)) [
    | inl same ↦ rw same (select-Mine id user ids own.1)
    | inr other ↦ rw other (own.0, select-Mine id user ids own.1)
  ]

  pub drop-Owned : (user id : ℕ) (s : Store) → Owned s → Owned (on_set user (s_rem id) s)
  unfolding s_rem
  drop-Owned user id s o = on_set-Owned user (s_rem id) s (λ m own. select-Mine id user m.ids own) o

  pub if-Owned : (b : Bool) (s s' : Store) → Owned s → Owned s' → Owned (if b then s else s')
  if-Owned true s s' o o' = o
  if-Owned false s s' o o' = o'

  pub pick-Owned :
      {A : Type 0}
      → (b : Bool) (p q : A × Store) → Owned p.1
      → Owned q.1
      → Owned (if b then p else q).1
  pick-Owned true p q o o' = o
  pick-Owned false p q o o' = o'

  enlist-Owned :
      (fates : ℕ → Link) (now id : ℕ) (user : Option ℕ) (s : Store)
      → owner id ≡ user
      → Owned s
      → Owned (enlist fates now id user s).1
  unfolding enlist expire
  enlist-Owned fates now id none s mine o = o
  enlist-Owned fates now id (some user) s mine o =
      let add = s_add now id in
      let added =
        if-Owned (carried (fates 1)) (on_set user add s) s
          (on_set-Owned user add s (λ m own. s_add-Mine now id user m mine own) o) o in
      let s' = if carried (fates 1) then on_set user add s else s in
      pick-Owned (answered (fates 1)) _ (false, s')
        (if-Owned (carried (fates 2)) (on_set user (expire now) s') s'
          (on_set-Owned user (expire now) s' (λ m own. own) added) added)
        added

  pub create-Owned :
      (ready : Bool) (fates : ℕ → Link) (now id : ℕ) (type : Text) (meta : Meta) (s : Store)
      → owner id ≡ meta.user_id
      → Owned s
      → Owned (create ready fates now id type meta s).1
  unfolding create
  create-Owned ready fates now id type meta s mine o =
      let e : Entry = record { job = new_job now id type meta; ends = now + job_ttl_seconds } in
      let stored =
        if-Owned (carried (fates 0)) (put_job id e s) s (put_job-Owned id e s (sym mine) o) o in
      pick-Owned (not ready) (none, s) _ o
        (pick-Owned (not (answered (fates 0))) (none, _) _ stored
          (enlist-Owned fates now id meta.user_id _ mine stored))

  pub look-owner :
      (now id : ℕ) (s : Store) (job : Job)
      → Owned s
      → look now id s ≡ some job
      → job.user_id ≡ owner id
  unfolding look
  look-owner now id s job o h = elim (Option-cases (s.jobs id)) [
    | inl nothing ↦ absurd (ground (arith, nothing, h))
    | inr (e, here) ↦ ground (arith, here, h, o.of_jobs id e here)
  ]

  pub get-look :
      (ready : Bool) (fate : Link) (now id : ℕ) (s : Store) (job : Job)
      → get ready fate now id s ≡ some job
      → look now id s ≡ some job
  unfolding get
  get-look false fate now id s job h = absurd (ground arith)
  get-look true up now id s job h = h
  get-look true down now id s job h = absurd (ground arith)
  get-look true lost now id s job h = absurd (ground arith)

  pub update-Owned :
      (ready : Bool) (fates : ℕ → Link) (others : ℕ → Store → Store) (now id : ℕ) (f : Fields)
      (s : Store)
      → ((i : ℕ) (t : Store) → Owned t → Owned (others i t))
      → Owned s
      → Owned (update ready fates others now id f s).1
  unfolding update assign
  update-Owned ready fates others now id f s keep o =
      elim (Option-cases (get ready (fates 0) now id s)) [
        | inl nothing ↦ rw (update, nothing) o
        | inr (job, here) ↦
            let asked = keep 0 s o in
            let before = keep 1 (others 0 s) asked in
            rw (update, here)
              (pick-Owned (not (answered (fates 1))) (false, others 0 s) _ asked
                (if-Owned (carried (fates 2)) _ (others 1 (others 0 s))
                  (put_job-Owned id _ (others 1 (others 0 s))
                    (look-owner now id s job o (get-look ready (fates 0) now id s job here)) before)
                  before))
      ]

  unlist-Owned :
      (fate : Link) (id : ℕ) (user : Option ℕ) (s : Store)
      → Owned s
      → Owned (unlist fate id user s).1
  unfolding unlist
  unlist-Owned fate id none s o = o
  unlist-Owned fate id (some user) s o = if-Owned (carried fate) _ s (drop-Owned user id s o) o

  pub remove-Owned :
      (ready : Bool) (fates : ℕ → Link) (now id : ℕ) (s : Store)
      → Owned s
      → Owned (remove ready fates now id s).1
  unfolding remove
  remove-Owned ready fates now id s o =
      let s' = (unlist (fates 1) id (user_of (look now id s)) s).1 in
      let kept = unlist-Owned (fates 1) id (user_of (look now id s)) s o in
      pick-Owned (not ready) (false, s) _ o
        (pick-Owned (not (answered (fates 0))) (false, s) _ o
          (pick-Owned (not (unlist (fates 1) id (user_of (look now id s)) s).0) (false, s') _ kept
            (if-Owned (carried (fates 2)) (del_job id s') s' (del_job-Owned id s' kept) kept)))
