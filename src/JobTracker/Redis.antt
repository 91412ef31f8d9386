-- ===== src/JobTracker/Redis.antt =====
-- The jobs of the job tracker as Redis holds them, and the calls of Redis: a key is its value with
-- the second that it ends at.
use sealvo.Base.{
  ℕ, ◌+◌, Bool, true, false, not, Option, none, some, List, [], ◌∷◌, any, select, ltb, ◌==◌,
  if◌then◌else◌,
}
use sealvo.Session.Token.{Text}
use sealvo.Cache.{Link, up, down, lost}
use sealvo.Imports.{JobStatus, pending, processing, retrying, completed, failed}

pub record Progress : Type 0 where
  pub current : ℕ
  pub total : ℕ
  pub phase : Text

-- A job with its meta. The result is its JSON text.
pub record Job : Type 0 where
  pub id : ℕ
  pub type : Text
  pub status : JobStatus
  pub progress : Option Progress
  pub result : Option Text
  pub error : Option Text
  pub user_id : Option ℕ
  pub package_id : Option ℕ
  pub word_count : Option ℕ
  pub created_at : ℕ
  pub updated_at : ℕ

pub record Meta : Type 0 where
  pub user_id : Option ℕ
  pub package_id : Option ℕ
  pub word_count : Option ℕ

-- What an update gives of a job.
pub record Fields : Type 0 where
  pub status : Option JobStatus
  pub progress : Option Progress
  pub result : Option Text
  pub error : Option Text

pub record Entry : Type 0 where
  pub job : Job
  pub ends : ℕ

-- The set of a user: a new one has no end until EXPIRE.
pub record Members : Type 0 where
  pub ids : List ℕ
  pub ends : Option ℕ

pub record Store : Type 0 where
  pub jobs : ℕ → Option Entry
  pub sets : ℕ → Members

abbrev pub no_jobs : Store
no_jobs = record { jobs = λ i. none; sets = λ u. record { ids = []; ends = none } }

abbrev pub job_ttl_seconds : ℕ
job_ttl_seconds = 3_600

unfoldable pub is_finished : JobStatus → Bool
is_finished pending = false
is_finished processing = false
is_finished retrying = false
is_finished completed = true
is_finished failed = true

-- A call that is carried out, and one that is answered.
abbrev pub carried : Link → Bool
carried up = true
carried down = false
carried lost = true

abbrev pub answered : Link → Bool
answered up = true
answered down = false
answered lost = false

-- GET
unfoldable pub look : ℕ → ℕ → Store → Option Job
look now id s = elim (s.jobs id) [
  | none ↦ none
  | some e ↦ if ltb now e.ends then some e.job else none
]

-- SET
unfoldable pub put_job : ℕ → Entry → Store → Store
put_job id e s = record s { jobs = λ i. if i == id then some e else s.jobs i }

-- DEL
unfoldable pub del_job : ℕ → Store → Store
del_job id s = record s { jobs = λ i. if i == id then none else s.jobs i }

unfoldable pub on_set : ℕ → (Members → Members) → Store → Store
on_set user f s = record s { sets = λ u. if u == user then f (s.sets u) else s.sets u }

unfoldable pub is_live : ℕ → Members → Bool
is_live now m = elim m.ends [ none ↦ true | some end ↦ ltb now end ]

-- SMEMBERS
unfoldable pub members : ℕ → Members → List ℕ
unfolding is_live
members now m = if is_live now m then m.ids else []

-- SADD
unfoldable pub s_add : ℕ → ℕ → Members → Members
s_add now id m =
    let ids = members now m in
    record {
      ids = if any (λ i. i == id) ids then ids else id ∷ ids;
      ends = if is_live now m then m.ends else none;
    }

-- EXPIRE
unfoldable pub expire : ℕ → Members → Members
expire now m = record m { ends = some (now + job_ttl_seconds) }

-- SREM
unfoldable pub s_rem : ℕ → Members → Members
s_rem id m = record m { ids = select (λ i. not (i == id)) m.ids }
