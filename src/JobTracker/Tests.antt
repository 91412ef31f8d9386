-- ===== src/JobTracker/Tests.antt =====
-- Tests of the job tracker.
use sealvo.Base.{ℕ, ◌≡◌, refl, true, Option, none, some, List, [], ◌∷◌, arith, ◌==◌, if◌then◌else◌}
use sealvo.Cache.{up}
use sealvo.Imports.{pending}
use sealvo.JobTracker.{new_job, create, get_active_by_user, get_owned, forbidden, get}
use sealvo.JobTracker.Redis.{Meta, Store, no_jobs, members, look, is_finished, is_live}
use sealvo.JobTracker.Listing.{all_up, all_down, lists, create-lists, failed_get_forgets}
use sealvo.JobTracker.Seeing.{
  Seen, Request, create_request, update_request, remove_request, run_all, run_all-Seen,
}

abbrev meta : Meta
meta = record { user_id = some 7; package_id = some 3; word_count = some 40 }

abbrev owner : ℕ → Option ℕ
owner id = some (if id == 5 then 7 else 8)

abbrev requests : List Request
requests =
    create_request true all_up 100 5 [] meta
    ∷ create_request true all_up 100 6 [] (record meta { user_id = some 8 })
    ∷ update_request true all_up (λ i s. s) 110 5
        (record { status = some pending; progress = none; result = none; error = none })
    ∷ remove_request true all_up 120 6
    ∷ []

run_all-Seen_example :
    Seen owner 7 (get_active_by_user true up all_up all_up 130 7 (run_all requests no_jobs)).0
run_all-Seen_example =
    run_all-Seen owner requests true up all_up all_up 130 7 (refl, (refl, (λ i t o. o, (tt, tt))))

create-lists_example :
    ((create true all_up 100 5 [] meta no_jobs).0 ≡ some (new_job 100 5 [] meta))
    × (lists 5
          (get_active_by_user true up all_up all_up 200 7
            (create true all_up 100 5 [] meta no_jobs).1).0
        ≡ true)
create-lists_example = create-lists all_up 100 200 7 5 [] (some 3) (some 40) no_jobs (omega arith)

-- A running job of user 7.
abbrev one_job : Store
one_job = record {
  jobs = λ i. if i == 5 then some (record { job = new_job 100 5 [] meta; ends = 3_700 }) else none;
  sets = λ u. record { ids = if u == 7 then 5 ∷ [] else []; ends = some 3_700 };
}

failed_get_forgets_example :
    let (jobs, s') = get_active_by_user true up all_down all_up 110 7 one_job in
    (jobs ≡ [])
    × (look 110 5 s' ≡ some (new_job 100 5 [] meta))
    × ((get_active_by_user true up all_up all_up 120 7 s').0 ≡ [])
unfolding members look is_finished is_live
failed_get_forgets_example =
    failed_get_forgets 110 120 7 5 (new_job 100 5 [] meta) one_job refl refl refl

not_of_another : get_owned true up 110 5 8 one_job ≡ forbidden
unfolding get_owned get look
not_of_another = refl
