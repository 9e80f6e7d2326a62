-- ===== src/Schedule/RequestLaws.antt =====
-- Whose rows a request on scheduled work can change.
use mathlib.Core.List.{map-append}
use pynchy.Base.{
  Bool, Bool-cases, List, Option, String, String-eq, [], all, any, ap, append_nil, codes, distinct,
  distinct-keep, distinct_snoc, false, if_cases, inl, inr, is_prefix, keep, list-eq, none, not,
  refl, some, sym, true, ℕ-eq, ◌&&◌, ◌==◌, ◌||◌, ◌∙◌, ◌∷◌, ◌≡◌,
}
use pynchy.Delivery.Fresh.{keep-append}
use pynchy.Security.Service.{Effect, truthy, cop_gate}
use pynchy.Schedule.OwnRows.{
  task_ids, is_foreign, is_own, find-is_own, keep_foreign-update, keep_foreign-delete, update-ids,
  any-contains,
}
use pynchy.Schedule.Rows.{HostJob, ScheduledTask, Db, empty_db}
use pynchy.Schedule.NextRun.{NextRun, raises, at}
use pynchy.Schedule.Tasks.{create_task, get_task_by_id, update_task, delete_task}
use pynchy.Schedule.Jobs.{create_host_job, get_host_job_by_id, update_host_job, delete_host_job}
use pynchy.Schedule.Requests.{
  has_job_fields, has_task_fields, if_job, next_of, text_of, act_on_job, add_task, add_job,
  ScheduleRequest, Host, handle_schedule_task, handle_schedule_host_job, Action, pause, resume,
  cancel, authorized_task_action, if_owned, act_on_task, folder_jid, for_group, committed,
  behind_gate,
}

-- The five requests; the last is `pause_task`, `resume_task` and `cancel_task`.
pub data Request : Type 0 where
  schedule_task : ScheduleRequest → Request
  schedule_host_job : ScheduleRequest → Request
  act : Action → Option String → Request

-- A request with the group that it comes from, as `dispatch` hands it over.
pub record Call : Type 0 where
  pub host : Host
  pub source_group : String
  pub is_admin : Bool
  pub request : Request

unfoldable pub serve_request : Host → String → Bool → Request → Db → Db
unfolding handle_schedule_task handle_schedule_host_job authorized_task_action
serve_request host source is_admin (schedule_task r) db =
    (handle_schedule_task host source is_admin r db).0
serve_request host source is_admin (schedule_host_job r) db =
    (handle_schedule_host_job host source is_admin r db).0
serve_request host source is_admin (act action id) db =
    authorized_task_action source is_admin action id db

abbrev pub serve : Call → Db → Db
serve c db = serve_request c.host c.source_group c.is_admin c.request db

abbrev pub serve_all : List Call → Db → Db
serve_all [] db = db
serve_all (c ∷ cs) db = serve_all cs (serve c db)

-- The tasks of other groups and all host jobs are as they were.
abbrev pub KeepsOthers : String → Db → Db → Type 0
KeepsOthers source db after =
    (keep (is_foreign source) after.tasks ≡ keep (is_foreign source) db.tasks)
    × (after.jobs ≡ db.jobs)

-- No two tasks have one id.
abbrev pub IsTable : Db → Type 0
IsTable db = distinct (task_ids db.tasks) ≡ true

act_on_task-KeepsOthers :
    (a : Action) (id source : String) (db : Db)
    → all (is_own id source) db.tasks ≡ true
    → KeepsOthers source db (act_on_task a id db)
unfolding update_task delete_task
act_on_task-KeepsOthers pause id source db h =
    (keep_foreign-update id source _ db.tasks (λ t. refl) h, refl)
act_on_task-KeepsOthers resume id source db h =
    (keep_foreign-update id source _ db.tasks (λ t. refl) h, refl)
act_on_task-KeepsOthers cancel id source db h = (keep_foreign-delete id source db.tasks h, refl)

act_on_task-IsTable :
    (a : Action) (id : String) (db : Db) → IsTable db → IsTable (act_on_task a id db)
unfolding update_task delete_task
act_on_task-IsTable pause id db h = ap distinct (update-ids _ _ db.tasks (λ t. refl)) ∙ h
act_on_task-IsTable resume id db h = ap distinct (update-ids _ _ db.tasks (λ t. refl)) ∙ h
act_on_task-IsTable cancel id db h = distinct-keep (λ t. t.id) _ db.tasks h

act_on_job-IsTable :
    (a : Action) (id : String) (db : Db) → IsTable db → IsTable (act_on_job a id db)
unfolding update_host_job delete_host_job
act_on_job-IsTable pause id db h = h
act_on_job-IsTable resume id db h = h
act_on_job-IsTable cancel id db h = h

if_owned-KeepsOthers :
    (a : Action) (id source : String) (db : Db) (o : Option ScheduledTask)
    → IsTable db
    → get_task_by_id id db ≡ o
    → KeepsOthers source db (if_owned a source false id db o)
unfolding get_task_by_id
if_owned-KeepsOthers a id source db none d f = (refl, refl)
if_owned-KeepsOthers a id source db (some t) d f =
    if_cases (KeepsOthers source db) (t.group_folder == source)
      (λ y. act_on_task-KeepsOthers a id source db (find-is_own id source db.tasks t d f y))
      (λ n. (refl, refl))

if_owned-IsTable :
    (a : Action) (id source : String) (is_admin : Bool) (db : Db) (o : Option ScheduledTask)
    → IsTable db
    → IsTable (if_owned a source is_admin id db o)
if_owned-IsTable a id source is_admin db none d = d
if_owned-IsTable a id source is_admin db (some t) d =
    if_cases IsTable (is_admin || (t.group_folder == source)) (λ y. act_on_task-IsTable a id db d)
      (λ n. d)

if_job-IsTable :
    (a : Action) (id : String) (db : Db) (o : Option HostJob)
    → IsTable db
    → IsTable (if_job a id db o)
if_job-IsTable a id db none d = d
if_job-IsTable a id db (some j) d = act_on_job-IsTable a id db d

action-KeepsOthers :
    (source : String) (a : Action) (id : Option String) (db : Db)
    → IsTable db
    → KeepsOthers source db (authorized_task_action source false a id db)
unfolding authorized_task_action
action-KeepsOthers source a id db d =
    if_cases (KeepsOthers source db) (not (truthy id)) (λ y. (refl, refl))
      (λ n.
        if_cases (KeepsOthers source db) (is_prefix (codes "host-") (codes (text_of id)))
          (λ y. (refl, refl))
          (λ n.
            if_owned-KeepsOthers a (text_of id) source db (get_task_by_id (text_of id) db) d refl))

action-IsTable :
    (source : String) (is_admin : Bool) (a : Action) (id : Option String) (db : Db)
    → IsTable db
    → IsTable (authorized_task_action source is_admin a id db)
unfolding authorized_task_action
action-IsTable source is_admin a id db d =
    if_cases IsTable (not (truthy id)) (λ y. d)
      (λ n.
        if_cases IsTable (is_prefix (codes "host-") (codes (text_of id)))
          (λ y.
            if_cases IsTable (not is_admin) (λ n. d)
              (λ y. if_job-IsTable a (text_of id) db (get_host_job_by_id (text_of id) db) d))
          (λ n.
            if_owned-IsTable a (text_of id) source is_admin db (get_task_by_id (text_of id) db) d))

create_task-KeepsOthers :
    (t : ScheduledTask) (source : String) (db : Db)
    → (t.group_folder == source) ≡ true
    → KeepsOthers source db (committed db (create_task t db))
unfolding create_task
create_task-KeepsOthers t source db own =
    if_cases (λ o. KeepsOthers source db (committed db o)) (any (λ s. s.id == t.id) db.tasks)
      (λ y. (refl, refl))
      (λ n. (
        keep-append (is_foreign source) db.tasks (t ∷ [])
            ∙ rw own (append_nil (keep (is_foreign source) db.tasks)),
        refl,
      ))

create_task-IsTable :
    (t : ScheduledTask) (db : Db) → IsTable db → IsTable (committed db (create_task t db))
unfolding create_task
create_task-IsTable t db d =
    if_cases (λ o. IsTable (committed db o)) (any (λ s. s.id == t.id) db.tasks) (λ y. d)
      (λ n.
        ap distinct (map-append (λ s. s.id) db.tasks (t ∷ []))
        ∙ distinct_snoc t.id (task_ids db.tasks) d (sym (any-contains t.id db.tasks) ∙ n))

add_task-KeepsOthers :
    (host : Host) (source jid : String) (r : ScheduleRequest) (next : NextRun) (db : Db)
    → (text_of r.target_group == source) ≡ true
    → KeepsOthers source db (add_task host r jid next db)
add_task-KeepsOthers host source jid r raises db own = (refl, refl)
add_task-KeepsOthers host source jid r (at next) db own = create_task-KeepsOthers _ source db own

add_task-IsTable :
    (host : Host) (jid : String) (r : ScheduleRequest) (next : NextRun) (db : Db)
    → IsTable db
    → IsTable (add_task host r jid next db)
add_task-IsTable host jid r raises db d = d
add_task-IsTable host jid r (at next) db d = create_task-IsTable _ db d

add_job-IsTable :
    (host : Host) (source : String) (r : ScheduleRequest) (next : NextRun) (db : Db)
    → IsTable db
    → IsTable (add_job host source r next db)
unfolding create_host_job
add_job-IsTable host source r raises db d = d
add_job-IsTable host source r (at next) db d =
    if_cases (λ o. IsTable (committed db o))
      (any (λ j. (j.id == host.new_id) || (j.name == text_of r.name)) db.jobs) (λ y. d) (λ n. d)

for_group-KeepsOthers :
    (host : Host) (source : String) (r : ScheduleRequest) (o : Option String) (db : Db)
    → KeepsOthers source db (for_group host source false r o db)
for_group-KeepsOthers host source r none db = (refl, refl)
for_group-KeepsOthers host source r (some jid) db =
    elim (Bool-cases (text_of r.target_group == source)) [
      | inl y ↦ rw y (add_task-KeepsOthers host source jid r (next_of host r) db y)
      | inr n ↦ rw n (refl, refl)
    ]

for_group-IsTable :
    (host : Host) (source : String) (is_admin : Bool) (r : ScheduleRequest) (o : Option String)
    (db : Db)
    → IsTable db
    → IsTable (for_group host source is_admin r o db)
for_group-IsTable host source is_admin r none db d = d
for_group-IsTable host source is_admin r (some jid) db d =
    if_cases IsTable (not is_admin && not (text_of r.target_group == source)) (λ y. d)
      (λ n. add_task-IsTable host jid r (next_of host r) db d)

-- The gate of host-mutating operations lets the change through or not.
behind_gate_cases :
    (P : Db → Type 0) (operation : String) (host : Host) (r : ScheduleRequest) (db after : Db)
    → P db
    → P after
    → P (behind_gate operation host r db after).0
behind_gate_cases P operation host r db after before changed =
    if_cases {A = Db × List Effect} (λ x. P x.0) r.cop_approved (λ y. changed)
      (λ n. if_cases P (cop_gate operation host.verdict none).1 (λ y. changed) (λ n. before))

serve-KeepsOthers :
    (host : Host) (source : String) (request : Request) (db : Db)
    → IsTable db
    → KeepsOthers source db (serve_request host source false request db)
unfolding serve_request handle_schedule_task handle_schedule_host_job
serve-KeepsOthers host source (schedule_task r) db d =
    behind_gate_cases (KeepsOthers source db) "schedule_task" host r db _ (refl, refl)
      (if_cases (KeepsOthers source db) (not (has_task_fields r)) (λ y. (refl, refl))
        (λ n.
          for_group-KeepsOthers host source r (folder_jid (text_of r.target_group) host.workspaces)
            db))
serve-KeepsOthers host source (schedule_host_job r) db d = (refl, refl)
serve-KeepsOthers host source (act a id) db d = action-KeepsOthers source a id db d

serve-IsTable :
    (host : Host) (source : String) (is_admin : Bool) (request : Request) (db : Db)
    → IsTable db
    → IsTable (serve_request host source is_admin request db)
unfolding serve_request handle_schedule_task handle_schedule_host_job
serve-IsTable host source is_admin (schedule_task r) db d =
    behind_gate_cases IsTable "schedule_task" host r db _ d (
      if_cases IsTable (not (has_task_fields r)) (λ y. d)
        (λ n.
          for_group-IsTable host source is_admin r
            (folder_jid (text_of r.target_group) host.workspaces) db d))
serve-IsTable host source false (schedule_host_job r) db d = d
serve-IsTable host source true (schedule_host_job r) db d =
    behind_gate_cases IsTable "schedule_host_job" host r db _ d (
      if_cases IsTable (not (has_job_fields r)) (λ y. d)
        (λ n. add_job-IsTable host source r (next_of host r) db d))
serve-IsTable host source is_admin (act a id) db d = action-IsTable source is_admin a id db d

serve_all-IsTable : (calls : List Call) (db : Db) → IsTable db → IsTable (serve_all calls db)
serve_all-IsTable [] db d = d
serve_all-IsTable (c ∷ cs) db d =
    serve_all-IsTable cs (serve c db)
      (serve-IsTable c.host c.source_group c.is_admin c.request db d)

-- Whatever requests were served before, from whatever groups: a request that does not come from the
-- admin leaves the tasks of all other groups and all host jobs as they are.
pub serve_isolates :
    (history : List Call) (c : Call)
    → c.is_admin ≡ false
    → KeepsOthers c.source_group (serve_all history empty_db) (serve c (serve_all history empty_db))
serve_isolates history c plain =
    let db = serve_all history empty_db in
    rw plain (
      serve-KeepsOthers c.host c.source_group c.request db
        (serve_all-IsTable history empty_db refl))
