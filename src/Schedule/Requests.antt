-- ===== src/Schedule/Requests.antt =====
-- The requests of a container on scheduled work:
-- src/pynchy/host/container_manager/ipc/handlers_tasks.py.
use pynchy.Base.{
  Bool, Dict, List, Option, String, String-eq, [], codes, if◌then◌else◌, is_prefix, list-eq, none,
  not, or_else, some, true, ℕ, ℕ-eq, ◌&&◌, ◌==◌, ◌||◌, ◌∷◌,
}
use pynchy.Security.Service.{Effect, CopVerdict, truthy, cop_gate}
use pynchy.Schedule.Rows.{ScheduledTask, HostJob, Db, Update}
use pynchy.Schedule.NextRun.{Calendar, NextRun, raises, at, compute_next_run_from_ipc}
use pynchy.Schedule.Tasks.{create_task, get_task_by_id, update_task, delete_task}
use pynchy.Schedule.Jobs.{create_host_job, get_host_job_by_id, update_host_job, delete_host_job}

-- The fields of a request that creates a task or a host job.
pub record ScheduleRequest : Type 0 where
  pub cop_approved : Bool
  pub prompt : Option String
  pub name : Option String
  pub command : Option String
  pub schedule_type : Option String
  pub schedule_value : Option String
  pub target_group : Option String
  pub context_mode : Option String
  pub cwd : Option String
  pub timeout_seconds : Option ℕ

-- What the host adds: the time, the timezone, the new row's id, the registered workspaces by jid
-- (with their folders), and the inspector's answer.
pub record Host : Type 0 where
  pub calendar : Calendar
  pub timezone : String
  pub now : ℕ
  pub new_id : String
  pub workspaces : Dict String String
  pub verdict : CopVerdict

abbrev pub folder_jid : String → Dict String String → Option String
folder_jid folder [] = none
folder_jid folder ((jid, f) ∷ rest) = if f == folder then some jid else folder_jid folder rest

-- A statement that raises leaves the tables as they are.
abbrev pub committed : Db → Option Db → Db
committed db none = db
committed db (some after) = after

abbrev mode_of : Option String → String
mode_of none = "isolated"
mode_of (some m) = if (m == "group") || (m == "isolated") then m else "isolated"

abbrev pub text_of : Option String → String
text_of o = or_else o ""

abbrev pub add_task : Host → ScheduleRequest → String → NextRun → Db → Db
add_task host r jid raises db = db
add_task host r jid (at next) db =
    let task : ScheduledTask = record {
      id = host.new_id;
      group_folder = text_of r.target_group;
      chat_jid = jid;
      prompt = text_of r.prompt;
      schedule_type = text_of r.schedule_type;
      schedule_value = text_of r.schedule_value;
      context_mode = mode_of r.context_mode;
      next_run = next;
      last_run = none;
      last_result = none;
      status = "active";
      created_at = host.calendar.iso host.now;
      repo_access = none;
    } in
    committed db (create_task task db)

abbrev pub next_of : Host → ScheduleRequest → NextRun
next_of host r =
    compute_next_run_from_ipc host.calendar host.timezone (text_of r.schedule_type)
      (text_of r.schedule_value) host.now

abbrev pub for_group : Host → String → Bool → ScheduleRequest → Option String → Db → Db
for_group host source is_admin r none db = db
for_group host source is_admin r (some jid) db =
    if not is_admin && not (text_of r.target_group == source)
    then db
    else add_task host r jid (next_of host r) db

-- The tail of both handlers, behind the gate that a request passes which the inspector has approved.
-- The handlers call the gate without a request id, so that a flagged request is blocked for good.
abbrev pub behind_gate : String → Host → ScheduleRequest → Db → Db → Db × List Effect
behind_gate operation host r db after =
    let (effects, allowed) = cop_gate operation host.verdict none in
    if r.cop_approved then (after, []) else (if allowed then after else db, effects)

abbrev pub has_task_fields : ScheduleRequest → Bool
has_task_fields r =
    ((truthy r.prompt && truthy r.schedule_type) && truthy r.schedule_value)
    && truthy r.target_group

abbrev pub has_job_fields : ScheduleRequest → Bool
has_job_fields r =
    ((truthy r.name && truthy r.command) && truthy r.schedule_type) && truthy r.schedule_value

unfoldable pub handle_schedule_task :
    Host → (source_group : String) → (is_admin : Bool) → ScheduleRequest → Db → Db × List Effect
unfolding cop_gate create_task compute_next_run_from_ipc
handle_schedule_task host source is_admin r db = behind_gate "schedule_task" host r db (
    if not (has_task_fields r)
    then db
    else for_group host source is_admin r (folder_jid (text_of r.target_group) host.workspaces) db)

abbrev pub add_job : Host → String → ScheduleRequest → NextRun → Db → Db
add_job host source r raises db = db
add_job host source r (at next) db =
    let job : HostJob = record {
      id = host.new_id;
      name = text_of r.name;
      command = text_of r.command;
      schedule_type = text_of r.schedule_type;
      schedule_value = text_of r.schedule_value;
      created_by = source;
      next_run = next;
      last_run = none;
      status = "active";
      created_at = host.calendar.iso host.now;
      cwd = r.cwd;
      timeout_seconds = or_else r.timeout_seconds 600;
      enabled = true;
    } in
    committed db (create_host_job job db)

unfoldable pub handle_schedule_host_job :
    Host → (source_group : String) → (is_admin : Bool) → ScheduleRequest → Db → Db × List Effect
unfolding cop_gate create_host_job compute_next_run_from_ipc
handle_schedule_host_job host source is_admin r db =
    if not is_admin
    then (db, [])
    else behind_gate "schedule_host_job" host r db
        (if not (has_job_fields r) then db else add_job host source r (next_of host r) db)

-- What a request does to a task or a job: pause it, resume it, cancel it.
pub data Action : Type 0 where
  pause resume cancel : Action

abbrev pub act_on_task : Action → String → Db → Db
act_on_task pause id db = update_task id (Update.status "paused" ∷ []) db
act_on_task resume id db = update_task id (Update.status "active" ∷ []) db
act_on_task cancel id db = delete_task id db

abbrev pub act_on_job : Action → String → Db → Db
act_on_job pause id db = update_host_job id (Update.status "paused" ∷ []) db
act_on_job resume id db = update_host_job id (Update.status "active" ∷ []) db
act_on_job cancel id db = delete_host_job id db

abbrev pub if_job : Action → String → Db → Option HostJob → Db
if_job action id db none = db
if_job action id db (some j) = act_on_job action id db

abbrev pub if_owned : Action → String → Bool → String → Db → Option ScheduledTask → Db
if_owned action source is_admin id db none = db
if_owned action source is_admin id db (some t) =
    if is_admin || (t.group_folder == source) then act_on_task action id db else db

-- `_authorized_task_action`, as the three handlers call it.
unfoldable pub authorized_task_action :
    (source_group : String) → (is_admin : Bool) → Action → (task_id : Option String) → Db → Db
unfolding get_task_by_id get_host_job_by_id update_task delete_task update_host_job delete_host_job
    is_prefix
authorized_task_action source is_admin action task_id db =
    let id = text_of task_id in
    if not (truthy task_id)
    then db
    else if is_prefix (codes "host-") (codes id)
    then (if not is_admin then db else if_job action id db (get_host_job_by_id id db))
    else if_owned action source is_admin id db (get_task_by_id id db)
