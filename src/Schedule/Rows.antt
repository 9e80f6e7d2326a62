-- ===== src/Schedule/Rows.antt =====
-- The tables of scheduled work (src/pynchy/types.py, src/pynchy/state/schema.py), and the update by
-- primary key of src/pynchy/state/connection.py.
use pynchy.Base.{
  Bool, List, Option, String, String-eq, Text, [], if◌then◌else◌, list-eq, none, some, ℕ, ℕ-eq,
  ◌==◌, ◌∷◌,
}

-- A time is an ISO 8601 text, which is compared as a text.
pub record ScheduledTask : Type 0 where
  pub id : String
  pub group_folder : String
  pub chat_jid : String
  pub prompt : String
  pub schedule_type : String
  pub schedule_value : String
  pub context_mode : String
  pub next_run : Option Text
  pub last_run : Option Text
  pub last_result : Option Text
  pub status : String
  pub created_at : Text
  pub repo_access : Option String

-- Without the run's duration.
pub record TaskRunLog : Type 0 where
  pub task_id : String
  pub run_at : Text
  pub status : String
  pub result : Option Text
  pub error : Option Text

pub record HostJob : Type 0 where
  pub id : String
  pub name : String
  pub command : String
  pub schedule_type : String
  pub schedule_value : String
  pub created_by : String
  pub next_run : Option Text
  pub last_run : Option Text
  pub status : String
  pub created_at : Text
  pub cwd : Option String
  pub timeout_seconds : ℕ
  pub enabled : Bool

-- The rows in the order in which they were inserted.
pub record Db : Type 0 where
  pub tasks : List ScheduledTask
  pub logs : List TaskRunLog
  pub jobs : List HostJob

abbrev pub empty_db : Db
empty_db = record { tasks = []; logs = []; jobs = [] }

-- An entry of the dict of updates: a field of the two tables that may be updated, or any other key.
pub data Update : Type 0 where
  prompt schedule_type schedule_value status : String → Update
  next_run : Option Text → Update
  repo_access : Option String → Update
  enabled : Bool → Update
  other : String → Update

-- `_TASK_UPDATE_FIELDS`
abbrev pub set_task : ScheduledTask → Update → ScheduledTask
set_task t (prompt v) = record t { prompt = v }
set_task t (schedule_type v) = record t { schedule_type = v }
set_task t (schedule_value v) = record t { schedule_value = v }
set_task t (status v) = record t { status = v }
set_task t (next_run v) = record t { next_run = v }
set_task t (repo_access v) = record t { repo_access = v }
set_task t (enabled v) = t
set_task t (other k) = t

-- `_HOST_JOB_UPDATE_FIELDS`
abbrev pub set_job : HostJob → Update → HostJob
set_job j (prompt v) = j
set_job j (schedule_type v) = j
set_job j (schedule_value v) = record j { schedule_value = v }
set_job j (status v) = record j { status = v }
set_job j (next_run v) = record j { next_run = v }
set_job j (repo_access v) = j
set_job j (enabled v) = record j { enabled = v }
set_job j (other k) = j

-- The fields of a statement, one after the other.
abbrev pub set_all : {A : Type 0} → (A → Update → A) → List Update → A → A
set_all set [] a = a
set_all set (u ∷ us) a = set_all set us (set a u)

-- UPDATE … WHERE id = ?
abbrev pub update_where : {A : Type 0} → (A → Bool) → (A → A) → List A → List A
update_where p f [] = []
update_where p f (a ∷ as') = (if p a then f a else a) ∷ update_where p f as'

-- `_update_by_id`, for the table's `set`; without a field of its own the statement is left out.
abbrev pub update_by_id :
    {A : Type 0} → (A → String) → (A → Update → A) → String → List Update → List A → List A
update_by_id id_of set id updates rows =
    update_where (λ a. id_of a == id) (set_all set updates) rows

-- The first row, where there is one at most.
abbrev pub find : {A : Type 0} → (A → Bool) → List A → Option A
find p [] = none
find p (a ∷ as') = if p a then some a else find p as'
