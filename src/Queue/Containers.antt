-- ===== src/Queue/Containers.antt =====
-- concurrency.py: the methods that register, address and stop the running container, the status
-- snapshot, and `shutdown`.
use pynchy.Base.{
  Bool, Dict, List, Option, String, String-eq, [], false, if◌then◌else◌, insert, length, map, none,
  not, some, true, values, ℕ, ◌&&◌, ◌++◌, ◌||◌, ◌∷◌,
}
use pynchy.Queue.State.{
  GroupState, Effect, write_ipc_message, write_ipc_close_sentinel, destroy_session,
  destroy_all_sessions, graceful_stop, GroupQueue, is_set, group, get_group,
}

unfoldable pub register_process :
    String → Option ℕ → String → Option String → ℕ → GroupQueue → GroupQueue
register_process g proc name folder ts q =
    let s = group q.groups g in
    record q {
      groups =
          insert g
            (record s {
              process = proc;
              container_name = some name;
              group_folder = if is_set folder then folder else s.group_folder;
              invocation_ts = ts;
            })
            q.groups;
    }

unfoldable pub is_active_task : String → GroupQueue → GroupQueue × Bool
is_active_task g q = let s = group q.groups g in (get_group q g, s.active && s.active_is_task)

-- An entry of `snapshot`, and the `_meta` entry.
pub record GroupStatus : Type 0 where
  pub active : Bool
  pub is_task : Bool
  pub pending_messages : Bool
  pub pending_tasks : ℕ

pub record QueueStatus : Type 0 where
  pub per_group : Dict String GroupStatus
  pub active_count : ℕ
  pub waiting_count : ℕ

abbrev group_status : String × GroupState → String × GroupStatus
group_status (g, s) = (
  g,
  record {
    active = s.active;
    is_task = s.active_is_task;
    pending_messages = s.pending_messages;
    pending_tasks = length s.pending_tasks;
  },
)

unfoldable pub snapshot : GroupQueue → QueueStatus
snapshot q = record {
  per_group = map group_status q.groups;
  active_count = q.active_count;
  waiting_count = length q.waiting_groups;
}

abbrev emit : Effect → GroupQueue → GroupQueue
emit x q = record q { effects = q.effects ++ x ∷ [] }

-- The folder is set at the calls below; the answer for none is never used.
abbrev folder_of : Option String → String
folder_of none = ""
folder_of (some s) = s

-- `written` is whether the file could be written: an `OSError` is logged and answered by `false`.
unfoldable pub send_message : Bool → String → String → GroupQueue → GroupQueue × Bool
send_message written g text q =
    let s = group q.groups g in
    let q' = get_group q g in
    if not s.active || not (is_set s.group_folder)
    then (q', false)
    else if written
    then (emit (write_ipc_message (folder_of s.group_folder) text) q', true)
    else (q', false)

unfoldable pub close_stdin : Bool → String → GroupQueue → GroupQueue
close_stdin written g q =
    let s = group q.groups g in
    let q' = get_group q g in
    if not s.active || not (is_set s.group_folder)
    then q'
    else if written
    then emit (write_ipc_close_sentinel (folder_of s.group_folder)) q'
    else q'

-- `proc.returncode is None` is asked of the environment, by `alive`.
abbrev stop_effect : (ℕ → Bool) → Option ℕ → Option String → List Effect
stop_effect alive (some p) (some name) =
    if is_set (some name) && alive p then graceful_stop p name ∷ [] else []
stop_effect alive _ _ = []

-- The two halves of `stop_active_process`: up to its first wait, and after it. Between them other
-- coroutines run, and the second half reads the state anew.
unfoldable pub stop_session : String → GroupQueue → GroupQueue
stop_session g q =
    let s = group q.groups g in
    let q' = get_group q g in
    if is_set s.group_folder then emit (destroy_session (folder_of s.group_folder)) q' else q'

unfoldable pub stop_process : (ℕ → Bool) → Bool → String → GroupQueue → GroupQueue
unfolding close_stdin
stop_process alive written g q =
    let s = group q.groups g in
    let q' = close_stdin written g q in
    if not s.active
    then q
    else record q' { effects = q'.effects ++ stop_effect alive s.process s.container_name }

unfoldable pub clear_pending_tasks : String → GroupQueue → GroupQueue
clear_pending_tasks g q = record q {
  groups = insert g (record (group q.groups g) { pending_tasks = [] }) q.groups;
}

abbrev stop_effects : (ℕ → Bool) → List GroupState → List Effect
stop_effects alive [] = []
stop_effects alive (s ∷ ss) = stop_effect alive s.process s.container_name ++ stop_effects alive ss

-- `shutdown` up to its first wait, and after it.
unfoldable pub shutdown : GroupQueue → GroupQueue
shutdown q = record q { shutting_down = true; effects = q.effects ++ destroy_all_sessions ∷ [] }

unfoldable pub shutdown_stop : (ℕ → Bool) → GroupQueue → GroupQueue
shutdown_stop alive q = record q { effects = q.effects ++ stop_effects alive (values q.groups) }
