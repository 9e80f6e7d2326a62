-- ===== src/Queue/State.antt =====
-- src/pynchy/host/orchestrator/concurrency.py: the state of the group queue.
use pynchy.Base.{
  Bool, Dict, List, Option, String, String-eq, [], arith, false, if◌then◌else◌, insert, lookup,
  lookup-insert, none, not, or_else, some, true, ℕ, ◌==◌, ◌≡◌,
}

-- A callable (`fn`) and a process are handles: what they do is an event of the environment.
pub record QueuedTask : Type 0 where
  pub id : String
  pub group_jid : String
  pub fn : ℕ

pub record GroupState : Type 0 where
  pub active : Bool
  pub active_is_task : Bool
  pub pending_messages : Bool
  pub pending_tasks : List QueuedTask
  pub process : Option ℕ
  pub container_name : Option String
  pub group_folder : Option String
  pub invocation_ts : ℕ
  pub retry_count : ℕ

abbrev pub new_group : GroupState
new_group = record {
  active = false;
  active_is_task = false;
  pending_messages = false;
  pending_tasks = [];
  process = none;
  container_name = none;
  group_folder = none;
  invocation_ts = 0;
  retry_count = 0;
}

-- The two coroutines that hold a slot of the queue, as `create_background_task` is given them.
pub data Run : Type 0 where
  run_for_group : String → Run
  run_task : String → QueuedTask → Run

abbrev pub group_of : Run → String
group_of (run_for_group g) = g
group_of (run_task g t) = g

-- What the queue does outside its own state, in order.
pub data Effect : Type 0 where
  destroy_gate : String → ℕ → Effect
  clean_ipc_input_dir : Option String → Effect
  write_ipc_message : String → String → Effect
  write_ipc_close_sentinel : String → Effect
  destroy_session : String → Effect
  destroy_all_sessions : Effect
  graceful_stop : ℕ → String → Effect

-- `runs` and `retries` are the background tasks that were created and have not ended: the runs that
-- hold a slot, and the sleeping `_retry` coroutines with their delays.
pub record GroupQueue : Type 0 where
  pub groups : Dict String GroupState
  pub active_count : ℕ
  pub waiting_groups : List String
  pub process_messages_fn : Bool
  pub shutting_down : Bool
  pub runs : List Run
  pub retries : List (String × ℕ)
  pub effects : List Effect

abbrev pub new_queue : GroupQueue
new_queue = record {
  groups = [];
  active_count = 0;
  waiting_groups = [];
  process_messages_fn = false;
  shutting_down = false;
  runs = [];
  retries = [];
  effects = [];
}

-- The settings that the queue reads.
pub record Settings : Type 0 where
  pub max_concurrent : ℕ
  pub max_retries : ℕ
  pub base_retry_seconds : ℕ

-- `if s:` on an optional text
abbrev pub is_set : Option String → Bool
is_set none = false
is_set (some s) = not (s == "")

abbrev pub is_some : Option ℕ → Bool
is_some none = false
is_some (some p) = true

-- The entry that `_get_group` answers.
unfoldable pub group : Dict String GroupState → String → GroupState
group m g = or_else (lookup g m) new_group

-- `_get_group` where the caller leaves the entry as it is: a missing one is created. A caller that
-- changes the entry writes it by `insert`, which creates it in the same place.
abbrev ensure : Option GroupState → String → Dict String GroupState → Dict String GroupState
ensure none g m = insert g new_group m
ensure (some s) g m = m

unfoldable pub get_group : GroupQueue → String → GroupQueue
get_group q g = record q { groups = ensure (lookup g q.groups) g q.groups }

pub group-insert :
    (g h : String) (s : GroupState) (m : Dict String GroupState)
    → group (insert g s m) h ≡ (if g == h then s else group m h)
unfolding group
group-insert g h s m = ground (arith, lookup-insert g h s m)

pub group-get_group :
    (q : GroupQueue) (g h : String) → group (get_group q g).groups h ≡ group q.groups h
unfolding group get_group
group-get_group q g h =
    ground
      (arith, lookup-insert g h new_group q.groups, (String-eq.equal_iff g h).0, lookup g q.groups)
