-- ===== src/Queue/Finish.antt =====
-- concurrency.py: how a run ends. `GroupState.release`, `_schedule_retry`, and what `_run_for_group`
-- and `_run_task` do when the coroutine that they await has ended.
use pynchy.Base.{
  Bool, List, Option, String, String-eq, [], eqb, false, if◌then◌else◌, insert, ltb, none, not,
  some, true, ℕ, ◌&&◌, ◌*◌, ◌++◌, ◌+◌, ◌-◌, ◌^◌, ◌∷◌,
}
use pynchy.Queue.State.{
  GroupState, Effect, destroy_gate, clean_ipc_input_dir, GroupQueue, Settings, is_set, group,
}
use pynchy.Queue.Start.{drain_group}
use pynchy.Queue.Enqueue.{enqueue_message_check}

-- How `await self._process_messages_fn(group_jid)` ended: by its answer, by `PolicyDeniedError`, by
-- another `Exception`, or by a `BaseException` that no `except` clause takes (a cancellation).
pub data Outcome : Type 0 where
  answered : Bool → Outcome
  denied raised cancelled : Outcome

abbrev gate_effect : Option String → ℕ → List Effect
gate_effect none ts = []
gate_effect (some folder) ts =
    if is_set (some folder) && not (eqb ts 0) then destroy_gate folder ts ∷ [] else []

abbrev pub release_state : GroupState → GroupState
release_state s = record s {
  active = false;
  active_is_task = false;
  process = none;
  container_name = none;
  group_folder = none;
  invocation_ts = 0;
}

-- `state.release()`, and the count of `finally`
unfoldable pub release : String → GroupQueue → GroupQueue
release g q =
    let s = group q.groups g in
    record q {
      groups = insert g (release_state s) q.groups;
      active_count = q.active_count - 1;
      effects = q.effects ++ gate_effect s.group_folder s.invocation_ts;
    }

abbrev pub retry_delay : Settings → ℕ → ℕ
retry_delay cfg count = cfg.base_retry_seconds * 2 ^ (count - 1)

unfoldable pub schedule_retry : Settings → String → GroupQueue → GroupQueue
schedule_retry cfg g q =
    let s = group q.groups g in
    let count = s.retry_count + 1 in
    if ltb cfg.max_retries count
    then record q { groups = insert g (record s { retry_count = 0 }) q.groups }
    else record q {
      groups = insert g (record s { retry_count = count }) q.groups;
      retries = q.retries ++ (g, retry_delay cfg count) ∷ [];
    }

-- The body of the `try` of `_run_for_group`, after the wait, with its `except` clauses.
abbrev pub after_messages : Settings → String → Outcome → GroupQueue → GroupQueue
after_messages cfg g (answered true) q = record q {
  groups = insert g (record (group q.groups g) { retry_count = 0 }) q.groups;
}
after_messages cfg g (answered false) q = schedule_retry cfg g q
after_messages cfg g denied q = q
after_messages cfg g raised q = schedule_retry cfg g q
after_messages cfg g cancelled q = q

-- The `try` of `_run_for_group` as a whole.
unfoldable pub settle : Settings → String → Outcome → GroupQueue → GroupQueue
unfolding schedule_retry
settle cfg g o q = if q.process_messages_fn then after_messages cfg g o q else q

unfoldable pub finish_messages : Settings → String → Outcome → GroupQueue → GroupQueue
unfolding settle release
finish_messages cfg g o q = drain_group cfg g (release g (settle cfg g o q))

-- However `task.fn()` ended, `_run_task` goes on to its `finally`.
unfoldable pub finish_task : Settings → String → GroupQueue → GroupQueue
unfolding release
finish_task cfg g q =
    let cleaned = record q {
      effects = q.effects ++ clean_ipc_input_dir (group q.groups g).group_folder ∷ [];
    } in
    drain_group cfg g (release g cleaned)

-- `_retry`, when its sleep is over
unfoldable pub retry : Settings → String → GroupQueue → GroupQueue
unfolding enqueue_message_check
retry cfg g q = if q.shutting_down then q else enqueue_message_check cfg g q
