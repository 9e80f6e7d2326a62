-- ===== src/Queue/Start.antt =====
-- concurrency.py: how a run starts. `_start_next_pending`, `_drain_group`, `_drain_waiting`.
use pynchy.Base.{
  Bool, List, String, String-eq, [], false, if◌then◌else◌, insert, ltb, true, ◌++◌, ◌+◌, ◌∷◌,
}
use pynchy.Queue.State.{
  QueuedTask, GroupState, Run, run_for_group, run_task, GroupQueue, Settings, group, get_group,
}

-- The group's slot is taken and the coroutine is created, both before any other code runs.
abbrev pub launch : String → GroupState → Run → GroupQueue → GroupQueue
launch g s run q = record q {
  groups = insert g s q.groups;
  active_count = q.active_count + 1;
  runs = q.runs ++ run ∷ [];
}

abbrev pub start_messages : String → GroupState → GroupQueue → GroupQueue
start_messages g s q =
    launch g (record s { active = true; active_is_task = false; pending_messages = false })
      (run_for_group g) q

-- The second `if` of `_start_next_pending`, by the queued tasks of the group.
unfoldable pub start_task : String → GroupState → List QueuedTask → GroupQueue → GroupQueue × Bool
start_task g s [] q = (get_group q g, false)
start_task g s (t ∷ ts) q = (
  launch g (record s { active = true; active_is_task = true; pending_tasks = ts }) (run_task g t) q,
  true,
)

-- Messages before tasks; the answer is whether a run was started.
unfoldable pub start_next_pending : String → GroupQueue → GroupQueue × Bool
unfolding start_task
start_next_pending g q =
    let s = group q.groups g in
    if s.pending_messages then (start_messages g s q, true) else start_task g s s.pending_tasks q

abbrev pub pop_waiting : List String → GroupQueue → GroupQueue
pop_waiting rest q = record q { waiting_groups = rest }

-- The loop of `_drain_waiting`; its first argument is `q.waiting_groups`. The call for the rest is
-- bound first, and is read only below the limit.
unfoldable pub drain_waiting_loop : Settings → List String → GroupQueue → GroupQueue
drain_waiting_loop cfg [] q = q
drain_waiting_loop cfg (g ∷ rest) q =
    let more = drain_waiting_loop cfg rest (start_next_pending g (pop_waiting rest q)).0 in
    if ltb q.active_count cfg.max_concurrent then more else q

unfoldable pub drain_waiting : Settings → GroupQueue → GroupQueue
unfolding drain_waiting_loop
drain_waiting cfg q = drain_waiting_loop cfg q.waiting_groups q

abbrev pub drain_rest : Settings → GroupQueue × Bool → GroupQueue
drain_rest cfg (q, started) = if started then q else drain_waiting cfg q

unfoldable pub drain_group : Settings → String → GroupQueue → GroupQueue
unfolding start_next_pending drain_waiting
drain_group cfg g q = if q.shutting_down then q else drain_rest cfg (start_next_pending g q)
