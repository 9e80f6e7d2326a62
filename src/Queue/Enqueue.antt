-- ===== src/Queue/Enqueue.antt =====
-- concurrency.py: `enqueue_message_check` and `enqueue_task`.
use pynchy.Base.{
  List, String, String-eq, [], any, contains, false, if◌then◌else◌, insert, leb, true, ℕ, ◌++◌,
  ◌==◌, ◌∷◌,
}
use pynchy.Queue.State.{QueuedTask, run_task, GroupQueue, Settings, group, get_group, run_for_group}
use pynchy.Queue.Start.{launch}

-- `if group_jid not in self._waiting_groups: self._waiting_groups.append(group_jid)`
abbrev pub add_waiting : String → List String → List String
add_waiting g ws = if contains g ws then ws else ws ++ g ∷ []

unfoldable pub enqueue_message_check : Settings → String → GroupQueue → GroupQueue
enqueue_message_check cfg g q =
    let s = group q.groups g in
    let noted = insert g (record s { pending_messages = true }) q.groups in
    if q.shutting_down
    then q
    else if s.active
    then record q { groups = noted }
    else if leb cfg.max_concurrent q.active_count
    then record q { groups = noted; waiting_groups = add_waiting g q.waiting_groups }
    else launch g (record s { active = true; pending_messages = false }) (run_for_group g) q

unfoldable pub enqueue_task : Settings → String → String → ℕ → GroupQueue → GroupQueue
enqueue_task cfg g task_id fn q =
    let s = group q.groups g in
    let task : QueuedTask = record { id = task_id; group_jid = g; fn = fn } in
    let noted = insert g (record s { pending_tasks = s.pending_tasks ++ task ∷ [] }) q.groups in
    if q.shutting_down
    then q
    else if any (λ t. t.id == task_id) s.pending_tasks
    then get_group q g
    else if s.active
    then record q { groups = noted }
    else if leb cfg.max_concurrent q.active_count
    then record q { groups = noted; waiting_groups = add_waiting g q.waiting_groups }
    else launch g (record s { active = true; active_is_task = true }) (run_task g task) q
