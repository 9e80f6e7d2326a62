-- ===== src/Queue/Quiet.antt =====
-- The operations of concurrency.py that take no slot, free none and add no work.
use pynchy.Base.{
  Bool, Bool-cases, Option, String, String-eq, ap, arith, false, if◌then◌else◌, inl, inr, insert,
  ltb, refl, subst, sym, true, ℕ, ◌+◌, ◌∙◌, ◌≡◌,
}
use pynchy.Queue.State.{
  GroupState, GroupQueue, Settings, group, group-insert, get_group, group-get_group,
}
use pynchy.Queue.Finish.{
  Outcome, answered, denied, raised, cancelled, after_messages, schedule_retry, settle,
}
use pynchy.Queue.Containers.{
  register_process, send_message, close_stdin, stop_session, stop_process, clear_pending_tasks,
  shutdown, shutdown_stop,
}
use pynchy.Queue.Invariant.{has_work, IsQuiet}

-- One entry is rewritten, with its slot and no more work.
insert-IsQuiet :
    (q q' : GroupQueue) (g : String) (s : GroupState)
    → s.active ≡ (group q.groups g).active
    → (has_work s ≡ true → has_work (group q.groups g) ≡ true)
    → q'.active_count ≡ q.active_count
    → q'.runs ≡ q.runs
    → q'.waiting_groups ≡ q.waiting_groups
    → q'.shutting_down ≡ q.shutting_down
    → q'.groups ≡ insert g s q.groups
    → IsQuiet q q'
insert-IsQuiet q q' g s a w c r ws d e = record {
  count_same = c;
  runs_same = r;
  waiting_same = ws;
  closing = λ n. sym d ∙ n;
  active_same = λ h. rw e (ground (arith, group-insert g h s q.groups, String-eq.equal_iff g h));
  work_less = λ h. rw e (ground (arith, group-insert g h s q.groups, String-eq.equal_iff g h, w));
}

pub get_group-fields :
    (q : GroupQueue) (g : String)
    → ((get_group q g).active_count ≡ q.active_count)
      × ((get_group q g).runs ≡ q.runs)
      × ((get_group q g).waiting_groups ≡ q.waiting_groups)
      × ((get_group q g).shutting_down ≡ q.shutting_down)
unfolding get_group
get_group-fields q g = (refl, refl, refl, refl)

-- The entries read the same; a missing one may have been created, and effects added.
pub same-IsQuiet :
    (q q' : GroupQueue)
    → q'.active_count ≡ q.active_count
    → q'.runs ≡ q.runs
    → q'.waiting_groups ≡ q.waiting_groups
    → (q'.shutting_down ≡ false → q.shutting_down ≡ false)
    → ((h : String) → group q'.groups h ≡ group q.groups h)
    → IsQuiet q q'
same-IsQuiet q q' c r ws d e = record {
  count_same = c;
  runs_same = r;
  waiting_same = ws;
  closing = d;
  active_same = λ h. ap (λ s. s.active) (e h);
  work_less = λ h w. subst (λ s. has_work s ≡ true) (e h) w;
}

pub get_group-IsQuiet : (q : GroupQueue) (g : String) → IsQuiet q (get_group q g)
get_group-IsQuiet q g =
    let (a, b, c, d) = get_group-fields q g in
    same-IsQuiet q _ a b c (λ n. sym d ∙ n) (group-get_group q g)

pub register_process-IsQuiet :
    (g : String) (proc : Option ℕ) (name : String) (folder : Option String) (ts : ℕ)
    (q : GroupQueue)
    → IsQuiet q (register_process g proc name folder ts q)
unfolding register_process
register_process-IsQuiet g proc name folder ts q =
    insert-IsQuiet q _ g _ refl (λ w. w) refl refl refl refl refl

pub clear_pending_tasks-IsQuiet :
    (g : String) (q : GroupQueue) → IsQuiet q (clear_pending_tasks g q)
unfolding clear_pending_tasks
clear_pending_tasks-IsQuiet g q =
    insert-IsQuiet q _ g _ refl (λ w. ground arith) refl refl refl refl refl

-- The operations that address the container leave the entries as they read.
module _ (written : Bool) (g : String) (q : GroupQueue) (h : String) where
  pub group-send_message :
      (text : String) → group (send_message written g text q).0.groups h ≡ group q.groups h
  unfolding send_message
  group-send_message text = ground (arith, group-get_group q g h)

  pub group-close_stdin : group (close_stdin written g q).groups h ≡ group q.groups h
  unfolding close_stdin
  group-close_stdin = ground (arith, group-get_group q g h)

  pub group-stop_process :
      (alive : ℕ → Bool) → group (stop_process alive written g q).groups h ≡ group q.groups h
  unfolding stop_process
  group-stop_process alive = ground (arith, group-get_group q g h)

pub group-stop_session :
    (g : String) (q : GroupQueue) (h : String)
    → group (stop_session g q).groups h ≡ group q.groups h
unfolding stop_session
group-stop_session g q h = ground (arith, group-get_group q g h)

module _ (written : Bool) (g : String) (q : GroupQueue) where
  pub send_message-IsQuiet : (text : String) → IsQuiet q (send_message written g text q).0
  unfolding send_message
  send_message-IsQuiet text =
      same-IsQuiet q _ (ground (arith, get_group-fields q g)) (ground (arith, get_group-fields q g))
        (ground (arith, get_group-fields q g)) (λ n. ground (arith, get_group-fields q g))
        (λ h. group-send_message written g q h text)

  pub close_stdin-IsQuiet : IsQuiet q (close_stdin written g q)
  unfolding close_stdin
  close_stdin-IsQuiet =
      same-IsQuiet q _ (ground (arith, get_group-fields q g)) (ground (arith, get_group-fields q g))
        (ground (arith, get_group-fields q g)) (λ n. ground (arith, get_group-fields q g))
        (group-close_stdin written g q)

  pub stop_process-IsQuiet : (alive : ℕ → Bool) → IsQuiet q (stop_process alive written g q)
  unfolding stop_process
  stop_process-IsQuiet alive =
      same-IsQuiet q _ (ground (arith, get_group-fields q g)) (ground (arith, get_group-fields q g))
        (ground (arith, get_group-fields q g)) (λ n. ground (arith, get_group-fields q g))
        (λ h. group-stop_process written g q h alive)

pub stop_session-IsQuiet : (g : String) (q : GroupQueue) → IsQuiet q (stop_session g q)
unfolding stop_session
stop_session-IsQuiet g q =
    same-IsQuiet q _ (ground (arith, get_group-fields q g)) (ground (arith, get_group-fields q g))
      (ground (arith, get_group-fields q g)) (λ n. ground (arith, get_group-fields q g))
      (group-stop_session g q)

pub schedule_retry-IsQuiet :
    (cfg : Settings) (g : String) (q : GroupQueue) → IsQuiet q (schedule_retry cfg g q)
unfolding schedule_retry
schedule_retry-IsQuiet cfg g q =
    elim (Bool-cases (ltb cfg.max_retries ((group q.groups g).retry_count + 1))) [
      | inl p ↦ rw p (insert-IsQuiet q _ g _ refl (λ w. w) refl refl refl refl refl)
      | inr p ↦ rw p (insert-IsQuiet q _ g _ refl (λ w. w) refl refl refl refl refl)
    ]

IsQuiet-refl : (q : GroupQueue) → IsQuiet q q
IsQuiet-refl q = same-IsQuiet q q refl refl refl (λ n. n) (λ h. refl)

after_messages-IsQuiet :
    (cfg : Settings) (g : String) (o : Outcome) (q : GroupQueue)
    → IsQuiet q (after_messages cfg g o q)
after_messages-IsQuiet cfg g (answered true) q =
    insert-IsQuiet q _ g _ refl (λ w. w) refl refl refl refl refl
after_messages-IsQuiet cfg g (answered false) q = schedule_retry-IsQuiet cfg g q
after_messages-IsQuiet cfg g denied q = IsQuiet-refl q
after_messages-IsQuiet cfg g raised q = schedule_retry-IsQuiet cfg g q
after_messages-IsQuiet cfg g cancelled q = IsQuiet-refl q

pub settle-IsQuiet :
    (cfg : Settings) (g : String) (o : Outcome) (q : GroupQueue) → IsQuiet q (settle cfg g o q)
unfolding settle
settle-IsQuiet cfg g o q = elim (Bool-cases q.process_messages_fn) [
  | inl p ↦
      subst (λ b. IsQuiet q (if b then after_messages cfg g o q else q)) (sym p)
        (after_messages-IsQuiet cfg g o q)
  | inr p ↦
      subst (λ b. IsQuiet q (if b then after_messages cfg g o q else q)) (sym p) (IsQuiet-refl q)
]

pub shutdown-IsQuiet : (q : GroupQueue) → IsQuiet q (shutdown q)
unfolding shutdown
shutdown-IsQuiet q = same-IsQuiet q _ refl refl refl (λ n. cc) (λ h. refl)

pub shutdown_stop-IsQuiet : (alive : ℕ → Bool) (q : GroupQueue) → IsQuiet q (shutdown_stop alive q)
unfolding shutdown_stop
shutdown_stop-IsQuiet alive q = same-IsQuiet q _ refl refl refl (λ n. n) (λ h. refl)
