-- ===== src/Schedule/QueueLaws.antt =====
-- The scheduler's loop and the group queue.
use pynchy.Base.{
  Bool, Bool-cases, Dict, List, Option, String, String-eq, Text, [], any, any-keep, any-sort_by, ap,
  arith, equal_refl, false, if_cases, inl, inr, insert, keep, leb, list-eq, none, not, refl, some,
  true, ℕ, ℕ-eq, ◌&&◌, ◌++◌, ◌==◌, ◌||◌, ◌∙◌, ◌∷◌, ◌≡◌,
}
use pynchy.Delivery.Fresh.{any-append}
use pynchy.Queue.State.{
  GroupState, QueuedTask, GroupQueue, Settings, Run, run_task, run_for_group, group, group-insert,
  get_group, group-get_group,
}
use pynchy.Queue.Enqueue.{enqueue_task}
use pynchy.Queue.Invariant.{IsValid}
use pynchy.Queue.Preserve.{enqueue_task-IsValid}
use pynchy.Schedule.Rows.{ScheduledTask, Db}
use pynchy.Schedule.Tasks.{get_due_tasks, is_due_task}
use pynchy.Schedule.Agent.{enqueue_current, enqueue_due_tasks}

-- The task waits in its group, or runs.
abbrev is_run : String → String → Run → Bool
is_run g id (run_for_group h) = false
is_run g id (run_task h t) = (h == g) && (t.id == id)

abbrev names : String → List QueuedTask → Bool
names id ts = any (λ t. t.id == id) ts

abbrev pub is_queued : String → String → GroupQueue → Bool
is_queued g id q = names id (group q.groups g).pending_tasks || any (is_run g id) q.runs

-- A queue in which a group's entry is written keeps what is queued if the entry does.
insert-names :
    (g h id : String) (s : GroupState) (m : Dict String GroupState)
    → (names id (group m h).pending_tasks ≡ true → names id s.pending_tasks ≡ true)
    → names id (group m g).pending_tasks ≡ true
    → names id (group (insert h s m) g).pending_tasks ≡ true
insert-names g h id s m grows k =
    ap (λ x. names id x.pending_tasks) (group-insert h g s m) ∙ elim (Bool-cases (h == g)) [
      | inl y ↦
          let same : names id (group m h).pending_tasks ≡ true =
            ap (λ x. names id (group m x).pending_tasks) ((String-eq.equal_iff h g).0 y) ∙ k in
          rw y (grows same)
      | inr n ↦ rw n k
    ]

or_mono :
    (a b c d : Bool)
    → (a ≡ true → c ≡ true)
    → (b ≡ true → d ≡ true)
    → (a || b) ≡ true
    → (c || d) ≡ true
or_mono true b c d f g h = ap (λ x. x || d) (f refl)
or_mono false b true d f g h = refl
or_mono false b false d f g h = g h

or_right : (a b : Bool) → b ≡ true → (a || b) ≡ true
or_right a b h = ground (arith, h)

any_grows : {A : Type 0} (p : A → Bool) (xs ys : List A) → any p xs ≡ true → any p (xs ++ ys) ≡ true
any_grows p xs ys h = any-append p xs ys ∙ ap (λ b. b || any p ys) h

any_last :
    {A : Type 0} (p : A → Bool) (xs : List A) (x : A) → p x ≡ true → any p (xs ++ x ∷ []) ≡ true
any_last p xs x h = any-append p xs (x ∷ []) ∙ ground (arith, h)

abbrev noted_in : String → String → ℕ → GroupQueue → Dict String GroupState
noted_in g id fn q =
    let s = group q.groups g in
    insert g
      (record s {
        pending_tasks = s.pending_tasks ++ record { id = id; group_jid = g; fn = fn } ∷ [];
      })
      q.groups

noted_last :
    (g id : String) (fn : ℕ) (q : GroupQueue)
    → names id (group (noted_in g id fn q) g).pending_tasks ≡ true
noted_last g id fn q =
    ap (λ x. names id x.pending_tasks) (group-insert g g _ q.groups)
    ∙ rw (equal_refl g)
        (any_last (λ t. t.id == id) (group q.groups g).pending_tasks _ (equal_refl id))

noted_still :
    (g h id j : String) (fn : ℕ) (q : GroupQueue)
    → names id (group q.groups g).pending_tasks ≡ true
    → names id (group (noted_in h j fn q) g).pending_tasks ≡ true
noted_still g h id j fn q =
    insert-names g h id _ q.groups (any_grows (λ t. t.id == id) (group q.groups h).pending_tasks _)

module _ (cfg : Settings) where
  queued-enqueue :
      (g id : String) (fn : ℕ) (q : GroupQueue)
      → q.shutting_down ≡ false
      → is_queued g id (enqueue_task cfg g id fn q) ≡ true
  unfolding enqueue_task get_group
  queued-enqueue g id fn q up =
      let task : QueuedTask = record { id = id; group_jid = g; fn = fn } in
      let runs = any (is_run g id) q.runs in
      let noted = ap (λ b. b || runs) (noted_last g id fn q) in
      if_cases (λ x. is_queued g id x ≡ true) q.shutting_down (λ y. absurd (ground (arith, up, y)))
        (λ n.
          if_cases (λ x. is_queued g id x ≡ true) (names id (group q.groups g).pending_tasks)
            (λ y.
              ap (λ x. names id x.pending_tasks || runs) (group-get_group q g g)
              ∙ ap (λ b. b || runs) y)
            (λ n.
              if_cases (λ x. is_queued g id x ≡ true) (group q.groups g).active (λ y. noted)
                (λ n.
                  if_cases (λ x. is_queued g id x ≡ true) (leb cfg.max_concurrent q.active_count)
                    (λ y. noted)
                    (λ n. or_right _ _ (
                      any_last (is_run g id) q.runs (run_task g task)
                        (ground (arith, equal_refl g, equal_refl id)))))))

  queued_still :
      (g id h j : String) (fn : ℕ) (q : GroupQueue)
      → is_queued g id q ≡ true
      → is_queued g id (enqueue_task cfg h j fn q) ≡ true
  unfolding enqueue_task get_group
  queued_still g id h j fn q k =
      let noted =
        or_mono _ (any (is_run g id) q.runs) _ (any (is_run g id) q.runs)
          (noted_still g h id j fn q) (λ e. e) k in
      if_cases (λ x. is_queued g id x ≡ true) q.shutting_down (λ y. k)
        (λ n.
          if_cases (λ x. is_queued g id x ≡ true) (names j (group q.groups h).pending_tasks)
            (λ y.
              ap (λ x. names id x.pending_tasks || any (is_run g id) q.runs) (group-get_group q h g)
              ∙ k)
            (λ n.
              if_cases (λ x. is_queued g id x ≡ true) (group q.groups h).active (λ y. noted)
                (λ n.
                  if_cases (λ x. is_queued g id x ≡ true) (leb cfg.max_concurrent q.active_count)
                    (λ y. noted)
                    (λ n.
                      or_mono _ (any (is_run g id) q.runs) _ _
                        (insert-names g h id _ q.groups (λ e. e)) (any_grows (is_run g id) q.runs _)
                        k))))

  up-enqueue :
      (g id : String) (fn : ℕ) (q : GroupQueue)
      → (enqueue_task cfg g id fn q).shutting_down ≡ q.shutting_down
  unfolding enqueue_task get_group
  up-enqueue g id fn q = ground arith

  module _ (fn : ScheduledTask → ℕ) (current : String → Option ScheduledTask) where
    current-IsValid :
        (o : Option ScheduledTask) (q : GroupQueue)
        → IsValid cfg q
        → IsValid cfg (enqueue_current cfg fn o q)
    current-IsValid none q v = v
    current-IsValid (some t) q v =
        if_cases (IsValid cfg) (not (t.status == "active")) (λ y. v)
          (λ n. enqueue_task-IsValid cfg t.chat_jid t.id (fn t) q v)

    current_up :
        (o : Option ScheduledTask) (q : GroupQueue)
        → (enqueue_current cfg fn o q).shutting_down ≡ q.shutting_down
    current_up none q = refl
    current_up (some t) q =
        if_cases {A = GroupQueue} (λ x. x.shutting_down ≡ q.shutting_down)
          (not (t.status == "active")) (λ y. refl) (λ n. up-enqueue t.chat_jid t.id (fn t) q)

    current_still :
        (g id : String) (o : Option ScheduledTask) (q : GroupQueue)
        → is_queued g id q ≡ true
        → is_queued g id (enqueue_current cfg fn o q) ≡ true
    current_still g id none q k = k
    current_still g id (some t) q k =
        if_cases (λ x. is_queued g id x ≡ true) (not (t.status == "active")) (λ y. k)
          (λ n. queued_still g id t.chat_jid t.id (fn t) q k)

    current_queued :
        (u : ScheduledTask) (o : Option ScheduledTask) (q : GroupQueue)
        → q.shutting_down ≡ false
        → o ≡ some u
        → (u.status == "active") ≡ true
        → is_queued u.chat_jid u.id (enqueue_current cfg fn o q) ≡ true
    current_queued u o q up e on =
        ap (λ x. is_queued u.chat_jid u.id (enqueue_current cfg fn x q)) e
        ∙ rw on (queued-enqueue u.chat_jid u.id (fn u) q up)

    due_still :
        (ts : List ScheduledTask) (g id : String) (q : GroupQueue)
        → is_queued g id q ≡ true
        → is_queued g id (enqueue_due_tasks cfg fn current ts q) ≡ true
    unfolding enqueue_due_tasks
    due_still [] g id q k = k
    due_still (t ∷ ts) g id q k =
        due_still ts g id (enqueue_current cfg fn (current t.id) q)
          (current_still g id (current t.id) q k)

    due-IsValid :
        (ts : List ScheduledTask) (q : GroupQueue)
        → IsValid cfg q
        → IsValid cfg (enqueue_due_tasks cfg fn current ts q)
    unfolding enqueue_due_tasks
    due-IsValid [] q v = v
    due-IsValid (t ∷ ts) q v =
        due-IsValid ts (enqueue_current cfg fn (current t.id) q)
          (current-IsValid (current t.id) q v)

    due_queued :
        (ts : List ScheduledTask) (q : GroupQueue) (id : String) (u : ScheduledTask)
        → q.shutting_down ≡ false
        → any (λ t. t.id == id) ts ≡ true
        → current id ≡ some u
        → (u.status == "active") ≡ true
        → is_queued u.chat_jid u.id (enqueue_due_tasks cfg fn current ts q) ≡ true
    unfolding enqueue_due_tasks
    due_queued [] q id u up k e on = cc
    due_queued (t ∷ ts) q id u up k e on =
        let after = enqueue_current cfg fn (current t.id) q in
        elim (Bool-cases (t.id == id)) [
          | inl y ↦
              let this = ap current ((String-eq.equal_iff t.id id).0 y) ∙ e in
              due_still ts u.chat_jid u.id after (current_queued u (current t.id) q up this on)
          | inr n ↦
              due_queued ts after id u (current_up (current t.id) q ∙ up) (ground (arith, k, n)) e
                on
        ]

    -- A valid queue that is not shutting down is valid after the loop over the due tasks, and a due
    -- task that is still active when the loop comes to it then waits in its group or runs.
    pub enqueue_due_tasks_queues :
        (now : Text) (db : Db) (q : GroupQueue) (id : String) (u : ScheduledTask)
        → q.shutting_down ≡ false
        → IsValid cfg q
        → any (λ t. is_due_task now t && (t.id == id)) db.tasks ≡ true
        → current id ≡ some u
        → (u.status == "active") ≡ true
        → let after = enqueue_due_tasks cfg fn current (get_due_tasks now db) q in
          IsValid cfg after × (is_queued u.chat_jid u.id after ≡ true)
    unfolding get_due_tasks
    enqueue_due_tasks_queues now db q id u up v k e on = (
      due-IsValid (get_due_tasks now db) q v,
      due_queued (get_due_tasks now db) q id u up
          (any-sort_by _ (λ t. t.id == id) (keep (is_due_task now) db.tasks)
            ∙ any-keep (λ t. t.id == id) (is_due_task now) db.tasks
            ∙ k)
          e on,
    )
