-- ===== src/Queue/Invariant.antt =====
-- What holds of the queue between two events: `IsValid`, and `IsOpen`, its part that still holds
-- inside `_drain_group`, while a free slot is being handed on.
use pynchy.Base.{
  Bool, List, String, String-eq, [], contains, distinct, false, length, map, sym, true, ◌==◌, ◌||◌,
  ◌∙◌, ◌∷◌, ◌≡◌, ◌≤◌,
}
use pynchy.Queue.State.{QueuedTask, GroupState, group_of, GroupQueue, Settings, group}

abbrev pub any_task : List QueuedTask → Bool
any_task [] = false
any_task (t ∷ ts) = true

abbrev pub has_work : GroupState → Bool
has_work s = s.pending_messages || any_task s.pending_tasks

-- The groups that hold a slot.
abbrev pub holders : GroupQueue → List String
holders q = map group_of q.runs

abbrev pub is_active : GroupQueue → String → Bool
is_active q g = (group q.groups g).active

pub record IsOpen (cfg : Settings) (q : GroupQueue) : Type 0 where
  pub counted : q.active_count ≡ length q.runs
  pub bounded : q.active_count ≤ cfg.max_concurrent
  pub tracked : (g : String) → is_active q g ≡ contains g (holders q)
  pub serial : distinct (holders q) ≡ true
  pub queued_once : distinct q.waiting_groups ≡ true
  pub queued_idle : (g : String) → contains g q.waiting_groups ≡ true → is_active q g ≡ false

-- Pending work of every idle group is waited for; of every idle group but `x`.
abbrev pub Served : GroupQueue → Type 0
Served q =
    (g : String)
    → is_active q g ≡ false
    → has_work (group q.groups g) ≡ true
    → contains g q.waiting_groups ≡ true

abbrev pub ServedBut : String → GroupQueue → Type 0
ServedBut x q =
    (g : String)
    → (x == g) ≡ false
    → is_active q g ≡ false
    → has_work (group q.groups g) ≡ true
    → contains g q.waiting_groups ≡ true

-- A group waits only if every slot is taken.
abbrev pub Saturated : Settings → GroupQueue → Type 0
Saturated cfg q =
    (g : String) → contains g q.waiting_groups ≡ true → cfg.max_concurrent ≤ q.active_count

pub record IsValid (cfg : Settings) (q : GroupQueue) : Type 0 where
  pub opened : IsOpen cfg q
  pub open opened use *
  pub served : q.shutting_down ≡ false → Served q
  pub saturated : q.shutting_down ≡ false → Saturated cfg q

-- A step that touches no slot and adds no work.
pub record IsQuiet (q q' : GroupQueue) : Type 0 where
  pub count_same : q'.active_count ≡ q.active_count
  pub runs_same : q'.runs ≡ q.runs
  pub waiting_same : q'.waiting_groups ≡ q.waiting_groups
  pub closing : q'.shutting_down ≡ false → q.shutting_down ≡ false
  pub active_same : (g : String) → is_active q' g ≡ is_active q g
  pub work_less :
      (g : String) → has_work (group q'.groups g) ≡ true → has_work (group q.groups g) ≡ true

module _ {cfg : Settings} {q q' : GroupQueue} (c : IsQuiet q q') where
  pub IsQuiet-IsOpen : IsOpen cfg q → IsOpen cfg q'
  IsQuiet-IsOpen v = record {
    counted = rw (c.count_same, c.runs_same) v.counted;
    bounded = rw c.count_same v.bounded;
    tracked = λ g. rw c.runs_same (c.active_same g ∙ v.tracked g);
    serial = rw c.runs_same v.serial;
    queued_once = rw c.waiting_same v.queued_once;
    queued_idle = λ g m. c.active_same g ∙ v.queued_idle g (rw c.waiting_same at m);
  }

  pub IsQuiet-IsValid : IsValid cfg q → IsValid cfg q'
  IsQuiet-IsValid v = record {
    opened = IsQuiet-IsOpen v.opened;
    served = λ n g a w.
        rw c.waiting_same (v.served (c.closing n) g (sym (c.active_same g) ∙ a) (c.work_less g w));
    saturated = λ n g m. rw c.count_same (v.saturated (c.closing n) g (rw c.waiting_same at m));
  }
