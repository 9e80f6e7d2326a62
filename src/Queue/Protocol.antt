-- ===== src/Queue/Protocol.antt =====
-- The life of one group in concurrency.py, as a step relation on its `GroupState`: a slot is taken
-- only by an idle group and given back only by an active one.
use pynchy.Base.{
  Bool-cases, Dict, List, Option, String, String-eq, [], any, arith, false, inl, inr, insert, subst,
  sym, true, ℕ, ◌++◌, ◌+◌, ◌<◌, ◌==◌, ◌∷◌, ◌≡◌,
}
use pynchy.Queue.State.{QueuedTask, GroupState, Settings, group, group-insert}
use pynchy.Queue.Finish.{release_state}

pub data Move (cfg : Settings) (s s' : GroupState) : Type 0 where
  note_messages : s' ≡ record s { pending_messages = true } → Move cfg s s'
  note_task :
      (t : QueuedTask)
      → any (λ u. u.id == t.id) s.pending_tasks ≡ false
      → s' ≡ record s { pending_tasks = s.pending_tasks ++ t ∷ [] }
      → Move cfg s s'
  begin_messages :
      s.active ≡ false → s' ≡ record s { active = true; pending_messages = false } → Move cfg s s'
  drain_messages :
      s.active ≡ false
      → s.pending_messages ≡ true
      → s' ≡ record s { active = true; active_is_task = false; pending_messages = false }
      → Move cfg s s'
  begin_task :
      s.active ≡ false → s' ≡ record s { active = true; active_is_task = true } → Move cfg s s'
  drain_task :
      (t : QueuedTask) (ts : List QueuedTask)
      → s.active ≡ false
      → s.pending_messages ≡ false
      → s.pending_tasks ≡ t ∷ ts
      → s' ≡ record s { active = true; active_is_task = true; pending_tasks = ts }
      → Move cfg s s'
  release : s.active ≡ true → s' ≡ release_state s → Move cfg s s'
  count_retry :
      s.retry_count < cfg.max_retries
      → s' ≡ record s { retry_count = s.retry_count + 1 }
      → Move cfg s s'
  reset_retry : s' ≡ record s { retry_count = 0 } → Move cfg s s'
  register :
      (proc : Option ℕ) (name folder : Option String) (ts : ℕ)
      → s' ≡ record s {
        process = proc;
        container_name = name;
        group_folder = folder;
        invocation_ts = ts;
      }
      → Move cfg s s'
  clear : s' ≡ record s { pending_tasks = [] } → Move cfg s s'

pub data Moves (cfg : Settings) (s : GroupState) : GroupState → Type 0 where
  here : Moves cfg s s
  then : {t u : GroupState} → Moves cfg s t → Move cfg t u → Moves cfg s u

pub Moves-trans :
    {cfg : Settings} {s t u : GroupState} → Moves cfg s t → Moves cfg t u → Moves cfg s u
Moves-trans m here = m
Moves-trans m (then n x) = then (Moves-trans m n) x

-- Each group of `m'` comes from its state in `m` by moves.
abbrev pub Evolves : Settings → Dict String GroupState → Dict String GroupState → Type 0
Evolves cfg m m' = (h : String) → Moves cfg (group m h) (group m' h)

module _ (cfg : Settings) where
  pub Evolves-trans :
      (l m n : Dict String GroupState) → Evolves cfg l m → Evolves cfg m n → Evolves cfg l n
  Evolves-trans l m n a b h = Moves-trans (a h) (b h)

  pub Evolves-refl : (m : Dict String GroupState) → Evolves cfg m m
  Evolves-refl m h = here

  pub Evolves-same :
      (m m' : Dict String GroupState) → ((h : String) → group m' h ≡ group m h) → Evolves cfg m m'
  Evolves-same m m' e h = subst (Moves cfg (group m h)) (sym (e h)) here

  -- One entry is written, by a move.
  pub Evolves-insert :
      (m : Dict String GroupState) (g : String) (s : GroupState)
      → Move cfg (group m g) s
      → Evolves cfg m (insert g s m)
  Evolves-insert m g s mv h = elim (Bool-cases (g == h)) [
    | inl same ↦
        subst (Moves cfg (group m h)) (ground (arith, group-insert g h s m, same))
          (subst (λ x. Moves cfg (group m x) s) ((String-eq.equal_iff g h).0 same) (then here mv))
    | inr other ↦ subst (Moves cfg (group m h)) (ground (arith, group-insert g h s m, other)) here
  ]
