-- ===== src/Queue/Ends.antt =====
-- concurrency.py: the end of a run, and the invariant of the queue.
use pynchy.Base.{
  Bool-cases, List, Option-cases, String, String-eq, ap, arith, contains, contains-pick,
  distinct-pick, equal_refl, false, inl, inr, length, length-pick, pick, refl, some, subst, suc,
  sym, true, ℕ, ◌+◌, ◌<◌, ◌∙◌, ◌≡◌, ◌≤◌,
}
use pynchy.Queue.State.{
  Run, run_for_group, run_task, group_of, GroupQueue, Settings, group, group-insert,
}
use pynchy.Queue.Start.{drain_group}
use pynchy.Queue.Finish.{Outcome, release_state, release, settle, finish_messages, finish_task}
use pynchy.Queue.Event.{finish_run, end_run}
use pynchy.Queue.Invariant.{is_active, IsOpen, IsValid, IsQuiet, ServedBut}
use pynchy.Queue.Quiet.{same-IsQuiet, settle-IsQuiet}
use pynchy.Queue.Slots.{drain_group-IsValid}
use pynchy.Queue.Protocol
use pynchy.Queue.Protocol.{Evolves, Evolves-refl, Evolves-trans, Evolves-insert}
use pynchy.Queue.Evolution.{drain_group-Evolves, settle-Evolves}

-- The run at position `i` has ended, and `q'` is the queue after its `try`, before its `finally`.
module _ (cfg : Settings) (i : ℕ) (r : Run) (rest : List Run) (q q' : GroupQueue)
    (v : IsValid cfg q) (picked : pick i q.runs ≡ some (r, rest))
    (c : IsQuiet (record q { runs = rest }) q') where
  abbrev g : String
  g = group_of r

  was_active : is_active q g ≡ true
  was_active =
      v.tracked g
      ∙ ground (arith, contains-pick group_of i q.runs {x = r} {rest = rest} g picked, equal_refl g)

  not_waiting : contains g q.waiting_groups ≡ false
  not_waiting = elim (Bool-cases (contains g q.waiting_groups)) [
    | inl m ↦ cc (v.queued_idle g m, was_active)
    | inr n ↦ n
  ]

  one_less : q'.active_count ≡ suc (length rest)
  one_less = c.count_same ∙ v.counted ∙ length-pick i q.runs {x = r} {rest = rest} picked

  release-IsOpen : IsOpen cfg (release g q')
  unfolding release
  release-IsOpen = record {
    counted = omega (arith, one_less, ap (length {A = Run}) c.runs_same);
    bounded = omega (arith, v.bounded, c.count_same);
    tracked = λ h. rw c.runs_same (
        ground (
          arith,
          group-insert g h (release_state (group q'.groups g)) q'.groups,
          v.tracked h,
          c.active_same h,
          contains-pick group_of i q.runs {x = r} {rest = rest} h picked,
          distinct-pick group_of i q.runs {x = r} {rest = rest} picked v.serial,
          String-eq.equal_iff g h,
        ));
    serial =
        rw c.runs_same (distinct-pick group_of i q.runs {x = r} {rest = rest} picked v.serial).0;
    queued_once = rw c.waiting_same v.queued_once;
    queued_idle = λ h m. ground (
      arith,
      group-insert g h (release_state (group q'.groups g)) q'.groups,
      v.queued_idle h (rw c.waiting_same at m),
      c.active_same h,
      String-eq.equal_iff g h,
    );
  }

  freed_idle : is_active (release g q') g ≡ false
  unfolding release
  freed_idle =
      ground (arith, group-insert g g (release_state (group q'.groups g)) q'.groups, equal_refl g)

  freed_absent : contains g (release g q').waiting_groups ≡ false
  unfolding release
  freed_absent = rw c.waiting_same not_waiting

  freed_room : (release g q').active_count < cfg.max_concurrent
  unfolding release
  freed_room = omega (arith, one_less, v.bounded, c.count_same)

  freed_served : (release g q').shutting_down ≡ false → ServedBut g (release g q')
  unfolding release
  freed_served n h ne a w =
      let written = group-insert g h (release_state (group q'.groups g)) q'.groups in
      rw c.waiting_same (
        v.served (c.closing n) h (ground (arith, written, a, c.active_same h, ne))
          (ground (arith, written, w, c.work_less h, ne)))

  freed_saturated :
      (release g q').shutting_down ≡ false
      → (h : String) → contains h (release g q').waiting_groups ≡ true
      → cfg.max_concurrent ≤ (release g q').active_count + 1
  unfolding release
  freed_saturated n h m =
      omega (arith, v.saturated (c.closing n) h (rw c.waiting_same at m), c.count_same, one_less)

  -- Its slot is freed, and handed on.
  pub finally-IsValid : IsValid cfg (drain_group cfg g (release g q'))
  finally-IsValid =
      drain_group-IsValid cfg g (release g q') release-IsOpen freed_idle freed_absent freed_room
        freed_served freed_saturated

  released_move : Evolves cfg q'.groups (release g q').groups
  unfolding release
  released_move =
      Evolves-insert cfg q'.groups g _ (Protocol.release (c.active_same g ∙ was_active) refl)

  -- The group's own state goes through `release` on the way.
  pub finally-Evolves : Evolves cfg q'.groups (drain_group cfg g (release g q')).groups
  finally-Evolves = Evolves-trans cfg q'.groups (release g q').groups _ released_move (
      drain_group-Evolves cfg g (release g q') release-IsOpen freed_idle freed_absent freed_room
        freed_served)

end_with-IsValid :
    (cfg : Settings) (o : Outcome) (i : ℕ) (r : Run) (rest : List Run) (q : GroupQueue)
    → IsValid cfg q
    → pick i q.runs ≡ some (r, rest)
    → IsValid cfg (finish_run cfg o r (record q { runs = rest }))
unfolding finish_run finish_messages finish_task
end_with-IsValid cfg o i (run_for_group g) rest q v p =
    finally-IsValid cfg i (run_for_group g) rest q _ v p
      (settle-IsQuiet cfg g o (record q { runs = rest }))
end_with-IsValid cfg o i (run_task g t) rest q v p =
    finally-IsValid cfg i (run_task g t) rest q _ v p
      (same-IsQuiet _ _ refl refl refl (λ n. n) (λ h. refl))

pub end_run-IsValid :
    (cfg : Settings) (o : Outcome) (i : ℕ) (q : GroupQueue)
    → IsValid cfg q
    → IsValid cfg (end_run cfg o (pick i q.runs) q)
unfolding end_run
end_run-IsValid cfg o i q v = elim (Option-cases (pick i q.runs)) [
  | inl e ↦ subst (λ x. IsValid cfg (end_run cfg o x q)) (sym e) v
  | inr ((r, rest), e) ↦
      subst (λ x. IsValid cfg (end_run cfg o x q)) (sym e) (end_with-IsValid cfg o i r rest q v e)
]

end_with-Evolves :
    (cfg : Settings) (o : Outcome) (i : ℕ) (r : Run) (rest : List Run) (q : GroupQueue)
    → IsValid cfg q
    → pick i q.runs ≡ some (r, rest)
    → Evolves cfg q.groups (finish_run cfg o r (record q { runs = rest })).groups
unfolding finish_run finish_messages finish_task
end_with-Evolves cfg o i (run_for_group g) rest q v p =
    let q0 = record q { runs = rest } in
    Evolves-trans cfg q.groups (settle cfg g o q0).groups _ (settle-Evolves cfg g o q0) (
      finally-Evolves cfg i (run_for_group g) rest q (settle cfg g o q0) v p
        (settle-IsQuiet cfg g o q0))
end_with-Evolves cfg o i (run_task g t) rest q v p =
    finally-Evolves cfg i (run_task g t) rest q _ v p
      (same-IsQuiet (record q { runs = rest }) _ refl refl refl (λ n. n) (λ h. refl))

pub end_run-Evolves :
    (cfg : Settings) (o : Outcome) (i : ℕ) (q : GroupQueue)
    → IsValid cfg q
    → Evolves cfg q.groups (end_run cfg o (pick i q.runs) q).groups
unfolding end_run
end_run-Evolves cfg o i q v = elim (Option-cases (pick i q.runs)) [
  | inl e ↦
      subst (λ x. Evolves cfg q.groups (end_run cfg o x q).groups) (sym e)
        (Evolves-refl cfg q.groups)
  | inr ((r, rest), e) ↦
      subst (λ x. Evolves cfg q.groups (end_run cfg o x q).groups) (sym e)
        (end_with-Evolves cfg o i r rest q v e)
]
