-- ===== src/Approvals/DropLaws.antt =====
-- The files that handlers_approval.py leaves.
use pynchy.Base.{
  Bool, Bool-cases, Dict, Option, String, String-eq, ap, if◌then◌else◌, inl, inr, list-eq, lookup,
  lookup-remove, none, or_else, refl, some, sym, ℕ-eq, ◌==◌, ◌∙◌, ◌≡◌,
}
use pynchy.Approvals.DecideLaws.{named_by, names}
use pynchy.Approvals.Files.{Pending, Decision, File, unreadable, holds, Folder, Futures}
use pynchy.Approvals.Decide.{Env, process_approval_decision, on_decision, on_pending}
use pynchy.Security.Service.{truthy}

lookup_gone :
    (id other : String) (d : Dict String (File Pending))
    → lookup id d ≡ none
    → lookup other d ≡ (if id == other then none else lookup other d)
lookup_gone id other d h = elim (Bool-cases (id == other)) [
  | inl y ↦ rw y (ap (λ k. lookup k d) (sym ((String-eq.equal_iff id other).0 y)) ∙ h)
  | inr n ↦ rw n refl
]

on_pending-drops :
    (env : Env) (file group id : String) (approved : Bool) (folder : Folder) (futures : Futures)
    (o : Option (File Pending)) (other : String)
    → lookup id folder.pending ≡ o
    → let left = (on_pending env file group id approved folder futures o).0 in
      (lookup other left.decisions
        ≡ (if file == other then none else lookup other folder.decisions))
      × (lookup other left.pending ≡ (if id == other then none else lookup other folder.pending))
on_pending-drops env file group id approved folder futures none other h =
    (lookup-remove file other folder.decisions, lookup_gone id other folder.pending h)
on_pending-drops env file group id approved folder futures (some unreadable) other h =
    (lookup-remove file other folder.decisions, lookup-remove id other folder.pending)
on_pending-drops env file group id approved folder futures (some (holds p)) other h =
    (lookup-remove file other folder.decisions, lookup-remove id other folder.pending)

on_decision-drops :
    (env : Env) (file group : String) (folder : Folder) (futures : Futures)
    (o : Option (File Decision)) (other : String)
    → let left = (on_decision env file group folder futures o).0 in
      (lookup other left.decisions
        ≡ (if file == other then none else lookup other folder.decisions))
      × (lookup other left.pending
          ≡ (if named_by o other then none else lookup other folder.pending))
on_decision-drops env file group folder futures none other =
    (lookup-remove file other folder.decisions, refl)
on_decision-drops env file group folder futures (some unreadable) other =
    (lookup-remove file other folder.decisions, refl)
on_decision-drops env file group folder futures (some (holds d)) other =
    elim (Bool-cases (truthy d.request_id)) [
      | inl y ↦ rw y (
          on_pending-drops env file group (or_else d.request_id "") d.approved folder futures
            (lookup (or_else d.request_id "") folder.pending) other refl)
      | inr n ↦ rw n (lookup-remove file other folder.decisions, refl)
    ]

-- After a decision file is handled it is gone, whatever it holds, and so is the pending file that it
-- names; no other file of the group is touched.
pub process_approval_decision_drops :
    (env : Env) (file group : String) (folder : Folder) (futures : Futures) (other : String)
    → let left = (process_approval_decision env file group folder futures).0 in
      (lookup other left.decisions
        ≡ (if file == other then none else lookup other folder.decisions))
      × (lookup other left.pending
          ≡ (if names file folder other then none else lookup other folder.pending))
unfolding process_approval_decision
process_approval_decision_drops env file group folder futures other =
    on_decision-drops env file group folder futures (lookup file folder.decisions) other
