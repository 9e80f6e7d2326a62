-- ===== src/Approvals/Sweep.antt =====
-- `sweep_expired_approvals` of src/pynchy/host/container_manager/security/approval.py.
use pynchy.Base.{
  Bool, Dict, List, String, String-eq, [], contains, if◌then◌else◌, keys, list-eq, ltb, not, ℕ,
  ℕ-eq, ◌++◌, ◌-◌, ◌==◌, ◌∷◌,
}
use pynchy.Approvals.Files.{Pending, Decision, File, unreadable, holds, Folder, Store, Effect}

-- 300 seconds.
abbrev pub approval_timeout : ℕ
approval_timeout = 300000000

abbrev pub is_expired : ℕ → Pending → Bool
is_expired now p = ltb approval_timeout (now - p.timestamp)

-- The files that are left, what is done, and the expired requests.
unfoldable pub sweep_pending :
    ℕ
    → String
    → Dict String (File Pending)
    → Dict String (File Pending) × List Effect × List Pending
sweep_pending now group [] = ([], [], [])
sweep_pending now group ((f, unreadable) ∷ fs) =
    let (left, effects, expired) = sweep_pending now group fs in
    ((f, unreadable) ∷ left, effects, expired)
sweep_pending now group ((f, holds p) ∷ fs) =
    let (left, effects, expired) = sweep_pending now group fs in
    if is_expired now p
    then (
      left,
      Effect.respond_error group p.request_id "Approval expired (no response within timeout)"
          ∷ Effect.audit group p.tool_name "approval_expired" p.request_id
          ∷ effects,
      p ∷ expired,
    )
    else ((f, holds p) ∷ left, effects, expired)

unfoldable pub clean_orphans :
    List String → Dict String (File Decision) → Dict String (File Decision)
clean_orphans pending_ids [] = []
clean_orphans pending_ids ((f, d) ∷ fs) =
    if not (contains f pending_ids)
    then clean_orphans pending_ids fs
    else (f, d) ∷ clean_orphans pending_ids fs

unfoldable pub sweep_folder : ℕ → String → Folder → Folder × List Effect × List Pending
unfolding sweep_pending clean_orphans
sweep_folder now group folder =
    let (left, effects, expired) = sweep_pending now group folder.pending in
    (
      record { pending = left; decisions = clean_orphans (keys left) folder.decisions },
      effects,
      expired,
    )

unfoldable pub sweep_expired_approvals : ℕ → Store → Store × List Effect × List Pending
unfolding sweep_folder
sweep_expired_approvals now [] = ([], [], [])
sweep_expired_approvals now ((group, folder) ∷ rest) =
    let (store, effects, expired) = sweep_expired_approvals now rest in
    let (swept, es, ps) = sweep_folder now group folder in
    if group == "errors"
    then ((group, folder) ∷ store, effects, expired)
    else ((group, swept) ∷ store, es ++ effects, ps ++ expired)
