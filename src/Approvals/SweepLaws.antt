-- ===== src/Approvals/SweepLaws.antt =====
-- The sweep of approval.py, described without its loops.
use mathlib.Core.List.{map-append}
use pynchy.Base.{
  Bool, Bool-cases, Dict, List, String, String-eq, [], all, all_kept, ap, arith, contains,
  if◌then◌else◌, inl, inr, keep, keys, list-eq, map, not, refl, true, ℕ, ℕ-eq, ◌&&◌, ◌++◌, ◌==◌,
  ◌||◌, ◌∙◌, ◌∷◌, ◌≡◌,
}
use pynchy.Approvals.Files.{Pending, Decision, File, unreadable, holds, Folder, Store, Effect}
use pynchy.Approvals.Pending.{readable}
use pynchy.Approvals.Sweep.{
  is_expired, sweep_pending, clean_orphans, sweep_folder, sweep_expired_approvals,
}
use pynchy.Approvals.DecideLaws.{answered}

abbrev pub stays : ℕ → File Pending → Bool
stays now unreadable = true
stays now (holds p) = not (is_expired now p)

-- A group's files without the expired requests and the decisions on no request.
abbrev pub swept : ℕ → Folder → Folder
swept now folder =
    let left = keep (λ f. stays now f.1) folder.pending in
    record { pending = left; decisions = keep (λ f. contains f.0 (keys left)) folder.decisions }

abbrev pub expired_in : ℕ → Folder → List Pending
expired_in now folder = keep (is_expired now) (readable folder.pending)

-- The pairs that `answered` and the results are compared with.
abbrev pub in_group : String → Pending → String × Pending
in_group group p = (group, p)

abbrev pub named_in : String → Pending → String × String
named_in group p = (group, p.request_id)

abbrev pub named : String × Pending → String × String
named q = (q.0, q.1.request_id)

abbrev pub request_in : String × Pending → Pending
request_in q = q.1

abbrev pub swept_store : ℕ → Store → Store
swept_store now [] = []
swept_store now ((group, folder) ∷ rest) =
    (group, if group == "errors" then folder else swept now folder) ∷ swept_store now rest

-- The expired requests of all groups, each with its group.
abbrev pub expired_store : ℕ → Store → List (String × Pending)
expired_store now [] = []
expired_store now ((group, folder) ∷ rest) =
    (if group == "errors" then [] else map (in_group group) (expired_in now folder))
    ++ expired_store now rest

sweep_pending_exact :
    (now : ℕ) (group : String) (fs : Dict String (File Pending))
    → let r = sweep_pending now group fs in
      let expired = keep (is_expired now) (readable fs) in
      (r.0 ≡ keep (λ f. stays now f.1) fs)
      × (answered r.1 ≡ map (named_in group) expired)
      × (r.2 ≡ expired)
unfolding sweep_pending
sweep_pending_exact now group [] = (refl, refl, refl)
sweep_pending_exact now group ((f, unreadable) ∷ fs) =
    ground (arith, sweep_pending_exact now group fs)
sweep_pending_exact now group ((f, holds p) ∷ fs) = elim (Bool-cases (is_expired now p)) [
  | inl y ↦ ground (arith, y, sweep_pending_exact now group fs)
  | inr n ↦ ground (arith, n, sweep_pending_exact now group fs)
]

clean_orphans_lem :
    (ids : List String) (fs : Dict String (File Decision))
    → clean_orphans ids fs ≡ keep (λ f. contains f.0 ids) fs
unfolding clean_orphans
clean_orphans_lem ids [] = refl
clean_orphans_lem ids ((f, d) ∷ fs) = ground (arith, clean_orphans_lem ids fs)

answered-append : (es fs : List Effect) → answered (es ++ fs) ≡ answered es ++ answered fs
answered-append [] fs = refl
answered-append (Effect.respond_error g r e ∷ es) fs = ground (arith, answered-append es fs)
answered-append (Effect.respond g r v ∷ es) fs = ground (arith, answered-append es fs)
answered-append (Effect.audit g t d r ∷ es) fs = answered-append es fs
answered-append (Effect.run_handler t d ∷ es) fs = answered-append es fs
answered-append (Effect.dispatch_ipc d g ∷ es) fs = answered-append es fs
answered-append (Effect.set_result r b ∷ es) fs = answered-append es fs

sweep_folder_exact :
    (now : ℕ) (group : String) (folder : Folder)
    → let r = sweep_folder now group folder in
      (r.0 ≡ swept now folder)
      × (answered r.1 ≡ map (named_in group) (expired_in now folder))
      × (r.2 ≡ expired_in now folder)
unfolding sweep_folder
sweep_folder_exact now group folder =
    let e = sweep_pending_exact now group folder.pending in
    (
      ap
            (λ left.
              let both : Folder = record {
                pending = left;
                decisions = clean_orphans (keys left) folder.decisions;
              } in
              both)
            e.0
          ∙ ap
              (λ ds.
                let both : Folder = record {
                  pending = keep (λ f. stays now f.1) folder.pending;
                  decisions = ds;
                } in
                both)
              (clean_orphans_lem _ folder.decisions),
      e.1,
      e.2,
    )

map_group :
    (group : String) (ps : List Pending)
    → map named (map (in_group group) ps) ≡ map (named_in group) ps
map_group group [] = refl
map_group group (p ∷ ps) = ap (λ l. (group, p.request_id) ∷ l) (map_group group ps)

map_second : (group : String) (ps : List Pending) → map request_in (map (in_group group) ps) ≡ ps
map_second group [] = refl
map_second group (p ∷ ps) = ap (λ l. p ∷ l) (map_second group ps)

sweep_all :
    (now : ℕ) (store : Store)
    → let r = sweep_expired_approvals now store in
      let expired = expired_store now store in
      (r.0 ≡ swept_store now store)
      × (answered r.1 ≡ map named expired)
      × (r.2 ≡ map request_in expired)
unfolding sweep_expired_approvals
sweep_all now [] = (refl, refl, refl)
sweep_all now ((group, folder) ∷ rest) =
    let ih = sweep_all now rest in
    let here = sweep_folder_exact now group folder in
    let ps = expired_in now folder in
    elim (Bool-cases (group == "errors")) [
      | inl y ↦ ground (arith, y, ih)
      | inr n ↦ ground (
        arith,
        n,
        ih,
        here,
        map_group group ps,
        map_second group ps,
        answered-append (sweep_folder now group folder).1 (sweep_expired_approvals now rest).1,
        map-append named (map (in_group group) ps) (expired_store now rest),
        map-append request_in (map (in_group group) ps) (expired_store now rest),
      )
    ]

-- No request is expired, and every decision is on a request that is pending.
abbrev pub is_clean : ℕ → Folder → Bool
is_clean now folder =
    all (λ f. stays now f.1) folder.pending
    && all (λ f. contains f.0 (keys folder.pending)) folder.decisions

abbrev pub is_clean_store : ℕ → Store → Bool
is_clean_store now [] = true
is_clean_store now ((group, folder) ∷ rest) =
    ((group == "errors") || is_clean now folder) && is_clean_store now rest

swept-is_clean : (now : ℕ) (folder : Folder) → is_clean now (swept now folder) ≡ true
swept-is_clean now folder =
    let left = keep (λ f. stays now f.1) folder.pending in
    ground (
      arith,
      all_kept (λ f. stays now f.1) folder.pending,
      all_kept (λ f. contains f.0 (keys left)) folder.decisions,
    )

swept_store-is_clean : (now : ℕ) (store : Store) → is_clean_store now (swept_store now store) ≡ true
swept_store-is_clean now [] = refl
swept_store-is_clean now ((group, folder) ∷ rest) = elim (Bool-cases (group == "errors")) [
  | inl y ↦ rw y (swept_store-is_clean now rest)
  | inr n ↦ rw (n, swept-is_clean now folder) (swept_store-is_clean now rest)
]

-- The sweep answers every expired request of every group once, in the order of the files, gives
-- back exactly these, and removes them and then the decisions on no request, and nothing else; the
-- directory "errors" is left alone. After it no request is expired and no decision is an orphan.
pub sweep_expired_approvals_exact :
    (now : ℕ) (store : Store)
    → let r = sweep_expired_approvals now store in
      let expired = expired_store now store in
      (answered r.1 ≡ map named expired)
      × (r.2 ≡ map request_in expired)
      × (r.0 ≡ swept_store now store)
      × (is_clean_store now r.0 ≡ true)
sweep_expired_approvals_exact now store =
    let e = sweep_all now store in
    (e.1, e.2, e.0, ap (is_clean_store now) e.0 ∙ swept_store-is_clean now store)
