-- ===== src/Approvals/FlowLaws.antt =====
-- A request's way through the approval gate: created, found by its short id, decided, executed.
use pynchy.Base.{
  Bool-cases, Dict, List, Option, String, String-eq, [], any, ap, arith, contains, equal_refl,
  false, if◌then◌else◌, inl, inr, insert, list-eq, lookup, lookup-insert, none, not, or_else, refl,
  some, take, true, ℕ, ℕ-eq, ◌==◌, ◌∙◌, ◌∷◌, ◌≡◌,
}
use pynchy.Approvals.Files.{
  RequestData, Pending, Decision, File, unreadable, holds, Folder, empty_folder, Store, Futures,
  folder_of,
}
use pynchy.Approvals.Pending.{
  short_ids, first_fresh, generate_short_id, create_pending_approval, found_in,
  find_pending_by_short_id,
}
use pynchy.Approvals.Commands.{decide_found, write_decision, handle_approval_command}
use pynchy.Approvals.Decide.{Env, process_approval_decision}
use pynchy.Approvals.DropLaws.{process_approval_decision_drops}
use pynchy.Approvals.DecideLaws.{
  ruling_of, ruling_on, named_by, Ruling, ruling, is_due, answers_due, answered, executions, one_if,
  process_approval_decision_answers,
}

first_fresh-is_fresh :
    (existing draws : List String) (fallback : String)
    → any (λ d. not (contains d existing)) draws ≡ true
    → contains (first_fresh existing draws fallback) existing ≡ false
unfolding first_fresh
first_fresh-is_fresh existing [] fallback h = cc
first_fresh-is_fresh existing (d ∷ ds) fallback h = elim (Bool-cases (contains d existing)) [
  | inl y ↦ rw y (first_fresh-is_fresh existing ds fallback (ground (arith, h, y)))
  | inr n ↦ rw n n
]

-- If one of the first hundred draws is no short id of the group's readable requests, the short id
-- that is given is none of them.
pub generate_short_id-is_fresh :
    (draws : List String) (fallback : String) (folder : Folder)
    → any (λ d. not (contains d (short_ids folder.pending))) (take 100 draws) ≡ true
    → contains (generate_short_id draws fallback folder) (short_ids folder.pending) ≡ false
unfolding generate_short_id
generate_short_id-is_fresh draws fallback folder h =
    first_fresh-is_fresh (short_ids folder.pending) (take 100 draws) fallback h

found_in-through :
    (short : String) (fs : Dict String (File Pending)) (r r' : Option Pending)
    → found_in short fs r ≡ none
    → (found_in short fs r' ≡ r') × (r ≡ none)
found_in-through short [] r r' h = (refl, h)
found_in-through short ((f, unreadable) ∷ fs) r r' h = found_in-through short fs r r' h
found_in-through short ((f, holds q) ∷ fs) r r' h = elim (Bool-cases (q.short_id == short)) [
  | inl y ↦ ground (arith, h, y)
  | inr n ↦ rw n (found_in-through short fs r r' (ground (arith, h, n)))
]

found_in-insert :
    (short id : String) (p : Pending) (fs : Dict String (File Pending)) (r r' : Option Pending)
    → (p.short_id == short) ≡ true
    → found_in short fs r ≡ none
    → found_in short (insert id (holds p) fs) r' ≡ some p
unfolding insert
found_in-insert short id p [] r r' e h = rw e refl
found_in-insert short id p ((f, unreadable) ∷ fs) r r' e h = elim (Bool-cases (f == id)) [
  | inl y ↦ rw (y, e) refl
  | inr n ↦ rw n (found_in-insert short id p fs r r' e h)
]
found_in-insert short id p ((f, holds q) ∷ fs) r r' e h = elim (Bool-cases (f == id)) [
  | inl y ↦ rw (y, e) refl
  | inr n ↦ ground (arith, n, h, e, found_in-insert short id p fs r r' e)
]

find-insert :
    (short group id : String) (p : Pending) (new : Folder) (store : Store)
    → (p.short_id == short) ≡ true
    → (group == "errors") ≡ false
    → find_pending_by_short_id short store ≡ none
    → new.pending ≡ insert id (holds p) (folder_of group store).pending
    → find_pending_by_short_id short (insert group new store) ≡ some p
unfolding find_pending_by_short_id insert lookup
find-insert short group id p new [] e g h k =
    rw g (ap (λ ps. found_in short ps none) k ∙ found_in-insert short id p [] none none e refl)
find-insert short group id p new ((g', f) ∷ store) e g h k = elim (Bool-cases (g' == group)) [
  | inl y ↦
      let ne : (g' == "errors") ≡ false =
        ap (λ x. x == "errors") ((String-eq.equal_iff g' group).0 y) ∙ g in
      let unknown : found_in short f.pending (find_pending_by_short_id short store) ≡ none =
        ground (arith, h, ne) in
      let here : new.pending ≡ insert id (holds p) f.pending = ground (arith, k, y) in
      rw (y, ne)
        (ap (λ ps. found_in short ps (find_pending_by_short_id short store)) here
          ∙ found_in-insert short id p f.pending _ _ e unknown)
  | inr n ↦
      let there : new.pending ≡ insert id (holds p) (folder_of group store).pending =
        ground (arith, k, n) in
      elim (Bool-cases (g' == "errors")) [
        | inl y ↦
            rw (n, y) (find-insert short group id p new store e g (ground (arith, h, y)) there)
        | inr m ↦
            let pass =
              found_in-through short f.pending (find_pending_by_short_id short store)
                (find_pending_by_short_id short (insert group new store)) (ground (arith, h, m)) in
            rw (n, m) (pass.0 ∙ find-insert short group id p new store e g pass.1 there)
      ]
]

folder-insert :
    (group : String) (folder : Folder) (store : Store)
    → folder_of group (insert group folder store) ≡ folder
folder-insert group folder store =
    ap (λ o. or_else o empty_folder)
      (lookup-insert group group folder store
        ∙ ap (λ b. if b then some folder else lookup group store) (equal_refl group))

lookup-insert_self :
    {A : Type 0} (k : String) (a : A) (d : Dict String A) → lookup k (insert k a d) ≡ some a
lookup-insert_self k a d =
    lookup-insert k k a d ∙ ap (λ b. if b then some a else lookup k d) (equal_refl k)

-- A request is created for a group, and then a person decides on it by its short id.
module _ (request_id tool_name source_group chat_jid : String) (request_data : RequestData)
    (handler_type : String) (now : ℕ) (draws : List String) (fallback : String) (store : Store)
    (action sender : String) (decided_at : ℕ) where
  abbrev short : String
  short = generate_short_id draws fallback (folder_of source_group store)

  abbrev request : Pending
  request = record {
    request_id = request_id;
    short_id = short;
    tool_name = tool_name;
    source_group = source_group;
    chat_jid = chat_jid;
    request_data = request_data;
    handler_type = handler_type;
    timestamp = now;
  }

  abbrev decision : Decision
  decision = record {
    request_id = some request_id;
    approved = action == "approve";
    decided_by = sender;
    decided_at = decided_at;
  }

  abbrev given : Ruling
  given = record { id = request_id; approved = action == "approve"; request = request }

  abbrev pub created : Store × String
  created =
      create_pending_approval request_id tool_name source_group chat_jid request_data handler_type
        now draws fallback store

  abbrev pub decided : Store × String
  decided = handle_approval_command action created.1 sender decided_at created.0

  module _ (unknown : find_pending_by_short_id short store ≡ none)
      (group : (source_group == "errors") ≡ false) where
    found-created : find_pending_by_short_id created.1 created.0 ≡ some request
    unfolding create_pending_approval
    found-created =
        find-insert short source_group request_id request _ store (equal_refl short) group unknown
          refl

    decision_written : decided.0 ≡ write_decision source_group decision request_id created.0
    unfolding handle_approval_command
    decision_written =
        ap (λ o. (decide_found action created.1 sender decided_at created.0 o).0) found-created

    request_kept :
        lookup request_id (folder_of source_group decided.0).pending ≡ some (holds request)
    unfolding create_pending_approval
    request_kept =
        ap (λ s. lookup request_id (folder_of source_group s).pending) decision_written
        ∙ ap (λ f. lookup request_id f.pending) (folder-insert source_group _ created.0)
        ∙ ap (λ f. lookup request_id f.pending) (folder-insert source_group _ store)
        ∙ lookup-insert_self request_id (holds request) (folder_of source_group store).pending

    decision_kept :
        lookup request_id (folder_of source_group decided.0).decisions ≡ some (holds decision)
    decision_kept =
        ap (λ s. lookup request_id (folder_of source_group s).decisions) decision_written
        ∙ ap (λ f. lookup request_id f.decisions) (folder-insert source_group _ created.0)
        ∙ lookup-insert_self request_id (holds decision)
            (folder_of source_group created.0).decisions

    ruling-given :
        (request_id == "") ≡ false
        → ruling request_id (folder_of source_group decided.0) ≡ some given
    ruling-given ne =
        ap (ruling_of (folder_of source_group decided.0)) decision_kept
        ∙ rw ne (ap (ruling_on request_id (action == "approve")) request_kept)

    -- A request whose short id no readable request of any group has is found by that id in the
    -- end, and the decision on it ends as follows. A handler is run if the decision approves and the
    -- request is served; one response is written for the request, unless the MCP proxy or a handler
    -- that ended well sees to it; and neither of the two files is left.
    pub approval_flow :
        (env : Env) (futures : Futures)
        → (request_id == "") ≡ false
        → let r =
            process_approval_decision env request_id source_group
              (folder_of source_group decided.0)
              futures in
          (find_pending_by_short_id created.1 created.0 ≡ some request)
          × (executions r.2 ≡ one_if (is_due env (some given)))
          × (answered r.2 ≡ answers_due env source_group (some given))
          × (lookup request_id r.0.pending ≡ none)
          × (lookup request_id r.0.decisions ≡ none)
    approval_flow env futures ne =
        let folder = folder_of source_group decided.0 in
        let answers =
          process_approval_decision_answers env request_id source_group folder futures in
        let drops =
          process_approval_decision_drops env request_id source_group folder futures request_id in
        (
          found-created,
          answers.0 ∙ ap (λ r. one_if (is_due env r)) (ruling-given ne),
          answers.1 ∙ ap (answers_due env source_group) (ruling-given ne),
          drops.1
              ∙ ap (λ o. if named_by o request_id then none else lookup request_id folder.pending)
                  decision_kept
              ∙ rw (ne, equal_refl request_id) refl,
          drops.0
              ∙ ap (λ b. if b then none else lookup request_id folder.decisions)
                  (equal_refl request_id),
        )
