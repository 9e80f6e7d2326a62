-- ===== src/Approvals/Pending.antt =====
-- The pending requests of src/pynchy/host/container_manager/security/approval.py: how one is
-- created, listed, found and shown.
use pynchy.Base.{
  Bool, Dict, List, Option, String, String-eq, Text, [], codes, contains, false, if◌then◌else◌,
  insert, is_prefix, keep, leb, length, list-eq, lookup, ltb, map, none, not, some, sort_by, take,
  true, ℕ, ℕ-eq, ◌++◌, ◌==◌, ◌||◌, ◌∷◌,
}
use pynchy.Approvals.Files.{
  Value, text, flag, other, RequestData, Pending, File, unreadable, holds, Folder, Store, folder_of,
}

-- The short ids of the files that can be read.
abbrev pub short_ids : Dict String (File Pending) → List String
short_ids [] = []
short_ids ((f, unreadable) ∷ fs) = short_ids fs
short_ids ((f, holds p) ∷ fs) = p.short_id ∷ short_ids fs

unfoldable pub first_fresh : List String → List String → String → String
first_fresh existing [] fallback = fallback
first_fresh existing (d ∷ ds) fallback =
    if not (contains d existing) then d else first_fresh existing ds fallback

-- `draws` are the texts that `random.choices` gives one after the other, `fallback` the one of three
-- characters.
unfoldable pub generate_short_id : List String → String → Folder → String
unfolding first_fresh
generate_short_id draws fallback folder =
    first_fresh (short_ids folder.pending) (take 100 draws) fallback

unfoldable pub create_pending_approval :
    (request_id tool_name source_group chat_jid : String)
    → RequestData
    → (handler_type : String) → (now : ℕ) → (draws : List String) → (fallback : String) → Store
    → Store × String
unfolding generate_short_id insert lookup
create_pending_approval request_id tool_name source_group chat_jid request_data handler_type now
      draws fallback store =
    let folder = folder_of source_group store in
    let short = generate_short_id draws fallback folder in
    let data_ : Pending = record {
      request_id = request_id;
      short_id = short;
      tool_name = tool_name;
      source_group = source_group;
      chat_jid = chat_jid;
      request_data = request_data;
      handler_type = handler_type;
      timestamp = now;
    } in
    (
      insert source_group
          (record folder { pending = insert request_id (holds data_) folder.pending }) store,
      short,
    )

abbrev pub readable : Dict String (File Pending) → List Pending
readable [] = []
readable ((f, unreadable) ∷ fs) = readable fs
readable ((f, holds p) ∷ fs) = p ∷ readable fs

abbrev pub all_pending : Store → List Pending
all_pending [] = []
all_pending ((group, folder) ∷ rest) =
    if group == "errors" then all_pending rest else readable folder.pending ++ all_pending rest

-- `results.sort(key=…)`
abbrev pub by_time : Pending → Pending → Bool
by_time p q = leb p.timestamp q.timestamp

unfoldable pub list_pending_approvals : Option String → Store → List Pending
unfolding lookup
list_pending_approvals none store = sort_by by_time (all_pending store)
list_pending_approvals (some group) store =
    sort_by by_time
      (if group == "" then all_pending store else readable (folder_of group store).pending)

abbrev pub found_in : String → Dict String (File Pending) → Option Pending → Option Pending
found_in short [] rest = rest
found_in short ((f, unreadable) ∷ fs) rest = found_in short fs rest
found_in short ((f, holds p) ∷ fs) rest =
    if p.short_id == short then some p else found_in short fs rest

unfoldable pub find_pending_by_short_id : String → Store → Option Pending
find_pending_by_short_id short [] = none
find_pending_by_short_id short ((group, folder) ∷ rest) =
    if group == "errors"
    then find_pending_by_short_id short rest
    else found_in short folder.pending (find_pending_by_short_id short rest)

abbrev str : Value → Text
str (text t) = t
str (flag true) = codes "True"
str (flag false) = codes "False"
str (other t) = t

abbrev max_detail_len : ℕ
max_detail_len = 100

abbrev pub shown_value : Value → Text
shown_value v =
    if ltb max_detail_len (length (str v))
    then take max_detail_len (str v) ++ codes "..."
    else str v

abbrev pub is_internal : String → Bool
is_internal k =
    contains k ("type" ∷ "request_id" ∷ "source_group" ∷ []) || is_prefix (codes "_") (codes k)

abbrev pub detail_parts : RequestData → List Text
detail_parts d =
    map (λ p. codes "  " ++ codes p.0 ++ codes ": " ++ shown_value p.1)
      (keep (λ p. not (is_internal p.0)) d)

-- `"\n".join(parts)`
abbrev pub join_lines : List Text → Text
join_lines [] = []
join_lines (t ∷ []) = t
join_lines (t ∷ u ∷ ts) = t ++ 10 ∷ join_lines (u ∷ ts)

abbrev details_text : List Text → Text
details_text [] = codes "  (no details)"
details_text (t ∷ ts) = join_lines (t ∷ ts)

-- 128272 is the lock of the first line, 8594 the arrow of the last.
unfoldable pub format_approval_notification : String → RequestData → String → Text
unfolding is_prefix
format_approval_notification tool_name request_data short = join_lines (
    (128272 ∷ codes " Approval required")
    ∷ []
    ∷ (codes "Action: " ++ codes tool_name)
    ∷ codes "Details:"
    ∷ details_text (detail_parts request_data)
    ∷ []
    ∷ (8594 ∷ codes " approve " ++ codes short ++ codes "  /  deny " ++ codes short)
    ∷ [])
