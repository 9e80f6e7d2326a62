-- ===== src/Questions/Files.antt =====
-- src/pynchy/host/orchestrator/messaging/pending_questions.py: the files of the pending questions.
use pynchy.Base.{
  Bool, Dict, List, Option, String, String-eq, Text, [], codes, if◌then◌else◌, insert, lookup, ltb,
  map, none, or_else, remove, some, take, ℕ, ◌++◌, ◌-◌, ◌==◌, ◌∷◌,
}
use pynchy.Approvals.Files.{File, unreadable, holds}

-- One question, with the labels of its options.
pub record Asked : Type 0 where
  pub question : String
  pub options : List String

-- A file under pending_questions; the time in microseconds.
pub record Question : Type 0 where
  pub request_id : String
  pub short_id : Text
  pub source_group : String
  pub chat_jid : String
  pub channel_name : String
  pub session_id : String
  pub questions : List Asked
  pub message_id : Option String
  pub timestamp : ℕ

-- A group's directory by the stems of its files, and data_dir/ipc. A directory that is not there is
-- one without files.
abbrev pub Folder : Type 0
Folder = Dict String (File Question)

abbrev pub Store : Type 0
Store = Dict String Folder

abbrev pub folder_of : String → Store → Folder
folder_of group store = or_else (lookup group store) []

abbrev pub new_question :
    (request_id source_group chat_jid channel_name session_id : String)
    → List Asked
    → (message_id : Option String) → (now : ℕ) → Question
new_question id group jid channel session questions message_id now = record {
  request_id = id;
  short_id = take 8 (codes id);
  source_group = group;
  chat_jid = jid;
  channel_name = channel;
  session_id = session;
  questions = questions;
  message_id = message_id;
  timestamp = now;
}

unfoldable pub create_pending_question :
    (request_id source_group chat_jid channel_name session_id : String)
    → List Asked
    → (message_id : Option String) → (now : ℕ) → Store
    → Store
unfolding insert lookup
create_pending_question id group jid channel session questions message_id now store =
    let asked = new_question id group jid channel session questions message_id now in
    insert group (insert id (holds asked) (folder_of group store)) store

-- A file that is not there or cannot be read is passed over.
abbrev pub readable : Option (File Question) → Option Question
readable none = none
readable (some unreadable) = none
readable (some (holds q)) = some q

abbrev pub or_rest : Option Question → Option Question → Option Question
or_rest (some q) rest = some q
or_rest none rest = rest

unfoldable pub find_pending_question : String → Store → Option Question
unfolding lookup
find_pending_question id [] = none
find_pending_question id ((group, folder) ∷ store) =
    let rest = find_pending_question id store in
    if group == "errors" then rest else or_rest (readable (lookup id folder)) rest

unfoldable pub find_in : String → Folder → Option Question
find_in jid [] = none
find_in jid ((stem, unreadable) ∷ files) = find_in jid files
find_in jid ((stem, holds q) ∷ files) = if q.chat_jid == jid then some q else find_in jid files

unfoldable pub find_pending_for_jid : String → Store → Option Question
unfolding find_in
find_pending_for_jid jid [] = none
find_pending_for_jid jid ((group, folder) ∷ store) =
    let rest = find_pending_for_jid jid store in
    if group == "errors" then rest else or_rest (find_in jid folder) rest

unfoldable pub resolve_pending_question : (request_id source_group : String) → Store → Store
unfolding insert lookup remove
resolve_pending_question id group store = insert group (remove id (folder_of group store)) store

abbrev with_message_id : String → String → Folder → Option (File Question) → Folder
with_message_id id message_id folder none = folder
with_message_id id message_id folder (some unreadable) = folder
with_message_id id message_id folder (some (holds q)) =
    insert id (holds (record q { message_id = some message_id })) folder

unfoldable pub update_message_id : (request_id source_group message_id : String) → Store → Store
unfolding insert lookup
update_message_id id group message_id store =
    let folder = folder_of group store in
    insert group (with_message_id id message_id folder (lookup id folder)) store

abbrev pub pending_question_timeout : ℕ
pending_question_timeout = 1800000000

abbrev pub is_expired : ℕ → Question → Bool
is_expired now q = ltb pending_question_timeout (now - q.timestamp)

-- The files that are left, and the expired questions, each of which is answered with an error.
unfoldable pub sweep_folder : ℕ → Folder → Folder × List Question
sweep_folder now [] = ([], [])
sweep_folder now ((stem, unreadable) ∷ files) =
    let rest = sweep_folder now files in ((stem, unreadable) ∷ rest.0, rest.1)
sweep_folder now ((stem, holds q) ∷ files) =
    let rest = sweep_folder now files in
    if is_expired now q then (rest.0, q ∷ rest.1) else ((stem, holds q) ∷ rest.0, rest.1)

abbrev pub expired_in : String → List Question → List (String × Question)
expired_in group qs = map (λ q. (group, q)) qs

-- The questions that were answered with an error, each with the group of its file.
unfoldable pub sweep_expired_questions : ℕ → Store → Store × List (String × Question)
unfolding sweep_folder
sweep_expired_questions now [] = ([], [])
sweep_expired_questions now ((group, folder) ∷ store) =
    let rest = sweep_expired_questions now store in
    let swept = sweep_folder now folder in
    if group == "errors"
    then ((group, folder) ∷ rest.0, rest.1)
    else ((group, swept.0) ∷ rest.0, expired_in group swept.1 ++ rest.1)
