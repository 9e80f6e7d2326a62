-- ===== src/Approvals/Files.antt =====
-- What the approval gate keeps under data_dir/ipc: the pending requests and the decisions of each
-- group (src/pynchy/host/container_manager/security/approval.py), and what the host does.
use pynchy.Base.{
  Bool, Dict, List, Option, String, String-eq, Text, [], false, insert, list-eq, lookup, none,
  or_else, remove, some, true, ℕ, ℕ-eq, ◌∷◌,
}

-- A JSON value of a request: a text, a truth value, or any other, as `str` prints it.
pub data Value : Type 0 where
  text : Text → Value
  flag : Bool → Value
  other : Text → Value

abbrev pub RequestData : Type 0
RequestData = Dict String Value

-- A file under pending_approvals, as `create_pending_approval` writes it. A time is a number of
-- microseconds: the order of the ISO texts, all of them in UTC.
pub record Pending : Type 0 where
  pub request_id : String
  pub short_id : String
  pub tool_name : String
  pub source_group : String
  pub chat_jid : String
  pub request_data : RequestData
  pub handler_type : String
  pub timestamp : ℕ

-- A file under approval_decisions.
pub record Decision : Type 0 where
  pub request_id : Option String
  pub approved : Bool
  pub decided_by : String
  pub decided_at : ℕ

-- A file that is read: it may be no JSON.
pub data File (A : Type 0) : Type 0 where
  unreadable : File A
  holds : A → File A

-- A group's two directories, by the stems of the files in them. A directory that is not there is one
-- without files.
pub record Folder : Type 0 where
  pub pending : Dict String (File Pending)
  pub decisions : Dict String (File Decision)

abbrev pub empty_folder : Folder
empty_folder = record { pending = []; decisions = [] }

-- data_dir/ipc, in the order in which the directories are listed.
abbrev pub Store : Type 0
Store = Dict String Folder

abbrev pub folder_of : String → Store → Folder
folder_of group store = or_else (lookup group store) empty_folder

-- The futures that the MCP proxy waits on, and whether each is still open.
abbrev pub Futures : Type 0
Futures = Dict String Bool

-- What is done about a request: a response file, an audit record, a call of the plugin's handler or
-- of the IPC handler, a future's result, or a message to a chat.
pub data Effect : Type 0 where
  respond_error : (group request_id : String) → String → Effect
  respond : (group request_id : String) → ℕ → Effect
  audit : (group tool_name decision request_id : String) → Effect
  run_handler : String → RequestData → Effect
  dispatch_ipc : RequestData → String → Effect
  set_result : String → Bool → Effect

-- `register_mcp_proxy_approval`
unfoldable pub register_mcp_proxy_approval : String → Futures → Futures
unfolding insert
register_mcp_proxy_approval request_id futures = insert request_id true futures

abbrev pub resolution : String → Bool → Option Bool → Bool × List Effect
resolution request_id approved none = (false, [])
resolution request_id approved (some false) = (false, [])
resolution request_id approved (some true) = (true, set_result request_id approved ∷ [])

unfoldable pub resolve_mcp_proxy_approval : String → Bool → Futures → Futures × Bool × List Effect
unfolding lookup remove
resolve_mcp_proxy_approval request_id approved futures =
    let r = resolution request_id approved (lookup request_id futures) in
    (remove request_id futures, r.0, r.1)
