-- ===== src/Chat/FairLaws.antt =====
-- A chat's turn of pipeline.py, branch by branch.
use pynchy.Base.{Option, String, String-eq, list-eq, none, some, ℕ-eq}
use pynchy.Security.Classify.{Unicode}
use pynchy.Config.Access.{Settings}
use pynchy.Chat.Commands.{Words}
use pynchy.Chat.Pipeline.{Group, Turn, Pipe, handle_reset_handoff}

module _ (u : Unicode) (w : Words) (s : Settings) (turn : Turn) (jid : String) where
  -- The state in which a turn reads its messages: after the handoff of a known chat.
  abbrev pub reads : Pipe → Option Group → Pipe
  reads p none = p
  reads p (some g) = (handle_reset_handoff turn jid turn.reset_file p).0
