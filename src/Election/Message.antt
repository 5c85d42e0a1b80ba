-- ===== src/Election/Message.antt =====
-- include/discoverymgr/election_mgr.hpp: peers, messages and answers of an election.
use ability_framework.Prelude.{ℕ, String, Bool, true, false, Option, none, some, List}
use ability_framework.Prelude.Int.{ℤ, pos}

pub record PeerInfo : Type 0 where
  pub id : ℕ
  pub addresses : List String

-- The `detail` of a message as `detail.value("weight", 0)` reads it: an object with or without the
-- field, or a document on which the read throws (null among them).
pub data Detail : Type 0 where
  object : Option ℤ → Detail
  unreadable : Detail

pub record ElectionMsg : Type 0 where
  pub source_id : ℕ
  pub source_addr : String
  pub type : String
  pub detail : Detail

-- ElectionMsgRes, and the exceptions that escape a handler.
pub data Answer : Type 0 where
  empty : Answer
  message : ElectionMsg → Answer
  error_msg : String → Answer
  timeout : Answer
  throws : Answer

abbrev pub is_timeout : Answer → Bool
is_timeout timeout = true
is_timeout _ = false

abbrev pub is_ok : Answer → Bool
is_ok (message m) = true
is_ok empty = true
is_ok _ = false

abbrev pub read_weight : Detail → Option ℤ
read_weight (object none) = some (pos 0)
read_weight (object (some w)) = some w
read_weight unreadable = none
