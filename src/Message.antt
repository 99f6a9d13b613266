-- ===== src/Message.antt =====
-- raftRpcPro/raftRPC.proto, raftCore/ApplyMsg.h and `class Op` of common/util.h: what the nodes
-- send one another and hand to the key-value server. A field that the source never sets has the
-- default value of protobuf. `-1` and `-100`, which stand for "none", are `none`.
use kvstorage_base_raft_cpp.Base.{ℕ, Bool, false, Option, none, some, List, [], Bytes}

pub record LogEntry : Type 0 where
  pub command : Bytes
  pub log_term : ℕ
  pub log_index : ℕ

-- `Disconnected` and `AppNormal` of raftCore/raft.h.
pub data AppState : Type 0 where
  disconnected app_normal : AppState

-- `Killed`, `Voted`, `Expire` and `Normal` of raftCore/raft.h.
pub data VoteState : Type 0 where
  killed voted expire normal : VoteState

pub record AppendEntriesArgs : Type 0 where
  pub term : ℕ
  pub leader_id : ℕ
  pub prev_log_index : ℕ
  pub prev_log_term : ℕ
  pub entries : List LogEntry
  pub leader_commit : ℕ

pub record AppendEntriesReply : Type 0 where
  pub term : ℕ
  pub success : Bool
  pub update_next_index : Option ℕ
  pub app_state : AppState

abbrev pub empty_append_entries_reply : AppendEntriesReply
empty_append_entries_reply = record {
  term = 0;
  success = false;
  update_next_index = some 0;
  app_state = disconnected;
}

pub record RequestVoteArgs : Type 0 where
  pub term : ℕ
  pub candidate_id : ℕ
  pub last_log_index : ℕ
  pub last_log_term : ℕ

pub record RequestVoteReply : Type 0 where
  pub term : ℕ
  pub vote_granted : Bool
  pub vote_state : VoteState

pub record InstallSnapshotRequest : Type 0 where
  pub leader_id : ℕ
  pub term : ℕ
  pub last_snapshot_include_index : ℕ
  pub last_snapshot_include_term : ℕ
  pub snapshot : Bytes

pub record InstallSnapshotResponse : Type 0 where
  pub term : ℕ

pub record ApplyMsg : Type 0 where
  pub command_valid : Bool
  pub command : Bytes
  pub command_index : Option ℕ
  pub snapshot_valid : Bool
  pub snapshot : Bytes
  pub snapshot_term : Option ℕ
  pub snapshot_index : Option ℕ

-- The constructor `ApplyMsg::ApplyMsg`.
abbrev pub empty_apply_msg : ApplyMsg
empty_apply_msg = record {
  command_valid = false;
  command = [];
  command_index = none;
  snapshot_valid = false;
  snapshot = [];
  snapshot_term = none;
  snapshot_index = none;
}

-- `Operation` is the text "Get", "Put" or "Append".
pub record Op : Type 0 where
  pub operation : Bytes
  pub key : Bytes
  pub value : Bytes
  pub client_id : Bytes
  pub request_id : ℕ

-- `Raft::BoostPersistRaftNode`, the part of a node's state that is stored.
pub record BoostPersistRaftNode : Type 0 where
  pub current_term : ℕ
  pub voted_for : Option ℕ
  pub last_snapshot_include_index : ℕ
  pub last_snapshot_include_term : ℕ
  pub logs : List Bytes
