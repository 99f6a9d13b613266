-- ===== src/KvServer.antt =====
-- raftCore/kvServer.h and kvServer.cc: the key-value server over its Raft node. A call that waits
-- for the log is two steps, before and after the wait. A full channel makes a sender wait in the
-- source; here a channel has room. `-1` is `none`.
-- `GetCommandFromRaft`, and `Get` and `PutAppend` after the wait, lock the mutex several times in the
-- source; here each is one step, so that nothing else runs between its locked parts.
pub mod Apply
pub mod Client
pub mod Command
pub mod Request
pub mod Replay
pub mod Retry
pub mod Reading
pub mod Handed
pub mod Install
pub mod Account
pub mod Answers
pub mod Round
pub mod Startup
pub mod Servers
use kvstorage_base_raft_cpp.Base.{
  ℕ, ◌/◌, ◌≡◌, Bool, nat_eq, bytes_eq_instance, true, false, Option, none, some, List, [], ◌∷◌,
  ◌++◌, ltb, leb, ◌==◌, ◌&&◌, if◌then◌else◌, ◌>>=◌, Bytes, bytes_eq, Map, find, assign, erase,
  get_elem?, set, length, not,
}
use kvstorage_base_raft_cpp.Message.{Op, ApplyMsg}
use kvstorage_base_raft_cpp.Archive.{Archive}
use kvstorage_base_raft_cpp.Raft.{Raft, get_state}
use kvstorage_base_raft_cpp.Raft.Snapshot.{
  take_snapshot, get_raft_state_size, cond_install_snapshot,
}
use kvstorage_base_raft_cpp.Raft.Node.{start}

-- The operations of `SkipList<std::string, std::string>` that the server calls.
pub record SkipList (S : Type 0) : Type 0 where
  pub search_element : Bytes → S → Option Bytes
  pub insert_set_element : Bytes → Bytes → S → S
  pub dump_file : S → Bytes
  pub load_file : Bytes → S → S

-- What the skip list documents of a search after an insertion.
pub record IsSkipList {S : Type 0} (l : SkipList S) : Type 0 where
  pub search-insert_set :
      (k j v : Bytes) (s : S)
      → l.search_element j (l.insert_set_element k v s)
        ≡ (if bytes_eq k j then some v else l.search_element j s)

-- `OK`, `ErrNoKey` and `ErrWrongLeader` of common/util.h.
pub data Err : Type 0 where
  ok err_no_key err_wrong_leader : Err

pub record GetReply : Type 0 where
  pub err : Err
  pub value : Bytes

-- `class KvServer`. `channels` holds the queues that `wait_apply_ch` points to, oldest entry first.
pub record KvServer (S : Type 0) : Type 0 where
  pub me : ℕ
  pub max_raft_state : Option ℕ
  pub serialized_kv_data : Bytes
  pub skip_list : S
  pub wait_apply_ch : Map ℕ ℕ
  pub channels : List (List Op)
  pub last_request_client_and_id : Map Bytes ℕ
  pub last_snap_shot_raft_log_index : Option ℕ
  pub raft_node : Raft

-- `a <= b` for indices that may be -1.
abbrev pub at_most : Option ℕ → Option ℕ → Bool
at_most none b = true
at_most (some a) none = false
at_most (some a) (some b) = leb a b

abbrev pub get_op : Bytes
get_op = 71 ∷ 101 ∷ 116 ∷ []

abbrev pub put_op : Bytes
put_op = 80 ∷ 117 ∷ 116 ∷ []

abbrev pub append_op : Bytes
append_op = 65 ∷ 112 ∷ 112 ∷ 101 ∷ 110 ∷ 100 ∷ []

abbrev pub queue_at : List (List Op) → ℕ → List Op
queue_at channels c = elim (get_elem? channels c) [ none ↦ [] | some ops ↦ ops ]

abbrev pub is_same_request : Op → Op → Bool
is_same_request committed op =
    bytes_eq committed.client_id op.client_id && committed.request_id == op.request_id

abbrev pub wrong_leader : GetReply
wrong_leader = record { err = err_wrong_leader; value = [] }

abbrev pub found_reply : Option Bytes → GetReply
found_reply none = record { err = err_no_key; value = [] }
found_reply (some value) = record { err = ok; value = value }

module _ {S : Type 0} ⦃l : SkipList S⦄ where
  abbrev pub record_request : Op → KvServer S → KvServer S
  record_request op s = record s {
    last_request_client_and_id = assign op.client_id op.request_id s.last_request_client_and_id;
  }

  -- `KvServer::ExecuteGetOpOnKVDB`: the value, if the key exists.
  unfoldable pub execute_get_op_on_kvdb : Op → KvServer S → Option Bytes × KvServer S
  execute_get_op_on_kvdb op s = (l.search_element op.key s.skip_list, record_request op s)

  -- `KvServer::ExecuteAppendOpOnKVDB`.
  unfoldable pub execute_append_op_on_kvdb : Op → KvServer S → KvServer S
  execute_append_op_on_kvdb op s =
      record_request op (record s { skip_list = l.insert_set_element op.key op.value s.skip_list })

  -- `KvServer::ExecutePutOpOnKVDB`.
  unfoldable pub execute_put_op_on_kvdb : Op → KvServer S → KvServer S
  execute_put_op_on_kvdb op s =
      record_request op (record s { skip_list = l.insert_set_element op.key op.value s.skip_list })

  -- `KvServer::ifRequestDuplicate`.
  unfoldable pub if_request_duplicate : Bytes → ℕ → KvServer S → Bool
  if_request_duplicate client_id request_id s = elim (find client_id s.last_request_client_and_id) [
    | none ↦ false
    | some last ↦ leb request_id last
  ]

  -- `KvServer::SendMessageToWaitChan`; its flag is read by no caller.
  unfoldable pub send_message_to_wait_chan : Op → ℕ → KvServer S → KvServer S
  send_message_to_wait_chan op index s = elim (find index s.wait_apply_ch) [
    | none ↦ s
    | some c ↦ record s { channels = set s.channels c (queue_at s.channels c ++ op ∷ []) }
  ]

  -- The effect of a command that has not been carried out before.
  unfoldable pub execute : Op → KvServer S → KvServer S
  unfolding execute_put_op_on_kvdb execute_append_op_on_kvdb
  execute op s =
      let put = if bytes_eq op.operation put_op then execute_put_op_on_kvdb op s else s in
      if bytes_eq op.operation append_op then execute_append_op_on_kvdb op put else put

  unfoldable pub execute_once : Op → KvServer S → KvServer S
  unfolding execute
  execute_once op s = if if_request_duplicate op.client_id op.request_id s then s else execute op s

  module _ ⦃a : Archive⦄ where
    -- `KvServer::getSnapshotData`.
    abbrev pub get_snapshot_data : KvServer S → Bytes × KvServer S
    get_snapshot_data s =
        let q : KvServer S = record s { serialized_kv_data = l.dump_file s.skip_list } in
        (
          a.save_server q.serialized_kv_data q.last_snap_shot_raft_log_index,
          record q { serialized_kv_data = [] },
        )

    -- `KvServer::MakeSnapShot`.
    unfoldable pub make_snap_shot : KvServer S → Bytes × KvServer S
    make_snap_shot s = get_snapshot_data s

    -- `KvServer::parseFromString`. It throws, `none`, where the archive cannot be read.
    unfoldable pub parse_from_string : Bytes → KvServer S → Option (KvServer S)
    parse_from_string str s = a.load_server str >>= λ (text, index).
        let q : KvServer S = record s {
          serialized_kv_data = text;
          last_snap_shot_raft_log_index = index;
        } in
        some (record q {
          skip_list = l.load_file q.serialized_kv_data q.skip_list;
          serialized_kv_data = [];
        })

    -- `KvServer::ReadSnapShotToInstall`.
    unfoldable pub read_snap_shot_to_install : Bytes → KvServer S → Option (KvServer S)
    unfolding parse_from_string
    read_snap_shot_to_install [] s = some s
    read_snap_shot_to_install (b ∷ bs) s = parse_from_string (b ∷ bs) s

    -- `KvServer::GetSnapShotFromRaft`.
    unfoldable pub get_snap_shot_from_raft : ApplyMsg → KvServer S → Option (KvServer S)
    unfolding read_snap_shot_to_install
    get_snap_shot_from_raft message s =
        if cond_install_snapshot message.snapshot
        then (read_snap_shot_to_install message.snapshot s >>= λ q.
            some (record q { last_snap_shot_raft_log_index = message.snapshot_index }))
        else some s

    -- `KvServer::IfNeedToSendSnapShotCommand`.
    unfoldable pub if_need_to_send_snap_shot_command : ℕ → ℕ → KvServer S → Option (KvServer S)
    unfolding make_snap_shot
    if_need_to_send_snap_shot_command max_raft_state index s =
        if ltb (max_raft_state / 10) (get_raft_state_size s.raft_node)
        then (let (snapshot, q) = make_snap_shot s in
            take_snapshot index snapshot q.raft_node >>= λ r. some (record q { raft_node = r }))
        else some s

    abbrev pub snapshot_if_needed : Option ℕ → ℕ → KvServer S → Option (KvServer S)
    snapshot_if_needed none index s = some s
    snapshot_if_needed (some limit) index s = if_need_to_send_snap_shot_command limit index s

    -- What `GetCommandFromRaft` does with a command that is not behind the snapshot, without anything
    -- in between.
    unfoldable pub carry_out : Op → ℕ → KvServer S → Option (KvServer S)
    carry_out op index s = snapshot_if_needed s.max_raft_state index (execute_once op s) >>= λ q.
        some (send_message_to_wait_chan op index q)

    -- `KvServer::GetCommandFromRaft`. A command's index is never -1.
    unfoldable pub get_command_from_raft : ApplyMsg → KvServer S → Option (KvServer S)
    get_command_from_raft message s =
        if at_most message.command_index s.last_snap_shot_raft_log_index
        then some s
        else elim message.command_index [
          | none ↦ some s
          | some index ↦ carry_out (a.load_op message.command) index s
        ]

    -- One round of `KvServer::ReadRaftApplyCommandLoop`, on the message that it has taken.
    unfoldable pub read_raft_apply_command : ApplyMsg → KvServer S → Option (KvServer S)
    unfolding get_command_from_raft get_snap_shot_from_raft
    read_raft_apply_command message s =
        (if message.command_valid then get_command_from_raft message s else some s) >>= λ q.
        if message.snapshot_valid then get_snap_shot_from_raft message q else some q
