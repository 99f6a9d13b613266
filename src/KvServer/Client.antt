-- ===== src/KvServer/Client.antt =====
-- raftCore/kvServer.cc: what a client calls, `Get` and `PutAppend`, before and after the wait.
use kvstorage_base_raft_cpp.Base.{
  ℕ, nat_eq, bytes_eq_instance, Option, none, some, [], ◌∷◌, ◌++◌, ◌&&◌, if◌then◌else◌, find,
  assign, erase, set, length,
}
use kvstorage_base_raft_cpp.Message.{Op}
use kvstorage_base_raft_cpp.Archive.{Archive}
use kvstorage_base_raft_cpp.Raft.{get_state}
use kvstorage_base_raft_cpp.Raft.Node.{start}
use kvstorage_base_raft_cpp.KvServer.{
  SkipList, KvServer, Err, ok, err_wrong_leader, GetReply, queue_at, is_same_request, wrong_leader,
  found_reply, execute_get_op_on_kvdb, if_request_duplicate,
}

module _ {S : Type 0} ⦃l : SkipList S⦄ ⦃a : Archive⦄ where
  -- Both requests start alike: the command goes to the log. The result is its index, or `none` if
  -- the node does not lead.
  unfoldable pub start_request : Op → KvServer S → Option ℕ × KvServer S
  start_request op s =
      let (started, r) = start op s.raft_node in
      let q : KvServer S = record s { raft_node = r } in
      elim started [ none ↦ (none, q) | some (index, term) ↦ (some index, q) ]

  -- Under the server's mutex: the queue that waits at the index, a new one if there is none.
  unfoldable pub register_wait : ℕ → KvServer S → ℕ × KvServer S
  register_wait index s = elim (find index s.wait_apply_ch) [
    | some c ↦ (c, s)
    | none ↦
        let c = length s.channels in
        (
          c,
          record s {
            channels = s.channels ++ [] ∷ [];
            wait_apply_ch = assign index c s.wait_apply_ch;
          },
        )
  ]

  -- `try_pop_with_timeout` when it returns: the first entry, or `none` after the time out.
  unfoldable pub try_pop : ℕ → KvServer S → Option Op × KvServer S
  try_pop c s = elim (queue_at s.channels c) [
    | [] ↦ (none, s)
    | op ∷ ops ↦ (some op, record s { channels = set s.channels c ops })
  ]

  abbrev pub erase_wait : ℕ → KvServer S → KvServer S
  erase_wait index s = record s { wait_apply_ch = erase index s.wait_apply_ch }

  -- The answer to `Get`, by what was taken from the queue.
  unfoldable pub answer_get : Op → Option Op → KvServer S → GetReply × KvServer S
  unfolding execute_get_op_on_kvdb
  answer_get op none s =
      if if_request_duplicate op.client_id op.request_id s && (get_state s.raft_node).1
      then (let (value, q) = execute_get_op_on_kvdb op s in (found_reply value, q))
      else (wrong_leader, s)
  answer_get op (some committed) s =
      if is_same_request committed op
      then (let (value, q) = execute_get_op_on_kvdb op s in (found_reply value, q))
      else (wrong_leader, s)

  -- `KvServer::Get` after the wait, as one step: in the source what it takes from the queue, the tests
  -- and the read are locked one by one.
  unfoldable pub finish_get : Op → ℕ → ℕ → KvServer S → GetReply × KvServer S
  unfolding answer_get try_pop
  finish_get op index c s =
      let (committed, q) = try_pop c s in
      let (reply, t) = answer_get op committed q in (reply, erase_wait index t)

  -- The answer to `PutAppend`, by what was taken from the queue.
  unfoldable pub answer_put_append : Op → Option Op → KvServer S → Err
  answer_put_append op none s =
      if if_request_duplicate op.client_id op.request_id s then ok else err_wrong_leader
  answer_put_append op (some committed) s =
      if is_same_request committed op then ok else err_wrong_leader

  -- `KvServer::PutAppend` after the wait, as one step.
  unfoldable pub finish_put_append : Op → ℕ → ℕ → KvServer S → Err × KvServer S
  unfolding answer_put_append try_pop
  finish_put_append op index c s =
      let (committed, q) = try_pop c s in (answer_put_append op committed q, erase_wait index q)
