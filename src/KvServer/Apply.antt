-- ===== src/KvServer/Apply.antt =====
-- What a committed command does to the store, and that a retry does nothing.
use native.Mathlib.Decide.{dec_lt}
use kvstorage_base_raft_cpp.Base.{
  ℕ, ◌/◌, ◌≤◌, ◌≡◌, refl, Bool, true, false, not, ◌&&◌, ◌||◌, inl, inr, Option, none, some, arith,
  ltb, leb, if◌then◌else◌, Bytes, bytes_eq, bytes_eq_refl, bytes_eq_instance, nat_eq, find, assign,
  find-assign, Bool-cases, Option-cases,
}
use kvstorage_base_raft_cpp.Message.{Op}
use kvstorage_base_raft_cpp.Archive.{Archive}
use kvstorage_base_raft_cpp.Raft.Log.{Inv}
use kvstorage_base_raft_cpp.Raft.Snapshot.{get_raft_state_size}
use kvstorage_base_raft_cpp.Raft.Snapshot.Compact.{take_snapshot-total, take_snapshot-Onward}
use kvstorage_base_raft_cpp.KvServer.{
  SkipList, IsSkipList, KvServer, put_op, append_op, execute, execute_once, execute_put_op_on_kvdb,
  execute_append_op_on_kvdb, if_request_duplicate, make_snap_shot,
  if_need_to_send_snap_shot_command, snapshot_if_needed,
}

abbrev pub is_write : Op → Bool
is_write op = bytes_eq op.operation put_op || bytes_eq op.operation append_op

module _ {S : Type 0} ⦃l : SkipList S⦄ where
  -- Whether the command is carried out: it writes, and the client's last request was older.
  abbrev pub takes_effect : Op → KvServer S → Bool
  takes_effect op s = not (if_request_duplicate op.client_id op.request_id s) && is_write op

  pub execute_once-search :
      IsSkipList l
      → (op : Op) (s : KvServer S) (j : Bytes)
      → l.search_element j (execute_once op s).skip_list ≡ (
          if takes_effect op s && bytes_eq op.key j
          then some op.value
          else l.search_element j s.skip_list)
  unfolding execute_once execute execute_put_op_on_kvdb execute_append_op_on_kvdb
  execute_once-search h op s j = ground (
    arith,
    h.search-insert_set op.key j op.value s.skip_list,
    h.search-insert_set op.key j op.value (l.insert_set_element op.key op.value s.skip_list),
  )

  pub execute_once-last :
      (op : Op) (s : KvServer S) (client : Bytes)
      → find client (execute_once op s).last_request_client_and_id ≡ (
          if takes_effect op s && bytes_eq op.client_id client
          then some op.request_id
          else find client s.last_request_client_and_id)
  unfolding execute_once execute execute_put_op_on_kvdb execute_append_op_on_kvdb
  execute_once-last op s client = ground (
    arith,
    find-assign op.client_id client op.request_id s.last_request_client_and_id,
    find-assign op.client_id client op.request_id
        (assign op.client_id op.request_id s.last_request_client_and_id),
  )

  dup_of_find :
      (client : Bytes) (request last : ℕ) (s : KvServer S)
      → find client s.last_request_client_and_id ≡ some last
      → if_request_duplicate client request s ≡ leb request last
  unfolding if_request_duplicate
  dup_of_find client request last s e = rw (e, if_request_duplicate)

  dup_of_none :
      (client : Bytes) (request : ℕ) (s : KvServer S)
      → find client s.last_request_client_and_id ≡ none
      → if_request_duplicate client request s ≡ false
  unfolding if_request_duplicate
  dup_of_none client request s e = rw (e, if_request_duplicate)

  -- After a write, the client's last request is at least the write's.
  last-after :
      (op : Op) (s : KvServer S)
      → is_write op ≡ true
      → (last : ℕ) × (find op.client_id (execute_once op s).last_request_client_and_id ≡ some last)
        × (op.request_id ≤ last)
  last-after op s write =
      let after = execute_once-last op s op.client_id in
      let own = bytes_eq_refl op.client_id in
      elim (Option-cases (find op.client_id s.last_request_client_and_id)) [
        | inl new ↦
            let first = dup_of_none op.client_id op.request_id s new in
            (op.request_id, ground (arith, after, own, first, write), omega arith)
        | inr (last, e) ↦
            let dup = dup_of_find op.client_id op.request_id last s e in
            elim (dec_lt last op.request_id) [
              | yes newer ↦
                  (op.request_id, ground (arith, after, own, dup, write, newer), omega arith)
              | no old ↦ (last, ground (arith, after, own, dup, e, write), omega arith)
            ]
      ]

  pub dup-after :
      (op retry : Op) (s : KvServer S)
      → is_write op ≡ true
      → retry.client_id ≡ op.client_id
      → retry.request_id ≤ op.request_id
      → if_request_duplicate retry.client_id retry.request_id (execute_once op s) ≡ true
  dup-after op retry s write same older =
      let (last, e, le) = last-after op s write in
      rw (same, dup_of_find op.client_id retry.request_id last (execute_once op s) e) (ground arith)

  pub execute_once_dup :
      (op : Op) (s : KvServer S)
      → if_request_duplicate op.client_id op.request_id s ≡ true
      → execute_once op s ≡ s
  unfolding execute_once
  execute_once_dup op s e = rw e

  -- The table of requests decides.
  pub dup_of_table :
      (client : Bytes) (request : ℕ) (s q : KvServer S)
      → q.last_request_client_and_id ≡ s.last_request_client_and_id
      → if_request_duplicate client request q ≡ if_request_duplicate client request s
  unfolding if_request_duplicate
  dup_of_table client request s q e = rw e

  -- Once a write is carried out, a command of the same client with a request that is not newer, such
  -- as the write once more, changes nothing: the client's retries take effect once.
  pub execute_once-retry :
      (op retry : Op) (s : KvServer S)
      → is_write op ≡ true
      → retry.client_id ≡ op.client_id
      → retry.request_id ≤ op.request_id
      → execute_once retry (execute_once op s) ≡ execute_once op s
  execute_once-retry op retry s write same older =
      execute_once_dup retry (execute_once op s) (dup-after op retry s write same older)

  -- The parts of the server that `carry_out` touches besides.
  module _ ⦃a : Archive⦄ where
    pub snapshot_if_needed-same :
        (limit : Option ℕ) (i : ℕ) (s q : KvServer S)
        → snapshot_if_needed limit i s ≡ some q
        → (q.skip_list ≡ s.skip_list)
          × (q.last_request_client_and_id ≡ s.last_request_client_and_id)
          × (q.channels ≡ s.channels)
          × (q.wait_apply_ch ≡ s.wait_apply_ch)
    unfolding if_need_to_send_snap_shot_command
    snapshot_if_needed-same none i s q e = (ground arith, ground arith, ground arith, ground arith)
    snapshot_if_needed-same (some limit) i s q e =
        (ground arith, ground arith, ground arith, ground arith)

    pub snapshot_if_needed-total :
        (limit : Option ℕ) (i : ℕ) (s : KvServer S)
        → Inv s.raft_node
        → (q : KvServer S) × (snapshot_if_needed limit i s ≡ some q) × Inv q.raft_node
    unfolding if_need_to_send_snap_shot_command make_snap_shot
    snapshot_if_needed-total none i s inv = (s, refl, inv)
    snapshot_if_needed-total (some limit) i s inv =
        let small : Bool = ltb (limit / 10) (get_raft_state_size s.raft_node) in
        elim (Bool-cases small) [
          | inr e ↦ (s, ground (arith, e), inv)
          | inl e ↦
              let snapshot = (make_snap_shot s).0 in
              let (r, taken) = take_snapshot-total i snapshot s.raft_node inv in
              let onward = take_snapshot-Onward i snapshot s.raft_node inv r taken in
              (
                record (make_snap_shot s).1 { raft_node = r },
                ground (arith, e, taken),
                onward.inv_kept,
              )
        ]
