-- ===== src/Raft/Node/Frame.antt =====
-- `Start` and `init`: the entry that a leader appends, and the state that a node begins with.
use kvstorage_base_raft_cpp.Base.{
  ℕ, ◌+◌, ◌≡◌, refl, inl, inr, true, false, none, some, List, [], ◌∷◌, ◌++◌, arith, length,
  length-append, Bool-cases, Bytes,
}
use kvstorage_base_raft_cpp.Message.{LogEntry, Op, ApplyMsg}
use kvstorage_base_raft_cpp.Archive.{Archive}
use kvstorage_base_raft_cpp.Persister.{create, read_raft_state}
use kvstorage_base_raft_cpp.Raft.{Raft, is_leader, get_new_command_index}
use kvstorage_base_raft_cpp.Raft.Store.{persist, read_persist}
use kvstorage_base_raft_cpp.Raft.Log.{Inv, IsConsecutive-append, get_last_log_index_lem}
use kvstorage_base_raft_cpp.Raft.Progress.{Kept, Onward, Onward-refl}
use kvstorage_base_raft_cpp.Raft.Node.{new_entry, start, fresh_node, init}

module _ ⦃a : Archive⦄ where
  pub start-Kept : (command : Op) (r : Raft) → Kept r (start command r).1
  unfolding start persist
  start-Kept command r = record { term_grows = ground arith; vote_kept = λ e v p. ground arith }

  -- The entry that a node in order gives a command: its own term, and the index behind its last one.
  abbrev pub entry_for : Op → Raft → LogEntry
  entry_for command r = record {
    command = a.save_op command;
    log_term = r.current_term;
    log_index = r.last_snapshot_include_index + length r.logs + 1;
  }

  -- A leader in order appends the command with its own term, at the index behind its last entry, and
  -- stores its state; it tells the index and the term.
  pub start_leader :
      (command : Op) (r : Raft)
      → Inv r
      → is_leader r.status ≡ true
      → start command r ≡ (
        some (r.last_snapshot_include_index + length r.logs + 1, r.current_term),
        persist (record r { logs = r.logs ++ entry_for command r ∷ [] }),
      )
  unfolding start get_new_command_index
  start_leader command r inv leads = rw (leads, get_last_log_index_lem r inv.consecutive) refl

  pub start-Onward : (command : Op) (r : Raft) → Inv r → Onward r (start command r).1
  unfolding start persist get_new_command_index
  start-Onward command r inv = elim (Bool-cases (is_leader r.status)) [
    | inr other ↦ rw other (Onward-refl r inv)
    | inl leads ↦
        let last = get_last_log_index_lem r inv.consecutive in
        let grown = length-append r.logs (new_entry command r ∷ []) in
        rw leads (record {
          inv_kept = record {
            consecutive =
                IsConsecutive-append _ r.logs (new_entry command r) inv.consecutive
                  (omega (arith, last));
            compacted = inv.compacted;
            applied = inv.applied;
            committed = omega (arith, inv.committed, grown);
          };
          snapshot_grows = omega arith;
          applied_grows = omega arith;
          commit_grows = omega arith;
          log_grows = omega (arith, grown);
        })
  ]

  -- A node that starts with a new persister begins from nothing, whatever files an earlier run left:
  -- no term, vote, log or snapshot position comes back.
  pub init-create :
      (now peers me : ℕ) (raftstate snapshot : Bytes) (chan : List ApplyMsg)
      → init now peers me (create raftstate snapshot) chan
        ≡ fresh_node now peers me (create raftstate snapshot) chan
  unfolding init fresh_node create read_raft_state read_persist
  init-create now peers me raftstate snapshot chan = refl

  pub fresh_node-Inv :
      (now peers me : ℕ) (raftstate snapshot : Bytes) (chan : List ApplyMsg)
      → Inv (init now peers me (create raftstate snapshot) chan)
  unfolding init fresh_node create read_raft_state read_persist
  fresh_node-Inv now peers me raftstate snapshot chan = record {
    consecutive = tt;
    compacted = omega arith;
    applied = omega arith;
    committed = omega arith;
  }

  -- Its term is 0, it has not voted, it is no leader, and has posted nothing.
  pub init_begun :
      (now peers me : ℕ) (raftstate snapshot : Bytes) (chan : List ApplyMsg)
      → let r = init now peers me (create raftstate snapshot) chan in
        (r.me ≡ me)
        × (r.peers ≡ peers)
        × (r.current_term ≡ 0)
        × (r.voted_for ≡ none)
        × (is_leader r.status ≡ false)
        × (r.rpc_tasks ≡ [])
  unfolding init fresh_node create read_raft_state read_persist
  init_begun now peers me raftstate snapshot chan = (refl, refl, refl, refl, refl, refl)
