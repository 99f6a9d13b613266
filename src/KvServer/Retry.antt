-- ===== src/KvServer/Retry.antt =====
-- A write that the log holds once more, as when the client has sent it again.
use kvstorage_base_raft_cpp.Base.{
  ℕ, ◌≤◌, ◌≡◌, ap, ◌∙◌, inl, inr, true, false, ◌&&◌, some, List, ◌∷◌, arith, leb, Bytes, bytes_eq,
  bytes_eq_iff, bytes_eq_instance, nat_eq, find, Bool-cases, Option-cases,
}
use kvstorage_base_raft_cpp.Message.{Op, ApplyMsg}
use kvstorage_base_raft_cpp.Archive.{Archive}
use kvstorage_base_raft_cpp.Raft.Log.{Inv}
use kvstorage_base_raft_cpp.KvServer.{
  SkipList, KvServer, at_most, if_request_duplicate, execute_once, get_command_from_raft,
}
use kvstorage_base_raft_cpp.KvServer.Apply.{
  is_write, takes_effect, execute_once-last, execute_once_dup, dup_of_table, dup-after,
}
use kvstorage_base_raft_cpp.KvServer.Command.{Carried, get_command_from_raft-Carried}
use kvstorage_base_raft_cpp.KvServer.Replay.{CarriesOut, done, next}

module _ {S : Type 0} ⦃l : SkipList S⦄ where
  -- A request that counts as carried out still does after any command.
  dup_stays :
      (client : Bytes) (request : ℕ) (op : Op) (s : KvServer S)
      → if_request_duplicate client request s ≡ true
      → if_request_duplicate client request (execute_once op s) ≡ true
  unfolding if_request_duplicate
  dup_stays client request op s dup =
      elim (Option-cases (find client s.last_request_client_and_id)) [
        | inl new ↦ absurd (ground (arith, dup, new))
        | inr (last, e) ↦
            let after = execute_once-last op s client in
            elim (Bool-cases (takes_effect op s && bytes_eq op.client_id client)) [
              | inr other ↦ rw (if_request_duplicate, after, other) (ground (arith, dup, e))
              | inl this ↦
                  let own : op.client_id ≡ client =
                    (bytes_eq_iff op.client_id client).0 (ground (arith, this)) in
                  let fresh : leb op.request_id last ≡ false =
                    ground (arith, this, ap (λ c. find c s.last_request_client_and_id) own, e) in
                  rw (if_request_duplicate, after, this) (ground (arith, dup, e, fresh))
            ]
      ]

  module _ ⦃a : Archive⦄ where
    -- Over any run of commands: such a request still counts, and the Raft node stays in order.
    dup_stays_over :
        {s t : KvServer S} {ops : List Op} (client : Bytes) (request : ℕ)
        → Inv s.raft_node
        → CarriesOut s ops t
        → if_request_duplicate client request s ≡ true
        → (if_request_duplicate client request t ≡ true) × Inv t.raft_node
    dup_stays_over client request inv done dup = (dup, inv)
    dup_stays_over {s} client request inv (next message i q at new e run) dup =
        let op = a.load_op message.command in
        let (q', e', carried) = get_command_from_raft-Carried message i s inv at new in
        let same : q' ≡ q = cc in
        let carried' : Carried op i s q = rw same at carried in
        dup_stays_over client request carried'.inv_kept run (
          dup_of_table client request (execute_once op s) q carried'.requests
          ∙ dup_stays client request op s dup)

    -- Once a server has carried out a write and whatever commands after it, a command of the same
    -- client with a request that is not newer, such as the write once more at another index, leaves
    -- the store and the table of requests as they are. This is for runs of commands alone: no read
    -- is answered and no snapshot is installed meanwhile. The Raft node begins in order.
    pub retry_ignored :
        {s t : KvServer S} {ops : List Op} (put : Op) (again : ApplyMsg) (j : ℕ)
        → Inv s.raft_node
        → CarriesOut s (put ∷ ops) t
        → is_write put ≡ true
        → (a.load_op again.command).client_id ≡ put.client_id
        → (a.load_op again.command).request_id ≤ put.request_id
        → again.command_index ≡ some j
        → at_most (some j) t.last_snap_shot_raft_log_index ≡ false
        → (q : KvServer S) × (get_command_from_raft again t ≡ some q)
          × (q.skip_list ≡ t.skip_list)
          × (q.last_request_client_and_id ≡ t.last_request_client_and_id)
    retry_ignored {s} {t} put again j inv (next message i q at new e run) write same older at'
          new' =
        let retry = a.load_op again.command in
        let (q', e', carried) = get_command_from_raft-Carried message i s inv at new in
        let found : q' ≡ q = cc in
        let once : Carried put i s q = rw found at carried in
        let dup =
          dup_of_table retry.client_id retry.request_id (execute_once put s) q once.requests
          ∙ dup-after put retry s write same older in
        let (dup', inv') = dup_stays_over retry.client_id retry.request_id once.inv_kept run dup in
        let (u, e'', twice) = get_command_from_raft-Carried again j t inv' at' new' in
        let nothing = execute_once_dup retry t dup' in
        (
          u,
          e'',
          twice.store ∙ ap (λ (x : KvServer S). x.skip_list) nothing,
          twice.requests ∙ ap (λ (x : KvServer S). x.last_request_client_and_id) nothing,
        )
