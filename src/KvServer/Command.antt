-- ===== src/KvServer/Command.antt =====
-- `GetCommandFromRaft`: a committed command reaches the store and whoever waits for it.
use kvstorage_base_raft_cpp.Base.{
  ℕ, ◌<◌, ◌≡◌, refl, ap, ◌∙◌, false, ◌&&◌, some, [], ◌∷◌, ◌++◌, arith, if◌then◌else◌, Bytes,
  bytes_eq, bytes_eq_instance, nat_eq, find, length, get_elem?-set_self, set, List, ◌⊎◌, inl, inr,
  Option-cases,
}
use mathlib.Core.Path.{subst}
use kvstorage_base_raft_cpp.Message.{Op, ApplyMsg}
use kvstorage_base_raft_cpp.Archive.{Archive}
use kvstorage_base_raft_cpp.Raft.Log.{Inv}
use kvstorage_base_raft_cpp.KvServer.{
  SkipList, IsSkipList, KvServer, at_most, execute_once, send_message_to_wait_chan, carry_out,
  get_command_from_raft, queue_at, execute, execute_put_op_on_kvdb, execute_append_op_on_kvdb,
}
use kvstorage_base_raft_cpp.KvServer.Apply.{
  takes_effect, execute_once-search, snapshot_if_needed-same, snapshot_if_needed-total,
}

module _ {S : Type 0} ⦃l : SkipList S⦄ ⦃a : Archive⦄ where
  pub execute_once-same :
      (op : Op) (s : KvServer S)
      → let q = execute_once op s in
        (q.raft_node ≡ s.raft_node)
        × (q.channels ≡ s.channels)
        × (q.wait_apply_ch ≡ s.wait_apply_ch)
        × (q.max_raft_state ≡ s.max_raft_state)
  unfolding execute_once execute execute_put_op_on_kvdb execute_append_op_on_kvdb
  execute_once-same op s = (ground arith, ground arith, ground arith, ground arith)

  pub send-same :
      (op : Op) (i : ℕ) (s : KvServer S)
      → let q = send_message_to_wait_chan op i s in
        (q.skip_list ≡ s.skip_list)
        × (q.last_request_client_and_id ≡ s.last_request_client_and_id)
        × (q.raft_node ≡ s.raft_node)
        × (q.wait_apply_ch ≡ s.wait_apply_ch)
  unfolding send_message_to_wait_chan
  send-same op i s = (ground arith, ground arith, ground arith, ground arith)

  send-queue :
      (op : Op) (i c : ℕ) (s : KvServer S)
      → find i s.wait_apply_ch ≡ some c
      → c < length s.channels
      → queue_at (send_message_to_wait_chan op i s).channels c ≡ queue_at s.channels c ++ op ∷ []
  unfolding send_message_to_wait_chan
  send-queue op i c s waits room =
      ground (arith, waits, get_elem?-set_self s.channels c (queue_at s.channels c ++ op ∷ []) room)

  pub send-channels :
      (op : Op) (i : ℕ) (s : KvServer S)
      → let q = send_message_to_wait_chan op i s in
        (q.channels ≡ s.channels)
        ⊎ ((c : ℕ) × (q.channels ≡ set s.channels c (queue_at s.channels c ++ op ∷ [])))
  unfolding send_message_to_wait_chan
  send-channels op i s = elim (Option-cases (find i s.wait_apply_ch)) [
    | inl no_one ↦ inl (ground (arith, no_one))
    | inr (c, waits) ↦ inr (c, ground (arith, waits))
  ]

  -- What the command `op` at index `i` does to a server.
  pub record Carried (op : Op) (i : ℕ) (s q : KvServer S) : Type 0 where
    pub inv_kept : Inv q.raft_node
    pub store : q.skip_list ≡ (execute_once op s).skip_list
    pub requests : q.last_request_client_and_id ≡ (execute_once op s).last_request_client_and_id
    pub waiters : q.wait_apply_ch ≡ s.wait_apply_ch
    pub queues :
        (q.channels ≡ s.channels)
        ⊎ ((c : ℕ) × (q.channels ≡ set s.channels c (queue_at s.channels c ++ op ∷ [])))
    pub told :
        (c : ℕ)
        → find i s.wait_apply_ch ≡ some c
        → c < length s.channels
        → queue_at q.channels c ≡ queue_at s.channels c ++ op ∷ []

  carry_out-Carried :
      (op : Op) (i : ℕ) (s : KvServer S)
      → Inv s.raft_node
      → (q : KvServer S) × (carry_out op i s ≡ some q) × Carried op i s q
  unfolding carry_out
  carry_out-Carried op i s inv =
      let done : KvServer S = execute_once op s in
      let (raft, chans, waits, limit) = execute_once-same op s in
      let (t, e, kept) = snapshot_if_needed-total s.max_raft_state i done (rw raft inv) in
      let (store, requests, chans', waits') = snapshot_if_needed-same s.max_raft_state i done t e in
      let (store', requests', raft', waits'') = send-same op i t in
      (
        send_message_to_wait_chan op i t,
        rw e refl,
        record {
          inv_kept = rw raft' kept;
          store = store' ∙ store;
          requests = requests' ∙ requests;
          waiters = waits'' ∙ waits' ∙ waits;
          queues =
              subst
                (λ (cs : List (List Op)).
                  ((send_message_to_wait_chan op i t).channels ≡ cs)
                  ⊎ ((c : ℕ) × ((send_message_to_wait_chan op i t).channels
                        ≡ set cs c (queue_at cs c ++ op ∷ []))))
                (chans' ∙ chans) (send-channels op i t);
          told = λ c at room.
              send-queue op i c t (rw (waits', waits) at) (rw (chans', chans) room)
              ∙ ap (λ cs. queue_at cs c ++ op ∷ []) (chans' ∙ chans);
        },
      )

  -- A command of an index behind the server's snapshot is dealt with: nothing goes wrong, and the Raft
  -- node stays in order. It is carried out on the store and on the table of requests unless the
  -- client's last request there is as new, and whoever waits at its index finds it at the end of his
  -- queue; no one stops waiting.
  pub get_command_from_raft-Carried :
      (message : ApplyMsg) (i : ℕ) (s : KvServer S)
      → Inv s.raft_node
      → message.command_index ≡ some i
      → at_most (some i) s.last_snap_shot_raft_log_index ≡ false
      → (q : KvServer S) × (get_command_from_raft message s ≡ some q)
        × Carried (a.load_op message.command) i s q
  unfolding get_command_from_raft
  get_command_from_raft-Carried message i s inv at new =
      let (q, e, carried) = carry_out-Carried (a.load_op message.command) i s inv in
      (q, ground (arith, at, new, e), carried)

  -- After such a command a search finds the command's value under its key if the command writes and is
  -- newer than the client's last request, and otherwise finds under every key what it found before.
  pub get_command_from_raft-search :
      (message : ApplyMsg) (i : ℕ) (s q : KvServer S) (j : Bytes)
      → IsSkipList l
      → Inv s.raft_node
      → message.command_index ≡ some i
      → at_most (some i) s.last_snap_shot_raft_log_index ≡ false
      → get_command_from_raft message s ≡ some q
      → let op = a.load_op message.command in
        l.search_element j q.skip_list ≡ (
          if takes_effect op s && bytes_eq op.key j
          then some op.value
          else l.search_element j s.skip_list)
  get_command_from_raft-search message i s q j h inv at new e =
      let (t, e', carried) = get_command_from_raft-Carried message i s inv at new in
      let same : t ≡ q = cc in
      rw (← same, carried.store) (execute_once-search h (a.load_op message.command) s j)
