-- ===== src/KvServer/Round.antt =====
-- What the calls of a server do to its Raft node: `Start`, `Snapshot`, or nothing. And one round of
-- `ReadRaftApplyCommandLoop` on its queues and its table of requests.
use kvstorage_base_raft_cpp.Base.{
  ℕ, nat_eq, bytes_eq_instance, ◌/◌, ◌≡◌, ◌⊎◌, sym, ap, ◌∙◌, inl, inr, Option, none, some, List,
  ◌∷◌, arith, Bytes, Bool-cases, Option-cases, >>=-eq-some, ltb, if◌then◌else◌,
}
use mathlib.Core.Path.{subst}
use kvstorage_base_raft_cpp.Message.{Op, ApplyMsg}
use kvstorage_base_raft_cpp.Archive.{Archive}
use kvstorage_base_raft_cpp.Raft.{Raft}
use kvstorage_base_raft_cpp.Raft.Node.{start}
use kvstorage_base_raft_cpp.Raft.Snapshot.{take_snapshot, get_raft_state_size}
use kvstorage_base_raft_cpp.KvServer.{
  SkipList, KvServer, at_most, carry_out, execute_once, snapshot_if_needed,
  send_message_to_wait_chan, make_snap_shot, if_need_to_send_snap_shot_command,
  get_command_from_raft, get_snap_shot_from_raft, read_raft_apply_command, execute_get_op_on_kvdb,
}
use kvstorage_base_raft_cpp.KvServer.Client.{
  start_request, register_wait, finish_get, answer_get, finish_put_append, try_pop,
}
use kvstorage_base_raft_cpp.KvServer.Command.{execute_once-same, send-same}
use kvstorage_base_raft_cpp.KvServer.Handed.{commands_of}
use kvstorage_base_raft_cpp.KvServer.Install.{get_snap_shot_from_raft-same}
use kvstorage_base_raft_cpp.KvServer.Account.{
  Accounted, get_command_from_raft-Accounted, get_snap_shot_from_raft-Accounted,
}

module _ ⦃a : Archive⦄ where
  -- The node stands, or it has taken a snapshot of the server.
  abbrev pub Snapshots : Raft → Raft → Type 0
  Snapshots r q = (q ≡ r) ⊎ ((i : ℕ) × (snapshot : Bytes) × (take_snapshot i snapshot r ≡ some q))

module _ {S : Type 0} ⦃l : SkipList S⦄ ⦃a : Archive⦄ where
  -- The round keeps the queues and the table to commands that the server has read.
  pub read_raft_apply_command-Accounted :
      (messages : List ApplyMsg) (message : ApplyMsg) (s q : KvServer S)
      → read_raft_apply_command message s ≡ some q
      → Accounted (commands_of messages) s
      → Accounted (commands_of (message ∷ messages)) q
  unfolding read_raft_apply_command
  read_raft_apply_command-Accounted messages message s q e h =
      let (t, command, rest) =
        >>=-eq-some (if message.command_valid then get_command_from_raft message s else some s)
          (λ q. if message.snapshot_valid then get_snap_shot_from_raft message q else some q) e in
      let handed : List Op = commands_of (message ∷ messages) in
      let before : List Op = commands_of messages in
      let op = a.load_op message.command in
      let kept : Accounted handed t = elim (Bool-cases message.command_valid) [
        | inl valid ↦
            let more : op ∷ before ≡ handed = ground (arith, valid) in
            subst (λ ops. Accounted ops t) more
              (get_command_from_raft-Accounted before message s t (ground (arith, command, valid))
                h)
        | inr other ↦
            let same : s ≡ t = ground (arith, command, other) in
            let none_more : before ≡ handed = ground (arith, other) in
            subst (λ ops. Accounted ops t) none_more (subst (Accounted before) same h)
      ] in
      elim (Bool-cases message.snapshot_valid) [
        | inl valid ↦
            get_snap_shot_from_raft-Accounted handed message t q (ground (arith, rest, valid)) kept
        | inr other ↦
            let same : t ≡ q = ground (arith, rest, other) in subst (Accounted handed) same kept
      ]

  snapshot_if_needed-raft :
      (limit : Option ℕ) (i : ℕ) (s q : KvServer S)
      → snapshot_if_needed limit i s ≡ some q
      → Snapshots s.raft_node q.raft_node
  unfolding if_need_to_send_snap_shot_command make_snap_shot
  snapshot_if_needed-raft none i s q e = inl (ground (arith, e))
  snapshot_if_needed-raft (some limit) i s q e =
      elim (Bool-cases (ltb (limit / 10) (get_raft_state_size s.raft_node))) [
        | inr small ↦ inl (ground (arith, e, small))
        | inl large ↦
            let (r, taken, rest) =
              >>=-eq-some (take_snapshot i (make_snap_shot s).0 s.raft_node)
                (λ r. some (record (make_snap_shot s).1 { raft_node = r })) {b = q}
                (ground (arith, e, large)) in
            let same : q.raft_node ≡ r = ground (arith, rest) in
            inr (i, (make_snap_shot s).0, taken ∙ ap some (sym same))
      ]

  carry_out-raft :
      (op : Op) (i : ℕ) (s q : KvServer S)
      → carry_out op i s ≡ some q
      → Snapshots s.raft_node q.raft_node
  unfolding carry_out
  carry_out-raft op i s q e =
      let (t, snaps, rest) =
        >>=-eq-some (snapshot_if_needed s.max_raft_state i (execute_once op s))
          (λ q. some (send_message_to_wait_chan op i q)) e in
      let sent : send_message_to_wait_chan op i t ≡ q = cc in
      let last : q.raft_node ≡ t.raft_node =
        ap (λ (x : KvServer S). x.raft_node) (sym sent) ∙ (send-same op i t).2 in
      subst (λ r. Snapshots r q.raft_node) (execute_once-same op s).0
        (subst (Snapshots (execute_once op s).raft_node) (sym last)
          (snapshot_if_needed-raft s.max_raft_state i (execute_once op s) t snaps))

  get_command_from_raft-raft :
      (message : ApplyMsg) (s q : KvServer S)
      → get_command_from_raft message s ≡ some q
      → Snapshots s.raft_node q.raft_node
  unfolding get_command_from_raft
  get_command_from_raft-raft message s q e =
      elim (Bool-cases (at_most message.command_index s.last_snap_shot_raft_log_index)) [
        | inl old ↦ inl (ground (arith, e, old))
        | inr new ↦ elim (Option-cases message.command_index) [
          | inl nowhere ↦ inl (ground (arith, e, new, nowhere))
          | inr (i, at) ↦
              carry_out-raft (a.load_op message.command) i s q (ground (arith, e, new, at))
        ]
      ]

  pub read_raft_apply_command-raft :
      (message : ApplyMsg) (s q : KvServer S)
      → read_raft_apply_command message s ≡ some q
      → Snapshots s.raft_node q.raft_node
  unfolding read_raft_apply_command
  read_raft_apply_command-raft message s q e =
      let (t, command, rest) =
        >>=-eq-some (if message.command_valid then get_command_from_raft message s else some s)
          (λ q. if message.snapshot_valid then get_snap_shot_from_raft message q else some q) e in
      let last : q.raft_node ≡ t.raft_node = elim (Bool-cases message.snapshot_valid) [
        | inl valid ↦ (get_snap_shot_from_raft-same message t q (ground (arith, rest, valid))).2
        | inr other ↦ ground (arith, rest, other)
      ] in
      subst (Snapshots s.raft_node) (sym last) (elim (Bool-cases message.command_valid) [
        | inl valid ↦ get_command_from_raft-raft message s t (ground (arith, command, valid))
        | inr other ↦ inl (ground (arith, command, other))
      ])

  pub start_request-raft :
      (op : Op) (s : KvServer S) → (start_request op s).1.raft_node ≡ (start op s.raft_node).1
  unfolding start_request
  start_request-raft op s = elim (Option-cases (start op s.raft_node).0) [
    | inl follows ↦ ground (arith, follows)
    | inr (started, leads) ↦ ground (arith, leads)
  ]

  pub register_wait-raft :
      (index : ℕ) (s : KvServer S) → (register_wait index s).1.raft_node ≡ s.raft_node
  unfolding register_wait
  register_wait-raft index s = ground arith

  try_pop-raft : (c : ℕ) (s : KvServer S) → (try_pop c s).1.raft_node ≡ s.raft_node
  unfolding try_pop
  try_pop-raft c s = ground arith

  answer_get-raft :
      (op : Op) (o : Option Op) (s : KvServer S) → (answer_get op o s).1.raft_node ≡ s.raft_node
  unfolding answer_get execute_get_op_on_kvdb
  answer_get-raft op none s = ground arith
  answer_get-raft op (some committed) s = ground arith

  pub finish_get-raft :
      (op : Op) (index c : ℕ) (s : KvServer S) → (finish_get op index c s).1.raft_node ≡ s.raft_node
  unfolding finish_get
  finish_get-raft op index c s =
      answer_get-raft op (try_pop c s).0 (try_pop c s).1 ∙ try_pop-raft c s

  pub finish_put_append-raft :
      (op : Op) (index c : ℕ) (s : KvServer S)
      → (finish_put_append op index c s).1.raft_node ≡ s.raft_node
  unfolding finish_put_append
  finish_put_append-raft op index c s = try_pop-raft c s
