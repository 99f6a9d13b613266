-- ===== src/KvServer/Account.antt =====
-- Each operation of a server keeps its queues and its table of requests to what Raft has handed
-- over.
use kvstorage_base_raft_cpp.Base.{
  ℕ, ◌≡◌, ◌⊎◌, refl, sym, ap, ◌∙◌, inl, inr, ◌&&◌, true, some, List, [], ◌∷◌, ◌++◌, arith, bytes_eq,
  bytes_eq_iff, bytes_eq_instance, nat_eq, find, set, All, All-append, Bool-cases, Option-cases,
}
use mathlib.Core.Path.{subst}
use kvstorage_base_raft_cpp.Message.{Op, ApplyMsg}
use kvstorage_base_raft_cpp.Archive.{Archive}
use kvstorage_base_raft_cpp.Raft.Node.{start}
use kvstorage_base_raft_cpp.KvServer.{
  SkipList, KvServer, queue_at, carry_out, at_most, execute_once, send_message_to_wait_chan,
  snapshot_if_needed, get_command_from_raft, get_snap_shot_from_raft,
}
use kvstorage_base_raft_cpp.KvServer.Apply.{
  takes_effect, execute_once-last, snapshot_if_needed-same,
}
use kvstorage_base_raft_cpp.KvServer.Command.{execute_once-same, send-same, send-channels}
use kvstorage_base_raft_cpp.KvServer.Install.{get_snap_shot_from_raft-same}
use kvstorage_base_raft_cpp.KvServer.Client.{start_request, register_wait, try_pop}
use kvstorage_base_raft_cpp.KvServer.Handed.{
  Among, IsHanded-more, Queued, Recorded, Queued-set, Queued-added, Queued-more, Recorded-more,
}

module _ {S : Type 0} ⦃l : SkipList S⦄ ⦃a : Archive⦄ where
  abbrev pub Accounted : List Op → KvServer S → Type 0
  Accounted handed s = Queued handed s.channels × Recorded handed s.last_request_client_and_id

  pub Accounted-same :
      (handed : List Op) (s q : KvServer S)
      → q.channels ≡ s.channels
      → q.last_request_client_and_id ≡ s.last_request_client_and_id
      → Accounted handed s
      → Accounted handed q
  Accounted-same handed s q channels table h =
      (subst (Queued handed) (sym channels) h.0, subst (Recorded handed) (sym table) h.1)

  start_request-parts :
      (op : Op) (s : KvServer S)
      → let q = (start_request op s).1 in
        (q.channels ≡ s.channels) × (q.last_request_client_and_id ≡ s.last_request_client_and_id)
  unfolding start_request
  start_request-parts op s = elim (Option-cases (start op s.raft_node).0) [
    | inl follows ↦ (ground (arith, follows), ground (arith, follows))
    | inr (started, leads) ↦ (ground (arith, leads), ground (arith, leads))
  ]

  pub start_request-Accounted :
      (handed : List Op) (op : Op) (s : KvServer S)
      → Accounted handed s
      → Accounted handed (start_request op s).1
  start_request-Accounted handed op s h =
      let (channels, table) = start_request-parts op s in
      Accounted-same handed s (start_request op s).1 channels table h

  pub register_wait-Accounted :
      (handed : List Op) (index : ℕ) (s : KvServer S)
      → Accounted handed s
      → Accounted handed (register_wait index s).1
  unfolding register_wait
  register_wait-Accounted handed index s h = elim (Option-cases (find index s.wait_apply_ch)) [
    | inr (c, waits) ↦
        Accounted-same handed s (register_wait index s).1 (ground (arith, waits))
          (ground (arith, waits)) h
    | inl new ↦
        let q = (register_wait index s).1 in
        let added : q.channels ≡ s.channels ++ [] ∷ [] = ground (arith, new) in
        let table : q.last_request_client_and_id ≡ s.last_request_client_and_id =
          ground (arith, new) in
        (
          subst (Queued handed) (sym added) (Queued-added handed s.channels h.0),
          subst (Recorded handed) (sym table) h.1,
        )
  ]

  -- What `try_pop` takes and leaves.
  try_pop-parts :
      (c : ℕ) (ops : List Op) (s : KvServer S)
      → queue_at s.channels c ≡ ops
      → let q = (try_pop c s).1 in
        ((q.channels ≡ s.channels)
          ⊎ ((op : Op) × (rest : List Op) × (ops ≡ op ∷ rest)
              × (q.channels ≡ set s.channels c rest)))
        × (q.last_request_client_and_id ≡ s.last_request_client_and_id)
  unfolding try_pop
  try_pop-parts c [] s at = (inl (ground (arith, at)), ground (arith, at))
  try_pop-parts c (op ∷ ops) s at = (inr (op, ops, refl, ground (arith, at)), ground (arith, at))

  pub try_pop-Accounted :
      (handed : List Op) (c : ℕ) (s : KvServer S)
      → Accounted handed s
      → Accounted handed (try_pop c s).1
  try_pop-Accounted handed c s h =
      let (channels, table) = try_pop-parts c (queue_at s.channels c) s refl in
      elim channels [
        | inl same ↦ Accounted-same handed s (try_pop c s).1 same table h
        | inr (op, rest, at, left) ↦ (
          subst (Queued handed) (sym left) (
              Queued-set handed s.channels c rest h.0
                (subst (All (λ x. Among x handed)) at (h.0 c)).1),
          subst (Recorded handed) (sym table) h.1,
        )
      ]

  execute_once-Recorded :
      (handed : List Op) (op : Op) (s : KvServer S)
      → Recorded handed s.last_request_client_and_id
      → Recorded (op ∷ handed) (execute_once op s).last_request_client_and_id
  execute_once-Recorded handed op s h client last e =
      let found = execute_once-last op s client in
      elim (Bool-cases (takes_effect op s && bytes_eq op.client_id client)) [
        | inl this ↦
            let own : bytes_eq op.client_id client ≡ true = ground (arith, this) in
            let number : op.request_id ≡ last = ground (arith, e, found, this) in
            (op, (0, refl), (bytes_eq_iff op.client_id client).0 own, omega (arith, number))
        | inr other ↦
            IsHanded-more op handed client last (h client last (ground (arith, e, found, other)))
      ]

  -- What a command that is carried out changes of the queues and the table.
  carry_out-parts :
      (op : Op) (i : ℕ) (s q : KvServer S)
      → carry_out op i s ≡ some q
      → ((q.channels ≡ s.channels)
          ⊎ ((c : ℕ) × (q.channels ≡ set s.channels c (queue_at s.channels c ++ op ∷ []))))
        × (q.last_request_client_and_id ≡ (execute_once op s).last_request_client_and_id)
  unfolding carry_out
  carry_out-parts op i s q e =
      let before : KvServer S = execute_once op s in
      elim (Option-cases (snapshot_if_needed s.max_raft_state i before)) [
        | inl fails ↦ absurd (ground (arith, e, fails))
        | inr (t, snaps) ↦
            let (store, table, channels, waits) =
              snapshot_if_needed-same s.max_raft_state i before t snaps in
            let kept : t.channels ≡ s.channels = channels ∙ (execute_once-same op s).1 in
            let sent : send_message_to_wait_chan op i t ≡ q = ground (arith, e, snaps) in
            subst
              (λ (x : KvServer S).
                ((x.channels ≡ s.channels)
                  ⊎ ((c : ℕ) × (x.channels ≡ set s.channels c (queue_at s.channels c ++ op ∷ []))))
                × (x.last_request_client_and_id ≡ before.last_request_client_and_id))
              sent
              (
                elim (send-channels op i t) [
                  | inl same ↦ inl (same ∙ kept)
                  | inr (c, added) ↦
                      inr (c, added ∙ ap (λ cs. set cs c (queue_at cs c ++ op ∷ [])) kept)
                ],
                (send-same op i t).1 ∙ table,
              )
      ]

  carry_out-Accounted :
      (handed : List Op) (op : Op) (i : ℕ) (s q : KvServer S)
      → carry_out op i s ≡ some q
      → Accounted handed s
      → Accounted (op ∷ handed) q
  carry_out-Accounted handed op i s q e h =
      let (channels, table) = carry_out-parts op i s q e in
      let more = Queued-more op handed s.channels h.0 in
      (
        elim channels [
          | inl same ↦ subst (Queued (op ∷ handed)) (sym same) more
          | inr (c, added) ↦ subst (Queued (op ∷ handed)) (sym added) (
              Queued-set (op ∷ handed) s.channels c (queue_at s.channels c ++ op ∷ []) more
                (All-append _ (queue_at s.channels c) (op ∷ []) (more c) ((0, refl), tt)))
        ],
        subst (Recorded (op ∷ handed)) (sym table) (execute_once-Recorded handed op s h.1),
      )

  pub get_command_from_raft-Accounted :
      (handed : List Op) (message : ApplyMsg) (s q : KvServer S)
      → get_command_from_raft message s ≡ some q
      → Accounted handed s
      → Accounted (a.load_op message.command ∷ handed) q
  unfolding get_command_from_raft
  get_command_from_raft-Accounted handed message s q e h =
      let op = a.load_op message.command in
      let skipped : s ≡ q → Accounted (op ∷ handed) q = λ same.
        subst (Accounted (op ∷ handed)) same (
          Queued-more op handed s.channels h.0,
          Recorded-more op handed s.last_request_client_and_id h.1,
        ) in
      elim (Bool-cases (at_most message.command_index s.last_snap_shot_raft_log_index)) [
        | inl old ↦ skipped (ground (arith, e, old))
        | inr new ↦ elim (Option-cases message.command_index) [
          | inl nowhere ↦ skipped (ground (arith, e, new, nowhere))
          | inr (i, at) ↦ carry_out-Accounted handed op i s q (ground (arith, e, new, at)) h
        ]
      ]

  pub get_snap_shot_from_raft-Accounted :
      (handed : List Op) (message : ApplyMsg) (s q : KvServer S)
      → get_snap_shot_from_raft message s ≡ some q
      → Accounted handed s
      → Accounted handed q
  get_snap_shot_from_raft-Accounted handed message s q e h =
      let (channels, table, node) = get_snap_shot_from_raft-same message s q e in
      Accounted-same handed s q channels table h
