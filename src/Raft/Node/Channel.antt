-- ===== src/Raft/Node/Channel.antt =====
-- What a node puts into the channel that the key-value server reads: commands of the log, and
-- snapshots.
use kvstorage_base_raft_cpp.Base.{
  ℕ, zero, suc, ◌+◌, ◌-◌, ◌≡◌, some, refl, ap, inl, inr, true, List, [], ◌∷◌, arith, All,
  All-append, All-get_elem?,
}
use kvstorage_base_raft_cpp.Message.{
  LogEntry, Op, ApplyMsg, InstallSnapshotRequest, InstallSnapshotResponse,
}
use kvstorage_base_raft_cpp.Archive.{Archive}
use kvstorage_base_raft_cpp.Raft.{Raft}
use kvstorage_base_raft_cpp.Raft.Store.{persist}
use kvstorage_base_raft_cpp.Raft.Log.{Inv}
use kvstorage_base_raft_cpp.Raft.Replication.{receive_append}
use kvstorage_base_raft_cpp.Raft.Replication.Beat.{heart_beat_time_out-Beat}
use kvstorage_base_raft_cpp.Raft.Replication.Channel.{
  SameChan, append_entries-chan, receive_append-chan,
}
use kvstorage_base_raft_cpp.Raft.Snapshot.Channel.{take_snapshot-chan, install_snapshot-chan}
use kvstorage_base_raft_cpp.Raft.Election.Frame.{
  request_vote-Aside, receive_vote-Aside, election_time_out-Aside,
}
use kvstorage_base_raft_cpp.Raft.Snapshot.{snapshot_msg, install_snapshot}
use kvstorage_base_raft_cpp.Raft.Snapshot.Send.{snapshot_request-Aside, receive_snapshot-Aside}
use kvstorage_base_raft_cpp.Raft.Apply.Order.{Commands, applier_tick_lem, push_message-cases}
use kvstorage_base_raft_cpp.Raft.Apply.{push_message}
use mathlib.Core.Path.{subst}
use kvstorage_base_raft_cpp.Raft.Progress.{Aside}
use kvstorage_base_raft_cpp.Raft.Node.{start}
use kvstorage_base_raft_cpp.Raft.Node.Steps.{
  Step, votes, vote_arrives, election_timer, appends, append_arrives, heart_beat_timer, installs,
  sends_snapshot, snapshot_arrives, compacts, applies, pushes, starts,
}

-- A message that carries a command carries that of an entry of which `P` holds.
abbrev pub IsMessageOf : (LogEntry → Type 0) → ApplyMsg → Type 0
IsMessageOf P message =
    message.command_valid ≡ true → (e : LogEntry) × P e × (message.command ≡ e.command)

Commands-All :
    (P : LogEntry → Type 0) (r : Raft) (n i : ℕ) (msgs : List ApplyMsg)
    → All P r.logs
    → Commands r n i msgs
    → All (IsMessageOf P) msgs
Commands-All P r zero i msgs h none_left = rw none_left tt
Commands-All P r (suc n) i msgs h (log, rest, at, first, more) = rw first (
  λ valid. (log, All-get_elem? P r.logs _ log h at, refl),
  Commands-All P r n (i + 1) rest h more,
)

module _ ⦃a : Archive⦄ where
  start-chan : (command : Op) (r : Raft) → SameChan r (start command r).1
  unfolding start persist
  start-chan command r = (ground arith, ground arith)

  -- The messages in the channel, and those that are taken for it, are of entries of which `P` holds.
  abbrev pub Messages : (LogEntry → Type 0) → Raft → Type 0
  Messages P r = All (IsMessageOf P) r.apply_chan × All (IsMessageOf P) r.apply_msgs

  same-Messages : (P : LogEntry → Type 0) (r q : Raft) → SameChan r q → Messages P r → Messages P q
  same-Messages P r q (chan, msgs) h = (rw chan h.0, rw msgs h.1)

  Aside-Messages : (P : LogEntry → Type 0) {r q : Raft} → Aside r q → Messages P r → Messages P q
  Aside-Messages P {r} {q} aside h = same-Messages P r q (aside.same_chan, aside.same_msgs) h

  push-Messages : (P : LogEntry → Type 0) (r : Raft) → Messages P r → Messages P (push_message r)
  push-Messages P r h = elim (push_message-cases r) [
    | inl (empty, same) ↦ rw same h
    | inr (message, messages, full, same) ↦
        let pending : IsMessageOf P message × All (IsMessageOf P) messages =
          subst (All (IsMessageOf P)) full h.1 in
        rw same
          (All-append (IsMessageOf P) r.apply_chan (message ∷ []) h.0 (pending.0, tt), pending.1)
  ]

  install-Messages :
      (P : LogEntry → Type 0) (now : ℕ) (args : InstallSnapshotRequest) (r : Raft)
      (reply : InstallSnapshotResponse) (q : Raft)
      → install_snapshot now args r ≡ some (reply, q)
      → Messages P r
      → Messages P q
  install-Messages P now args r reply q e h =
      let (chan, msgs) = install_snapshot-chan now args r reply q e in
      elim chan [
        | inl same ↦ same-Messages P r q (same, msgs) h
        | inr more ↦ (
          rw more (
              All-append (IsMessageOf P) r.apply_chan (snapshot_msg args ∷ []) h.0
                ((λ valid. absurd (cc)), tt)),
          rw msgs h.1,
        )
      ]

  -- Each step takes for the channel, and puts into it, snapshots and commands of entries of the log.
  pub Step-Messages :
      (P : LogEntry → Type 0) {r q : Raft}
      → Inv r
      → All P r.logs
      → Messages P r
      → Step r q
      → Messages P q
  Step-Messages P {r} inv logged h (votes now args e) =
      rw e (Aside-Messages P (request_vote-Aside now args r) h)
  Step-Messages P {r} inv logged h (vote_arrives now c ok reply e) =
      rw e (Aside-Messages P (receive_vote-Aside now c ok reply r) h)
  Step-Messages P {r} inv logged h (election_timer wake now e) =
      rw e (Aside-Messages P (election_time_out-Aside wake now r) h)
  Step-Messages P {r} {q} inv logged h (appends now args reply c e) =
      same-Messages P r q (append_entries-chan now args r reply q e) h
  Step-Messages P {r} inv logged h (append_arrives server args c ok reply within e) = rw e (
      same-Messages P r (receive_append server args c ok reply r)
        (receive_append-chan server args c ok reply r) h)
  Step-Messages P {r} {q} inv logged h (heart_beat_timer wake now e) =
      let beat = heart_beat_time_out-Beat wake now r q e in
      same-Messages P r q
        (ap (λ (x : Raft). x.apply_chan) beat, ap (λ (x : Raft). x.apply_msgs) beat) h
  Step-Messages P {r} {q} inv logged h (installs now args reply e) =
      install-Messages P now args r reply q e h
  Step-Messages P {r} inv logged h (sends_snapshot e) =
      rw e (Aside-Messages P (snapshot_request-Aside r) h)
  Step-Messages P {r} inv logged h (snapshot_arrives now server args ok reply e) =
      rw e (Aside-Messages P (receive_snapshot-Aside now server args ok reply r) h)
  Step-Messages P {r} {q} inv logged h (compacts i snapshot e) =
      same-Messages P r q (take_snapshot-chan i snapshot r q e) h
  Step-Messages P {r} {q} inv logged h (applies idle e) =
      let (msgs, e', commands) = applier_tick_lem r inv in
      let chan : q.apply_chan ≡ r.apply_chan = ground (arith, e, e') in
      let taken : q.apply_msgs ≡ msgs = ground (arith, e, e') in
      (
        rw chan h.0,
        rw taken (
            Commands-All P r (r.commit_index - r.last_applied) r.last_applied msgs logged commands),
      )
  Step-Messages P {r} inv logged h (pushes e) = rw e (push-Messages P r h)
  Step-Messages P {r} inv logged h (starts command e) =
      rw e (same-Messages P r (start command r).1 (start-chan command r) h)
