-- ===== src/Raft/Node/Origin.antt =====
-- Where the entries of a node's log and of its requests to append come from, over a step: what it had,
-- the request that arrives, and the entry that `Start` makes.
use kvstorage_base_raft_cpp.Base.{
  ℕ, ◌+◌, ◌≡◌, refl, ap, ◌∙◌, inl, inr, true, Option, none, some, [], ◌∷◌, arith, length,
  length-append, All, Bytes, List, All-append, All-drop, All-mono, if◌then◌else◌, Bool-cases,
}
use kvstorage_base_raft_cpp.Message.{LogEntry, Op, AppendEntriesArgs, ApplyMsg}
use kvstorage_base_raft_cpp.Archive.{Archive}
use kvstorage_base_raft_cpp.Persister.{create, read_raft_state}
use kvstorage_base_raft_cpp.Raft.{Raft, is_leader}
use kvstorage_base_raft_cpp.Raft.Store.{persist, read_persist}
use kvstorage_base_raft_cpp.Raft.Log.{Inv}
use kvstorage_base_raft_cpp.Raft.Progress.{Aside}
use kvstorage_base_raft_cpp.Raft.Posts.{HasAppend}
use kvstorage_base_raft_cpp.Raft.Bystander.{KeepsRounds}
use kvstorage_base_raft_cpp.Raft.Election.Frame.{
  request_vote-Aside, receive_vote-Aside, election_time_out-Aside,
}
use kvstorage_base_raft_cpp.Raft.Replication.Frame.{receive_append-commit}
use kvstorage_base_raft_cpp.Raft.Replication.Beat.{heart_beat_time_out-Beat}
use kvstorage_base_raft_cpp.Raft.Replication.Origin.{append_entries-All}
use kvstorage_base_raft_cpp.Raft.Snapshot.Origin.{install_snapshot-All, take_snapshot-All}
use kvstorage_base_raft_cpp.Raft.Snapshot.Send.{snapshot_request-Aside, receive_snapshot-Aside}
use kvstorage_base_raft_cpp.Raft.Apply.Order.{applier_tick_lem, push_message-SameNode}
use kvstorage_base_raft_cpp.Raft.Node.{start, fresh_node, init}
use kvstorage_base_raft_cpp.Raft.Node.Frame.{entry_for, start_leader}
use kvstorage_base_raft_cpp.Raft.Node.Steps.{
  Step, votes, vote_arrives, election_timer, appends, append_arrives, heart_beat_timer, installs,
  sends_snapshot, snapshot_arrives, compacts, applies, pushes, starts,
}

-- What holds of the entries of a node's log, and of those of the requests that it has posted.
pub record Only (P : LogEntry → Type 0) (r : Raft) : Type 0 where
  pub logged : All P r.logs
  pub sent :
      (k : ℕ) (args : AppendEntriesArgs) (c : ℕ)
      → HasAppend k args c r.rpc_tasks
      → All P args.entries

pub Only-mono :
    (P Q : LogEntry → Type 0) (r : Raft) → ((e : LogEntry) → P e → Q e) → Only P r → Only Q r
Only-mono P Q r f h = record {
  logged = All-mono P Q r.logs f h.logged;
  sent = λ k args c. λ posted. All-mono P Q args.entries f (h.sent k args c posted);
}

-- New requests carry the end of the log.
pub Only-posts :
    (P : LogEntry → Type 0) (x : ℕ) (r q : Raft)
    → KeepsRounds x r q
    → Only P r
    → All P q.logs
    → Only P q
Only-posts P x r q rounds h logs = record {
  logged = logs;
  sent = λ k args c. λ posted. elim (rounds.posts k args c posted) [
    | inl before ↦ h.sent k args c before
    | inr new ↦ let (m, tail, ends) = new.tail in rw tail (All-drop P m r.logs h.logged)
  ];
}

Aside-All : (P : LogEntry → Type 0) {r q : Raft} → Aside r q → All P r.logs → All P q.logs
Aside-All P aside h = rw aside.same_logs h

module _ ⦃a : Archive⦄ where
  -- The entry that a step makes.
  abbrev pub made : {r q : Raft} → Step r q → Option LogEntry
  made {r} (starts command e) = if is_leader r.status then some (entry_for command r) else none
  made step = none

  -- What holds of the entries that a step brings to the node.
  abbrev pub Brings : (LogEntry → Type 0) → {r q : Raft} → Step r q → Type 0
  Brings P (appends now args reply c e) = All P args.entries
  Brings P step = Unit {0}

  pub Brings-mono :
      (P Q : LogEntry → Type 0) {r q : Raft} (step : Step r q)
      → ((e : LogEntry) → P e → Q e)
      → Brings P step
      → Brings Q step
  Brings-mono P Q (appends now args reply c e) f h = All-mono P Q args.entries f h
  Brings-mono P Q step f h = tt

  start-All :
      (P : LogEntry → Type 0) (command : Op) (r : Raft)
      → Inv r
      → All P r.logs
      → (is_leader r.status ≡ true → P (entry_for command r))
      → All P (start command r).1.logs
  unfolding start persist
  start-All P command r inv h new = elim (Bool-cases (is_leader r.status)) [
    | inr other ↦ rw other h
    | inl leads ↦
        let started =
          ap (λ (x : Option (ℕ × ℕ) × Raft). x.1.logs) (start_leader command r inv leads) in
        rw started (All-append P r.logs (entry_for command r ∷ []) h (new leads, tt))
  ]

  pub Step-All :
      (P : LogEntry → Type 0) {r q : Raft}
      → Inv r
      → (step : Step r q) → All P r.logs
      → Brings P step
      → ((e : LogEntry) → made step ≡ some e → P e)
      → All P q.logs
  Step-All P {r} inv (votes now args e) h brings new =
      rw e (Aside-All P (request_vote-Aside now args r) h)
  Step-All P {r} inv (vote_arrives now c ok reply e) h brings new =
      rw e (Aside-All P (receive_vote-Aside now c ok reply r) h)
  Step-All P {r} inv (election_timer wake now e) h brings new =
      rw e (Aside-All P (election_time_out-Aside wake now r) h)
  Step-All P {r} {q} inv (appends now args reply c e) h brings new =
      append_entries-All P now args r reply q h brings e
  Step-All P {r} inv (append_arrives server args c ok reply within e) h brings new =
      let (lower, upper, snap, logs, applied) = receive_append-commit server args c ok reply r in
      rw (e, logs) h
  Step-All P {r} {q} inv (heart_beat_timer wake now e) h brings new =
      let same = ap (λ (x : Raft). x.logs) (heart_beat_time_out-Beat wake now r q e) in rw same h
  Step-All P {r} {q} inv (installs now args reply e) h brings new =
      install_snapshot-All P now args r reply q h e
  Step-All P {r} inv (sends_snapshot e) h brings new =
      rw e (Aside-All P (snapshot_request-Aside r) h)
  Step-All P {r} inv (snapshot_arrives now server args ok reply e) h brings new =
      rw e (Aside-All P (receive_snapshot-Aside now server args ok reply r) h)
  Step-All P {r} {q} inv (compacts i snapshot e) h brings new =
      take_snapshot-All P i snapshot r q h e
  Step-All P {r} inv (pushes e) h brings new =
      let same = ap (λ (x : Raft). x.logs) (e ∙ push_message-SameNode r) in rw same h
  Step-All P {r} {q} inv (applies idle e) h brings new =
      let (msgs, e', commands) = applier_tick_lem r inv in
      let same : q.logs ≡ r.logs = ground (arith, e, e') in rw same h
  Step-All P {r} inv (starts command e) h brings new =
      rw e
        (start-All P command r inv h (λ leads. new (entry_for command r) (ground (arith, leads))))

  -- Only a leader makes an entry: of its term, at the index behind its last one.
  pub made_lem :
      {r q : Raft} (step : Step r q) (e : LogEntry)
      → Inv r
      → made step ≡ some e
      → (is_leader r.status ≡ true)
        × (e.log_term ≡ r.current_term)
        × (e.log_index ≡ r.last_snapshot_include_index + length r.logs + 1)
        × (q.current_term ≡ r.current_term)
        × (q.last_snapshot_include_index + length q.logs ≡ e.log_index)
  unfolding persist
  made_lem {r} (starts command at) e inv h = elim (Bool-cases (is_leader r.status)) [
    | inr other ↦ absurd (ground (arith, h, other))
    | inl leads ↦
        let same : entry_for command r ≡ e = ground (arith, h, leads) in
        let started = start_leader command r inv leads in
        let grown = length-append r.logs (entry_for command r ∷ []) in
        rw (at, started, ← same) (leads, refl, refl, refl, omega (arith, grown))
  ]
  made_lem step e inv h = absurd (cc)

  pub init-Only :
      (P : LogEntry → Type 0) (now peers me : ℕ) (raftstate snapshot : Bytes) (chan : List ApplyMsg)
      → Only P (init now peers me (create raftstate snapshot) chan)
  unfolding init fresh_node create read_raft_state read_persist
  init-Only P now peers me raftstate snapshot chan = record {
    logged = tt;
    sent = λ k args c. λ h. absurd h;
  }

  pub init-msgs :
      (now peers me : ℕ) (raftstate snapshot : Bytes) (chan : List ApplyMsg)
      → (init now peers me (create raftstate snapshot) chan).apply_msgs ≡ []
  unfolding init fresh_node create read_raft_state read_persist
  init-msgs now peers me raftstate snapshot chan = refl
