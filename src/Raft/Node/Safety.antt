-- ===== src/Raft/Node/Safety.antt =====
-- What holds of a node over any run of its handlers.
use kvstorage_base_raft_cpp.Base.{ℕ, List, ◌≡◌, ap, ◌∙◌, true, arith}
use kvstorage_base_raft_cpp.Message.{RequestVoteArgs, ApplyMsg}
use kvstorage_base_raft_cpp.Archive.{Archive}
use kvstorage_base_raft_cpp.Raft.{Raft}
use kvstorage_base_raft_cpp.Raft.Log.{Inv}
use kvstorage_base_raft_cpp.Raft.Progress.{
  Kept, Kept-refl, Kept-trans, Onward, Onward-refl, Onward-trans, Aside-Onward,
}
use kvstorage_base_raft_cpp.Raft.Election.{request_vote}
use kvstorage_base_raft_cpp.Raft.Election.Grant.{granted_recorded, vote_granted_iff}
use kvstorage_base_raft_cpp.Raft.Election.Frame.{
  request_vote-Kept, request_vote-Aside, receive_vote-Kept, receive_vote-Aside,
  election_time_out-Kept, election_time_out-Aside,
}
use kvstorage_base_raft_cpp.Raft.Replication.Frame.{
  append_entries-Kept, append_entries-Onward, receive_append-Kept, receive_append-Onward,
}
use kvstorage_base_raft_cpp.Raft.Replication.Beat.{heart_beat_time_out-Beat}
use kvstorage_base_raft_cpp.Raft.Snapshot.Compact.{take_snapshot-Onward}
use kvstorage_base_raft_cpp.Raft.Snapshot.Install.{install_snapshot-Onward}
use kvstorage_base_raft_cpp.Raft.Snapshot.Send.{
  snapshot_request-Kept, snapshot_request-Aside, receive_snapshot-Kept, receive_snapshot-Aside,
  take_snapshot-vote,
}
use kvstorage_base_raft_cpp.Raft.Apply.Order.{
  applier_tick_lem, applier_tick-Onward, push_message-SameNode,
}
use kvstorage_base_raft_cpp.Raft.Node.Steps.{
  Step, votes, vote_arrives, election_timer, appends, append_arrives, heart_beat_timer, installs,
  sends_snapshot, snapshot_arrives, compacts, applies, pushes, starts, Reach, here, next,
}
use kvstorage_base_raft_cpp.Raft.Node.Frame.{start-Kept, start-Onward}

same-Kept :
    {r q : Raft} → (q.current_term ≡ r.current_term) × (q.voted_for ≡ r.voted_for) → Kept r q
same-Kept (term, vote) = record { term_grows = omega arith; vote_kept = λ e v p. vote ∙ p }

same_node-Onward :
    (r : Raft) (msgs chan : List ApplyMsg)
    → Inv r
    → Onward r (record r { apply_msgs = msgs; apply_chan = chan })
same_node-Onward r msgs chan inv = record {
  inv_kept = record {
    consecutive = inv.consecutive;
    compacted = inv.compacted;
    applied = inv.applied;
    committed = inv.committed;
  };
  snapshot_grows = omega arith;
  applied_grows = omega arith;
  commit_grows = omega arith;
  log_grows = omega arith;
}

module _ ⦃a : Archive⦄ where
  pub Step-Kept : {r q : Raft} → Inv r → Step r q → Kept r q
  Step-Kept {r} inv (votes now args e) = rw e (request_vote-Kept now args r)
  Step-Kept {r} inv (vote_arrives now c ok reply e) = rw e (receive_vote-Kept now c ok reply r)
  Step-Kept {r} inv (election_timer wake now e) = rw e (election_time_out-Kept wake now r)
  Step-Kept {r} {q} inv (appends now args reply c e) = append_entries-Kept now args r reply q e
  Step-Kept {r} inv (append_arrives server args c ok reply h e) =
      rw e (receive_append-Kept server args c ok reply r)
  Step-Kept {r} {q} inv (heart_beat_timer wake now e) =
      let beat = heart_beat_time_out-Beat wake now r q e in
      same-Kept (ap (λ (x : Raft). x.current_term) beat, ap (λ (x : Raft). x.voted_for) beat)
  Step-Kept {r} {q} inv (installs now args reply e) =
      let (reply', s, e', onward, kept) = install_snapshot-Onward now args r inv in
      let same : s ≡ q = ground (arith, e, e') in rw (← same) kept
  Step-Kept {r} inv (sends_snapshot e) = rw e (snapshot_request-Kept r)
  Step-Kept {r} inv (snapshot_arrives now server args ok reply e) =
      rw e (receive_snapshot-Kept now server args ok reply r)
  Step-Kept {r} {q} inv (compacts i snapshot e) = same-Kept (take_snapshot-vote i snapshot r q e)
  Step-Kept {r} inv (pushes e) =
      let same = e ∙ push_message-SameNode r in
      same-Kept (ap (λ (x : Raft). x.current_term) same, ap (λ (x : Raft). x.voted_for) same)
  Step-Kept {r} {q} inv (applies idle e) =
      let (msgs, e', commands) = applier_tick_lem r inv in
      same-Kept (ground (arith, e, e'), ground (arith, e, e'))
  Step-Kept {r} inv (starts command e) = rw e (start-Kept command r)

  pub Step-Onward : {r q : Raft} → Inv r → Step r q → Onward r q
  Step-Onward {r} inv (votes now args e) = rw e (Aside-Onward (request_vote-Aside now args r) inv)
  Step-Onward {r} inv (vote_arrives now c ok reply e) =
      rw e (Aside-Onward (receive_vote-Aside now c ok reply r) inv)
  Step-Onward {r} inv (election_timer wake now e) =
      rw e (Aside-Onward (election_time_out-Aside wake now r) inv)
  Step-Onward {r} {q} inv (appends now args reply c e) =
      append_entries-Onward now args r reply q inv c e
  Step-Onward {r} inv (append_arrives server args c ok reply h e) =
      rw e (receive_append-Onward server args c ok reply r inv h)
  Step-Onward {r} {q} inv (heart_beat_timer wake now e) =
      let beat = heart_beat_time_out-Beat wake now r q e in
      Aside-Onward
        (record {
          same_snapshot = ap (λ (x : Raft). x.last_snapshot_include_index) beat;
          same_logs = ap (λ (x : Raft). x.logs) beat;
          same_applied = ap (λ (x : Raft). x.last_applied) beat;
          same_commit = ap (λ (x : Raft). x.commit_index) beat;
          same_chan = ap (λ (x : Raft). x.apply_chan) beat;
          same_msgs = ap (λ (x : Raft). x.apply_msgs) beat;
        })
        inv
  Step-Onward {r} {q} inv (installs now args reply e) =
      let (reply', s, e', onward, kept) = install_snapshot-Onward now args r inv in
      let same : s ≡ q = ground (arith, e, e') in rw (← same) onward
  Step-Onward {r} inv (sends_snapshot e) = rw e (Aside-Onward (snapshot_request-Aside r) inv)
  Step-Onward {r} inv (snapshot_arrives now server args ok reply e) =
      rw e (Aside-Onward (receive_snapshot-Aside now server args ok reply r) inv)
  Step-Onward {r} {q} inv (compacts i snapshot e) = take_snapshot-Onward i snapshot r inv q e
  Step-Onward {r} {q} inv (applies idle e) = applier_tick-Onward r inv q e
  Step-Onward {r} inv (pushes e) = rw (e, push_message-SameNode r) (same_node-Onward r _ _ inv)
  Step-Onward {r} inv (starts command e) = rw e (start-Onward command r inv)

  -- Over any run of its handlers a node stays in order: the entries of its log have consecutive
  -- indices behind its snapshot, what is applied is committed, and what is committed is in its log.
  -- Its snapshot, what it has applied, its commit index and the end of its log never go back. In a
  -- run no handler reads outside the log, the requests to append carry entries with consecutive
  -- indices, and the replies to them answer requests whose entries lie within the log.
  pub Reach-Onward : {r q : Raft} → Inv r → Reach r q → Onward r q
  Reach-Onward {r} inv here = Onward-refl r inv
  Reach-Onward inv (next run step) =
      let before = Reach-Onward inv run in Onward-trans before (Step-Onward before.inv_kept step)

  -- Over any run of its handlers a node's term does not fall, and its vote stays while its term does.
  pub Reach-Kept : {r q : Raft} → Inv r → Reach r q → Kept r q
  Reach-Kept {r} inv here = Kept-refl r
  Reach-Kept inv (next run step) =
      Kept-trans (Reach-Kept inv run) (Step-Kept (Reach-Onward inv run).inv_kept step)

  -- A node votes for one candidate in a term: two requests of the same term that it grants, with any
  -- run of its handlers between them, come from the same candidate.
  pub one_vote_per_term :
      (now later : ℕ) (first second : RequestVoteArgs) (r q : Raft)
      → Inv r
      → Reach (request_vote now first r).1 q
      → first.term ≡ second.term
      → (request_vote now first r).0.vote_granted ≡ true
      → (request_vote later second q).0.vote_granted ≡ true
      → first.candidate_id ≡ second.candidate_id
  one_vote_per_term now later first second r q inv run same granted granted' =
      let s : Raft = (request_vote now first r).1 in
      let recorded = granted_recorded now first r granted in
      let kept =
        Reach-Kept {r = s} (Aside-Onward (request_vote-Aside now first r) inv).inv_kept run in
      let free = ((vote_granted_iff later second q).0 granted').1 in
      let same_term : s.current_term ≡ q.current_term =
        ground (arith, recorded, kept.term_grows, free) in
      let voted = kept.vote_kept same_term first.candidate_id recorded.0 in
      ground (arith, recorded, same_term, voted, free)
