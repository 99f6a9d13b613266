-- ===== src/Raft/Replication/Bystander.antt =====
-- What the handlers of replication leave of a node's elections.
use kvstorage_base_raft_cpp.Base.{
  ℕ, ◌+◌, ◌≡◌, ◌⊎◌, sym, ap, inl, inr, Bool, some, ◌∙◌, arith, set, get_elem?, List, true, ◌≤◌,
}
use kvstorage_base_raft_cpp.Message.{AppendEntriesArgs, AppendEntriesReply}
use kvstorage_base_raft_cpp.Archive.{Archive}
use kvstorage_base_raft_cpp.Raft.{Raft, is_leader}
use kvstorage_base_raft_cpp.Raft.Log.{Inv}
use kvstorage_base_raft_cpp.Raft.Posts.{same-NewAppends, same-KeepsAppends}
use kvstorage_base_raft_cpp.Raft.Replication.Tasks.{heart_beat_time_out-NewAppends}
use kvstorage_base_raft_cpp.Raft.Bystander.{
  Bystander, Bystander-refl, SameRounds-Bystander, grown-KeepsRounds, SameRounds-KeepsRounds,
  set-KeepsRounds, LeadsOn, counter_at-elem, counter_at-set_le,
}
use kvstorage_base_raft_cpp.Raft.Election.{counter_at}
use kvstorage_base_raft_cpp.Raft.Replication.{
  append_entries, receive_append, count_append, commit_entries, heart_beat_time_out,
}
use kvstorage_base_raft_cpp.Raft.Replication.Frame.{append_entries-Appended}
use kvstorage_base_raft_cpp.Raft.Replication.Beat.{
  heart_beat_time_out-Beat, heart_beat_time_out-counters,
}

pub append_entries-Bystander :
    ⦃a : Archive⦄ (x now : ℕ) (args : AppendEntriesArgs) (r : Raft) (reply : AppendEntriesReply)
    (q : Raft)
    → append_entries now args r ≡ some (reply, q)
    → Bystander x r q
append_entries-Bystander x now args r reply q e =
    elim (append_entries-Appended now args r reply q e) [
      | inl same ↦ rw same (Bystander-refl x r)
      | inr (same, newer) ↦
          rw same (SameRounds-Bystander x (ground arith) (λ h. (ground arith, ground arith)))
    ]

pub heart_beat_time_out-Bystander :
    (x wake now : ℕ) (r q : Raft)
    → Inv r
    → heart_beat_time_out wake now r ≡ some q
    → Bystander x r q
heart_beat_time_out-Bystander x wake now r q inv e =
    let beat = heart_beat_time_out-Beat wake now r q e in
    let (posts, keeps) = heart_beat_time_out-NewAppends wake now r q inv e in
    let (more, start, grown) = heart_beat_time_out-counters wake now r q e in
    record {
      rounds =
          grown-KeepsRounds x more (ap (λ (s : Raft). s.me) beat) (ap (λ (s : Raft). s.peers) beat)
            start grown posts keeps;
      leads_on = λ h. (
        sym (ap (λ (s : Raft). is_leader s.status) beat) ∙ h,
        ap (λ (s : Raft). s.current_term) beat,
      );
    }

module _ (server : ℕ) (args : AppendEntriesArgs) (c : ℕ) (ok : Bool) (reply : AppendEntriesReply)
    (r : Raft) where
  abbrev pub replied : Raft
  replied = receive_append server args c ok reply r

  pub receive_append-same :
      (replied.me ≡ r.me)
      × (replied.peers ≡ r.peers)
      × (replied.counters ≡ r.counters
          ⊎ replied.counters ≡ set r.counters c 0
          ⊎ replied.counters ≡ set r.counters c (counter_at r c + 1))
      × (replied.rpc_tasks ≡ r.rpc_tasks)
  unfolding receive_append count_append commit_entries
  receive_append-same = (ground arith, ground arith, ground arith, ground arith)

  receive_append-LeadsOn : LeadsOn r replied
  unfolding receive_append count_append commit_entries
  receive_append-LeadsOn h = (ground arith, ground arith)

  -- The reply to a request to append changes the counter of its own round.
  pub receive_append-Bystander : Bystander c r replied
  receive_append-Bystander =
      let (me, peers, counters, tasks) = receive_append-same in
      let posts = same-NewAppends r replied tasks in
      let keeps = same-KeepsAppends r replied tasks in
      record {
        rounds = elim counters [
          | inl same ↦ SameRounds-KeepsRounds c (me, peers, same, tasks)
          | inr (inl zeroed) ↦ set-KeepsRounds c 0 me peers zeroed posts keeps
          | inr (inr counted) ↦ set-KeepsRounds c (counter_at r c + 1) me peers counted posts keeps
        ];
        leads_on = receive_append-LeadsOn;
      }

  receive_append-counters :
      (replied.counters ≡ r.counters)
      ⊎ (reply.success ≡ true)
        × (replied.counters ≡ set r.counters c 0
            ⊎ replied.counters ≡ set r.counters c (counter_at r c + 1))
  unfolding receive_append count_append commit_entries
  receive_append-counters = ground arith

  -- Only a success is counted.
  pub receive_append-counted :
      (counter_at replied c ≤ counter_at r c)
      ⊎ (reply.success ≡ true) × (counter_at replied c ≤ counter_at r c + 1)
  receive_append-counted = elim receive_append-counters [
    | inl same ↦
        inl
          (omega (arith, counter_at-elem r replied c c (ap (λ (cs : List ℕ). get_elem? cs c) same)))
    | inr (success, inl zeroed) ↦ inl (omega (arith, counter_at-set_le r replied c 0 zeroed))
    | inr (success, inr more) ↦
        inr (success, counter_at-set_le r replied c (counter_at r c + 1) more)
  ]
