-- ===== src/Raft/Replication/Channel.antt =====
-- Replication leaves the channel of the key-value server alone.
use kvstorage_base_raft_cpp.Base.{ℕ, ◌≡◌, ap, inl, inr, Bool, some, arith}
use kvstorage_base_raft_cpp.Message.{AppendEntriesArgs, AppendEntriesReply}
use kvstorage_base_raft_cpp.Archive.{Archive}
use kvstorage_base_raft_cpp.Raft.{Raft}
use kvstorage_base_raft_cpp.Raft.Replication.{
  append_entries, receive_append, count_append, commit_entries,
}
use kvstorage_base_raft_cpp.Raft.Replication.Frame.{append_entries-Appended}

-- The channel, and what is taken for it.
abbrev pub SameChan : Raft → Raft → Type 0
SameChan r q = (q.apply_chan ≡ r.apply_chan) × (q.apply_msgs ≡ r.apply_msgs)

module _ ⦃a : Archive⦄ where
  pub append_entries-chan :
      (now : ℕ) (args : AppendEntriesArgs) (r : Raft) (reply : AppendEntriesReply) (q : Raft)
      → append_entries now args r ≡ some (reply, q)
      → SameChan r q
  append_entries-chan now args r reply q e = elim (append_entries-Appended now args r reply q e) [
    | inl same ↦ (ap (λ (x : Raft). x.apply_chan) same, ap (λ (x : Raft). x.apply_msgs) same)
    | inr (appended, newer) ↦ (
      ground (arith, ap (λ (x : Raft). x.apply_chan) appended),
      ground (arith, ap (λ (x : Raft). x.apply_msgs) appended),
    )
  ]

  pub receive_append-chan :
      (server : ℕ) (args : AppendEntriesArgs) (c : ℕ) (ok : Bool) (reply : AppendEntriesReply)
      (r : Raft)
      → SameChan r (receive_append server args c ok reply r)
  unfolding receive_append count_append commit_entries
  receive_append-chan server args c ok reply r = (ground arith, ground arith)
