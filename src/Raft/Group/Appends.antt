-- ===== src/Raft/Group/Appends.antt =====
-- The steps that leave the elections of a group as they are: requests to append, their replies, and
-- the steps of one node.
use kvstorage_base_raft_cpp.Base.{
  ℕ, ◌<◌, ◌≡◌, refl, inl, inr, Bool, true, some, arith, length, update, Bool-cases,
}
use kvstorage_base_raft_cpp.Message.{RequestVoteArgs, AppendEntriesArgs, AppendEntriesReply}
use kvstorage_base_raft_cpp.Archive.{Archive}
use kvstorage_base_raft_cpp.Raft.{Raft}
use kvstorage_base_raft_cpp.Raft.Bystander.{Bystander}
use kvstorage_base_raft_cpp.Raft.Posts.{HasAppend}
use kvstorage_base_raft_cpp.Raft.Replication.{append_entries, receive_append}
use kvstorage_base_raft_cpp.Raft.Replication.Bystander.{
  append_entries-Bystander, receive_append-Bystander,
}
use kvstorage_base_raft_cpp.Raft.Node.Steps.{Step, appends, append_arrives}
use kvstorage_base_raft_cpp.Raft.Node.Safety.{Step-Kept, Step-Onward}
use kvstorage_base_raft_cpp.Raft.Group.{
  VoteCall, idle, waiting, answered, closed, asked, is_open, Group, IsApart,
}
use kvstorage_base_raft_cpp.Raft.Group.Invariant.{Ballots, Grows, GroupOk, IsQuiet}
use kvstorage_base_raft_cpp.Raft.Group.Apart.{IsApart-Bystander}
use kvstorage_base_raft_cpp.Raft.Group.Moves.{
  votes_after, votes_grow, LeadsOn-elected, moved-GroupOk,
}

open-asked :
    (call : VoteCall) → is_open call ≡ true → (args : RequestVoteArgs) × (asked call ≡ some args)
open-asked idle h = absurd (cc)
open-asked (waiting args) h = (args, refl)
open-asked (answered args reply) h = (args, refl)
open-asked closed h = absurd (cc)

module _ ⦃a : Archive⦄ (n : ℕ) (b : Ballots) (g : Group) (ok : GroupOk n b g) where
  -- A step that leaves the elections alone, but for a counter with no open call.
  Step-GroupOk :
      (i : ℕ) (q : Raft)
      → i < n
      → Step (g.nodes i) q
      → (x : ℕ) → Bystander x (g.nodes i) q
      → (x < length (g.nodes i).counters → IsQuiet (g.calls i x))
      → (b' : Ballots) × Grows b b' × GroupOk n b' (record g { nodes = update i q g.nodes })
  Step-GroupOk i q inside step x bystander quiet =
      let inv = (ok.node i inside).in_order in
      let kept = Step-Kept inv step in
      (
        votes_after n b g ok i inside q kept,
        votes_grow n b g ok i inside q kept,
        moved-GroupOk n b g ok i inside q kept x bystander.rounds (Step-Onward inv step)
            (LeadsOn-elected n b g ok i inside q kept bystander.leads_on) quiet,
      )

  pub moves-GroupOk :
      (i : ℕ) (q : Raft)
      → i < n
      → (step : Step (g.nodes i) q) → IsApart step
      → (b' : Ballots) × Grows b b' × GroupOk n b' (record g { nodes = update i q g.nodes })
  moves-GroupOk i q inside step apart =
      let x = length (g.nodes i).counters in
      Step-GroupOk i q inside step x (IsApart-Bystander x step (ok.node i inside).in_order apart)
        (λ below. absurd (omega arith))

  -- A request that arrives was posted, so its entries have consecutive indices.
  pub delivers-GroupOk :
      (i k c now : ℕ) (args : AppendEntriesArgs) (reply : AppendEntriesReply) (q : Raft)
      → i < n
      → k < n
      → HasAppend k args c (g.nodes i).rpc_tasks
      → append_entries now args (g.nodes k) ≡ some (reply, q)
      → (b' : Ballots) × Grows b b' × GroupOk n b' (record g { nodes = update k q g.nodes })
  delivers-GroupOk i k c now args reply q inside below sent e =
      let (within, round, to_node, to_other) = (ok.node i inside).posted k args c sent in
      let x = length (g.nodes k).counters in
      Step-GroupOk k q below (appends now args reply within.well_formed e) x
        (append_entries-Bystander x now args (g.nodes k) reply q e) (λ h. absurd (omega arith))

  -- A round of heart beats has no calls for a vote.
  sent-IsQuiet :
      (i k c : ℕ) (args : AppendEntriesArgs)
      → i < n
      → HasAppend k args c (g.nodes i).rpc_tasks
      → IsQuiet (g.calls i c)
  sent-IsQuiet i k c args inside sent m = elim (Bool-cases (is_open (g.calls i c m))) [
    | inr quiet ↦ quiet
    | inl pending ↦
        let (other, e) = open-asked (g.calls i c m) pending in
        absurd (((ok.round i c inside).asks m other e).apart k args sent)
  ]

  -- The reply to a request is counted in the request's round, and its entries lie within the log.
  pub replies-GroupOk :
      (i k c : ℕ) (args : AppendEntriesArgs) (went : Bool) (reply : AppendEntriesReply)
      → i < n
      → HasAppend k args c (g.nodes i).rpc_tasks
      → (b' : Ballots) × Grows b b'
        × GroupOk n b'
            (record g { nodes = update i (receive_append k args c went reply (g.nodes i)) g.nodes })
  replies-GroupOk i k c args went reply inside sent =
      let r = g.nodes i in
      let (within, round, to_node, to_other) = (ok.node i inside).posted k args c sent in
      Step-GroupOk i (receive_append k args c went reply r) inside
        (append_arrives k args c went reply within.to_end refl) c
        (receive_append-Bystander k args c went reply r)
        (λ below. sent-IsQuiet i k c args inside sent)
