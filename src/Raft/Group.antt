-- ===== src/Raft/Group.antt =====
-- A group of nodes that ask each other for votes and send each other entries, raftCore/raft.cc.
-- Snapshots, and what the key-value servers do, arrive as the steps of a single node.
pub mod Invariant
pub mod Rounds
pub mod Apart
pub mod Begin
pub mod Moves
pub mod Returns
pub mod Appends
pub mod Steps
pub mod Safety
pub mod Moved
pub mod Whole
pub mod Ledger
pub mod Agreement
pub mod Cluster
pub mod Beats
pub mod Elsewhere
pub mod Commits
use kvstorage_base_raft_cpp.Base.{
  ℕ, ◌+◌, ◌≤◌, ◌<◌, ◌≡◌, Bool, true, false, not, ◌&&◌, Option, none, some, List, List, ltb, ◌==◌,
  if◌then◌else◌, length, drop, update, [], ◌∷◌, Bytes,
}
use kvstorage_base_raft_cpp.Message.{
  RequestVoteArgs, RequestVoteReply, ApplyMsg, AppendEntriesArgs, AppendEntriesReply,
}
use kvstorage_base_raft_cpp.Archive.{Archive}
use kvstorage_base_raft_cpp.Persister.{create}
use kvstorage_base_raft_cpp.Raft.{
  Raft, Task, Posted, is_leader, send_request_vote, send_append_entries, leader_send_snapshot,
  do_heart_beat,
}
use kvstorage_base_raft_cpp.Raft.Election.{
  request_vote, receive_vote, election_time_out, request_vote_args,
}
use kvstorage_base_raft_cpp.Raft.Posts.{HasAppend}
use kvstorage_base_raft_cpp.Raft.Replication.{append_entries, receive_append}
use kvstorage_base_raft_cpp.Raft.Node.{init}
use kvstorage_base_raft_cpp.Raft.Node.Steps.{
  Step, votes, vote_arrives, election_timer, appends, append_arrives, heart_beat_timer, installs,
  sends_snapshot, snapshot_arrives, compacts, applies, pushes, starts,
}

-- The call of a `send_request_vote` task.
pub data VoteCall : Type 0 where
  idle : VoteCall
  waiting : RequestVoteArgs → VoteCall
  answered : RequestVoteArgs → RequestVoteReply → VoteCall
  closed : VoteCall

-- The request of a call that may still bring a vote.
abbrev pub asked : VoteCall → Option RequestVoteArgs
asked idle = none
asked (waiting args) = some args
asked (answered args reply) = some args
asked closed = none

abbrev pub is_open : VoteCall → Bool
is_open idle = false
is_open (waiting args) = true
is_open (answered args reply) = true
is_open closed = false

-- `calls i c k` is the call of node `i` to node `k` in the round whose counter is `c`.
pub record Group : Type 0 where
  pub nodes : ℕ → Raft
  pub calls : ℕ → ℕ → ℕ → VoteCall

abbrev pub set_row : ℕ → ℕ → (ℕ → VoteCall) → (ℕ → ℕ → ℕ → VoteCall) → ℕ → ℕ → ℕ → VoteCall
set_row i c row calls = update i (update c row (calls i)) calls

-- The request of a task that asks node `k` for a vote in the round whose counter is `c`.
abbrev pub vote_request : ℕ → ℕ → Task → Option RequestVoteArgs
vote_request c k (send_request_vote i args d) = if i == k && d == c then some args else none
vote_request c k (send_append_entries i args d) = none
vote_request c k (leader_send_snapshot i) = none
vote_request c k do_heart_beat = none

-- The calls that posted tasks make in a round.
abbrev pub calls_of : ℕ → List Posted → ℕ → VoteCall
calls_of c [] k = idle
calls_of c (p ∷ ps) k = elim (vote_request c k p.task) [
  | some args ↦ waiting args
  | none ↦ calls_of c ps k
]

-- The tasks that a handler has posted.
abbrev pub new_tasks : Raft → Raft → List Posted
new_tasks r q = drop (length r.rpc_tasks) q.rpc_tasks

-- A step of a node that is no part of an election and takes no request to append and no reply to one.
abbrev pub IsApart : ⦃a : Archive⦄ → {r q : Raft} → Step r q → Type 0
IsApart (votes now args e) = ⊥
IsApart (vote_arrives now c ok reply e) = ⊥
IsApart (election_timer wake now e) = ⊥
IsApart (appends now args reply h e) = ⊥
IsApart (append_arrives server args c ok reply h e) = ⊥
IsApart (heart_beat_timer wake now e) = Unit {0}
IsApart (installs now args reply e) = Unit {0}
IsApart (sends_snapshot e) = Unit {0}
IsApart (snapshot_arrives now server args ok reply e) = Unit {0}
IsApart (compacts i snapshot e) = Unit {0}
IsApart (applies idle_now e) = Unit {0}
IsApart (pushes e) = Unit {0}
IsApart (starts command e) = Unit {0}

module _ ⦃a : Archive⦄ (n : ℕ) where
  -- A call for a vote that is lost, or whose task is dropped as late, is closed: its node stays as it
  -- is. A node may answer a request long after it was sent, and each request at most once. A request
  -- to append that is posted may arrive, and any reply to it come back, any number of times.
  pub data GroupStep (g : Group) : Group → Type 0 where
    elects :
        (i wake now : ℕ)
        → i < n
        → is_leader (g.nodes i).status ≡ false
        → ltb wake (g.nodes i).last_reset_election_time ≡ false
        → GroupStep g (record {
          nodes = update i (election_time_out wake now (g.nodes i)) g.nodes;
          calls =
              set_row i
                (length (g.nodes i).counters)
                (calls_of
                  (length (g.nodes i).counters)
                  (new_tasks (g.nodes i) (election_time_out wake now (g.nodes i))))
                g.calls;
        })
    serves :
        (i c k now : ℕ) (args : RequestVoteArgs)
        → i < n
        → g.calls i c k ≡ waiting args
        → GroupStep g (record {
          nodes = update k (request_vote now args (g.nodes k)).1 g.nodes;
          calls =
              set_row i c
                (update k (answered args (request_vote now args (g.nodes k)).0) (g.calls i c))
                g.calls;
        })
    returns :
        (i c k now : ℕ) (args : RequestVoteArgs) (reply : RequestVoteReply)
        → i < n
        → g.calls i c k ≡ answered args reply
        → GroupStep g (record {
          nodes = update i (receive_vote now c true reply (g.nodes i)) g.nodes;
          calls = set_row i c (update k closed (g.calls i c)) g.calls;
        })
    fails :
        (i c k : ℕ)
        → GroupStep g (record g { calls = set_row i c (update k closed (g.calls i c)) g.calls })
    moves :
        (i : ℕ) {q : Raft}
        → i < n
        → (step : Step (g.nodes i) q) → IsApart step
        → GroupStep g (record g { nodes = update i q g.nodes })
    delivers :
        (i k c now : ℕ) (args : AppendEntriesArgs) (reply : AppendEntriesReply) {q : Raft}
        → i < n
        → k < n
        → HasAppend k args c (g.nodes i).rpc_tasks
        → append_entries now args (g.nodes k) ≡ some (reply, q)
        → GroupStep g (record g { nodes = update k q g.nodes })
    replies :
        (i k c : ℕ) (args : AppendEntriesArgs) (went : Bool) (reply : AppendEntriesReply)
        → i < n
        → HasAppend k args c (g.nodes i).rpc_tasks
        → GroupStep g
            (record g { nodes = update i (receive_append k args c went reply (g.nodes i)) g.nodes })

  -- Every node begins with a new persister, at a time of its own, and no call is made yet.
  pub record IsInitial (g : Group) : Type 0 where
    pub begun :
        (i : ℕ)
        → i < n
        → (now : ℕ) × (raftstate : Bytes) × (snapshot : Bytes) × (chan : List ApplyMsg) × (g.nodes i
            ≡ init now n i (create raftstate snapshot) chan)
    pub silent : (i c k : ℕ) → g.calls i c k ≡ idle

  pub data GroupReach : Group → Type 0 where
    begins : (g : Group) → IsInitial g → GroupReach g
    later : {g h : Group} → GroupReach g → GroupStep g h → GroupReach h
