-- ===== src/Raft/Group/Returns.antt =====
-- A call for a vote that has returned.
use kvstorage_base_raft_cpp.Base.{
  ℕ, ◌+◌, ◌/◌, ◌≤◌, ◌<◌, ◌≡◌, ◌⊎◌, ap, inl, inr, true, some, arith, count, count_mono, update,
}
use kvstorage_base_raft_cpp.Message.{RequestVoteArgs, RequestVoteReply}
use kvstorage_base_raft_cpp.Raft.{Raft}
use kvstorage_base_raft_cpp.Raft.Election.{counter_at}
use kvstorage_base_raft_cpp.Raft.Election.Bystander.{Counts}
use kvstorage_base_raft_cpp.Raft.Group.{Group, answered, closed, asked, is_open}
use kvstorage_base_raft_cpp.Raft.Group.Invariant.{
  Ballots, cast, cast-Grows, Grows, GroupOk, HasMajority,
}
use kvstorage_base_raft_cpp.Raft.Group.Rounds.{tallied, tallied-Grows, tallied_more, open-closed}

module _ (n : ℕ) (b : Ballots) (g : Group) (ok : GroupOk n b g) where
  -- A vote that comes back makes up for the counter's one more.
  vote_gained :
      (i c k : ℕ) (args : RequestVoteArgs) (reply : RequestVoteReply)
      → i < n
      → g.calls i c k ≡ answered args reply
      → reply.vote_granted ≡ true
      → counter_at (g.nodes i) c + 1
        ≤ count n (tallied b args.term i (update k closed (g.calls i c)))
  vote_gained i c k args reply inside at granted =
      let round = ok.round i c inside in
      let asks = round.asks k args (ap asked at) in
      omega (
        arith,
        asks.tally,
        tallied_more n b args.term i k (g.calls i c) asks.to_node (ap is_open at)
            (round.answers k args reply at granted).1,
      )

  -- The counter of a round whose call has returned, against the votes of any call still open.
  pub returned-tally :
      (b' : Ballots) (i c k : ℕ) (args : RequestVoteArgs) (reply : RequestVoteReply) (q : Raft)
      → Grows b b'
      → i < n
      → g.calls i c k ≡ answered args reply
      → ((counter_at q c ≤ counter_at (g.nodes i) c)
          ⊎ (counter_at q c ≤ counter_at (g.nodes i) c + 1) × (reply.vote_granted ≡ true))
      → (m : ℕ) (other : RequestVoteArgs) → asked (g.calls i c m) ≡ some other
      → counter_at q c ≤ count n (tallied b' other.term i (update k closed (g.calls i c)))
  returned-tally b' i c k args reply q grows inside at counted m other e =
      let row = update k closed (g.calls i c) in
      let round = ok.round i c inside in
      let kept = tallied-Grows n b b' other.term i row row grows (λ m h. h) in
      elim counted [
        | inl same ↦
            let opens = open-closed (g.calls i c) k in
            omega (
              arith,
              same,
              (round.asks m other e).tally,
              tallied-Grows n b b' other.term i (g.calls i c) row grows opens,
            )
        | inr (more, granted) ↦
            let alike = round.alike k m args other (ap asked at) e in
            omega (
              arith,
              more,
              vote_gained i c k args reply inside at granted,
              ap (λ term. count n (tallied b term i row)) alike,
              kept,
            )
      ]

  -- A node that a vote makes the leader has a majority.
  pub returned-HasMajority :
      (b' : Ballots) (i c k : ℕ) (args : RequestVoteArgs) (reply : RequestVoteReply) (q : Raft)
      → Grows b b'
      → i < n
      → g.calls i c k ≡ answered args reply
      → Counts c reply (g.nodes i) q
      → HasMajority n b' i q
  returned-HasMajority b' i c k args reply q grows inside at counts leads =
      let node = ok.node i inside in
      let (term, vote) = (ok.round i c inside).answers k args reply at counts.vote in
      let same : args.term ≡ q.current_term =
        omega (arith, term, counts.at_term, counts.same_term) in
      let later = cast-Grows b b' grows q.current_term i in
      let kept = count_mono n (cast b q.current_term i) (cast b' q.current_term i) later in
      elim (counts.leads leads) [
        | inl led ↦
            let was = ap (λ term. count n (cast b term i)) counts.same_term in
            omega (arith, node.elected led, was, kept)
        | inr enough ↦
            let row = update k closed (g.calls i c) in
            let at_once = ap (λ term. count n (tallied b term i row)) same in
            let of_votes =
              count_mono n (tallied b q.current_term i row) (cast b q.current_term i)
                (λ m h. ground (arith, h)) in
            let half = ap (λ (m : ℕ). m / 2) node.of_peers in
            omega (
              arith,
              enough,
              half,
              vote_gained i c k args reply inside at counts.vote,
              at_once,
              of_votes,
              kept,
            )
      ]
