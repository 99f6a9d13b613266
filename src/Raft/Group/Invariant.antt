-- ===== src/Raft/Group/Invariant.antt =====
-- What holds of a group of nodes: the votes that were cast, and what each round of an election has
-- counted of them.
use kvstorage_base_raft_cpp.Base.{
  ℕ, ◌+◌, ◌/◌, ◌≤◌, ◌<◌, ◌≡◌, ◌≢◌, sym, ◌∙◌, Bool, true, false, not, ◌&&◌, Option, none, some,
  arith, ◌==◌, if◌then◌else◌, length, count, count_mono, quorums_meet, inl, inr, Option-cases,
}
use native.Mathlib.Decide.{ℕ_discrete}
use kvstorage_base_raft_cpp.Message.{AppendEntriesArgs, RequestVoteArgs, RequestVoteReply}
use kvstorage_base_raft_cpp.Raft.{Raft, is_leader}
use kvstorage_base_raft_cpp.Raft.Log.{Inv}
use kvstorage_base_raft_cpp.Raft.Progress.{Kept, Onward}
use kvstorage_base_raft_cpp.Raft.Bystander.{KeepsRounds}
use kvstorage_base_raft_cpp.Raft.Posts.{HasAppend, IsWithin}
use kvstorage_base_raft_cpp.Raft.Election.{counter_at}
use kvstorage_base_raft_cpp.Raft.Group.{VoteCall, answered, asked, is_open, Group}

-- Whom a node has voted for in a term.
abbrev pub Ballots : Type 0
Ballots = ℕ → ℕ → Option ℕ

abbrev pub is_for : ℕ → Option ℕ → Bool
is_for i none = false
is_for i (some v) = v == i

-- The vote in `term` of node `m` is for `i`.
abbrev pub cast : Ballots → ℕ → ℕ → ℕ → Bool
cast b term i m = is_for i (b m term)

-- Votes stay.
abbrev pub Grows : Ballots → Ballots → Type 0
Grows b b' = (m term v : ℕ) → b m term ≡ some v → b' m term ≡ some v

-- The votes after node `j` has come to `q`.
abbrev pub advance : ℕ → Raft → Ballots → Ballots
advance j q b m term = if m == j && term == q.current_term then q.voted_for else b m term

-- A node that leads has the votes of a majority in its term.
abbrev pub HasMajority : ℕ → Ballots → ℕ → Raft → Type 0
HasMajority n b i r = is_leader r.status ≡ true → n / 2 + 1 ≤ count n (cast b r.current_term i)

pub record NodeOk (n : ℕ) (b : Ballots) (i : ℕ) (r : Raft) : Type 0 where
  pub in_order : Inv r
  pub named : r.me ≡ i
  pub of_peers : r.peers ≡ n
  pub on_record : b i r.current_term ≡ r.voted_for
  pub no_later : (term : ℕ) → r.current_term < term → b i term ≡ none
  pub elected : HasMajority n b i r
  pub posted :
      (k : ℕ) (args : AppendEntriesArgs) (c : ℕ)
      → HasAppend k args c r.rpc_tasks
      → IsWithin r args × (c < length r.counters) × (k < n) × (k ≢ i)

-- What an open call says of its round: the counter is at most the votes that are not still to be
-- counted.
pub record Asks (n : ℕ) (b : Ballots) (i c : ℕ) (r : Raft) (row : ℕ → VoteCall) (k : ℕ)
    (args : RequestVoteArgs) : Type 0 where
  pub to_node : k < n
  pub in_round : c < length r.counters
  pub apart : (m : ℕ) (other : AppendEntriesArgs) → ¬ HasAppend m other c r.rpc_tasks
  pub candidate : args.candidate_id ≡ i
  pub at_term : args.term ≤ r.current_term
  pub tally : counter_at r c ≤ count n (λ m. cast b args.term i m && not (is_open (row m)))

-- No call for a vote is open in the round.
abbrev pub IsQuiet : (ℕ → VoteCall) → Type 0
IsQuiet row = (k : ℕ) → is_open (row k) ≡ false

pub record RoundOk (n : ℕ) (b : Ballots) (i c : ℕ) (r : Raft) (row : ℕ → VoteCall) : Type 0 where
  pub asks :
      (k : ℕ) (args : RequestVoteArgs) → asked (row k) ≡ some args → Asks n b i c r row k args
  pub alike :
      (k m : ℕ) (args other : RequestVoteArgs)
      → asked (row k) ≡ some args
      → asked (row m) ≡ some other
      → args.term ≡ other.term
  pub answers :
      (k : ℕ) (args : RequestVoteArgs) (reply : RequestVoteReply)
      → row k ≡ answered args reply
      → reply.vote_granted ≡ true
      → (reply.term ≡ args.term) × (b k args.term ≡ some i)

pub record GroupOk (n : ℕ) (b : Ballots) (g : Group) : Type 0 where
  pub node : (i : ℕ) → i < n → NodeOk n b i (g.nodes i)
  pub round : (i c : ℕ) → i < n → RoundOk n b i c (g.nodes i) (g.calls i c)

pub cast-Grows :
    (b b' : Ballots)
    → Grows b b'
    → (term i m : ℕ) → cast b term i m ≡ true
    → cast b' term i m ≡ true
cast-Grows b b' grows term i m h = elim (Option-cases (b m term)) [
  | inl e ↦ absurd (ground (arith, e, h))
  | inr (v, e) ↦ ground (arith, e, h, grows m term v e)
]

-- Only one node has a majority in a term.
pub one_majority :
    (n : ℕ) (b : Ballots) (term i j : ℕ)
    → n / 2 + 1 ≤ count n (cast b term i)
    → n / 2 + 1 ≤ count n (cast b term j)
    → i ≡ j
one_majority n b term i j majority majority' =
    let (m, below, for_i, for_j) =
      quorums_meet n (cast b term i) (cast b term j) (omega (arith, majority, majority')) in
    ground (arith, for_i, for_j)

-- A node that comes to a state with a later vote, or the same.
module _ (n : ℕ) (b : Ballots) (j : ℕ) (r q : Raft) (ok : NodeOk n b j r) (kept : Kept r q) where
  pub advance-Grows : Grows b (advance j q b)
  advance-Grows m term v e = elim (ℕ_discrete m j) [
    | no other ↦ ground (arith, e)
    | yes here ↦ elim (ℕ_discrete term q.current_term) [
      | no earlier ↦ ground (arith, e)
      | yes now ↦
          let was : b j q.current_term ≡ some v = rw (← here, ← now) e in
          elim (ℕ_discrete r.current_term q.current_term) [
            | yes same ↦
                let voted : r.voted_for ≡ some v = sym ok.on_record ∙ rw same was in
                ground (arith, here, now, kept.vote_kept same v voted)
            | no newer ↦
                absurd
                  (ground (arith, was, ok.no_later q.current_term (omega (arith, kept.term_grows))))
          ]
    ]
  ]

  -- The other nodes are as they were.
  pub advance-NodeOk : (i : ℕ) (s : Raft) → i ≢ j → NodeOk n b i s → NodeOk n (advance j q b) i s
  advance-NodeOk i s other node = record {
    in_order = node.in_order;
    named = node.named;
    of_peers = node.of_peers;
    posted = node.posted;
    on_record = ground (arith, node.on_record);
    no_later = λ term later. ground (arith, node.no_later term later);
    elected = λ leads. omega (
      arith,
      node.elected leads,
      count_mono n (cast b s.current_term i) (cast (advance j q b) s.current_term i)
          (cast-Grows b (advance j q b) advance-Grows s.current_term i),
    );
  }

  pub moved-NodeOk :
      Onward r q
      → (x : ℕ) → KeepsRounds x r q
      → HasMajority n (advance j q b) j q
      → NodeOk n (advance j q b) j q
  moved-NodeOk onward x rounds leads = record {
    in_order = onward.inv_kept;
    named = rounds.same_me ∙ ok.named;
    of_peers = rounds.same_peers ∙ ok.of_peers;
    posted = λ k args c h. elim (rounds.posts k args c h) [
      | inl before ↦
          let (within, round, to_node, to_other) = ok.posted k args c before in
          (
            record {
              well_formed = within.well_formed;
              to_end = omega (arith, within.to_end, onward.log_grows);
            },
            omega (arith, round, rounds.counters_grow),
            to_node,
            to_other,
          )
      | inr new ↦ (
        record {
          well_formed = new.within.well_formed;
          to_end = omega (arith, new.within.to_end, onward.log_grows);
        },
        new.to,
        omega (arith, new.to_node, ok.of_peers),
        λ own. new.to_other (own ∙ sym ok.named),
      )
    ];
    on_record = ground arith;
    no_later = λ term later. ground (arith, ok.no_later term (omega (arith, kept.term_grows)));
    elected = leads;
  }
