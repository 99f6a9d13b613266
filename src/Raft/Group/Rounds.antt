-- ===== src/Raft/Group/Rounds.antt =====
-- What the steps of a group do to the rounds of an election.
use kvstorage_base_raft_cpp.Base.{
  ℕ, ◌+◌, ◌≤◌, ◌<◌, ◌≡◌, ◌≢◌, refl, sym, ap, ◌∙◌, inl, inr, Bool, true, not, ◌&&◌, some, arith,
  length, count, count_mono, count_more, update, update_self, update_other,
}
use native.Mathlib.Decide.{ℕ_discrete}
use kvstorage_base_raft_cpp.Message.{AppendEntriesArgs, RequestVoteArgs, RequestVoteReply}
use kvstorage_base_raft_cpp.Raft.{Raft}
use kvstorage_base_raft_cpp.Raft.Election.{counter_at}
use kvstorage_base_raft_cpp.Raft.Posts.{HasAppend, NewAppends}
use kvstorage_base_raft_cpp.Raft.Group.{VoteCall, waiting, answered, closed, asked, is_open}
use kvstorage_base_raft_cpp.Raft.Group.Invariant.{Ballots, cast, cast-Grows, Grows, RoundOk}

-- The votes of a round that are not still to be counted.
abbrev pub tallied : Ballots → ℕ → ℕ → (ℕ → VoteCall) → ℕ → Bool
tallied b term i row m = cast b term i m && not (is_open (row m))

-- With more votes, and no call of the row opened.
pub tallied-Grows :
    (n : ℕ) (b b' : Ballots) (term i : ℕ) (row row' : ℕ → VoteCall)
    → Grows b b'
    → ((m : ℕ) → is_open (row' m) ≡ true → is_open (row m) ≡ true)
    → count n (tallied b term i row) ≤ count n (tallied b' term i row')
tallied-Grows n b b' term i row row' grows opens =
    count_mono n (tallied b term i row) (tallied b' term i row')
      (λ m h. ground (arith, h, opens m, cast-Grows b b' grows term i m))

-- A round that begins no request to append before holds none afterwards.
posts-apart :
    (c : ℕ) (r q : Raft)
    → NewAppends r q
    → c < length r.counters
    → ((m : ℕ) (other : AppendEntriesArgs) → ¬ HasAppend m other c r.rpc_tasks)
    → (m : ℕ) (other : AppendEntriesArgs) → ¬ HasAppend m other c q.rpc_tasks
posts-apart c r q posts old apart m other h = elim (posts m other c h) [
  | inl before ↦ apart m other before
  | inr new ↦ absurd (omega (arith, new.from))
]

-- A round whose counter stays.
pub RoundOk-kept :
    (n : ℕ) (b b' : Ballots) (i c : ℕ) (r q : Raft) (row : ℕ → VoteCall)
    → Grows b b'
    → r.current_term ≤ q.current_term
    → length r.counters ≤ length q.counters
    → (c < length r.counters → counter_at q c ≡ counter_at r c)
    → NewAppends r q
    → RoundOk n b i c r row
    → RoundOk n b' i c q row
RoundOk-kept n b b' i c r q row grows terms counters count posts ok = record {
  asks = λ k args e.
      let asks = ok.asks k args e in
      record {
        to_node = asks.to_node;
        in_round = omega (arith, asks.in_round);
        apart = posts-apart c r q posts asks.in_round asks.apart;
        candidate = asks.candidate;
        at_term = omega (arith, asks.at_term);
        tally = omega (
          arith,
          asks.tally,
          count asks.in_round,
          tallied-Grows n b b' args.term i row row grows (λ m h. h),
        );
      };
  alike = ok.alike;
  answers = λ k args reply e granted.
      let (term, vote) = ok.answers k args reply e granted in (term, grows k args.term i vote);
}

module _ (row : ℕ → VoteCall) (k : ℕ) where
  asked-answered :
      (args : RequestVoteArgs) (reply : RequestVoteReply)
      → row k ≡ waiting args
      → (m : ℕ)
      → (asked (update k (answered args reply) row m) ≡ asked (row m))
        × (is_open (update k (answered args reply) row m) ≡ is_open (row m))
  asked-answered args reply at m = elim (ℕ_discrete m k) [
    | yes here ↦ rw (here, update_self k (answered args reply) row, at) (refl, refl)
    | no other ↦ rw (update_other k m (answered args reply) row other) (refl, refl)
  ]

  asked-closed :
      (m : ℕ) (args : RequestVoteArgs)
      → asked (update k closed row m) ≡ some args
      → (m ≢ k) × (asked (row m) ≡ some args)
  asked-closed m args e = elim (ℕ_discrete m k) [
    | yes here ↦ absurd (ground (arith, e))
    | no other ↦ (other, sym (ap asked (update_other k m closed row other)) ∙ e)
  ]

  pub open-closed : (m : ℕ) → is_open (update k closed row m) ≡ true → is_open (row m) ≡ true
  open-closed m e = ground (arith, e)

-- A call that is answered.
pub RoundOk-answered :
    (n : ℕ) (b : Ballots) (i c : ℕ) (r : Raft) (row : ℕ → VoteCall) (k : ℕ) (args : RequestVoteArgs)
    (reply : RequestVoteReply)
    → row k ≡ waiting args
    → (reply.vote_granted ≡ true → (reply.term ≡ args.term) × (b k args.term ≡ some i))
    → RoundOk n b i c r row
    → RoundOk n b i c r (update k (answered args reply) row)
RoundOk-answered n b i c r row k args reply at vote ok = record {
  asks = λ m other e.
      let asks = ok.asks m other (sym (same m).0 ∙ e) in
      record {
        to_node = asks.to_node;
        in_round = asks.in_round;
        apart = asks.apart;
        candidate = asks.candidate;
        at_term = asks.at_term;
        tally = omega (
          arith,
          asks.tally,
          tallied-Grows n b b other.term i row _ (λ m term v h. h) (λ m h. sym (same m).1 ∙ h),
        );
      };
  alike =
      λ l m first second e e'. ok.alike l m first second (sym (same l).0 ∙ e) (sym (same m).0 ∙ e');
  answers = λ m other reply' e granted. elim (ℕ_discrete m k) [
    | yes here ↦
        let same_call : answered args reply ≡ answered other reply' = ground (arith, e) in
        let inject : (args ≡ other) × (reply ≡ reply') = ground (arith, same_call) in
        rw (here, ← inject.0, ← inject.1) (vote (rw inject.1 granted))
    | no away ↦
        ok.answers m other reply' (sym (update_other k m (answered args reply) row away) ∙ e)
          granted
  ];
}
  where
    same :
        (m : ℕ)
        → (asked (update k (answered args reply) row m) ≡ asked (row m))
          × (is_open (update k (answered args reply) row m) ≡ is_open (row m))
    same = asked-answered row k args reply at

-- A call that is closed, with its vote counted if it brought one.
pub RoundOk-closed :
    (n : ℕ) (b : Ballots) (i c : ℕ) (r q : Raft) (row : ℕ → VoteCall) (k : ℕ)
    → r.current_term ≤ q.current_term
    → length r.counters ≤ length q.counters
    → NewAppends r q
    → ((m : ℕ) (args : RequestVoteArgs)
        → asked (row m) ≡ some args
        → counter_at q c ≤ count n (tallied b args.term i (update k closed row)))
    → RoundOk n b i c r row
    → RoundOk n b i c q (update k closed row)
RoundOk-closed n b i c r q row k terms counters posts tally ok = record {
  asks = λ m args e.
      let (other, e') = asked-closed row k m args e in
      let asks = ok.asks m args e' in
      record {
        to_node = asks.to_node;
        in_round = omega (arith, asks.in_round);
        apart = posts-apart c r q posts asks.in_round asks.apart;
        candidate = asks.candidate;
        at_term = omega (arith, asks.at_term);
        tally = tally m args e';
      };
  alike = λ l m first second e e'.
      ok.alike l m first second (asked-closed row k l first e).1 (asked-closed row k m second e').1;
  answers = λ m other reply e granted. elim (ℕ_discrete m k) [
    | yes here ↦ absurd (ground (arith, e))
    | no away ↦ ok.answers m other reply (sym (update_other k m closed row away) ∙ e) granted
  ];
}

-- A vote that comes back is no more still to be counted.
pub tallied_more :
    (n : ℕ) (b : Ballots) (term i k : ℕ) (row : ℕ → VoteCall)
    → k < n
    → is_open (row k) ≡ true
    → b k term ≡ some i
    → count n (tallied b term i row) + 1 ≤ count n (tallied b term i (update k closed row))
tallied_more n b term i k row below pending vote =
    count_more n k (tallied b term i row) (tallied b term i (update k closed row)) below
      (ground (arith, pending)) (ground (arith, vote))
      (λ m h. ground (arith, h, open-closed row k m))
