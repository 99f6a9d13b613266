-- ===== src/Raft/Group/Begin.antt =====
-- A round of an election as it begins.
use kvstorage_base_raft_cpp.Base.{
  ℕ, zero, suc, ◌+◌, ◌<◌, ◌≡◌, ◌≢◌, ◌⊎◌, inl, inr, refl, ◌&&◌, ◌==◌, false, drop,
  drop-append_length, Bool-cases, sym, ap, ◌∙◌, true, some, [], ◌∷◌, ◌++◌, arith, length,
  length-append, get_elem?-append_self, count_one, List,
}
use kvstorage_base_raft_cpp.Message.{AppendEntriesArgs, RequestVoteArgs, RequestVoteReply}
use kvstorage_base_raft_cpp.Raft.Posts.{HasAppend}
use kvstorage_base_raft_cpp.Raft.{Raft}
use kvstorage_base_raft_cpp.Raft.Election.{counter_at}
use kvstorage_base_raft_cpp.Raft.Election.Round.{vote_tasks}
use kvstorage_base_raft_cpp.Raft.Group.{
  VoteCall, idle, waiting, answered, asked, is_open, calls_of, new_tasks,
}
use kvstorage_base_raft_cpp.Raft.Group.Invariant.{Ballots, RoundOk}
use kvstorage_base_raft_cpp.Raft.Group.Rounds.{tallied}

-- A call of a round that begins: none yet, or the round's request to another node.
abbrev pub IsFresh : RequestVoteArgs → ℕ → ℕ → VoteCall → Type 0
IsFresh args n k call = (call ≡ idle) ⊎ (call ≡ waiting args) × (k < n) × (k ≢ args.candidate_id)

calls_of-IsFresh :
    (args : RequestVoteArgs) (now c n i k m : ℕ)
    → m ≡ i + n
    → IsFresh args m k (calls_of c (vote_tasks args now c n i) k)
calls_of-IsFresh args now c zero i k m ends = inl refl
calls_of-IsFresh args now c (suc n) i k m ends =
    let rest : IsFresh args m k (calls_of c (vote_tasks args now c n (i + 1)) k) =
      calls_of-IsFresh args now c n (i + 1) k m (omega (arith, ends)) in
    elim (Bool-cases (i == args.candidate_id)) [
      | inl own ↦ rw own rest
      | inr other ↦ elim (Bool-cases (i == k && c == c)) [
        | inl here ↦ rw other (
            rw (calls_of, here)
              (inr (refl, ground (arith, here, ends), ground (arith, here, other))))
        | inr away ↦ rw other (rw (calls_of, away) rest)
      ]
    ]

pub new_tasks-IsFresh :
    (args : RequestVoteArgs) (now c n k : ℕ) (r q : Raft)
    → q.rpc_tasks ≡ r.rpc_tasks ++ vote_tasks args now c n 0
    → IsFresh args n k (calls_of c (new_tasks r q) k)
new_tasks-IsFresh args now c n k r q tasks =
    let new : new_tasks r q ≡ vote_tasks args now c n 0 =
      ap (drop (length r.rpc_tasks)) tasks ∙ drop-append_length r.rpc_tasks _ in
    rw new (calls_of-IsFresh args now c n 0 k n (omega arith))

module _ (args : RequestVoteArgs) (n : ℕ) (row : ℕ → VoteCall)
    (fresh : (k : ℕ) → IsFresh args n k (row k)) where
  fresh-asked :
      (k : ℕ) (other : RequestVoteArgs) → asked (row k) ≡ some other → (args ≡ other) × (k < n)
  fresh-asked k other e = elim (fresh k) [
    | inl none_yet ↦ absurd (ground (arith, e, none_yet))
    | inr (call, to, away) ↦ ground (arith, e, call, to)
  ]

  fresh-own : is_open (row args.candidate_id) ≡ false
  fresh-own = elim (fresh args.candidate_id) [
    | inl none_yet ↦ ap is_open none_yet
    | inr (call, to, away) ↦ absurd (away refl)
  ]

  fresh-unanswered :
      (k : ℕ) (other : RequestVoteArgs) (reply : RequestVoteReply) → row k ≢ answered other reply
  fresh-unanswered k other reply e = elim (fresh k) [
    | inl none_yet ↦ absurd (ground (arith, e, none_yet))
    | inr (call, to, away) ↦ absurd (ground (arith, e, call))
  ]

  -- The counter stands at 1, the vote of the candidate for itself.
  pub begun-RoundOk :
      (b : Ballots) (i : ℕ) (before : List ℕ) (r : Raft)
      → i < n
      → args.candidate_id ≡ i
      → args.term ≡ r.current_term
      → r.counters ≡ before ++ 1 ∷ []
      → b i r.current_term ≡ some i
      → ((m : ℕ) (other : AppendEntriesArgs) → ¬ HasAppend m other (length before) r.rpc_tasks)
      → RoundOk n b i (length before) r row
  begun-RoundOk b i before r inside me term counters own apart = record {
    asks = λ k other e.
        let (same, to) = fresh-asked k other e in
        rw (← same) (record {
          to_node = to;
          in_round = omega (arith, ap (length {A = ℕ}) counters, length-append before (1 ∷ []));
          candidate = me;
          apart = apart;
          at_term = omega (arith, term);
          tally = omega (
            arith,
            first,
            count_one n i (tallied b args.term i row) inside (own_tallied (ap (b i) term ∙ own)),
          );
        });
    alike = λ k m one two e e'.
        let (same, to) = fresh-asked k one e in
        let (same', to') = fresh-asked m two e' in
        sym (ap (λ (x : RequestVoteArgs). x.term) same)
        ∙ ap (λ (x : RequestVoteArgs). x.term) same';
    answers = λ k other reply e granted. absurd (fresh-unanswered k other reply e);
  }
    where
      first : counter_at r (length before) ≡ 1
      first = ground (arith, counters, get_elem?-append_self before 1)

      own_tallied : b i args.term ≡ some i → tallied b args.term i row i ≡ true
      own_tallied vote = ground (arith, vote, ap (λ k. is_open (row k)) me, fresh-own)
