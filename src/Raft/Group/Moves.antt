-- ===== src/Raft/Group/Moves.antt =====
-- A group in which one node has come to a new state.
use native.Mathlib.Decide.{dec_lt, ℕ_discrete}
use kvstorage_base_raft_cpp.Base.{
  ℕ, ◌<◌, ◌≡◌, ◌≢◌, refl, inl, some, ap, arith, length, count, count_mono, update, update_self,
  update_other, update-all,
}
use kvstorage_base_raft_cpp.Message.{RequestVoteArgs}
use kvstorage_base_raft_cpp.Raft.{Raft}
use kvstorage_base_raft_cpp.Raft.Progress.{Kept, Onward}
use kvstorage_base_raft_cpp.Raft.Bystander.{KeepsRounds, LeadsOn}
use kvstorage_base_raft_cpp.Raft.Group.{VoteCall, asked, Group, set_row}
use kvstorage_base_raft_cpp.Raft.Group.Invariant.{
  Ballots, cast, cast-Grows, Grows, advance, advance-Grows, advance-NodeOk, moved-NodeOk, NodeOk,
  HasMajority, RoundOk, GroupOk, IsQuiet,
}
use kvstorage_base_raft_cpp.Raft.Group.Rounds.{RoundOk-kept}

-- What holds of the row that was set and of the others holds of all.
pub set_row-all :
    (P : ℕ → ℕ → (ℕ → VoteCall) → Type 0) (i c : ℕ) (row : ℕ → VoteCall)
    (calls : ℕ → ℕ → ℕ → VoteCall)
    → P i c row
    → ((j d : ℕ) → ¬ ((j ≡ i) × (d ≡ c)) → P j d (calls j d))
    → (j d : ℕ) → P j d (set_row i c row calls j d)
set_row-all P i c row calls here there =
    update-all (λ j rows. (d : ℕ) → P j d (rows d)) i (update c row (calls i)) calls
      (update-all (P i) c row (calls i) here (λ d h. there i d (λ e. h e.1)))
      (λ j h d. there j d (λ e. h e.0))

pub IsQuiet-RoundOk :
    (n : ℕ) (b : Ballots) (i c : ℕ) (r : Raft) (row : ℕ → VoteCall)
    → IsQuiet row
    → RoundOk n b i c r row
IsQuiet-RoundOk n b i c r row quiet = record {
  asks = λ k args e. absurd (asked_open k args e);
  alike = λ k m args other e e'. absurd (asked_open k args e);
  answers = λ k args reply e granted. absurd (ground (arith, e, quiet k));
}
  where
    asked_open : (k : ℕ) (args : RequestVoteArgs) → asked (row k) ≡ some args → ⊥
    asked_open k args e = ground (arith, e, quiet k)

module _ (n : ℕ) (b : Ballots) (g : Group) (ok : GroupOk n b g) (j : ℕ) (below : j < n) (q : Raft)
    (kept : Kept (g.nodes j) q) where
  abbrev pub votes_after : Ballots
  votes_after = advance j q b

  pub votes_grow : Grows b votes_after
  votes_grow = advance-Grows n b j (g.nodes j) q (ok.node j below) kept

  -- A leader that was one at the term before keeps its majority.
  pub LeadsOn-elected : LeadsOn (g.nodes j) q → HasMajority n votes_after j q
  LeadsOn-elected on leads =
      let (led, term) = on leads in
      omega (
        arith,
        (ok.node j below).elected led,
        count_mono n (cast b (g.nodes j).current_term j)
            (cast votes_after (g.nodes j).current_term j)
            (cast-Grows b votes_after votes_grow (g.nodes j).current_term j),
        ap (λ term. count n (cast votes_after term j)) term,
      )

  module _ (x : ℕ) (rounds : KeepsRounds x (g.nodes j) q) where
    -- The rounds of the other nodes, and of this node but for `x`.
    pub moved-RoundOk :
        (i c : ℕ)
        → i < n
        → (i ≡ j → c < length (g.nodes j).counters → c ≢ x)
        → RoundOk n votes_after i c (update j q g.nodes i) (g.calls i c)
    moved-RoundOk i c inside other = elim (ℕ_discrete i j) [
      | yes here ↦
          rw (here, update_self j q g.nodes)
            (RoundOk-kept n b votes_after j c (g.nodes j) q (g.calls j c) votes_grow kept.term_grows
              rounds.counters_grow (λ d. rounds.counts_kept c d (other here d)) rounds.posts
              (ok.round j c below))
      | no away ↦ rw (update_other j i q g.nodes away) (
          RoundOk-kept n b votes_after i c (g.nodes i) (g.nodes i) (g.calls i c) votes_grow
            (omega arith) (omega arith) (λ d. refl) (λ k args d h. inl h) (ok.round i c inside))
    ]

    module _ (onward : Onward (g.nodes j) q) (leads : HasMajority n votes_after j q) where
      moved-nodes : (i : ℕ) → i < n → NodeOk n votes_after i (update j q g.nodes i)
      moved-nodes =
          update-all (λ i r. i < n → NodeOk n votes_after i r) j q g.nodes
            (λ h. moved-NodeOk n b j (g.nodes j) q (ok.node j below) kept onward x rounds leads)
            (λ i away h.
              advance-NodeOk n b j (g.nodes j) q (ok.node j below) kept i (g.nodes i) away
                (ok.node i h))

      -- No call changes.
      pub moved-GroupOk :
          (x < length (g.nodes j).counters → IsQuiet (g.calls j x))
          → GroupOk n votes_after (record g { nodes = update j q g.nodes })
      moved-GroupOk quiet = record {
        node = moved-nodes;
        round = λ i c inside. elim (ℕ_discrete i j) [
          | no away ↦ moved-RoundOk i c inside (λ e. absurd (away e))
          | yes here ↦ elim (ℕ_discrete c x) [
            | no other ↦ moved-RoundOk i c inside (λ e d. other)
            | yes same ↦ elim (dec_lt c (length (g.nodes j).counters)) [
              | no beyond ↦ moved-RoundOk i c inside (λ e d. absurd (beyond d))
              | yes d ↦
                  rw (here, same)
                    (IsQuiet-RoundOk n votes_after j x _ (g.calls j x) (quiet (rw (← same) d)))
            ]
          ]
        ];
      }

      -- The calls of one round change.
      pub moved_and_called-GroupOk :
          (i c : ℕ) (row : ℕ → VoteCall)
          → (i < n → RoundOk n votes_after i c (update j q g.nodes i) row)
          → ((k d : ℕ) → ¬ ((k ≡ i) × (d ≡ c)) → k ≡ j → d < length (g.nodes j).counters → d ≢ x)
          → GroupOk n votes_after
              (record { nodes = update j q g.nodes; calls = set_row i c row g.calls })
      moved_and_called-GroupOk i c row here others = record {
        node = moved-nodes;
        round =
            set_row-all (λ k d cs. k < n → RoundOk n votes_after k d (update j q g.nodes k) cs) i c
              row g.calls here (λ k d h inside. moved-RoundOk k d inside (others k d h));
      }
