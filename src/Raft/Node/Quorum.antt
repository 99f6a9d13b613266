-- ===== src/Raft/Node/Quorum.antt =====
-- The votes of a group of nodes for two candidates of one term.
use kvstorage_base_raft_cpp.Base.{
  ℕ, ◌+◌, ◌<◌, ◌≡◌, ◌⊎◌, inl, inr, sym, ◌∙◌, Bool, true, some, arith, count, quorums_meet,
}
use kvstorage_base_raft_cpp.Archive.{Archive}
use kvstorage_base_raft_cpp.Raft.{Raft}
use kvstorage_base_raft_cpp.Raft.Log.{Inv}
use kvstorage_base_raft_cpp.Raft.Node.Steps.{Reach}
use kvstorage_base_raft_cpp.Raft.Node.Safety.{Reach-Kept}

-- The node is at the term and has voted for the candidate.
pub record HasVoted (term id : ℕ) (r : Raft) : Type 0 where
  pub at_term : r.current_term ≡ term
  pub for_candidate : r.voted_for ≡ some id

module _ ⦃a : Archive⦄ where
  same_vote :
      {r q : Raft} (term first second : ℕ)
      → Inv r
      → Reach r q
      → HasVoted term first r
      → HasVoted term second q
      → first ≡ second
  same_vote term first second inv run voted voted' =
      let kept = Reach-Kept inv run in
      let stayed = kept.vote_kept (voted.at_term ∙ sym voted'.at_term) first voted.for_candidate in
      ground (arith, stayed, voted'.for_candidate)

  -- Of `n` nodes, some have voted for one candidate of a term and some, each in a state before or
  -- behind the other in a run of the node, for a candidate of the same term. If the votes for both
  -- are more than `n`, as two majorities are, the candidates are the same.
  pub one_winner_per_term :
      (n term first second : ℕ) (at_first at_second : ℕ → Raft) (for_first for_second : ℕ → Bool)
      → ((i : ℕ) → Inv (at_first i) × Inv (at_second i))
      → ((i : ℕ) → Reach (at_first i) (at_second i) ⊎ Reach (at_second i) (at_first i))
      → ((i : ℕ) → i < n → for_first i ≡ true → HasVoted term first (at_first i))
      → ((i : ℕ) → i < n → for_second i ≡ true → HasVoted term second (at_second i))
      → n < count n for_first + count n for_second
      → first ≡ second
  one_winner_per_term n term first second s t p q inv runs voted voted' many =
      let (i, below, in_p, in_q) = quorums_meet n p q many in
      elim (runs i) [
        | inl run ↦
            same_vote term first second (inv i).0 run (voted i below in_p) (voted' i below in_q)
        | inr run ↦
            sym
              (same_vote term second first (inv i).1 run (voted' i below in_q) (voted i below in_p))
      ]
