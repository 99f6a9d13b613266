-- ===== src/Raft/Replication/BackUp.antt =====
-- The position that `AppendEntries` asks for when the terms differ.
use native.Mathlib.Decide.{dec_lt, ℕ_discrete}
use kvstorage_base_raft_cpp.Base.{
  ℕ, zero, suc, ◌+◌, ◌-◌, ◌≤◌, ◌<◌, ◌≡◌, ◌≢◌, ◌⊎◌, inl, inr, refl, some, arith, length,
}
use kvstorage_base_raft_cpp.Raft.{Raft, get_log_term_from_log_index}
use kvstorage_base_raft_cpp.Raft.Log.{get_log_term_from_log_index-some}
use kvstorage_base_raft_cpp.Raft.Replication.{back_up}

-- Going down from `hi`, `n` is the first index from which on all entries before `hi` are of the term;
-- the way down ends at the commit index, and does not begin if `hi` is not behind it.
pub record BacksUp (r : Raft) (term hi n : ℕ) : Type 0 where
  pub within : n ≤ hi
  pub from_commit : (n ≡ hi) ⊎ (r.commit_index ≤ n)
  pub same_term : (j : ℕ) → n ≤ j → j < hi → get_log_term_from_log_index r j ≡ some term
  pub stops :
      (n ≤ r.commit_index)
      ⊎ ((t : ℕ) × (get_log_term_from_log_index r (n - 1) ≡ some t) × (t ≢ term))

module _ (r : Raft) (term : ℕ) (compacted : r.last_snapshot_include_index ≤ r.commit_index) where
  stops_here :
      (hi : ℕ)
      → (hi ≤ r.commit_index)
        ⊎ ((t : ℕ) × (get_log_term_from_log_index r (hi - 1) ≡ some t) × (t ≢ term))
      → BacksUp r term hi hi
  stops_here hi s = record {
    within = omega arith;
    from_commit = inl refl;
    same_term = λ j lo up. absurd (omega arith);
    stops = s;
  }

  goes_on :
      (idx n : ℕ)
      → r.commit_index ≤ idx
      → get_log_term_from_log_index r idx ≡ some term
      → BacksUp r term idx n
      → BacksUp r term (suc idx) n
  goes_on idx n open_entry same b = record {
    within = omega (arith, b.within);
    from_commit = inr (omega (arith, b.from_commit));
    same_term = λ j lo up. elim (ℕ_discrete j idx) [
      | yes e ↦ rw e same
      | no e ↦ b.same_term j lo (omega arith)
    ];
    stops = b.stops;
  }

  pub back_up_lem :
      (hi : ℕ)
      → hi ≤ suc (r.last_snapshot_include_index + length r.logs)
      → (n : ℕ) × (back_up r term hi ≡ some n) × BacksUp r term hi n
  unfolding back_up
  back_up_lem zero h = (0, refl, stops_here 0 (inl (omega arith)))
  back_up_lem (suc idx) h = step (back_up_lem idx (omega arith)) (dec_lt idx r.commit_index)
    where
      pred_lem : suc idx - 1 ≡ idx
      pred_lem = omega arith

      step :
          (n : ℕ) × (back_up r term idx ≡ some n) × BacksUp r term idx n
          → Dec (idx < r.commit_index)
          → (n : ℕ) × (back_up r term (suc idx) ≡ some n) × BacksUp r term (suc idx) n
      step (n, e, b) (yes below) = (suc idx, ground arith, stops_here (suc idx) (inl (omega arith)))
      step (n, e, b) (no above) =
          let (t, found) = get_log_term_from_log_index-some r idx (omega arith) (omega arith) in
          elim (ℕ_discrete t term) [
            | yes same ↦
                (n, ground (arith, found, e), goes_on idx n (omega arith) (rw (← same) found) b)
            | no differs ↦ (
              suc idx,
              ground (arith, found),
              stops_here (suc idx) (inr (t, rw pred_lem found, differs)),
            )
          ]
