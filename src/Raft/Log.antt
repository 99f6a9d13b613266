-- ===== src/Raft/Log.antt =====
-- Positions in a node's log: entry `k` of `m_logs` has the index `m_lastSnapshotIncludeIndex + k + 1`.
use kvstorage_base_raft_cpp.Base.{
  ℕ, zero, suc, ◌+◌, ◌-◌, ◌≤◌, ◌<◌, ◌≡◌, sym, ap, some, List, [], ◌∷◌, ◌++◌, arith, get_elem?, set,
  drop, length, get_elem?-some, sub_ℕ_le,
}
use native.Mathlib.Decide.{dec_lt}
use kvstorage_base_raft_cpp.Message.{LogEntry}
use kvstorage_base_raft_cpp.Raft.{
  Raft, last_info, get_last_log_index, log_at, get_slices_index_from_log_index,
  get_log_term_from_log_index,
}

abbrev pub IsConsecutive : ℕ → List LogEntry → Type 0
IsConsecutive i [] = Unit {0}
IsConsecutive i (e ∷ es) = (e.log_index ≡ suc i) × IsConsecutive (suc i) es

-- What holds of a node between two handlers.
pub record Inv (r : Raft) : Type 0 where
  pub consecutive : IsConsecutive r.last_snapshot_include_index r.logs
  pub compacted : r.last_snapshot_include_index ≤ r.last_applied
  pub applied : r.last_applied ≤ r.commit_index
  pub committed : r.commit_index ≤ r.last_snapshot_include_index + length r.logs

pub last_info-IsConsecutive :
    (i t : ℕ) (es : List LogEntry) → IsConsecutive i es → (last_info i t es).0 ≡ i + length es
unfolding last_info
last_info-IsConsecutive i t [] h = omega arith
last_info-IsConsecutive i t (e ∷ es) h =
    rw (h.0) (omega (arith, last_info-IsConsecutive (suc i) e.log_term es h.1))

pub get_last_log_index_lem :
    (r : Raft)
    → IsConsecutive r.last_snapshot_include_index r.logs
    → get_last_log_index r ≡ r.last_snapshot_include_index + length r.logs
unfolding get_last_log_index
get_last_log_index_lem r h =
    last_info-IsConsecutive r.last_snapshot_include_index r.last_snapshot_include_term r.logs h

pub get_elem?-IsConsecutive :
    (i : ℕ) (es : List LogEntry) (k : ℕ) (e : LogEntry)
    → IsConsecutive i es
    → get_elem? es k ≡ some e
    → e.log_index ≡ suc (i + k)
get_elem?-IsConsecutive i [] k e h p = absurd (cc)
get_elem?-IsConsecutive i (x ∷ es) zero e h p = ground arith
get_elem?-IsConsecutive i (x ∷ es) (suc k) e h p =
    omega (arith, get_elem?-IsConsecutive (suc i) es k e h.1 p)

pub IsConsecutive-append :
    (i : ℕ) (es : List LogEntry) (e : LogEntry)
    → IsConsecutive i es
    → e.log_index ≡ suc (i + length es)
    → IsConsecutive i (es ++ e ∷ [])
IsConsecutive-append i [] e h p = (omega arith, tt)
IsConsecutive-append i (x ∷ es) e h p = (h.0, IsConsecutive-append (suc i) es e h.1 (omega arith))

pub IsConsecutive-set :
    (i : ℕ) (es : List LogEntry) (k : ℕ) (e : LogEntry)
    → IsConsecutive i es
    → e.log_index ≡ suc (i + k)
    → IsConsecutive i (set es k e)
IsConsecutive-set i [] k e h p = tt
IsConsecutive-set i (x ∷ es) zero e h p = (omega arith, h.1)
IsConsecutive-set i (x ∷ es) (suc k) e h p =
    (h.0, IsConsecutive-set (suc i) es k e h.1 (omega arith))

pub IsConsecutive-at :
    {i j : ℕ} (es : List LogEntry) → i ≡ j → IsConsecutive i es → IsConsecutive j es
IsConsecutive-at es e h = rw (sym e) h

pub IsConsecutive-drop :
    (n i : ℕ) (es : List LogEntry)
    → IsConsecutive i es
    → n ≤ length es
    → IsConsecutive (i + n) (drop n es)
IsConsecutive-drop zero i es h p = IsConsecutive-at es (omega arith) h
IsConsecutive-drop (suc n) i [] h p = absurd (omega arith)
IsConsecutive-drop (suc n) i (x ∷ es) h p =
    IsConsecutive-at (drop n es) (omega arith) (IsConsecutive-drop n (suc i) es h.1 (omega arith))

-- A position in the log, for an index behind the snapshot.
pub log_at_lem :
    (r : Raft) (i : ℕ)
    → r.last_snapshot_include_index < i
    → log_at r.logs (get_slices_index_from_log_index r i)
      ≡ get_elem? r.logs (i - suc r.last_snapshot_include_index)
log_at_lem r i h = ap (log_at r.logs) (sub_ℕ_le i (suc r.last_snapshot_include_index) h)

-- Every index from the snapshot to the last entry has a term.
pub get_log_term_from_log_index-some :
    (r : Raft) (i : ℕ)
    → r.last_snapshot_include_index ≤ i
    → i ≤ r.last_snapshot_include_index + length r.logs
    → (t : ℕ) × (get_log_term_from_log_index r i ≡ some t)
unfolding get_log_term_from_log_index
get_log_term_from_log_index-some r i lo hi = elim (dec_lt r.last_snapshot_include_index i) [
  | yes behind ↦
      let (e, found) =
        get_elem?-some r.logs (i - suc r.last_snapshot_include_index) (omega arith) in
      (e.log_term, ground (arith, log_at_lem r i behind, found))
  | no at ↦ (r.last_snapshot_include_term, ground arith)
]
