-- ===== src/Raft/Replication/Entries.antt =====
-- The loop of `AppendEntries` over the entries of a request.
use native.Mathlib.Decide.{dec_lt, ℕ_discrete}
use kvstorage_base_raft_cpp.Base.{
  ℕ, suc, ◌+◌, ◌-◌, ◌≤◌, ◌<◌, ◌≡◌, ◌⊎◌, inl, inr, refl, sym, ap, ◌∙◌, some, List, [], ◌∷◌, ◌++◌,
  arith, get_elem?, set, length, length-append, length-set, get_elem?-some, get_elem?-append_left,
  get_elem?-append_self, get_elem?-set_self, get_elem?-set_ne, get_elem?-lt, sub_ℕ_le, pos,
}
use kvstorage_base_raft_cpp.Message.{LogEntry}
use kvstorage_base_raft_cpp.Raft.{Raft, get_slices_index_from_log_index}
use kvstorage_base_raft_cpp.Raft.Log.{
  IsConsecutive, IsConsecutive-append, IsConsecutive-set, get_last_log_index_lem,
}
use kvstorage_base_raft_cpp.Raft.Replication.{put_entry, put_entries}

-- The log `new`, which begins behind the snapshot `s` and comes of `old`, has an entry of the index
-- and the term of `e`: `e` itself, or the entry that `old` had there.
abbrev pub Holds : ℕ → List LogEntry → List LogEntry → LogEntry → Type 0
Holds s old new e =
    (f : LogEntry) × (get_elem? new (e.log_index - suc s) ≡ some f)
    × (f.log_term ≡ e.log_term)
    × ((f ≡ e) ⊎ (get_elem? old (e.log_index - suc s) ≡ some f))

abbrev pub AllHold : ℕ → List LogEntry → List LogEntry → List LogEntry → Type 0
AllHold s old new [] = Unit {0}
AllHold s old new (e ∷ es) = Holds s old new e × AllHold s old new es

-- The log `new` that comes of `old` by putting the entries of the indices `lo + 1` to `hi`.
pub record Puts (s lo hi : ℕ) (old new : List LogEntry) : Type 0 where
  pub consecutive : IsConsecutive s new
  pub longer : length old ≤ length new
  pub reaches : hi ≤ s + length new
  pub bounded : (s + length new ≡ hi) ⊎ (length new ≡ length old)
  pub kept_before :
      (k : ℕ) (e : LogEntry)
      → get_elem? old k ≡ some e
      → suc (s + k) ≤ lo
      → get_elem? new k ≡ some e
  pub kept_after :
      (k : ℕ) (e : LogEntry)
      → get_elem? old k ≡ some e
      → hi < suc (s + k)
      → get_elem? new k ≡ some e

module _ (r : Raft) (log : LogEntry) (h : IsConsecutive r.last_snapshot_include_index r.logs)
    (lo : ℕ) (at : log.log_index ≡ suc lo) (behind : r.last_snapshot_include_index ≤ lo)
    (near : lo ≤ r.last_snapshot_include_index + length r.logs) where
  abbrev PutsOne : List LogEntry → Type 0
  PutsOne new =
      Puts r.last_snapshot_include_index lo (suc lo) r.logs new
      × Holds r.last_snapshot_include_index r.logs new log

  Puts-append : lo ≡ r.last_snapshot_include_index + length r.logs → PutsOne (r.logs ++ log ∷ [])
  Puts-append e = (
    record {
      consecutive = IsConsecutive-append _ r.logs log h (omega arith);
      longer = omega (arith, length-append r.logs (log ∷ []));
      reaches = omega (arith, length-append r.logs (log ∷ []));
      bounded = inl (omega (arith, length-append r.logs (log ∷ [])));
      kept_before =
          λ k f p q. get_elem?-append_left r.logs (log ∷ []) k (get_elem?-lt r.logs k f p) ∙ p;
      kept_after =
          λ k f p q. get_elem?-append_left r.logs (log ∷ []) k (get_elem?-lt r.logs k f p) ∙ p;
    },
    (
      log,
      ap (get_elem? (r.logs ++ log ∷ [])) (omega arith) ∙ get_elem?-append_self r.logs log,
      refl,
      inl refl,
    ),
  )

  Puts-same :
      (old : LogEntry)
      → get_elem? r.logs (lo - r.last_snapshot_include_index) ≡ some old
      → old.log_term ≡ log.log_term
      → PutsOne r.logs
  Puts-same old found e = (
    record {
      consecutive = h;
      longer = omega arith;
      reaches = omega (arith, get_elem?-lt r.logs _ old found);
      bounded = inr refl;
      kept_before = λ k f p q. p;
      kept_after = λ k f p q. p;
    },
    (
      old,
      ap (get_elem? r.logs) (omega arith) ∙ found,
      e,
      inr (ap (get_elem? r.logs) (omega arith) ∙ found),
    ),
  )

  Puts-set :
      lo < r.last_snapshot_include_index + length r.logs
      → PutsOne (set r.logs (lo - r.last_snapshot_include_index) log)
  Puts-set lt = (
    record {
      consecutive = IsConsecutive-set _ r.logs _ log h (omega arith);
      longer = omega (arith, length-set r.logs i log);
      reaches = omega (arith, length-set r.logs i log);
      bounded = inr (length-set r.logs i log);
      kept_before = λ k f p q. get_elem?-set_ne r.logs i k log (omega arith) ∙ p;
      kept_after = λ k f p q. get_elem?-set_ne r.logs i k log (omega arith) ∙ p;
    },
    (
      log,
      ap (get_elem? (set r.logs i log)) (omega arith)
          ∙ get_elem?-set_self r.logs i log (omega arith),
      refl,
      inl refl,
    ),
  )
    where
      i : ℕ
      i = lo - r.last_snapshot_include_index

  -- An entry whose index lies behind the snapshot, at most one past the end, can be put.
  pub put_entry-Puts :
      (new : List LogEntry) × (put_entry r log ≡ some (record r { logs = new })) × PutsOne new
  unfolding put_entry
  put_entry-Puts = elim (dec_lt lo (r.last_snapshot_include_index + length r.logs)) [
    | no end ↦
        (r.logs ++ log ∷ [], ground (arith, get_last_log_index_lem r h), Puts-append (omega arith))
    | yes inside ↦ within (get_elem?-some r.logs i (omega arith)) inside
  ]
    where
      i : ℕ
      i = lo - r.last_snapshot_include_index

      place : get_slices_index_from_log_index r log.log_index ≡ pos i
      place =
          sub_ℕ_le log.log_index (suc r.last_snapshot_include_index) (omega arith)
          ∙ ap pos (omega arith)

      within :
          (old : LogEntry) × (get_elem? r.logs i ≡ some old)
          → lo < r.last_snapshot_include_index + length r.logs
          → (new : List LogEntry) × (put_entry r log ≡ some (record r { logs = new })) × PutsOne new
      within (old, found) inside = elim (ℕ_discrete old.log_term log.log_term) [
        | yes e ↦ (
          r.logs,
          ground (arith, get_last_log_index_lem r h, place, found),
          Puts-same old found e,
        )
        | no e ↦ (
          set r.logs i log,
          ground (arith, get_last_log_index_lem r h, place, found),
          Puts-set inside,
        )
      ]

Puts-step :
    (s lo n : ℕ) (old mid new : List LogEntry)
    → Puts s lo (suc lo) old mid
    → Puts s (suc lo) (suc lo + n) mid new
    → Puts s lo (lo + suc n) old new
Puts-step s lo n old mid new p q = record {
  consecutive = q.consecutive;
  longer = omega arith;
  reaches = omega arith;
  bounded = omega arith;
  kept_before = λ k e f g. q.kept_before k e (p.kept_before k e f g) (omega arith);
  kept_after = λ k e f g. q.kept_after k e (p.kept_after k e f (omega arith)) (omega arith);
}

Puts-refl :
    (s lo : ℕ) (logs : List LogEntry)
    → IsConsecutive s logs
    → lo ≤ s + length logs
    → Puts s lo (lo + 0) logs logs
Puts-refl s lo logs h near = record {
  consecutive = h;
  longer = omega arith;
  reaches = omega arith;
  bounded = inr refl;
  kept_before = λ k e f g. f;
  kept_after = λ k e f g. f;
}

Puts-Holds :
    (s lo hi : ℕ) (first old new : List LogEntry) (e : LogEntry)
    → Puts s lo hi old new
    → e.log_index ≡ lo
    → s < lo
    → Holds s first old e
    → Holds s first new e
Puts-Holds s lo hi first old new e p at behind (f, found, same, whence) =
    (f, p.kept_before (e.log_index - suc s) f found (omega arith), same, whence)

-- An entry behind those that were put was there before.
Puts-before :
    (s lo hi : ℕ) (old new : List LogEntry) (k : ℕ) (f : LogEntry)
    → Puts s lo hi old new
    → hi < suc (s + k)
    → get_elem? new k ≡ some f
    → get_elem? old k ≡ some f
Puts-before s lo hi old new k f p behind at =
    let inside = get_elem?-lt new k f at in
    let (g, found) = get_elem?-some old k (omega (arith, p.bounded)) in
    found ∙ sym (p.kept_after k g found behind) ∙ at

AllHold-before :
    (s lo hi : ℕ) (old mid new es : List LogEntry)
    → Puts s lo hi old mid
    → s ≤ hi
    → IsConsecutive hi es
    → AllHold s mid new es
    → AllHold s old new es
AllHold-before s lo hi old mid new es p behind order held =
    AllHold-behind hi es order (omega arith) held
  where
    AllHold-behind :
        (i : ℕ) (es : List LogEntry)
        → IsConsecutive i es
        → hi ≤ i
        → AllHold s mid new es
        → AllHold s old new es
    AllHold-behind i [] order far held = tt
    AllHold-behind i (e ∷ es) order far ((f, at, same, whence), held) = (
      (
        f,
        at,
        same,
        elim whence [
          | inl this ↦ inl this
          | inr there ↦
              inr (
                Puts-before s lo hi old mid (e.log_index - suc s) f p (omega (arith, order.0))
                  there)
        ],
      ),
      AllHold-behind (suc i) es order.1 (omega arith) held,
    )

-- The entries of a request whose first index is `lo + 1` can be put, if `lo` lies in the log.
pub put_entries-Puts :
    (es : List LogEntry) (r : Raft) (lo : ℕ)
    → IsConsecutive lo es
    → IsConsecutive r.last_snapshot_include_index r.logs
    → r.last_snapshot_include_index ≤ lo
    → lo ≤ r.last_snapshot_include_index + length r.logs
    → (new : List LogEntry) × (put_entries r es ≡ some (record r { logs = new }))
      × Puts r.last_snapshot_include_index lo (lo + length es) r.logs new
      × AllHold r.last_snapshot_include_index r.logs new es
unfolding put_entries
put_entries-Puts [] r lo c h behind near =
    (r.logs, refl, Puts-refl r.last_snapshot_include_index lo r.logs h near, tt)
put_entries-Puts (e ∷ es) r lo c h behind near =
    let (mid, put, (puts, held)) = put_entry-Puts r e h lo c.0 behind near in
    let (new, rest, puts', held') =
      put_entries-Puts es (record r { logs = mid }) (suc lo) c.1 puts.consecutive (omega arith)
        puts.reaches in
    (
      new,
      rw put rest,
      Puts-step _ lo (length es) r.logs mid new puts puts',
      (
        Puts-Holds _ (suc lo) _ r.logs mid new e puts' c.0 (omega arith) held,
        AllHold-before _ lo (suc lo) r.logs mid new es puts (omega arith) c.1 held',
      ),
    )
