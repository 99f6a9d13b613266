-- ===== src/Raft/Group/Ledger.antt =====
-- The commands that the leaders of a group have given out: one for an index in a term. Every entry in a
-- log or in a request to append is one of them.
use kvstorage_base_raft_cpp.Base.{
  ℕ, ◌+◌, ◌/◌, ◌≤◌, ◌<◌, ◌≡◌, inl, inr, sym, ap, true, ◌&&◌, Option, none, some, arith, ◌==◌,
  if◌then◌else◌, length, count, count_mono, update, update_self, update-all, Option-cases, Bytes,
  Bool-cases,
}
use mathlib.Core.Path.{subst}
use kvstorage_base_raft_cpp.Message.{LogEntry}
use kvstorage_base_raft_cpp.Archive.{Archive}
use kvstorage_base_raft_cpp.Raft.{Raft}
use kvstorage_base_raft_cpp.Raft.Progress.{Kept, Onward}
use kvstorage_base_raft_cpp.Raft.Bystander.{KeepsRounds}
use kvstorage_base_raft_cpp.Raft.Node.Steps.{Step}
use kvstorage_base_raft_cpp.Raft.Node.Safety.{Step-Kept, Step-Onward}
use kvstorage_base_raft_cpp.Raft.Node.Origin.{
  Only, Only-mono, Only-posts, made, made_lem, Brings, Brings-mono, Step-All,
}
use kvstorage_base_raft_cpp.Raft.Group.{Group}
use kvstorage_base_raft_cpp.Raft.Group.Invariant.{
  Ballots, cast, cast-Grows, Grows, GroupOk, one_majority,
}

-- The command that was given out in a term at an index.
abbrev pub Book : Type 0
Book = ℕ → ℕ → Option Bytes

abbrev pub IsIn : Book → LogEntry → Type 0
IsIn book e = book e.log_term e.log_index ≡ some e.command

abbrev pub enter : LogEntry → Book → Book
enter e book term i = if term == e.log_term && i == e.log_index then some e.command else book term i

-- The node has come to a term, and while it is there its log reaches an index.
abbrev pub Reaches : ℕ → ℕ → Raft → Type 0
Reaches term i r =
    (term ≤ r.current_term)
    × (r.current_term ≡ term → i ≤ r.last_snapshot_include_index + length r.logs)

Reaches-Kept :
    (term i : ℕ) (r q : Raft) → Kept r q → Onward r q → Reaches term i r → Reaches term i q
Reaches-Kept term i r q kept onward (came, here) = (
  omega (arith, kept.term_grows),
  λ at. omega (arith, kept.term_grows, onward.log_grows, here (omega (arith, kept.term_grows))),
)

-- Node `j` has a majority in a term, and its log reaches an index that it gave out then.
pub record Owner (n : ℕ) (b : Ballots) (nodes : ℕ → Raft) (term i j : ℕ) : Type 0 where
  pub within : j < n
  pub elected : n / 2 + 1 ≤ count n (cast b term j)
  pub reaches : Reaches term i (nodes j)

pub record Ledger (n : ℕ) (b : Ballots) (book : Book) (nodes : ℕ → Raft) : Type 0 where
  pub written : (i : ℕ) → i < n → Only (IsIn book) (nodes i)
  pub owned :
      (term i : ℕ) (command : Bytes)
      → book term i ≡ some command
      → (j : ℕ) × Owner n b nodes term i j

elected-Grows :
    (n : ℕ) (b b' : Ballots)
    → Grows b b'
    → (term j : ℕ) → n / 2 + 1 ≤ count n (cast b term j)
    → n / 2 + 1 ≤ count n (cast b' term j)
elected-Grows n b b' grows term j h =
    omega (arith, count_mono n (cast b term j) (cast b' term j) (cast-Grows b b' grows term j))

-- More votes change nothing.
pub Ledger-Grows :
    (n : ℕ) (b b' : Ballots) (book : Book) (nodes : ℕ → Raft)
    → Grows b b'
    → Ledger n b book nodes
    → Ledger n b' book nodes
Ledger-Grows n b b' book nodes grows ledger = record {
  written = ledger.written;
  owned = λ term i command e.
      let (j, o) = ledger.owned term i command e in
      (
        j,
        record {
          within = o.within;
          elected = elected-Grows n b b' grows term j o.elected;
          reaches = o.reaches;
        },
      );
}

-- Node `k` makes a step.
module _ ⦃a : Archive⦄ (n : ℕ) (b : Ballots) (g : Group) (ok : GroupOk n b g) (book : Book)
    (ledger : Ledger n b book g.nodes) (k : ℕ) (below : k < n) {q : Raft}
    (step : Step (g.nodes k) q) (x : ℕ) (rounds : KeepsRounds x (g.nodes k) q) where
  abbrev before : Raft
  before = g.nodes k

  abbrev after : ℕ → Raft
  after = update k q g.nodes

  Reaches-after : (term i j : ℕ) → Reaches term i (g.nodes j) → Reaches term i (after j)
  Reaches-after term i =
      let inv = (ok.node k below).in_order in
      update-all (λ j s. Reaches term i (g.nodes j) → Reaches term i s) k q g.nodes
        (Reaches-Kept term i before q (Step-Kept inv step) (Step-Onward inv step)) (λ j away h. h)

  Owner-after : (term i j : ℕ) → Owner n b g.nodes term i j → Owner n b after term i j
  Owner-after term i j o = record {
    within = o.within;
    elected = o.elected;
    reaches = Reaches-after term i j o.reaches;
  }

  -- The book after the step, with the entry that the step has made.
  written-after :
      (book' : Book)
      → ((e : LogEntry) → IsIn book e → IsIn book' e)
      → Brings (IsIn book) step
      → ((e : LogEntry) → made step ≡ some e → IsIn book' e)
      → (i : ℕ) → i < n
      → Only (IsIn book') (after i)
  written-after book' kept brings new =
      update-all (λ i s. i < n → Only (IsIn book') s) k q g.nodes
        (λ h.
          let was = Only-mono (IsIn book) (IsIn book') before kept (ledger.written k below) in
          Only-posts (IsIn book') x before q rounds was (
            Step-All (IsIn book') (ok.node k below).in_order step was.logged
              (Brings-mono (IsIn book) (IsIn book') step kept brings) new))
        (λ i away h. Only-mono (IsIn book) (IsIn book') (g.nodes i) kept (ledger.written i h))

  -- No command was given out at the index of a new entry in its term.
  vacant : (e : LogEntry) → made step ≡ some e → book e.log_term e.log_index ≡ none
  vacant e new = elim (Option-cases (book e.log_term e.log_index)) [
    | inl free ↦ free
    | inr (command, taken) ↦
        let (leads, term, at, same, end) = made_lem step e (ok.node k below).in_order new in
        let (j, o) = ledger.owned e.log_term e.log_index command taken in
        let majority = (ok.node k below).elected leads in
        let here : j ≡ k =
          one_majority n b e.log_term j k o.elected
            (omega (arith, majority, ap (λ t. count n (cast b t k)) term)) in
        let reaches : Reaches e.log_term e.log_index before =
          subst (λ m. Reaches e.log_term e.log_index (g.nodes m)) here o.reaches in
        absurd (omega (arith, at, reaches.1 (sym term)))
  ]

  entered :
      (e : LogEntry)
      → made step ≡ some e
      → (t i : ℕ) → (t == e.log_term && i == e.log_index) ≡ true
      → Owner n b after t i k
  entered e new t i here =
      let (leads, term, at, same, end) = made_lem step e (ok.node k below).in_order new in
      let at_term : t ≡ before.current_term = ground (arith, here, term) in
      let at_end : q.last_snapshot_include_index + length q.logs ≡ i = ground (arith, here, end) in
      record {
        within = below;
        elected =
            omega (arith, (ok.node k below).elected leads, ap (λ t. count n (cast b t k)) at_term);
        reaches =
            rw (update_self k q g.nodes) (omega (arith, at_term, same), λ h. omega (arith, at_end));
      }

  pub Ledger-step : Brings (IsIn book) step → (book' : Book) × Ledger n b book' after
  Ledger-step brings = elim (Option-cases (made step)) [
    | inl none_made ↦ (
      book,
      record {
        written = written-after book (λ e h. h) brings (λ e h. absurd (cc));
        owned = λ term i command e.
            let (j, o) = ledger.owned term i command e in (j, Owner-after term i j o);
      },
    )
    | inr (e, new) ↦
        let (leads, term, at, same, end) = made_lem step e (ok.node k below).in_order new in
        (
          enter e book,
          record {
            written =
                written-after (enter e book) (λ f h. ground (arith, h, vacant e new)) brings
                  (λ f h. let same : e ≡ f = cc in rw (← same) (ground arith));
            owned = λ t i command h. elim (Bool-cases (t == e.log_term && i == e.log_index)) [
              | inr old ↦
                  let (j, o) = ledger.owned t i command (ground (arith, h, old)) in
                  (j, Owner-after t i j o)
              | inl here ↦ (k, entered e new t i here)
            ];
          },
        )
  ]
