-- ===== src/Raft/Bystander.antt =====
-- What a handler leaves of the elections that a node holds: its name, the number of nodes, the
-- counters of its rounds, and that it is no leader.
use kvstorage_base_raft_cpp.Base.{
  ℕ, zero, suc, ◌≤◌, ◌<◌, ◌≡◌, ◌≢◌, ◌⊎◌, inl, inr, refl, sym, ap, Option, none, some, true, List,
  [], ◌∷◌, ◌++◌, ◌∙◌, arith, length, length-append, get_elem?, get_elem?-append_left, set,
  length-set, get_elem?-set_ne,
}
use mathlib.Core.List.{append-nil}
use kvstorage_base_raft_cpp.Raft.{Raft, is_leader}
use kvstorage_base_raft_cpp.Raft.Election.{counter_at}
use kvstorage_base_raft_cpp.Raft.Posts.{
  NewAppends, same-NewAppends, KeepsAppends, same-KeepsAppends,
}

-- The counter `x` is the one that the handler may change.
pub record KeepsRounds (x : ℕ) (r q : Raft) : Type 0 where
  pub same_me : q.me ≡ r.me
  pub same_peers : q.peers ≡ r.peers
  pub counters_grow : length r.counters ≤ length q.counters
  pub counts_kept : (c : ℕ) → c < length r.counters → c ≢ x → counter_at q c ≡ counter_at r c
  pub fresh_counts : (c : ℕ) → length r.counters ≤ c → counter_at q c ≤ 1
  pub posts : NewAppends r q
  pub keeps : KeepsAppends r q

-- The node is a leader afterwards only if it was one at the same term.
abbrev pub LeadsOn : Raft → Raft → Type 0
LeadsOn r q =
    is_leader q.status ≡ true → (is_leader r.status ≡ true) × (q.current_term ≡ r.current_term)

pub record Bystander (x : ℕ) (r q : Raft) : Type 0 where
  pub rounds : KeepsRounds x r q
  pub leads_on : LeadsOn r q

-- The name, the number of nodes, the counters and the posted tasks.
abbrev pub SameRounds : Raft → Raft → Type 0
SameRounds r q =
    (q.me ≡ r.me) × (q.peers ≡ r.peers) × (q.counters ≡ r.counters) × (q.rpc_tasks ≡ r.rpc_tasks)

pub counter_at-elem :
    (r q : Raft) (c d : ℕ)
    → get_elem? q.counters d ≡ get_elem? r.counters c
    → counter_at q d ≡ counter_at r c
counter_at-elem r q c d e = ap (λ (o : Option ℕ). elim o [ none ↦ 0 | some n ↦ n ]) e

pub counter_at-set :
    (cs : List ℕ) (c n : ℕ) (r : Raft) → counter_at (record r { counters = set cs c n }) c ≤ n
counter_at-set [] c n r = omega arith
counter_at-set (x ∷ cs) zero n r = omega arith
counter_at-set (x ∷ cs) (suc c) n r = counter_at-set cs c n r

pub counter_at-set_le :
    (r q : Raft) (c n : ℕ) → q.counters ≡ set r.counters c n → counter_at q c ≤ n
counter_at-set_le r q c n e = omega (
  arith,
  counter_at-elem (record r { counters = set r.counters c n }) q c c
      (ap (λ (cs : List ℕ). get_elem? cs c) e),
  counter_at-set r.counters c n r,
)

-- There is nothing behind the counters, and 1 at most in one that is added.
beyond_le :
    (cs : List ℕ) (c : ℕ) (r : Raft) → length cs ≤ c → counter_at (record r { counters = cs }) c ≤ 0
beyond_le [] c r h = omega arith
beyond_le (x ∷ cs) zero r h = absurd (omega arith)
beyond_le (x ∷ cs) (suc c) r h = beyond_le cs c r (omega arith)

added_le :
    (cs : List ℕ) (c : ℕ) (r : Raft)
    → length cs ≤ c
    → counter_at (record r { counters = cs ++ 1 ∷ [] }) c ≤ 1
added_le [] zero r h = omega arith
added_le [] (suc c) r h = omega arith
added_le (x ∷ cs) zero r h = absurd (omega arith)
added_le (x ∷ cs) (suc c) r h = added_le cs c r (omega arith)

fresh_counts_at :
    (cs : List ℕ) (bound c : ℕ) (q : Raft)
    → q.counters ≡ cs
    → counter_at (record q { counters = cs }) c ≤ bound
    → counter_at q c ≤ bound
fresh_counts_at cs bound c q e h = omega (
  arith,
  h,
  counter_at-elem (record q { counters = cs }) q c c (ap (λ (cs : List ℕ). get_elem? cs c) e),
)

-- The counters that a handler adds: one, which stands at 1, or none.
abbrev pub IsStart : List ℕ → Type 0
IsStart more = more ≡ [] ⊎ more ≡ 1 ∷ []

grown_counts :
    (more : List ℕ) (r q : Raft)
    → IsStart more
    → q.counters ≡ r.counters ++ more
    → (c : ℕ) → length r.counters ≤ c
    → counter_at q c ≤ 1
grown_counts more r q (inl none_added) e c h =
    let same : q.counters ≡ r.counters =
      e ∙ ap (λ cs. r.counters ++ cs) none_added ∙ append-nil r.counters in
    omega (arith, fresh_counts_at r.counters 0 c q same (beyond_le r.counters c q h))
grown_counts more r q (inr one) e c h =
    fresh_counts_at (r.counters ++ 1 ∷ []) 1 c q (e ∙ ap (λ cs. r.counters ++ cs) one)
      (added_le r.counters c q h)

pub SameRounds-KeepsRounds : (x : ℕ) {r q : Raft} → SameRounds r q → KeepsRounds x r q
SameRounds-KeepsRounds x {r} {q} (me, peers, counters, tasks) = record {
  same_me = me;
  same_peers = peers;
  counters_grow = omega (arith, ap (length {A = ℕ}) counters);
  counts_kept =
      λ c below other. counter_at-elem r q c c (ap (λ (cs : List ℕ). get_elem? cs c) counters);
  fresh_counts =
      λ c h. omega (arith, fresh_counts_at r.counters 0 c q counters (beyond_le r.counters c q h));
  posts = same-NewAppends r q tasks;
  keeps = same-KeepsAppends r q tasks;
}

-- A reply that is counted.
pub set-KeepsRounds :
    (x n : ℕ) {r q : Raft}
    → q.me ≡ r.me
    → q.peers ≡ r.peers
    → q.counters ≡ set r.counters x n
    → NewAppends r q
    → KeepsAppends r q
    → KeepsRounds x r q
set-KeepsRounds x n {r} {q} me peers counters posts keeps = record {
  posts = posts;
  keeps = keeps;
  fresh_counts = λ c h. omega (
    arith,
    fresh_counts_at (set r.counters x n) 0 c q counters
        (beyond_le (set r.counters x n) c q (omega (arith, length-set r.counters x n))),
  );
  same_me = me;
  same_peers = peers;
  counters_grow = omega (arith, ap (length {A = ℕ}) counters, length-set r.counters x n);
  counts_kept = λ c below other. counter_at-elem r q c c (
      ap (λ (cs : List ℕ). get_elem? cs c) counters
      ∙ get_elem?-set_ne r.counters x c n (λ e. other (sym e)));
}

-- A round that begins adds its counter.
pub grown-KeepsRounds :
    (x : ℕ) (more : List ℕ) {r q : Raft}
    → q.me ≡ r.me
    → q.peers ≡ r.peers
    → IsStart more
    → q.counters ≡ r.counters ++ more
    → NewAppends r q
    → KeepsAppends r q
    → KeepsRounds x r q
grown-KeepsRounds x more {r} {q} me peers start counters posts keeps = record {
  posts = posts;
  keeps = keeps;
  fresh_counts = grown_counts more r q start counters;
  same_me = me;
  same_peers = peers;
  counters_grow = omega (arith, ap (length {A = ℕ}) counters, length-append r.counters more);
  counts_kept = λ c below other. counter_at-elem r q c c (
      ap (λ (cs : List ℕ). get_elem? cs c) counters
      ∙ get_elem?-append_left r.counters more c below);
}

pub SameRounds-Bystander : (x : ℕ) {r q : Raft} → SameRounds r q → LeadsOn r q → Bystander x r q
SameRounds-Bystander x same on = record { rounds = SameRounds-KeepsRounds x same; leads_on = on }

pub Bystander-refl : (x : ℕ) (r : Raft) → Bystander x r r
Bystander-refl x r = SameRounds-Bystander x (refl, refl, refl, refl) (λ h. (h, refl))
