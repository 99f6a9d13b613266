-- ===== src/Raft/Group/Whole.antt =====
-- What holds of the entries of a node, of its requests to append and of what it has put into the
-- channel of its server, over a step of a group.
use kvstorage_base_raft_cpp.Base.{ℕ, ◌<◌, ◌≡◌, sym, some, update-all, All, All-mono, inl, inr, ◌∙◌}
use mathlib.Core.Path.{subst}
use kvstorage_base_raft_cpp.Message.{LogEntry}
use kvstorage_base_raft_cpp.Archive.{Archive}
use kvstorage_base_raft_cpp.Raft.{Raft}
use kvstorage_base_raft_cpp.Raft.Node.Origin.{Only, Only-mono, Only-posts, Step-All}
use kvstorage_base_raft_cpp.Raft.Node.Steps.{Step}
use kvstorage_base_raft_cpp.Raft.Node.Channel.{Messages, IsMessageOf, Step-Messages}
use kvstorage_base_raft_cpp.Raft.Group.{Group, GroupStep}
use kvstorage_base_raft_cpp.Raft.Group.Invariant.{Ballots, GroupOk}
use kvstorage_base_raft_cpp.Raft.Group.Moved.{Moved, GroupStep-Moved, made_in}

pub record Whole (P : LogEntry → Type 0) (r : Raft) : Type 0 where
  pub entries : Only P r
  pub messages : All (IsMessageOf P) r.apply_chan
  pub taken : All (IsMessageOf P) r.apply_msgs

pub Whole-mono :
    (P Q : LogEntry → Type 0) (r : Raft) → ((e : LogEntry) → P e → Q e) → Whole P r → Whole Q r
Whole-mono P Q r f h = record {
  entries = Only-mono P Q r f h.entries;
  messages =
      All-mono (IsMessageOf P) (IsMessageOf Q) r.apply_chan
        (λ message m. λ valid. let (e, p, same) = m valid in (e, f e p, same)) h.messages;
  taken =
      All-mono (IsMessageOf P) (IsMessageOf Q) r.apply_msgs
        (λ message m. λ valid. let (e, p, same) = m valid in (e, f e p, same)) h.taken;
}

module _ ⦃a : Archive⦄ (P : LogEntry → Type 0) (n : ℕ) (b : Ballots) {g h : Group}
    (ok : GroupOk n b g) (all : (i : ℕ) → i < n → Whole P (g.nodes i)) where
  Moved-Whole :
      (step : GroupStep n g h) (m : Moved step)
      → ((e : LogEntry) → made_in step ≡ some e → P e)
      → (i : ℕ) → i < n
      → Whole P (h.nodes i)
  Moved-Whole step m new =
      let inv = (ok.node m.place m.inside).in_order in
      let was = all m.place m.inside in
      let logs =
        Step-All P inv m.step was.entries.logged (m.brings P (λ i inside. (all i inside).entries))
          (λ e made_e. new e (sym m.same_made ∙ made_e)) in
      let sent : Whole P (g.nodes m.place) → Step (g.nodes m.place) m.after → Messages P m.after =
        λ w. λ step. Step-Messages P inv w.entries.logged (w.messages, w.taken) step in
      subst (λ (nodes : ℕ → Raft). (i : ℕ) → i < n → Whole P (nodes i)) (sym m.nodes_after)
        (update-all (λ i s. i < n → Whole P s) m.place m.after g.nodes
          (λ inside. record {
            entries = Only-posts P m.round (g.nodes m.place) m.after m.rounds was.entries logs;
            messages = (sent was m.step).0;
            taken = (sent was m.step).1;
          })
          (λ i away inside. all i inside))

  -- A step keeps it, if it holds of the entry that the step makes.
  pub GroupStep-Whole :
      (step : GroupStep n g h)
      → ((e : LogEntry) → made_in step ≡ some e → P e)
      → (i : ℕ) → i < n
      → Whole P (h.nodes i)
  GroupStep-Whole step new = elim (GroupStep-Moved n b ok step) [
    | inl same ↦ subst (λ (nodes : ℕ → Raft). (i : ℕ) → i < n → Whole P (nodes i)) (sym same) all
    | inr m ↦ Moved-Whole step m new
  ]
