-- ===== src/System/Asked.antt =====
-- Entries and messages that hold a command that a client has asked for.
use kvstorage_base_raft_cpp.Base.{
  ℕ, ◌<◌, ◌≡◌, refl, sym, ap, ◌∙◌, inl, inr, true, none, some, List, ◌∷◌, arith, get_elem?,
  All-get_elem?, Bool-cases, if◌then◌else◌, bytes_eq_instance,
}
use mathlib.Core.Path.{subst}
use kvstorage_base_raft_cpp.Message.{LogEntry, Op, ApplyMsg}
use kvstorage_base_raft_cpp.Archive.{Archive, IsArchive}
use kvstorage_base_raft_cpp.Raft.{Raft, is_leader}
use kvstorage_base_raft_cpp.Raft.Node.Frame.{entry_for}
use kvstorage_base_raft_cpp.Raft.Node.Channel.{IsMessageOf}
use kvstorage_base_raft_cpp.Raft.Node.Steps.{compacts, starts}
use kvstorage_base_raft_cpp.Raft.Group.{Group, GroupStep, moves}
use kvstorage_base_raft_cpp.Raft.Group.Moved.{made_in}
use kvstorage_base_raft_cpp.Raft.Group.Whole.{Whole, GroupStep-Whole}
use kvstorage_base_raft_cpp.Raft.Group.Invariant.{Ballots, GroupOk}
use kvstorage_base_raft_cpp.KvServer.Handed.{Among, Among-more}
use kvstorage_base_raft_cpp.System.{IsOfNodes}

module _ ⦃a : Archive⦄ where
  -- The entry holds a command that a client has asked for.
  abbrev pub IsAsked : List Op → LogEntry → Type 0
  IsAsked asked e = (op : Op) × Among op asked × (e.command ≡ a.save_op op)

  pub IsAsked-more :
      (x : Op) (asked : List Op) (e : LogEntry) → IsAsked asked e → IsAsked (x ∷ asked) e
  IsAsked-more x asked e (op, among, saved) = (op, Among-more x op asked among, saved)

  pub made_of_nodes :
      {n : ℕ} {g h : Group} (step : GroupStep n g h) → IsOfNodes step → made_in step ≡ none
  made_of_nodes (moves i inside (compacts index snapshot e) apart) of_nodes = refl
  made_of_nodes (moves i inside (starts command e) apart) of_nodes = absurd of_nodes
  made_of_nodes step of_nodes = refl

  -- The step of a group that makes at most an entry with a command of `asked`.
  pub step-Whole :
      (n : ℕ) (asked : List Op) {g h : Group}
      → (b : Ballots) × GroupOk n b g
      → ((i : ℕ) → i < n → Whole (IsAsked asked) (g.nodes i))
      → (step : GroupStep n g h) → ((e : LogEntry) → made_in step ≡ some e → IsAsked asked e)
      → (i : ℕ) → i < n
      → Whole (IsAsked asked) (h.nodes i)
  step-Whole n asked (b, in_order) all step new =
      GroupStep-Whole (IsAsked asked) n b in_order all step new

  pub start-IsAsked :
      (op : Op) (asked : List Op) (r : Raft) (e : LogEntry)
      → (if is_leader r.status then some (entry_for op r) else none) ≡ some e
      → IsAsked (op ∷ asked) e
  start-IsAsked op asked r e made_e = elim (Bool-cases (is_leader r.status)) [
    | inl leads ↦
        let same : entry_for op r ≡ e = ground (arith, made_e, leads) in
        (op, (0, refl), ap (λ (x : LogEntry). x.command) (sym same))
    | inr other ↦ absurd (ground (arith, made_e, other))
  ]

  pub message-Among :
      (asked : List Op) {n : ℕ} {nodes : ℕ → Raft}
      → IsArchive a
      → ((i : ℕ) → i < n → Whole (IsAsked asked) (nodes i))
      → (i p : ℕ) (message : ApplyMsg) → i < n
      → get_elem? (nodes i).apply_chan p ≡ some message
      → message.command_valid ≡ true
      → Among (a.load_op message.command) asked
  message-Among asked {nodes = nodes} archive written i p message inside at valid =
      let (log, (op, among, saved), same) =
        All-get_elem? (IsMessageOf (IsAsked asked)) (nodes i).apply_chan p message
          (written i inside).messages at valid in
      let loaded : a.load_op message.command ≡ op =
        ap a.load_op (same ∙ saved) ∙ archive.load-save_op op in
      subst (λ x. Among x asked) (sym loaded) among
