-- ===== src/Raft/Group/Agreement.antt =====
-- The entries of a group's logs and of its requests to append agree.
use kvstorage_base_raft_cpp.Base.{
  ℕ, suc, ◌-◌, ◌<◌, ◌≡◌, ◌⊎◌, inl, inr, sym, ap, ◌∙◌, true, some, none, arith, All-get_elem?,
  get_elem?,
}
use kvstorage_base_raft_cpp.Message.{LogEntry, AppendEntriesArgs, AppendEntriesReply}
use kvstorage_base_raft_cpp.Archive.{Archive}
use kvstorage_base_raft_cpp.Raft.{Raft}
use kvstorage_base_raft_cpp.Raft.Posts.{HasAppend}
use kvstorage_base_raft_cpp.Raft.Replication.{append_entries}
use kvstorage_base_raft_cpp.Raft.Replication.Frame.{append_entries-Onward}
use kvstorage_base_raft_cpp.Raft.Replication.Origin.{append_entries-All}
use kvstorage_base_raft_cpp.Raft.Log.{get_elem?-IsConsecutive}
use kvstorage_base_raft_cpp.Raft.Replication.Stored.{success_stored}
use kvstorage_base_raft_cpp.Raft.Node.Origin.{Only, init-Only}
use kvstorage_base_raft_cpp.Raft.Group.{Group, GroupStep, IsInitial, GroupReach, begins, later}
use kvstorage_base_raft_cpp.Raft.Group.Invariant.{Ballots, GroupOk}
use kvstorage_base_raft_cpp.Raft.Group.Ledger.{Book, IsIn, Ledger, Ledger-Grows, Ledger-step}
use mathlib.Core.Path.{subst}
use kvstorage_base_raft_cpp.Raft.Group.Moved.{GroupStep-Moved}
use kvstorage_base_raft_cpp.Raft.Group.Steps.{GroupStep-GroupOk}
use kvstorage_base_raft_cpp.Raft.Group.Safety.{no_votes, IsInitial-GroupOk}

-- An entry of a node's log, or of a request to append that the node has posted.
abbrev pub Has : Raft → LogEntry → Type 0
Has r e =
    ((p : ℕ) × (get_elem? r.logs p ≡ some e))
    ⊎ ((k : ℕ) × (args : AppendEntriesArgs) × (c p : ℕ) × HasAppend k args c r.rpc_tasks
        × (get_elem? args.entries p ≡ some e))

Only-Has : (P : LogEntry → Type 0) (r : Raft) (e : LogEntry) → Only P r → Has r e → P e
Only-Has P r e h (inl (p, at)) = All-get_elem? P r.logs p e h.logged at
Only-Has P r e h (inr (k, args, c, p, sent, at)) =
    All-get_elem? P args.entries p e (h.sent k args c sent) at

no_commands : Book
no_commands term i = none

module _ ⦃a : Archive⦄ where
  module _ (n : ℕ) where
    GroupStep-Ledger :
        (b : Ballots) (book : Book) {g h : Group}
        → GroupOk n b g
        → Ledger n b book g.nodes
        → GroupStep n g h
        → (book' : Book) × Ledger n b book' h.nodes
    GroupStep-Ledger b book {g} ok ledger step = elim (GroupStep-Moved n b ok step) [
      | inl same ↦ (book, subst (Ledger n b book) (sym same) ledger)
      | inr m ↦
          let (book', ledger') =
            Ledger-step n b g ok book ledger m.place m.inside m.step m.round m.rounds
              (m.brings (IsIn book) ledger.written) in
          (book', subst (Ledger n b book') (sym m.nodes_after) ledger')
    ]

    IsInitial-Ledger : (g : Group) → IsInitial n g → Ledger n no_votes no_commands g.nodes
    unfolding no_commands
    IsInitial-Ledger g initial = record {
      written = λ i inside.
          let (now, raftstate, snapshot, chan, e) = initial.begun i inside in
          rw e (init-Only (IsIn no_commands) now n i raftstate snapshot chan);
      owned = λ term i command e. absurd (cc);
    }

    GroupReach-Ledger :
        {g : Group}
        → GroupReach n g
        → (b : Ballots) × (book : Book) × GroupOk n b g × Ledger n b book g.nodes
    GroupReach-Ledger (begins g initial) =
        (no_votes, no_commands, IsInitial-GroupOk n g initial, IsInitial-Ledger g initial)
    GroupReach-Ledger (later run step) =
        let (b, book, ok, ledger) = GroupReach-Ledger run in
        let (b', grows, ok') = GroupStep-GroupOk n b ok step in
        let (book', ledger') = GroupStep-Ledger b book ok ledger step in
        (b', book', ok', Ledger-Grows n b b' book' _ grows ledger')

    -- In any run of a group of `n` nodes that each begin with a new persister, in which no read is
    -- outside a log, entries of the same index and term are the same entry, command included,
    -- whether they stand in the logs of two nodes or in requests to append that these have posted.
    pub entries_agree :
        (g : Group) (i j : ℕ) (e f : LogEntry)
        → GroupReach n g
        → i < n
        → j < n
        → Has (g.nodes i) e
        → Has (g.nodes j) f
        → e.log_index ≡ f.log_index
        → e.log_term ≡ f.log_term
        → e ≡ f
    entries_agree g i j e f run inside inside' has has' index term =
        let (b, book, ok, ledger) = GroupReach-Ledger run in
        let one = Only-Has (IsIn book) (g.nodes i) e (ledger.written i inside) has in
        let two = Only-Has (IsIn book) (g.nodes j) f (ledger.written j inside') has' in
        ground (arith, one, two)

    -- In such a run, a node that accepts a request which another has posted holds every entry of the
    -- request afterwards, at its index and with its command.
    pub accepted_stored :
        (g : Group) (i k c now p : ℕ) (args : AppendEntriesArgs) (reply : AppendEntriesReply)
        (q : Raft) (e : LogEntry)
        → GroupReach n g
        → i < n
        → k < n
        → HasAppend k args c (g.nodes i).rpc_tasks
        → append_entries now args (g.nodes k) ≡ some (reply, q)
        → reply.success ≡ true
        → get_elem? args.entries p ≡ some e
        → (q.last_snapshot_include_index < e.log_index)
          × (get_elem? q.logs (e.log_index - suc q.last_snapshot_include_index) ≡ some e)
    accepted_stored g i k c now p args reply q e run inside below sent answers success at =
        let (b, book, ok, ledger) = GroupReach-Ledger run in
        let within = ((ok.node i inside).posted k args c sent).0 in
        let inv = (ok.node k below).in_order in
        let (same, behind, (f, found, term, whence)) =
          success_stored now args (g.nodes k) reply q inv within.well_formed answers success p e
            at in
        let inv' =
          append_entries-Onward now args (g.nodes k) reply q inv within.well_formed answers in
        let requested = (ledger.written i inside).sent k args c sent in
        let logged =
          append_entries-All (IsIn book) now args (g.nodes k) reply q
            (ledger.written k below).logged requested answers in
        let found' : get_elem? q.logs (e.log_index - suc q.last_snapshot_include_index) ≡ some f =
          rw same found in
        let position =
          get_elem?-IsConsecutive args.prev_log_index args.entries p e within.well_formed at in
        let place =
          get_elem?-IsConsecutive q.last_snapshot_include_index q.logs
            (e.log_index - suc q.last_snapshot_include_index) f inv'.inv_kept.consecutive found' in
        let one = All-get_elem? (IsIn book) args.entries p e requested at in
        let two = All-get_elem? (IsIn book) q.logs _ f logged found' in
        let index : f.log_index ≡ e.log_index = omega (arith, same, behind, position, place) in
        let agree : f ≡ e = ground (arith, one, two, index, term) in
        (omega (arith, same, behind, position), found' ∙ ap some agree)
