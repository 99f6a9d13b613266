-- ===== src/Raft/Group/Moved.antt =====
-- A step of a group is a step of one of its nodes, or of none.
use kvstorage_base_raft_cpp.Base.{
  ℕ, ◌<◌, ◌≡◌, ◌⊎◌, refl, inl, inr, ap, true, Option, none, length, update,
}
use kvstorage_base_raft_cpp.Message.{LogEntry}
use kvstorage_base_raft_cpp.Archive.{Archive}
use kvstorage_base_raft_cpp.Raft.{Raft}
use kvstorage_base_raft_cpp.Raft.Election.{request_vote, receive_vote, election_time_out}
use kvstorage_base_raft_cpp.Raft.Replication.{receive_append}
use kvstorage_base_raft_cpp.Raft.Bystander.{KeepsRounds}
use kvstorage_base_raft_cpp.Raft.Election.Bystander.{
  request_vote-Bystander, receive_vote-rounds, election-KeepsRounds,
}
use kvstorage_base_raft_cpp.Raft.Replication.Bystander.{
  append_entries-Bystander, receive_append-Bystander,
}
use kvstorage_base_raft_cpp.Raft.Node.Origin.{Only, Brings, made}
use kvstorage_base_raft_cpp.Raft.Node.Steps.{
  Step, votes, vote_arrives, election_timer, appends, append_arrives,
}
use kvstorage_base_raft_cpp.Raft.Group.{
  Group, GroupStep, elects, serves, returns, fails, moves, delivers, replies, asked, IsApart,
}
use kvstorage_base_raft_cpp.Raft.Group.Invariant.{Ballots, GroupOk}
use kvstorage_base_raft_cpp.Raft.Group.Apart.{IsApart-Bystander}

module _ ⦃a : Archive⦄ where
  IsApart-Brings :
      (P : LogEntry → Type 0) {r q : Raft} (step : Step r q) → IsApart step → Brings P step
  IsApart-Brings P (appends now args reply c e) apart = absurd apart
  IsApart-Brings P step apart = tt

  -- The entry that a step of a group makes.
  abbrev pub made_in : {n : ℕ} {g h : Group} → GroupStep n g h → Option LogEntry
  made_in (moves i inside step apart) = made step
  made_in step = none

  -- Node `place` makes a step. The entries that it takes stand in requests that a node has posted.
  pub record Moved {n : ℕ} {g h : Group} (whole : GroupStep n g h) : Type 1 where
    pub place : ℕ
    pub inside : place < n
    pub after : Raft
    pub step : Step (g.nodes place) after
    pub round : ℕ
    pub rounds : KeepsRounds round (g.nodes place) after
    pub brings : (P : LogEntry → Type 0) → ((i : ℕ) → i < n → Only P (g.nodes i)) → Brings P step
    pub same_made : made step ≡ made_in whole
    pub nodes_after : h.nodes ≡ update place after g.nodes

  pub GroupStep-Moved :
      (n : ℕ) (b : Ballots) {g h : Group}
      → GroupOk n b g
      → (step : GroupStep n g h) → (h.nodes ≡ g.nodes) ⊎ Moved step
  GroupStep-Moved n b {g} ok (elects i wake now inside other due) = inr (record {
    place = i;
    inside = inside;
    after = election_time_out wake now (g.nodes i);
    step = election_timer wake now refl;
    round = length (g.nodes i).counters;
    rounds = election-KeepsRounds wake now (g.nodes i) other due;
    brings = λ P h. tt;
    same_made = refl;
    nodes_after = refl;
  })
  GroupStep-Moved n b {g} ok (serves i c k now args inside at) = inr (record {
    place = k;
    inside = ((ok.round i c inside).asks k args (ap asked at)).to_node;
    after = (request_vote now args (g.nodes k)).1;
    step = votes now args refl;
    round = 0;
    rounds = (request_vote-Bystander 0 now args (g.nodes k)).rounds;
    brings = λ P h. tt;
    same_made = refl;
    nodes_after = refl;
  })
  GroupStep-Moved n b {g} ok (returns i c k now args reply inside at) = inr (record {
    place = i;
    inside = inside;
    after = receive_vote now c true reply (g.nodes i);
    step = vote_arrives now c true reply refl;
    round = c;
    rounds = (receive_vote-rounds now c true reply (g.nodes i)).0;
    brings = λ P h. tt;
    same_made = refl;
    nodes_after = refl;
  })
  GroupStep-Moved n b ok (fails i c k) = inl refl
  GroupStep-Moved n b {g} ok (moves i {q} inside step apart) = inr (record {
    place = i;
    inside = inside;
    after = q;
    step = step;
    round = 0;
    rounds = (IsApart-Bystander 0 step (ok.node i inside).in_order apart).rounds;
    brings = λ P h. IsApart-Brings P step apart;
    same_made = refl;
    nodes_after = refl;
  })
  GroupStep-Moved n b {g} ok (delivers i k c now args reply {q} inside below sent e) = inr (record {
    place = k;
    inside = below;
    after = q;
    step = appends now args reply ((ok.node i inside).posted k args c sent).0.well_formed e;
    round = 0;
    rounds = (append_entries-Bystander 0 now args (g.nodes k) reply q e).rounds;
    brings = λ P h. (h i inside).sent k args c sent;
    same_made = refl;
    nodes_after = refl;
  })
  GroupStep-Moved n b {g} ok (replies i k c args went reply inside sent) = inr (record {
    place = i;
    inside = inside;
    after = receive_append k args c went reply (g.nodes i);
    step =
        append_arrives k args c went reply ((ok.node i inside).posted k args c sent).0.to_end refl;
    round = c;
    rounds = (receive_append-Bystander k args c went reply (g.nodes i)).rounds;
    brings = λ P h. tt;
    same_made = refl;
    nodes_after = refl;
  })
