-- ===== src/Raft/Election/Majority.antt =====
-- Who becomes the leader: the votes of a round are counted.
use native.Mathlib.Decide.{dec_lt}
use kvstorage_base_raft_cpp.Base.{
  get_elem?-set_self, length-set, ◌<◌, length, ◌∙◌, ℕ, ◌+◌, ◌/◌, ◌≤◌, ◌≡◌, ap, inl, inr, Bool, true,
  false, List, [], ◌∷◌, arith, set, ◌&&◌, if◌then◌else◌, Bool-cases,
}
use kvstorage_base_raft_cpp.Message.{RequestVoteReply}
use kvstorage_base_raft_cpp.Archive.{Archive}
use kvstorage_base_raft_cpp.Raft.{Raft, is_leader, commit_with_timeout}
use kvstorage_base_raft_cpp.Raft.Store.{persist}
use kvstorage_base_raft_cpp.Raft.Bystander.{counter_at-set}
use kvstorage_base_raft_cpp.Raft.Election.{counter_at, become_leader, count_vote, receive_vote}

-- A reply of the round that node `candidate` began, with the time at which it is dealt with.
pub record Arrival : Type 0 where
  pub time : ℕ
  pub ok : Bool
  pub reply : RequestVoteReply

-- The replies of the round whose counter is `c`, as they are dealt with.
unfoldable pub receive_votes : ⦃a : Archive⦄ → ℕ → List Arrival → Raft → Raft
receive_votes c [] r = r
receive_votes c (v ∷ vs) r = receive_votes c vs (receive_vote v.time c v.ok v.reply r)

-- How many of them carry a vote.
abbrev pub granted : List Arrival → ℕ
granted [] = 0
granted (v ∷ vs) = (if v.ok && v.reply.vote_granted then 1 else 0) + granted vs

-- What one reply may do: it changes neither the number of nodes nor, without a vote, the count.
pub record Counted (c n : ℕ) (v : Arrival) (r q : Raft) : Type 0 where
  pub same_peers : q.peers ≡ r.peers
  pub count :
      is_leader q.status ≡ false
      → counter_at q c ≤ n + (if v.ok && v.reply.vote_granted then 1 else 0)
  pub elected :
      is_leader q.status ≡ true
      → r.peers / 2 + 1 ≤ n + (if v.ok && v.reply.vote_granted then 1 else 0)

module _ ⦃a : Archive⦄ where
  receive_vote-Counted :
      (c n : ℕ) (v : Arrival) (r : Raft)
      → is_leader r.status ≡ false
      → counter_at r c ≤ n
      → Counted c n v r (receive_vote v.time c v.ok v.reply r)
  unfolding receive_vote count_vote become_leader persist commit_with_timeout
  receive_vote-Counted c n v r other below = record {
    same_peers = ground arith;
    count = λ h. ground (arith, counter_at-set r.counters c (counter_at r c + 1) r);
    elected = λ h. ground arith;
  }

  votes_counted :
      (c n : ℕ) (vs : List Arrival) (r : Raft)
      → is_leader r.status ≡ false
      → counter_at r c ≤ n
      → is_leader (receive_votes c vs r).status ≡ true
      → r.peers / 2 + 1 ≤ n + granted vs
  unfolding receive_votes
  votes_counted c n [] r other below leads = absurd (cc)
  votes_counted c n (v ∷ vs) r other below leads =
      let q : Raft = receive_vote v.time c v.ok v.reply r in
      let x : ℕ = if v.ok && v.reply.vote_granted then 1 else 0 in
      let one = receive_vote-Counted c n v r other below in
      elim (Bool-cases (is_leader q.status)) [
        | inl won ↦ omega (arith, one.elected won)
        | inr open_race ↦
            let rest = votes_counted c (n + x) vs q open_race (one.count open_race) leads in
            omega (arith, rest, one.same_peers, ap (λ (m : ℕ). m / 2) one.same_peers)
      ]

  -- A node that is not the leader, and whose counter for a round of its election stands at 1, its own
  -- vote, is the leader after the replies of the round only if the replies with a vote and its own
  -- are a majority of all nodes.
  pub elected_by_majority :
      (c : ℕ) (vs : List Arrival) (r : Raft)
      → is_leader r.status ≡ false
      → counter_at r c ≡ 1
      → is_leader (receive_votes c vs r).status ≡ true
      → r.peers / 2 + 1 ≤ 1 + granted vs
  elected_by_majority c vs r other own leads = votes_counted c 1 vs r other (omega arith) leads

-- Replies that went through at the term given and carry a vote.
abbrev pub AllGrant : ℕ → List Arrival → Type 0
AllGrant term [] = Unit {0}
AllGrant term (v ∷ vs) =
    (v.ok ≡ true) × (v.reply.term ≡ term) × (v.reply.vote_granted ≡ true) × AllGrant term vs

module _ ⦃a : Archive⦄ where
  vote_counted :
      (c : ℕ) (v : Arrival) (r : Raft)
      → v.ok ≡ true
      → v.reply.term ≡ r.current_term
      → v.reply.vote_granted ≡ true
      → receive_vote v.time c v.ok v.reply r ≡ count_vote v.time c r
  unfolding receive_vote
  vote_counted c v r ok same vote = ground arith

  count_vote-leads :
      (now c : ℕ) (r : Raft)
      → is_leader r.status ≡ true
      → (is_leader (count_vote now c r).status ≡ true)
        × ((count_vote now c r).current_term ≡ r.current_term)
  unfolding count_vote become_leader persist commit_with_timeout
  count_vote-leads now c r leads = (ground arith, ground arith)

  stays_leader :
      (c : ℕ) (vs : List Arrival) (r : Raft)
      → is_leader r.status ≡ true
      → AllGrant r.current_term vs
      → is_leader (receive_votes c vs r).status ≡ true
  unfolding receive_votes
  stays_leader c [] r leads h = leads
  stays_leader c (v ∷ vs) r leads (ok, same, vote, h) =
      let (leads', term) = count_vote-leads v.time c r leads in
      ap (λ (q : Raft). is_leader (receive_votes c vs q).status) (vote_counted c v r ok same vote)
      ∙ stays_leader c vs (count_vote v.time c r) leads' (rw term h)

  count_vote_majority :
      (now c : ℕ) (r : Raft)
      → r.peers / 2 ≤ counter_at r c
      → (is_leader (count_vote now c r).status ≡ true)
        × ((count_vote now c r).current_term ≡ r.current_term)
  unfolding count_vote become_leader persist commit_with_timeout
  count_vote_majority now c r enough = (ground arith, ground arith)

  count_vote_more :
      (now c : ℕ) (r : Raft)
      → counter_at r c < r.peers / 2
      → count_vote now c r ≡ record r { counters = set r.counters c (counter_at r c + 1) }
  unfolding count_vote
  count_vote_more now c r few = ground arith

  majority_elects_from :
      (c n : ℕ) (vs : List Arrival) (r : Raft)
      → c < length r.counters
      → counter_at r c ≡ n
      → n ≤ r.peers / 2
      → r.peers / 2 + 1 ≤ n + length vs
      → AllGrant r.current_term vs
      → is_leader (receive_votes c vs r).status ≡ true
  unfolding receive_votes
  majority_elects_from c n [] r inside at few enough h = absurd (omega arith)
  majority_elects_from c n (v ∷ vs) r inside at few enough (ok, same, vote, h) =
      elim (dec_lt n (r.peers / 2)) [
        | no here ↦
            let (leads, term) = count_vote_majority v.time c r (omega arith) in
            ap leads_then (vote_counted c v r ok same vote)
            ∙ stays_leader c vs (count_vote v.time c r) leads (rw term h)
        | yes more ↦
            let q : Raft = record r { counters = set r.counters c (counter_at r c + 1) } in
            let counted : counter_at q c ≡ n + 1 =
              ground (arith, get_elem?-set_self r.counters c (counter_at r c + 1) inside) in
            ap leads_then
              (vote_counted c v r ok same vote ∙ count_vote_more v.time c r (omega arith))
            ∙ majority_elects_from c (n + 1) vs q
                (omega (arith, length-set r.counters c (counter_at r c + 1))) counted (omega arith)
                (omega arith) h
      ]
    where
      leads_then : Raft → Bool
      leads_then q = is_leader (receive_votes c vs q).status

  -- In a group of two nodes or more, a node whose counter for a round of its election stands at 1, its
  -- own vote, is the leader after replies of its term that all carry a vote and are, with its own, a majority of all nodes.
  pub majority_elects :
      (c : ℕ) (vs : List Arrival) (r : Raft)
      → c < length r.counters
      → counter_at r c ≡ 1
      → 2 ≤ r.peers
      → r.peers / 2 + 1 ≤ 1 + length vs
      → AllGrant r.current_term vs
      → is_leader (receive_votes c vs r).status ≡ true
  majority_elects c vs r inside own several enough h =
      majority_elects_from c 1 vs r inside own (omega arith) enough h
