-- ===== src/Raft/Tickers.antt =====
-- One round of `electionTimeOutTicker` and of `leaderHeartBeatTicker`, raftCore/raft.cc, with
-- `getRandomizedElectionTimeout` of common/util.cc. Times are in milliseconds. The argument `others`
-- is what the other handlers do to the node during a sleep, and `late` how much later than asked the
-- timer goes off.
use kvstorage_base_raft_cpp.Base.{
  ℕ, ◌+◌, ◌-◌, ◌%◌, ◌≤◌, ◌≡◌, refl, true, false, Option, some, arith, ltb, if◌then◌else◌, max,
  ◌>>=◌,
}
use kvstorage_base_raft_cpp.Archive.{Archive}
use kvstorage_base_raft_cpp.Raft.{Raft, is_leader}
use kvstorage_base_raft_cpp.Raft.Election.{election_time_out, max_randomized_election_time}
use kvstorage_base_raft_cpp.Raft.Election.Bystander.{election_begins}
use kvstorage_base_raft_cpp.Raft.Replication.{
  heart_beat_time_out, heart_beat_timeout, do_heart_beat,
}

-- `minRandomizedElectionTime` of common/config.h.
abbrev pub min_randomized_election_time : ℕ
min_randomized_election_time = 300

-- `getRandomizedElectionTimeout`: both bounds are drawn too. `random` is the generator's number.
abbrev pub get_randomized_election_timeout : ℕ → ℕ
get_randomized_election_timeout random =
    min_randomized_election_time
    + random % (max_randomized_election_time - min_randomized_election_time + 1)

-- `suitableSleepTime`: how long a ticker sleeps that looks at the clock at `wake`. It sleeps only for
-- more than a millisecond.
abbrev pub suitable_sleep_time : ℕ → ℕ → ℕ → ℕ
suitable_sleep_time timeout last_reset wake =
    let time = timeout + last_reset - wake in if ltb 1 time then time else 0

-- A round of the election ticker that looks at the clock at `wake`: when it ends, and the node then.
-- While the node leads, the ticker looks again every 150 milliseconds.
unfoldable pub election_ticker : ⦃a : Archive⦄ → ℕ → ℕ → ℕ → (Raft → Raft) → Raft → ℕ × Raft
election_ticker random wake late others r =
    if is_leader r.status
    then (wake + 150 + late, others r)
    else let timeout = get_randomized_election_timeout random in
      let time = wake + suitable_sleep_time timeout r.last_reset_election_time wake + late in
      (time, election_time_out wake time (others r))

-- A round of the heart beat ticker. While the node does not lead, the ticker looks again every
-- `HeartBeatTimeout` milliseconds.
unfoldable pub heart_beat_ticker : ℕ → ℕ → (Raft → Raft) → Raft → Option (ℕ × Raft)
heart_beat_ticker wake late others r =
    let slept = suitable_sleep_time heart_beat_timeout r.last_reset_heart_beat_time wake in
    let time = wake + slept + late in
    if is_leader r.status
    then (heart_beat_time_out wake time (others r) >>= λ q. some (time, q))
    else some (wake + heart_beat_timeout + late, others r)

drawn-bounds :
    (random : ℕ)
    → (min_randomized_election_time ≤ get_randomized_election_timeout random)
      × (get_randomized_election_timeout random ≤ max_randomized_election_time)
drawn-bounds random = (omega arith, omega arith)

-- A ticker wakes when the time that it waits for has passed, or one millisecond before.
slept-bounds :
    (timeout last_reset wake : ℕ)
    → let time = wake + suitable_sleep_time timeout last_reset wake in
      (timeout + last_reset ≤ time + 1) × (time ≤ max wake (timeout + last_reset))
slept-bounds timeout last_reset wake = (ground arith, ground arith)

module _ ⦃a : Archive⦄ (random wake late : ℕ) (others : Raft → Raft) (r : Raft) where
  -- A node that does not lead, neither before nor after the sleep, and whose election timer is not
  -- reset behind the time at which its ticker looked, goes on to the next term with a vote for
  -- itself. It does so at least 299 milliseconds after the timer was last reset when the ticker
  -- looked, and at most 500 milliseconds after it, or at once when these have passed, plus the time
  -- by which it wakes late.
  pub election_ticker-bounds :
      is_leader r.status ≡ false
      → is_leader (others r).status ≡ false
      → ltb wake (others r).last_reset_election_time ≡ false
      → let (time, q) = election_ticker random wake late others r in
        (r.last_reset_election_time + 299 ≤ time)
        × (time ≤ max wake (r.last_reset_election_time + 500) + late)
        × (q.current_term ≡ (others r).current_term + 1)
        × (q.voted_for ≡ some (others r).me)
  unfolding election_ticker
  election_ticker-bounds other still due =
      let timeout = get_randomized_election_timeout random in
      let (least, most) = drawn-bounds random in
      let (from, to) = slept-bounds timeout r.last_reset_election_time wake in
      let time = wake + suitable_sleep_time timeout r.last_reset_election_time wake + late in
      let (me, peers, counters, term, vote, follows) =
        election_begins wake time (others r) still due in
      rw other (omega (arith, least, from), omega (arith, most, to), term, vote)

-- A leader whose heart beat timer is not reset behind the time at which its ticker looked sends a
-- heart beat 29 to 30 milliseconds after the last, or at once when these have passed, if the timer is
-- not late.
pub heart_beat_ticker-bounds :
    (wake late : ℕ) (others : Raft → Raft) (r : Raft)
    → is_leader r.status ≡ true
    → ltb wake (others r).last_reset_heart_beat_time ≡ false
    → (time : ℕ) × (heart_beat_ticker wake late others r
        ≡ (do_heart_beat time (others r) >>= λ q. some (time, q)))
      × (r.last_reset_heart_beat_time + 29 ≤ time)
      × (time ≤ max wake (r.last_reset_heart_beat_time + 30) + late)
unfolding heart_beat_ticker heart_beat_time_out
heart_beat_ticker-bounds wake late others r leads due =
    let (from, to) = slept-bounds heart_beat_timeout r.last_reset_heart_beat_time wake in
    let time =
      wake + suitable_sleep_time heart_beat_timeout r.last_reset_heart_beat_time wake + late in
    (time, rw (leads, due) refl, omega (arith, from), omega (arith, to))
