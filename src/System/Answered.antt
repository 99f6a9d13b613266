-- ===== src/System/Answered.antt =====
-- What clients are told: only what the server has read from its node.
use native.Mathlib.Decide.{ℕ_discrete}
use kvstorage_base_raft_cpp.Base.{
  ℕ, ◌<◌, ◌≡◌, ◌⊎◌, inl, inr, List, ◌∷◌, arith, update, update-all, update_self, update_other,
  bytes_eq_instance, find,
}
use kvstorage_base_raft_cpp.Message.{Op, ApplyMsg}
use kvstorage_base_raft_cpp.Archive.{Archive}
use kvstorage_base_raft_cpp.KvServer.{SkipList, KvServer, ok}
use kvstorage_base_raft_cpp.KvServer.Client.{finish_get, finish_put_append}
use kvstorage_base_raft_cpp.KvServer.Request.{finish_get-ok, finish_put_append-ok}
use kvstorage_base_raft_cpp.KvServer.Handed.{commands_of, IsHanded}
use kvstorage_base_raft_cpp.KvServer.Account.{
  Accounted, start_request-Accounted, register_wait-Accounted,
}
use kvstorage_base_raft_cpp.KvServer.Answers.{
  finish_get-Accounted, finish_put_append-Accounted, IsCommitted-IsHanded,
}
use kvstorage_base_raft_cpp.KvServer.Round.{read_raft_apply_command-Accounted}
use kvstorage_base_raft_cpp.System.{
  System, Runs, boots, goes_on, asks, registers, reads, gets, puts, server_at,
}

module _ {S : Type 0} ⦃l : SkipList S⦄ ⦃a : Archive⦄ where
  -- The queues and the table of each server hold what it has read from its node.
  abbrev Accounts : ℕ → (ℕ → List ApplyMsg) → (ℕ → KvServer S) → Type 0
  Accounts n read servers = (i : ℕ) → i < n → Accounted (commands_of (read i)) (servers i)

  update-Accounts :
      (n : ℕ) (read : ℕ → List ApplyMsg) (servers : ℕ → KvServer S) (i : ℕ) (q : KvServer S)
      → Accounted (commands_of (read i)) q
      → Accounts n read servers
      → Accounts n read (update i q servers)
  update-Accounts n read servers i q account h =
      update-all (λ j x. j < n → Accounted (commands_of (read j)) x) i q servers (λ inside. account)
        (λ j away. h j)

  read-Accounts :
      (n : ℕ) (read : ℕ → List ApplyMsg) (servers : ℕ → KvServer S) (i : ℕ)
      (messages : List ApplyMsg) (q : KvServer S)
      → Accounted (commands_of messages) q
      → Accounts n read servers
      → Accounts n (update i messages read) (update i q servers)
  read-Accounts n read servers i messages q account h j inside = elim (ℕ_discrete j i) [
    | yes here ↦ rw (here, update_self i messages read, update_self i q servers) account
    | no away ↦
        rw (update_other i j messages read away, update_other i j q servers away) (h j inside)
  ]

  Runs-Accounts :
      {n : ℕ} {asked : List Op} {s : System S} → Runs n asked s → Accounts n s.read s.servers
  unfolding find
  Runs-Accounts (boots s initial empty) = λ i inside.
      let (_, no_queue, no_request, _, _, _) = empty i inside in
      (λ c. rw no_queue tt, λ client last e. absurd (ground (arith, e, no_request)))
  Runs-Accounts (goes_on run step of_nodes) = Runs-Accounts run
  Runs-Accounts {n} (asks {s = s} i op inside run) =
      let h = Runs-Accounts run in
      update-Accounts n s.read s.servers i _
        (start_request-Accounted (commands_of (s.read i)) op (server_at i s) (h i inside)) h
  Runs-Accounts {n} (registers {s = s} i p op index inside at run) =
      let h = Runs-Accounts run in
      update-Accounts n s.read s.servers i _
        (register_wait-Accounted (commands_of (s.read i)) index (server_at i s) (h i inside)) h
  Runs-Accounts {n} (reads {s = s} i message q inside at e run) =
      let h = Runs-Accounts run in
      read-Accounts n s.read s.servers i (message ∷ s.read i) q
        (read_raft_apply_command-Accounted (s.read i) message (server_at i s) q e (h i inside)) h
  Runs-Accounts {n} (gets {s = s} i p op index c inside at get run) =
      let h = Runs-Accounts run in
      update-Accounts n s.read s.servers i _
        (finish_get-Accounted (commands_of (s.read i)) op index c (server_at i s) (h i inside)) h
  Runs-Accounts {n} (puts {s = s} i p op index c inside at run) =
      let h = Runs-Accounts run in
      update-Accounts n s.read s.servers i _
        (finish_put_append-Accounted (commands_of (s.read i)) op index c (server_at i s)
          (h i inside))
        h

  -- In any run of `n` nodes and their servers, a server answers OK to `Get` or to `PutAppend` only if
  -- it has read from its node a command of this client that is numbered so, or newer. The servers
  -- begin empty.
  pub answered-IsHanded :
      {n : ℕ} {asked : List Op} {s : System S} (i : ℕ) (op : Op) (index c : ℕ)
      → Runs n asked s
      → i < n
      → let server = server_at i s in
        ((finish_get op index c server).0.err ≡ ok) ⊎ ((finish_put_append op index c server).0 ≡ ok)
        → IsHanded (commands_of (s.read i)) op.client_id op.request_id
  answered-IsHanded {s = s} i op index c run inside done =
      let server = server_at i s in
      IsCommitted-IsHanded (commands_of (s.read i)) op c server (Runs-Accounts run i inside)
        (elim done [
          | inl read ↦ (finish_get-ok op index c server read).0
          | inr written ↦ (finish_put_append-ok op index c server written).0
        ])
