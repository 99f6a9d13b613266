-- ===== src/KvServer/Answers.antt =====
-- What the answers to clients leave, and that an answered request was handed to the server.
use kvstorage_base_raft_cpp.Base.{
  ℕ, ◌≤◌, ◌≡◌, ◌⊎◌, refl, sym, inl, inr, ◌&&◌, true, List, [], ◌∷◌, arith, bytes_eq_instance,
  nat_eq, find, assign, All, Bool-cases, Option-cases,
}
use mathlib.Core.Path.{subst}
use kvstorage_base_raft_cpp.Message.{Op}
use kvstorage_base_raft_cpp.Archive.{Archive}
use kvstorage_base_raft_cpp.Raft.{get_state}
use kvstorage_base_raft_cpp.KvServer.{
  SkipList, KvServer, queue_at, if_request_duplicate, is_same_request, execute_get_op_on_kvdb,
}
use kvstorage_base_raft_cpp.KvServer.Client.{finish_get, finish_put_append, try_pop, answer_get}
use kvstorage_base_raft_cpp.KvServer.Request.{IsCommitted, same_request}
use kvstorage_base_raft_cpp.KvServer.Handed.{Among, IsHanded, Queued, Recorded, Recorded-assign}
use kvstorage_base_raft_cpp.KvServer.Account.{Accounted, Accounted-same, try_pop-Accounted}

module _ {S : Type 0} ⦃l : SkipList S⦄ ⦃a : Archive⦄ where
  pub IsCommitted-IsHanded :
      (handed : List Op) (op : Op) (c : ℕ) (s : KvServer S)
      → Accounted handed s
      → IsCommitted op c s
      → IsHanded handed op.client_id op.request_id
  unfolding if_request_duplicate
  IsCommitted-IsHanded handed op c s h (inl (committed, rest, at, client, number)) =
      (committed, (subst (All (λ x. Among x handed)) at (h.0 c)).0, client, omega (arith, number))
  IsCommitted-IsHanded handed op c s h (inr (empty, dup)) =
      elim (Option-cases (find op.client_id s.last_request_client_and_id)) [
        | inl new ↦ absurd (ground (arith, dup, new))
        | inr (last, e) ↦
            let (of, among, client, le) = h.1 op.client_id last e in
            let newer : op.request_id ≤ last = ground (arith, dup, e) in
            (of, among, client, omega (arith, newer, le))
      ]

  -- What `Get` leaves of the table: the table stands, or the read was committed and is put into it.
  abbrev pub GetLeaves : Op → ℕ → KvServer S → KvServer S → Type 0
  GetLeaves op c s q =
      (q.channels ≡ (try_pop c s).1.channels)
      × ((q.last_request_client_and_id ≡ s.last_request_client_and_id)
          ⊎ ((q.last_request_client_and_id
                ≡ assign op.client_id op.request_id s.last_request_client_and_id)
              × IsCommitted op c s))

  pub finish_get-Leaves :
      (op : Op) (ops : List Op) (index c : ℕ) (s : KvServer S)
      → queue_at s.channels c ≡ ops
      → GetLeaves op c s (finish_get op index c s).1
  unfolding finish_get try_pop answer_get execute_get_op_on_kvdb
  finish_get-Leaves op [] index c s at =
      elim (Bool-cases
        (if_request_duplicate op.client_id op.request_id s && (get_state s.raft_node).1)) [
          | inl answers ↦
              let dup : if_request_duplicate op.client_id op.request_id s ≡ true =
                ground (arith, answers) in
              (ground (arith, at, answers), inr (ground (arith, at, answers), inr (at, dup)))
          | inr declines ↦ (ground (arith, at, declines), inl (ground (arith, at, declines)))
        ]
  finish_get-Leaves op (committed ∷ ops) index c s at =
      elim (Bool-cases (is_same_request committed op)) [
        | inl same ↦
            let (client, number) = same_request committed op same in
            (
              ground (arith, at, same),
              inr (ground (arith, at, same), inl (committed, ops, at, client, number)),
            )
        | inr other ↦ (ground (arith, at, other), inl (ground (arith, at, other)))
      ]

  pub finish_get-Accounted :
      (handed : List Op) (op : Op) (index c : ℕ) (s : KvServer S)
      → Accounted handed s
      → Accounted handed (finish_get op index c s).1
  finish_get-Accounted handed op index c s h =
      let (channels, tables) = finish_get-Leaves op (queue_at s.channels c) index c s refl in
      (
        subst (Queued handed) (sym channels) (try_pop-Accounted handed c s h).0,
        elim tables [
          | inl same ↦ subst (Recorded handed) (sym same) h.1
          | inr (assigned, committed) ↦ subst (Recorded handed) (sym assigned) (
              Recorded-assign handed s.last_request_client_and_id op.client_id op.request_id h.1
                (IsCommitted-IsHanded handed op c s h committed))
        ],
      )

  pub finish_put_append-Accounted :
      (handed : List Op) (op : Op) (index c : ℕ) (s : KvServer S)
      → Accounted handed s
      → Accounted handed (finish_put_append op index c s).1
  unfolding finish_put_append
  finish_put_append-Accounted handed op index c s h =
      let q = (finish_put_append op index c s).1 in
      let left = try_pop-Accounted handed c s h in
      Accounted-same handed (try_pop c s).1 q (ground arith) (ground arith) left
