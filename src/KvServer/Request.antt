-- ===== src/KvServer/Request.antt =====
-- What a client is told.
use kvstorage_base_raft_cpp.Base.{
  ℕ, ◌≡◌, ◌⊎◌, refl, true, inl, inr, Option, none, some, List, [], ◌∷◌, arith, Bytes, bytes_eq_iff,
  bytes_eq_instance, nat_eq, find, find-erase, beq_refl,
}
use kvstorage_base_raft_cpp.Message.{Op}
use kvstorage_base_raft_cpp.Archive.{Archive}
use kvstorage_base_raft_cpp.KvServer.{
  SkipList, KvServer, ok, if_request_duplicate, execute_get_op_on_kvdb, queue_at, is_same_request,
  found_reply,
}
use kvstorage_base_raft_cpp.KvServer.Client.{
  try_pop, answer_get, finish_get, answer_put_append, finish_put_append,
}

pub same_request :
    (committed op : Op)
    → is_same_request committed op ≡ true
    → (committed.client_id ≡ op.client_id) × (committed.request_id ≡ op.request_id)
same_request committed op e =
    (ground (arith, bytes_eq_iff committed.client_id op.client_id), ground arith)

found_reply-ok : (o : Option Bytes) → (found_reply o).err ≡ ok → some (found_reply o).value ≡ o
found_reply-ok none e = absurd (cc)
found_reply-ok (some v) e = refl

module _ {S : Type 0} ⦃l : SkipList S⦄ ⦃a : Archive⦄ where
  -- The request was committed: it stands first in the queue, or nothing came in time and the table
  -- of requests has it, or a newer one of its client.
  abbrev pub IsCommitted : Op → ℕ → KvServer S → Type 0
  IsCommitted op c s =
      ((committed : Op) × (rest : List Op) × (queue_at s.channels c ≡ committed ∷ rest)
        × (committed.client_id ≡ op.client_id)
        × (committed.request_id ≡ op.request_id))
      ⊎ ((queue_at s.channels c ≡ []) × (if_request_duplicate op.client_id op.request_id s ≡ true))

  answer_put_append-ok :
      (op : Op) (ops : List Op) (index c : ℕ) (s : KvServer S)
      → queue_at s.channels c ≡ ops
      → (finish_put_append op index c s).0 ≡ ok
      → IsCommitted op c s
  unfolding finish_put_append answer_put_append try_pop
  answer_put_append-ok op [] index c s at e = inr (at, ground (arith, at))
  answer_put_append-ok op (committed ∷ ops) index c s at e =
      let same = same_request committed op (ground (arith, at)) in
      inl (committed, ops, at, same.0, same.1)

  try_pop-wait_apply_ch : (c : ℕ) (s : KvServer S) → (try_pop c s).1.wait_apply_ch ≡ s.wait_apply_ch
  unfolding try_pop
  try_pop-wait_apply_ch c s = ground arith

  pop_erases :
      (index c : ℕ) (op : Op) (s : KvServer S)
      → find index (finish_put_append op index c s).1.wait_apply_ch ≡ none
  unfolding finish_put_append
  pop_erases index c op s =
      ground (arith, find-erase index index (try_pop c s).1.wait_apply_ch, beq_refl index)

  -- `PutAppend` answers OK only if the request stands first in its queue, or if the queue is empty and
  -- the server has carried out the request or a newer one of its client. No queue waits at the
  -- request's index afterwards.
  pub finish_put_append-ok :
      (op : Op) (index c : ℕ) (s : KvServer S)
      → (finish_put_append op index c s).0 ≡ ok
      → IsCommitted op c s × (find index (finish_put_append op index c s).1.wait_apply_ch ≡ none)
  unfolding finish_put_append
  finish_put_append-ok op index c s e =
      (answer_put_append-ok op (queue_at s.channels c) index c s refl e, pop_erases index c op s)

  answer_get-ok :
      (op : Op) (o : Option Op) (s : KvServer S)
      → (answer_get op o s).0.err ≡ ok
      → (elim o [
        | none ↦ if_request_duplicate op.client_id op.request_id s
        | some committed ↦ is_same_request committed op
      ]
          ≡ true)
        × (some (answer_get op o s).0.value ≡ l.search_element op.key s.skip_list)
  unfolding answer_get execute_get_op_on_kvdb
  answer_get-ok op none s e = ground (arith, found_reply-ok (l.search_element op.key s.skip_list))
  answer_get-ok op (some committed) s e =
      ground (arith, found_reply-ok (l.search_element op.key s.skip_list))

  finish_get-found :
      (op : Op) (ops : List Op) (index c : ℕ) (s : KvServer S)
      → queue_at s.channels c ≡ ops
      → (finish_get op index c s).0.err ≡ ok
      → IsCommitted op c s
        × (some (finish_get op index c s).0.value ≡ l.search_element op.key s.skip_list)
  unfolding finish_get try_pop
  finish_get-found op [] index c s at e =
      let answer = answer_get-ok op none s (ground (arith, at, e)) in
      (inr (at, answer.0), ground (arith, at, answer.1))
  finish_get-found op (committed ∷ ops) index c s at e =
      let answer = answer_get-ok op (some committed) (try_pop c s).1 (ground (arith, at, e)) in
      let same = same_request committed op answer.0 in
      (inl (committed, ops, at, same.0, same.1), ground (arith, at, answer.1))

  -- `Get` answers OK only if the request stands first in its queue, or if the queue is empty and the
  -- server has carried out the request or a newer one of its client. The value is the one that the
  -- store has at the request's key.
  pub finish_get-ok :
      (op : Op) (index c : ℕ) (s : KvServer S)
      → (finish_get op index c s).0.err ≡ ok
      → IsCommitted op c s
        × (some (finish_get op index c s).0.value ≡ l.search_element op.key s.skip_list)
  finish_get-ok op index c s e = finish_get-found op (queue_at s.channels c) index c s refl e
