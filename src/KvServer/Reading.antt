-- ===== src/KvServer/Reading.antt =====
-- What a read finds of a write, and what a late read does to the table of requests.
use kvstorage_base_raft_cpp.Base.{
  ℕ, ◌<◌, ◌≡◌, ◌≢◌, refl, ap, ◌∙◌, true, false, ◌&&◌, Option, none, some, List, [], ◌∷◌, arith,
  Bytes, bytes_eq, bytes_eq_refl, bytes_eq_instance, nat_eq, find, find-assign, assign, All,
}
use kvstorage_base_raft_cpp.Message.{Op}
use kvstorage_base_raft_cpp.Archive.{Archive}
use kvstorage_base_raft_cpp.Raft.Log.{Inv}
use kvstorage_base_raft_cpp.KvServer.{
  SkipList, IsSkipList, KvServer, ok, err_wrong_leader, GetReply, found_reply, queue_at,
  if_request_duplicate, execute_get_op_on_kvdb,
}
use kvstorage_base_raft_cpp.KvServer.Apply.{is_write}
use kvstorage_base_raft_cpp.KvServer.Client.{finish_get, answer_get, try_pop}
use kvstorage_base_raft_cpp.KvServer.Replay.{View, apply_op, replay, view, CarriesOut, view-replay}

-- The command does not write under the key.
abbrev pub LeavesKey : Bytes → Op → Type 0
LeavesKey key op = (is_write op && bytes_eq op.key key) ≡ false

replay-key :
    (key : Bytes) (ops : List Op) (v : View)
    → All (LeavesKey key) ops
    → (replay ops v).0 key ≡ v.0 key
replay-key key [] v h = refl
replay-key key (op ∷ ops) v h = replay-key key ops (apply_op op v) h.1 ∙ ground (arith, h.0)

module _ {S : Type 0} ⦃l : SkipList S⦄ ⦃a : Archive⦄ where
  abbrev Answers : Op → KvServer S → GetReply × KvServer S → Type 0
  Answers op s (reply, q) =
      (reply ≡ found_reply (l.search_element op.key s.skip_list))
      × (q.last_request_client_and_id
          ≡ assign op.client_id op.request_id s.last_request_client_and_id)

  answer_get-Answers :
      (op : Op) (o : Option Op) (s : KvServer S)
      → (answer_get op o s).0.err ≢ err_wrong_leader
      → Answers op s (answer_get op o s)
  unfolding answer_get execute_get_op_on_kvdb
  answer_get-Answers op none s answered = ground (arith, answered)
  answer_get-Answers op (some committed) s answered = ground (arith, answered)

  finish_get-at :
      (op : Op) (ops : List Op) (index c : ℕ) (s : KvServer S)
      → queue_at s.channels c ≡ ops
      → (finish_get op index c s).0.err ≢ err_wrong_leader
      → Answers op s (finish_get op index c s)
  unfolding finish_get try_pop
  finish_get-at op [] index c s at answered =
      let answers = answer_get-Answers op none s (λ e. answered (ground (arith, at, e))) in
      (ground (arith, at, answers.0), ground (arith, at, answers.1))
  finish_get-at op (committed ∷ ops) index c s at answered =
      let answers =
        answer_get-Answers op (some committed) (try_pop c s).1
          (λ e. answered (ground (arith, at, e))) in
      (ground (arith, at, answers.0), ground (arith, at, answers.1))

  -- A read that is not sent elsewhere answers what the store has.
  finish_get-Answers :
      (op : Op) (index c : ℕ) (s : KvServer S)
      → (finish_get op index c s).0.err ≢ err_wrong_leader
      → Answers op s (finish_get op index c s)
  finish_get-Answers op index c s answered =
      finish_get-at op (queue_at s.channels c) index c s refl answered

  -- A write that is new for its client is what a read of its key returns, once the server has carried
  -- it out and whatever commands after it that do not write under the key, unless the server sends
  -- the read elsewhere. The skip list finds what was inserted, and the Raft node begins in order.
  pub get-after-put :
      {s t : KvServer S} {ops : List Op} (put get : Op) (index c : ℕ)
      → IsSkipList l
      → Inv s.raft_node
      → CarriesOut s (put ∷ ops) t
      → is_write put ≡ true
      → if_request_duplicate put.client_id put.request_id s ≡ false
      → All (LeavesKey put.key) ops
      → get.key ≡ put.key
      → (finish_get get index c t).0.err ≢ err_wrong_leader
      → (finish_get get index c t).0 ≡ record { err = ok; value = put.value }
  unfolding if_request_duplicate
  get-after-put {s} {t} {ops} put get index c h inv run write new others same answered =
      let answers = finish_get-Answers get index c t answered in
      let stored : l.search_element put.key t.skip_list ≡ some put.value =
        ap (λ (v : View). v.0 put.key) (view-replay h inv run)
        ∙ replay-key put.key ops (apply_op put (view s)) others
        ∙ ground (arith, write, new, bytes_eq_refl put.key) in
      answers.0
      ∙ ap (λ key. found_reply (l.search_element key t.skip_list)) same
      ∙ ap found_reply stored

  -- A read that a server answers makes its own number the client's last: a request of the client that
  -- is newer than the read counts as new again, even if the server has carried it out.
  pub finish_get-forgets :
      (get newer : Op) (index c : ℕ) (s : KvServer S)
      → (finish_get get index c s).0.err ≢ err_wrong_leader
      → newer.client_id ≡ get.client_id
      → get.request_id < newer.request_id
      → if_request_duplicate newer.client_id newer.request_id (finish_get get index c s).1 ≡ false
  unfolding if_request_duplicate
  finish_get-forgets get newer index c s answered same older =
      let answers = finish_get-Answers get index c s answered in
      let last : find get.client_id (finish_get get index c s).1.last_request_client_and_id
          ≡ some get.request_id =
        ap (find get.client_id) answers.1
        ∙ ground (
          arith,
          find-assign get.client_id get.client_id get.request_id s.last_request_client_and_id,
          bytes_eq_refl get.client_id,
        ) in
      rw (same, last, if_request_duplicate) (ground (arith, older))
