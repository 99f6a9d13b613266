-- ===== src/Clerk/Reads.antt =====
-- The retries of a read.
use kvstorage_base_raft_cpp.Base.{
  ℕ, ◌+◌, ◌%◌, ◌<◌, ◌≡◌, refl, ap, ◌∙◌, Option, none, some, List, [], ◌∷◌, ◌++◌, arith, Bytes,
  length,
}
use kvstorage_base_raft_cpp.KvServer.{ok, err_no_key, err_wrong_leader, GetReply}
use kvstorage_base_raft_cpp.Clerk.{Clerk, Call, GetArgs, get, get_loop, set_leader}
use kvstorage_base_raft_cpp.Clerk.Retry.{round_robin, nth_server, nth_server_lem}

-- Every call failed, or its server did not lead.
pub data RefusedReads : List (Option GetReply) → Type 0 where
  nil : RefusedReads []
  failed : {replies : List (Option GetReply)} → RefusedReads replies → RefusedReads (none ∷ replies)
  not_leader :
      {reply : GetReply} {replies : List (Option GetReply)}
      → reply.err ≡ err_wrong_leader
      → RefusedReads replies
      → RefusedReads (some reply ∷ replies)

-- The loop goes past the refusals and stops at the first other reply.
get_loop_found :
    (n : ℕ) (args : GetArgs) (server : ℕ) (failures rest : List (Option GetReply))
    (reply : GetReply)
    → RefusedReads failures
    → reply.err ≡ ok
    → get_loop n args server (failures ++ some reply ∷ rest) ≡ (
      round_robin n args server (length failures),
      some (reply.value, some (nth_server n server (length failures))),
    )
unfolding get_loop nth_server
get_loop_found n args server [] rest reply nil e = rw e refl
get_loop_found n args server (none ∷ fs) rest reply (failed h) e =
    rw (get_loop_found n args ((server + 1) % n) fs rest reply h e) refl
get_loop_found n args server (some r ∷ fs) rest reply (not_leader wrong h) e =
    rw (wrong, get_loop_found n args ((server + 1) % n) fs rest reply h e) refl

get_loop_missing :
    (n : ℕ) (args : GetArgs) (server : ℕ) (failures rest : List (Option GetReply))
    (reply : GetReply)
    → RefusedReads failures
    → reply.err ≡ err_no_key
    → get_loop n args server (failures ++ some reply ∷ rest)
      ≡ (round_robin n args server (length failures), some ([], none))
unfolding get_loop
get_loop_missing n args server [] rest reply nil e = rw e refl
get_loop_missing n args server (none ∷ fs) rest reply (failed h) e =
    rw (get_loop_missing n args ((server + 1) % n) fs rest reply h e) refl
get_loop_missing n args server (some r ∷ fs) rest reply (not_leader wrong h) e =
    rw (wrong, get_loop_missing n args ((server + 1) % n) fs rest reply h e) refl

-- The result of `get`, by what its loop returns.
abbrev finish : Clerk → List (Call GetArgs) × Option (Bytes × Option ℕ) → Option (Bytes × Clerk)
finish c (calls, none) = none
finish c (calls, some (value, leader)) =
    some (value, set_leader leader (record c { request_id = c.request_id + 1 }))

get_lem :
    (key : Bytes) (replies : List (Option GetReply)) (c : Clerk)
    → (get key replies c).1
      ≡ finish c (
          get_loop
            (length c.servers)
            (record { key = key; client_id = c.client_id; request_id = c.request_id + 1 })
            c.cur_leader_id
            replies)
unfolding get
get_lem key replies c = ground arith

-- A read that is refused some times and then answered returns: the value, and the server that gave
-- it becomes the one that is asked first, or, for a missing key, the empty text.
pub get-returns :
    (key : Bytes) (failures rest : List (Option GetReply)) (found missing : GetReply) (c : Clerk)
    → RefusedReads failures
    → c.cur_leader_id < length c.servers
    → found.err ≡ ok
    → missing.err ≡ err_no_key
    → ((get key (failures ++ some found ∷ rest) c).1
        ≡ some (
          found.value,
          record c {
            request_id = c.request_id + 1;
            cur_leader_id = (c.cur_leader_id + length failures) % length c.servers;
          },
        ))
      × ((get key (failures ++ some missing ∷ rest) c).1
          ≡ some ([], record c { request_id = c.request_id + 1 }))
get-returns key failures rest found missing c h bound is_found is_missing =
    let n = length c.servers in
    let args : GetArgs = record {
      key = key;
      client_id = c.client_id;
      request_id = c.request_id + 1;
    } in
    (
      get_lem key (failures ++ some found ∷ rest) c
          ∙ ap (finish c) (get_loop_found n args c.cur_leader_id failures rest found h is_found)
          ∙ ap
              (λ (s : ℕ).
                some (found.value, record c { request_id = c.request_id + 1; cur_leader_id = s }))
              (nth_server_lem n c.cur_leader_id (length failures) bound),
      get_lem key (failures ++ some missing ∷ rest) c
          ∙ ap (finish c)
              (get_loop_missing n args c.cur_leader_id failures rest missing h is_missing),
    )
