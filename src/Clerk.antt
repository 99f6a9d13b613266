-- ===== src/Clerk.antt =====
-- raftClerk/clerk.h and clerk.cc: the client. What the remote calls answer, in order, is a
-- parameter: `none` is a call that fails. A request whose answers run out still waits.
pub mod Keys
pub mod Servers
pub mod Retry
pub mod Reads
use kvstorage_base_raft_cpp.Base.{
  ℕ, zero, suc, ◌+◌, ◌/◌, ◌%◌, Bool, true, false, Option, none, some, List, [], ◌∷◌, ◌++◌, ltb,
  Bytes, Map, length,
}
use kvstorage_base_raft_cpp.KvServer.{
  Err, ok, err_no_key, err_wrong_leader, GetReply, put_op, append_op,
}
use kvstorage_base_raft_cpp.RpcConfig.{load}

-- `class Clerk`. `servers` holds the addresses of the nodes.
pub record Clerk : Type 0 where
  pub servers : List Bytes
  pub client_id : Bytes
  pub request_id : ℕ
  pub cur_leader_id : ℕ

pub record GetArgs : Type 0 where
  pub key : Bytes
  pub client_id : Bytes
  pub request_id : ℕ

pub record PutAppendArgs : Type 0 where
  pub key : Bytes
  pub value : Bytes
  pub op : Bytes
  pub client_id : Bytes
  pub request_id : ℕ

-- A remote call: the server it goes to, and its arguments.
pub record Call (A : Type 0) : Type 0 where
  pub server : ℕ
  pub args : A

-- The constructor; the client's name is a random one.
unfoldable pub new_clerk : Bytes → Clerk
new_clerk uuid = record { servers = []; client_id = uuid; request_id = 0; cur_leader_id = 0 }

-- The loop of `Clerk::Get` for `n` servers: the calls it makes, and the value and the server that
-- gave it, which is `none` for a missing key.
unfoldable pub get_loop :
    ℕ → GetArgs → ℕ → List (Option GetReply) → List (Call GetArgs) × Option (Bytes × Option ℕ)
get_loop n args server [] = ([], none)
get_loop n args server (none ∷ replies) =
    let (calls, result) = get_loop n args ((server + 1) % n) replies in
    (record { server = server; args = args } ∷ calls, result)
get_loop n args server (some reply ∷ replies) = elim reply.err [
  | err_wrong_leader ↦
      let (calls, result) = get_loop n args ((server + 1) % n) replies in
      (record { server = server; args = args } ∷ calls, result)
  | err_no_key ↦ (record { server = server; args = args } ∷ [], some ([], none))
  | ok ↦ (record { server = server; args = args } ∷ [], some (reply.value, some server))
]

abbrev pub set_leader : Option ℕ → Clerk → Clerk
set_leader none c = c
set_leader (some server) c = record c { cur_leader_id = server }

-- `Clerk::Get`.
unfoldable pub get :
    Bytes → List (Option GetReply) → Clerk → List (Call GetArgs) × Option (Bytes × Clerk)
unfolding get_loop
get key replies c =
    let q : Clerk = record c { request_id = c.request_id + 1 } in
    let args : GetArgs = record { key = key; client_id = q.client_id; request_id = q.request_id } in
    let (calls, result) = get_loop (length q.servers) args q.cur_leader_id replies in
    (calls, elim result [ none ↦ none | some (value, leader) ↦ some (value, set_leader leader q) ])

-- The loop of `Clerk::PutAppend`: the calls it makes, and the server that carried the request out.
-- An answer that the loop does not test makes it call the same server again.
unfoldable pub put_append_loop :
    ℕ → PutAppendArgs → ℕ → List (Option Err) → List (Call PutAppendArgs) × Option ℕ
put_append_loop n args server [] = ([], none)
put_append_loop n args server (none ∷ replies) =
    let (calls, result) = put_append_loop n args ((server + 1) % n) replies in
    (record { server = server; args = args } ∷ calls, result)
put_append_loop n args server (some err_wrong_leader ∷ replies) =
    let (calls, result) = put_append_loop n args ((server + 1) % n) replies in
    (record { server = server; args = args } ∷ calls, result)
put_append_loop n args server (some err_no_key ∷ replies) =
    let (calls, result) = put_append_loop n args server replies in
    (record { server = server; args = args } ∷ calls, result)
put_append_loop n args server (some ok ∷ replies) =
    (record { server = server; args = args } ∷ [], some server)

-- `Clerk::PutAppend`. The request number is an `int` in the source; here it has no upper bound.
unfoldable pub put_append :
    Bytes → Bytes → Bytes → List (Option Err) → Clerk → List (Call PutAppendArgs) × Option Clerk
unfolding put_append_loop
put_append key value op replies c =
    let q : Clerk = record c { request_id = c.request_id + 1 } in
    let args : PutAppendArgs = record {
      key = key;
      value = value;
      op = op;
      client_id = q.client_id;
      request_id = q.request_id;
    } in
    let (calls, result) = put_append_loop (length q.servers) args q.cur_leader_id replies in
    (calls, elim result [ none ↦ none | some server ↦ some (set_leader (some server) q) ])

-- `Clerk::Put` and `Clerk::Append`.
abbrev pub put :
    Bytes → Bytes → List (Option Err) → Clerk → List (Call PutAppendArgs) × Option Clerk
put key value replies c = put_append key value put_op replies c

abbrev pub append :
    Bytes → Bytes → List (Option Err) → Clerk → List (Call PutAppendArgs) × Option Clerk
append key value replies c = put_append key value append_op replies c

-- The library function `std::to_string` on a number that is not negative, with fuel for the digits: a
-- number has fewer digits than `suc` of it.
unfoldable pub digits : ℕ → ℕ → Bytes
digits zero n = []
digits (suc fuel) n = elim (ltb n 10) [
  | true ↦ (48 + n) ∷ []
  | false ↦ digits fuel (n / 10) ++ (48 + n % 10) ∷ []
]

-- The key `node<i>ip` or `node<i>port`.
unfoldable pub node_key : ℕ → Bytes → Bytes
unfolding digits
node_key i field = (110 ∷ 111 ∷ 100 ∷ 101 ∷ []) ++ digits (suc i) i ++ field

abbrev pub ip_field : Bytes
ip_field = 105 ∷ 112 ∷ []

abbrev pub port_field : Bytes
port_field = 112 ∷ 111 ∷ 114 ∷ 116 ∷ []

-- The loop of `Clerk::Init`: the addresses of the nodes from number `i` on.
unfoldable pub addresses : ℕ → ℕ → Map Bytes Bytes → List Bytes
unfolding load node_key
addresses zero i config = []
addresses (suc fuel) i config = elim (load (node_key i ip_field) config) [
  | [] ↦ []
  | b ∷ ip ↦ ((b ∷ ip) ++ 58 ∷ load (node_key i port_field) config) ∷ addresses fuel (i + 1) config
]

-- `Clerk::Init` on the configuration that is loaded; the loop ends at `INT_MAX - 1`.
unfoldable pub init_servers : Map Bytes Bytes → Clerk → Clerk
unfolding addresses
init_servers config c = record c { servers = c.servers ++ addresses 2147483646 0 config }
