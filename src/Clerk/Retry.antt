-- ===== src/Clerk/Retry.antt =====
-- The retries of a request.
use native.Mathlib.Nat.{mod-add-mod, mod-eq_of_lt, mod-lt}
use kvstorage_base_raft_cpp.Base.{
  ℕ, zero, suc, ◌+◌, ◌%◌, ◌≤◌, ◌<◌, ◌≡◌, refl, sym, ap, ◌∙◌, Option, none, some, List, [], ◌∷◌,
  ◌++◌, arith, Bytes, length, get_elem?,
}
use kvstorage_base_raft_cpp.KvServer.{Err, ok, err_no_key, err_wrong_leader}
use kvstorage_base_raft_cpp.Clerk.{Clerk, Call, PutAppendArgs, put_append, put_append_loop}

-- Every call failed, or its server did not lead.
pub data Refused : List (Option Err) → Type 0 where
  nil : Refused []
  failed : {replies : List (Option Err)} → Refused replies → Refused (none ∷ replies)
  not_leader :
      {replies : List (Option Err)} → Refused replies → Refused (some err_wrong_leader ∷ replies)

-- `k` calls with the same arguments, to one server after the other.
abbrev pub round_robin : {A : Type 0} → ℕ → A → ℕ → ℕ → List (Call A)
round_robin n args server zero = record { server = server; args = args } ∷ []
round_robin n args server (suc k) =
    record { server = server; args = args } ∷ round_robin n args ((server + 1) % n) k

unfoldable pub nth_server : ℕ → ℕ → ℕ → ℕ
nth_server n server zero = server
nth_server n server (suc k) = nth_server n ((server + 1) % n) k

put_append_loop_lem :
    (n : ℕ) (args : PutAppendArgs) (server : ℕ) (failures rest : List (Option Err))
    → Refused failures
    → put_append_loop n args server (failures ++ some ok ∷ rest)
      ≡ (round_robin n args server (length failures), some (nth_server n server (length failures)))
unfolding put_append_loop nth_server
put_append_loop_lem n args server [] rest nil = refl
put_append_loop_lem n args server (none ∷ fs) rest (failed h) =
    rw (put_append_loop_lem n args ((server + 1) % n) fs rest h) refl
put_append_loop_lem n args server (some err_wrong_leader ∷ fs) rest (not_leader h) =
    rw (put_append_loop_lem n args ((server + 1) % n) fs rest h) refl
put_append_loop_lem n args server (some ok ∷ fs) rest h = elim h [ ]
put_append_loop_lem n args server (some err_no_key ∷ fs) rest h = elim h [ ]

pub nth_server_lem : (n server k : ℕ) → server < n → nth_server n server k ≡ (server + k) % n
unfolding nth_server
nth_server_lem n server zero h = sym (mod-eq_of_lt h) ∙ ap (λ m. m % n) (omega arith)
nth_server_lem n server (suc k) h =
    nth_server_lem n ((server + 1) % n) k (mod-lt (server + 1) (omega arith))
    ∙ mod-add-mod (server + 1) n k
    ∙ ap (λ m. m % n) (omega arith)

nth_call :
    {A : Type 0} (n : ℕ) (args : A) (server k i : ℕ)
    → i ≤ k
    → get_elem? (round_robin n args server k) i
      ≡ some (record { server = nth_server n server i; args = args })
unfolding nth_server
nth_call n args server zero zero h = refl
nth_call n args server zero (suc i) h = absurd (omega arith)
nth_call n args server (suc k) zero h = refl
nth_call n args server (suc k) (suc i) h = nth_call n args ((server + 1) % n) k i (omega arith)

pub round_robin-length :
    {A : Type 0} (n : ℕ) (args : A) (server k : ℕ) → length (round_robin n args server k) ≡ suc k
round_robin-length n args server zero = refl
round_robin-length n args server (suc k) = ap suc (round_robin-length n args ((server + 1) % n) k)

-- The arguments of a client's next request.
abbrev pub next_args : Bytes → Bytes → Bytes → Clerk → PutAppendArgs
next_args key value op c = record {
  key = key;
  value = value;
  op = op;
  client_id = c.client_id;
  request_id = c.request_id + 1;
}

-- A write that is refused some times and then accepted returns: the request number is used up, and
-- the server that accepted it, which is that many servers behind the one that was asked first, is
-- the one that the next request asks first. One call is made for each answer.
pub put_append-returns :
    (key value op : Bytes) (failures rest : List (Option Err)) (c : Clerk)
    → Refused failures
    → c.cur_leader_id < length c.servers
    → ((put_append key value op (failures ++ some ok ∷ rest) c).1
        ≡ some (record c {
          request_id = c.request_id + 1;
          cur_leader_id = (c.cur_leader_id + length failures) % length c.servers;
        }))
      × (length (put_append key value op (failures ++ some ok ∷ rest) c).0 ≡ suc (length failures))
unfolding put_append
put_append-returns key value op failures rest c h bound =
    let n = length c.servers in
    let args = next_args key value op c in
    let run = put_append_loop_lem n args c.cur_leader_id failures rest h in
    let led : ℕ → Clerk = λ s. record c { request_id = c.request_id + 1; cur_leader_id = s } in
    (
      ap
            (λ (result : List (Call PutAppendArgs) × Option ℕ). elim result.1 [
              | none ↦ none
              | some server ↦ some (led server)
            ])
            run
          ∙ ap (λ s. some (led s)) (nth_server_lem n c.cur_leader_id (length failures) bound),
      ap (λ (result : List (Call PutAppendArgs) × Option ℕ). length result.0) run
          ∙ round_robin-length n args c.cur_leader_id (length failures),
    )

-- Such a write asks one server after the other, from the one that last led, each with the same
-- arguments, the client's name and its next request number among them.
pub put_append-calls :
    (key value op : Bytes) (failures rest : List (Option Err)) (c : Clerk) (i : ℕ)
    → Refused failures
    → c.cur_leader_id < length c.servers
    → i ≤ length failures
    → get_elem? (put_append key value op (failures ++ some ok ∷ rest) c).0 i
      ≡ some (record {
        server = (c.cur_leader_id + i) % length c.servers;
        args = next_args key value op c;
      })
unfolding put_append
put_append-calls key value op failures rest c i h bound le =
    let n = length c.servers in
    let args = next_args key value op c in
    ap (λ (result : List (Call PutAppendArgs) × Option ℕ). get_elem? result.0 i)
      (put_append_loop_lem n args c.cur_leader_id failures rest h)
    ∙ nth_call n args c.cur_leader_id (length failures) i le
    ∙ ap (λ s. some (record { server = s; args = args })) (nth_server_lem n c.cur_leader_id i bound)
