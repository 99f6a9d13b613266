-- ===== src/KvServer/Handed.antt =====
-- The commands that Raft has handed to a server, and what its queues and its table hold of them.
use kvstorage_base_raft_cpp.Base.{
  if◌then◌else◌, ℕ, zero, suc, ◌≤◌, ◌≡◌, inl, inr, some, List, [], ◌∷◌, ◌++◌, arith, Bytes,
  bytes_eq, bytes_eq_iff, bytes_eq_instance, nat_eq, find, find-assign, assign, set, get_elem?, Map,
  All, All-mono, Bool-cases,
}
use mathlib.Core.Path.{subst}
use kvstorage_base_raft_cpp.Message.{Op, ApplyMsg}
use kvstorage_base_raft_cpp.Archive.{Archive}
use kvstorage_base_raft_cpp.KvServer.{queue_at}

abbrev pub Among : Op → List Op → Type 0
Among op handed = (p : ℕ) × (get_elem? handed p ≡ some op)

pub Among-more : (x op : Op) (handed : List Op) → Among op handed → Among op (x ∷ handed)
Among-more x op handed (p, at) = (suc p, at)

-- The commands of messages that a server has read, in their order.
abbrev pub commands_of : ⦃a : Archive⦄ → List ApplyMsg → List Op
commands_of [] = []
commands_of ⦃a⦄ (message ∷ messages) =
    let rest = commands_of messages in
    if message.command_valid then a.load_op message.command ∷ rest else rest

-- Among the commands is one of the client that is numbered so, or newer.
abbrev pub IsHanded : List Op → Bytes → ℕ → Type 0
IsHanded handed client number =
    (op : Op) × Among op handed × (op.client_id ≡ client) × (number ≤ op.request_id)

pub IsHanded-more :
    (x : Op) (handed : List Op) (client : Bytes) (number : ℕ)
    → IsHanded handed client number
    → IsHanded (x ∷ handed) client number
IsHanded-more x handed client number (op, among, of_client, le) =
    (op, Among-more x op handed among, of_client, le)

-- What stands in the queues was handed to the server.
abbrev pub Queued : List Op → List (List Op) → Type 0
Queued handed channels = (c : ℕ) → All (λ op. Among op handed) (queue_at channels c)

-- What the table of requests holds was handed to the server, or something newer of the client was.
abbrev pub Recorded : List Op → Map Bytes ℕ → Type 0
Recorded handed table =
    (client : Bytes) (last : ℕ) → find client table ≡ some last → IsHanded handed client last

pub Queued-set :
    (handed : List Op) (cs : List (List Op)) (c : ℕ) (ops : List Op)
    → Queued handed cs
    → All (λ op. Among op handed) ops
    → Queued handed (set cs c ops)
Queued-set handed [] c ops h new d = tt
Queued-set handed (x ∷ cs) zero ops h new zero = new
Queued-set handed (x ∷ cs) zero ops h new (suc d) = h (suc d)
Queued-set handed (x ∷ cs) (suc c) ops h new zero = h 0
Queued-set handed (x ∷ cs) (suc c) ops h new (suc d) =
    Queued-set handed cs c ops (λ d. h (suc d)) new d

pub Queued-added :
    (handed : List Op) (cs : List (List Op)) → Queued handed cs → Queued handed (cs ++ [] ∷ [])
Queued-added handed [] h zero = tt
Queued-added handed [] h (suc d) = tt
Queued-added handed (x ∷ cs) h zero = h 0
Queued-added handed (x ∷ cs) h (suc d) = Queued-added handed cs (λ d. h (suc d)) d

pub Queued-more :
    (x : Op) (handed : List Op) (cs : List (List Op)) → Queued handed cs → Queued (x ∷ handed) cs
Queued-more x handed cs h c =
    All-mono _ _ (queue_at cs c) (λ op. λ m. Among-more x op handed m) (h c)

pub Recorded-more :
    (x : Op) (handed : List Op) (table : Map Bytes ℕ)
    → Recorded handed table
    → Recorded (x ∷ handed) table
Recorded-more x handed table h client last e = IsHanded-more x handed client last (h client last e)

pub Recorded-assign :
    (handed : List Op) (table : Map Bytes ℕ) (client : Bytes) (number : ℕ)
    → Recorded handed table
    → IsHanded handed client number
    → Recorded handed (assign client number table)
Recorded-assign handed table client number h new other last e =
    let found = find-assign client other number table in
    elim (Bool-cases (bytes_eq client other)) [
      | inl same ↦
          let here : client ≡ other = (bytes_eq_iff client other).0 same in
          let this : number ≡ last = ground (arith, e, found, same) in
          subst (IsHanded handed other) this (subst (λ x. IsHanded handed x number) here new)
      | inr differs ↦ h other last (ground (arith, e, found, differs))
    ]
