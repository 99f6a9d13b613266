-- ===== src/KvServer/Servers.antt =====
-- The constructor of raftCore/kvServer.cc and `Clerk::Init` read the same nodes.
use native.Mathlib.Decide.{ℕ_discrete}
use kvstorage_base_raft_cpp.Base.{
  ℕ, zero, suc, ◌+◌, ◌<◌, ◌≡◌, ◌≢◌, inl, inr, refl, ap, ◌∙◌, true, false, Option, none, some, List,
  [], ◌∷◌, ◌++◌, arith, ◌==◌, if◌then◌else◌, Bytes, Map,
}
use kvstorage_base_raft_cpp.RpcConfig.{load}
use kvstorage_base_raft_cpp.Clerk.{Clerk, node_key, ip_field, init_servers}
use kvstorage_base_raft_cpp.Clerk.Servers.{
  address, addresses_of, Lists, Lists-next, Lists-end, List-cases, addresses-Lists,
}
use kvstorage_base_raft_cpp.KvServer.Startup.{other_servers}

-- The addresses as a server keeps them: the place of node `me` is empty.
abbrev pub without : ℕ → ℕ → List Bytes → List (Option Bytes)
without me i [] = []
without me i (x ∷ xs) = (if i == me then none else some x) ∷ without me (i + 1) xs

other_servers_own :
    (fuel me i : ℕ) (config : Map Bytes Bytes)
    → i ≡ me
    → other_servers (suc fuel) me i config ≡ none ∷ other_servers fuel me (i + 1) config
unfolding other_servers
other_servers_own fuel me i config e =
    let own : (i == me) ≡ true = ground (arith, e) in rw (other_servers, own) refl

other_servers_step :
    (fuel me i : ℕ) (config : Map Bytes Bytes)
    → i ≢ me
    → load (node_key i ip_field) config ≢ []
    → other_servers (suc fuel) me i config
      ≡ some (address config i) ∷ other_servers fuel me (i + 1) config
unfolding other_servers
other_servers_step fuel me i config other there =
    let away : (i == me) ≡ false = ground (arith, other) in
    elim (List-cases (load (node_key i ip_field) config)) [
      | inl missing ↦ absurd (there missing)
      | inr (b, ip, e) ↦ rw (other_servers, away, e) refl
    ]

other_servers_end :
    (fuel me i : ℕ) (config : Map Bytes Bytes)
    → i ≢ me
    → load (node_key i ip_field) config ≡ []
    → other_servers (suc fuel) me i config ≡ []
unfolding other_servers
other_servers_end fuel me i config other missing =
    let away : (i == me) ≡ false = ground (arith, other) in rw (other_servers, away, missing) refl

other_servers-Lists :
    (n fuel me i : ℕ) (config : Map Bytes Bytes)
    → n < fuel
    → me < i + n
    → Lists config n i
    → other_servers fuel me i config ≡ without me i (addresses_of config n i)
other_servers-Lists n zero me i config h own lists = absurd (omega arith)
other_servers-Lists zero (suc fuel) me i config h own lists =
    other_servers_end fuel me i config (λ e. absurd (omega arith)) (Lists-end config i lists)
other_servers-Lists (suc n) (suc fuel) me i config h own lists =
    let rest =
      other_servers-Lists n fuel me (i + 1) config (omega arith) (omega arith)
        (Lists-next config n i lists) in
    elim (ℕ_discrete i me) [
      | yes here ↦
          let at : (i == me) ≡ true = ground (arith, here) in
          other_servers_own fuel me i config here ∙ rw (at, rest) refl
      | no other ↦
          let at : (i == me) ≡ false = ground (arith, other) in
          other_servers_step fuel me i config other (lists.has i (omega arith) (omega arith))
          ∙ rw (at, rest) refl
    ]

-- From a configuration of the nodes 0, …, `n - 1`, fewer than the loops' bound, a client reads the
-- addresses `ip:port` of all of them, in order, behind those it has, and the server of a node `me`
-- among them keeps the same addresses at the same places, and none at its own.
pub servers_of_config :
    (n me : ℕ) (config : Map Bytes Bytes) (c : Clerk)
    → n < 2147483646
    → me < n
    → Lists config n 0
    → ((init_servers config c).servers ≡ c.servers ++ addresses_of config n 0)
      × (other_servers 2147483646 me 0 config ≡ without me 0 (addresses_of config n 0))
unfolding init_servers
servers_of_config n me config c bound own lists = (
  ap (λ xs. c.servers ++ xs) (addresses-Lists n 2147483646 0 config bound lists),
  other_servers-Lists n 2147483646 me 0 config bound (omega arith) lists,
)
