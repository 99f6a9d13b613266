-- ===== src/Clerk/Servers.antt =====
-- The nodes that a configuration lists, as `Clerk::Init` reads them.
use kvstorage_base_raft_cpp.Base.{
  ℕ, zero, suc, ◌+◌, ◌≤◌, ◌<◌, ◌≡◌, ◌≢◌, ◌⊎◌, inl, inr, refl, ap, ◌∙◌, List, [], ◌∷◌, ◌++◌, arith,
  Bytes, Map,
}
use kvstorage_base_raft_cpp.RpcConfig.{load}
use kvstorage_base_raft_cpp.Clerk.{node_key, ip_field, port_field, addresses}

-- `ip:port` of node `i`.
abbrev pub address : Map Bytes Bytes → ℕ → Bytes
address config i = load (node_key i ip_field) config ++ 58 ∷ load (node_key i port_field) config

-- Those of the nodes `i`, …, `i + n - 1`.
abbrev pub addresses_of : Map Bytes Bytes → ℕ → ℕ → List Bytes
addresses_of config zero i = []
addresses_of config (suc n) i = address config i ∷ addresses_of config n (i + 1)

-- The configuration has the nodes `i`, …, `i + n - 1` and no next one.
pub record Lists (config : Map Bytes Bytes) (n i : ℕ) : Type 0 where
  pub has : (j : ℕ) → i ≤ j → j < i + n → load (node_key j ip_field) config ≢ []
  pub ends : load (node_key (i + n) ip_field) config ≡ []

pub Lists-next :
    (config : Map Bytes Bytes) (n i : ℕ) → Lists config (suc n) i → Lists config n (i + 1)
Lists-next config n i lists = record {
  has = λ j from to. lists.has j (omega arith) (omega arith);
  ends = ap (λ k. load (node_key k ip_field) config) (omega arith) ∙ lists.ends;
}

pub Lists-end :
    (config : Map Bytes Bytes) (i : ℕ) → Lists config 0 i → load (node_key i ip_field) config ≡ []
Lists-end config i lists = ap (λ k. load (node_key k ip_field) config) (omega arith) ∙ lists.ends

pub List-cases : (bs : Bytes) → (bs ≡ []) ⊎ ((b : ℕ) × (rest : Bytes) × (bs ≡ b ∷ rest))
List-cases [] = inl refl
List-cases (b ∷ rest) = inr (b, rest, refl)

addresses_step :
    (fuel i : ℕ) (config : Map Bytes Bytes)
    → load (node_key i ip_field) config ≢ []
    → addresses (suc fuel) i config ≡ address config i ∷ addresses fuel (i + 1) config
unfolding addresses
addresses_step fuel i config there = elim (List-cases (load (node_key i ip_field) config)) [
  | inl missing ↦ absurd (there missing)
  | inr (b, ip, e) ↦ rw (addresses, e) refl
]

pub addresses-Lists :
    (n fuel i : ℕ) (config : Map Bytes Bytes)
    → n < fuel
    → Lists config n i
    → addresses fuel i config ≡ addresses_of config n i
unfolding addresses
addresses-Lists n zero i config h lists = absurd (omega arith)
addresses-Lists zero (suc fuel) i config h lists = rw (addresses, Lists-end config i lists) refl
addresses-Lists (suc n) (suc fuel) i config h lists =
    addresses_step fuel i config (lists.has i (omega arith) (omega arith))
    ∙ ap (◌∷◌ (address config i))
        (addresses-Lists n fuel (i + 1) config (omega arith) (Lists-next config n i lists))
