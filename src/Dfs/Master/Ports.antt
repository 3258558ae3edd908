-- ===== src/Dfs/Master/Ports.antt =====
-- dfs/dfs-master.c: try_assign_port, and the count of the ports in use.

-- The index of the first `v`, where the list starts at index `i`.
use dfs_pios_ro.Base.{
  List, ℕ, ◌∷◌, Option, ◌≡◌, if◌then◌else◌, none, arith, ◌+◌, ◌==◌, suc, some, [], refl, get_elem?,
  length, ◌≤◌, set, Bool-cases, zero, ◌<◌, ok, inl, Option-cases, inr, u32, ◌∙◌, length-set, ap,
}
use dfs_pios_ro.Dfs.Master.{scan_ports, or_else, try_assign_port, Master, dfs_max_conn, assign}

abbrev index_from : ℕ → ℕ → List ℕ → Option ℕ
index_from i v [] = none
index_from i v (x ∷ xs) = let later = index_from (i + 1) v xs in if x == v then some i else later

-- The number of ports in use.
abbrev pub used : List ℕ → ℕ
used [] = 0
used (x ∷ xs) = let rest = used xs in if x == 0 then rest else suc rest

scan_ports-index :
    (i : ℕ) (xs : List ℕ) (client : ℕ) (idle : Option ℕ)
    → (scan_ports i xs client idle).0 ≡ index_from i client xs
unfolding scan_ports
scan_ports-index i [] client idle = refl
scan_ports-index i (x ∷ xs) client idle =
    ground
      (arith, scan_ports-index (i + 1) xs client (if x == 0 then or_else idle (some i) else idle))

scan_ports-idle :
    (i : ℕ) (xs : List ℕ) (client : ℕ) (idle : Option ℕ)
    → index_from i client xs ≡ none
    → scan_ports i xs client idle ≡ (none, or_else idle (index_from i 0 xs))
unfolding scan_ports
scan_ports-idle i [] client none e = refl
scan_ports-idle i [] client (some j) e = refl
scan_ports-idle i (x ∷ xs) client none e =
    ground
      (arith, scan_ports-idle (i + 1) xs client none, scan_ports-idle (i + 1) xs client (some i))
scan_ports-idle i (x ∷ xs) client (some j) e =
    ground (arith, scan_ports-idle (i + 1) xs client (some j))

index_from-some :
    (i v : ℕ) (xs : List ℕ) {j : ℕ}
    → index_from i v xs ≡ some j
    → (k : ℕ) × (j ≡ i + k) × (get_elem? xs k ≡ some v)
index_from-some i v [] e = cc
index_from-some i v (x ∷ xs) {j} e = elim (Bool-cases (x == v)) [
  | inl hit ↦ (0, ground arith, ground arith)
  | inr miss ↦
      let (k, at, get) = index_from-some (i + 1) v xs {j = j} (ground arith) in
      (suc k, omega arith, get)
]

-- The value stands nowhere in the list.
abbrev pub Absent : ℕ → List ℕ → Type 0
Absent v xs = (k : ℕ) → ¬ (get_elem? xs k ≡ some v)

index_from-none : (i v : ℕ) (xs : List ℕ) → index_from i v xs ≡ none → Absent v xs
index_from-none i v [] e k at = cc
index_from-none i v (x ∷ xs) e zero at = ground arith
index_from-none i v (x ∷ xs) e (suc k) at = index_from-none (i + 1) v xs (ground arith) k at

used_full : (i : ℕ) (xs : List ℕ) → index_from i 0 xs ≡ none → used xs ≡ length xs
used_full i [] e = refl
used_full i (x ∷ xs) e = ground (arith, used_full (i + 1) xs)

used-set :
    (xs : List ℕ) (k v : ℕ) → get_elem? xs k ≡ some 0 → 0 < v → used (set xs k v) ≡ suc (used xs)
used-set [] k v at pos = cc
used-set (x ∷ xs) zero v at pos = ground arith
used-set (x ∷ xs) (suc k) v at pos = ground (arith, used-set xs k v)

used-le : (xs : List ℕ) → used xs ≤ length xs
used-le [] = omega arith
used-le (x ∷ xs) = ground (arith, used-le xs)

-- Every port is in the table, and `n_conns` counts those in use.
pub record PortsOk (m : Master) : Type 0 where
  pub room : length m.client_addrs ≡ dfs_max_conn
  pub conns : m.n_conns ≡ used m.client_addrs

-- What `try_assign_port` did.
pub data Assigned (m : Master) (client : ℕ) : Option ℕ → Master → Type 0 where
  reused : {i : ℕ} → get_elem? m.client_addrs i ≡ some client → Assigned m client (some i) m
  opened :
      {i : ℕ}
      → Absent client m.client_addrs
      → get_elem? m.client_addrs i ≡ some 0
      → Assigned m client
          (some i)
          (record m { client_addrs = set m.client_addrs i client; n_conns = m.n_conns + 1 })
  refused : Absent client m.client_addrs → Absent 0 m.client_addrs → Assigned m client none m

module _ (m : Master) (client : ℕ) where
  assign-found :
      (p : Option ℕ × Option ℕ) {i : ℕ} → p.0 ≡ some i → assign m client p ≡ ok (some i, m)
  unfolding assign
  assign-found (some j, idle) e = ap (λ o. ok (o, m)) e
  assign-found (none, idle) e = cc

  assign-full : m.n_conns ≡ 4 → assign m client (none, none) ≡ ok (none, m)
  unfolding assign
  assign-full all = ground arith

  assign-free :
      (i : ℕ)
      → u32 (m.n_conns + 1) ≡ m.n_conns + 1
      → assign m client (none, some i)
        ≡ ok (
          some i,
          record m { client_addrs = set m.client_addrs i client; n_conns = m.n_conns + 1 },
        )
  unfolding assign
  assign-free i wrapless = rw wrapless

-- For a client whose address is not 0, while `n_conns` counts the ports in use, `try_assign_port`
-- always returns, its assertion holds, and `n_conns` still counts the ports in use: the client
-- keeps the port that it has, or, if it has none, gets one that was free, or is refused where no
-- port is free.
pub try_assign_port-Assigned :
    (m : Master) (client : ℕ)
    → 0 < client
    → PortsOk m
    → (port : Option ℕ) × (m' : Master) × (try_assign_port m client ≡ ok (port, m'))
      × Assigned m client port m'
      × PortsOk m'
unfolding try_assign_port
try_assign_port-Assigned m client pos v = elim (Option-cases (index_from 0 client m.client_addrs)) [
  | inr (i, has) ↦
      let (k, at, get) = index_from-some 0 client m.client_addrs has in
      let same : k ≡ i = omega arith in
      (
        some i,
        m,
        assign-found m client (scan_ports 0 m.client_addrs client none)
            (scan_ports-index 0 m.client_addrs client none ∙ has),
        reused (rw (← same) get),
        v,
      )
  | inl lacks ↦ elim (Option-cases (index_from 0 0 m.client_addrs)) [
    | inr (i, free) ↦
        let (k, at, get) = index_from-some 0 0 m.client_addrs free in
        let same : k ≡ i = omega arith in
        let wrapless : u32 (m.n_conns + 1) ≡ m.n_conns + 1 =
          omega (arith, v.conns, v.room, used-le m.client_addrs) in
        (
          some i,
          record m { client_addrs = set m.client_addrs i client; n_conns = m.n_conns + 1 },
          rw (scan_ports-idle 0 m.client_addrs client none lacks, free)
              (assign-free m client i wrapless),
          opened (index_from-none 0 client m.client_addrs lacks) (rw (← same) get),
          record {
            room = length-set m.client_addrs i client ∙ v.room;
            conns = omega (arith, used-set m.client_addrs i client (rw (← same) get) pos, v.conns);
          },
        )
    | inl full ↦ (
      none,
      m,
      rw (scan_ports-idle 0 m.client_addrs client none lacks, full)
          (assign-full m client (v.conns ∙ used_full 0 m.client_addrs full ∙ v.room)),
      refused (index_from-none 0 client m.client_addrs lacks)
          (index_from-none 0 0 m.client_addrs full),
      v,
    )
  ]
]
