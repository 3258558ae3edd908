-- ===== src/Dfs/Master/Servers.antt =====
-- dfs/dfs-master.c: the heartbeats, and the server that is chosen for a new chunk.

-- What a cycle of heartbeats makes of a server.
use dfs_pios_ro.Dfs.Master.{
  hb_check, hb_loop, ServerStatus, choose, Server, chunk_down, chunk_ok, hb_max_lag, lag,
  same_index, get_server_for_new_chunk, Master, heartbeat,
}
use dfs_pios_ro.Base.{
  ℕ, List, ◌≡◌, Option, suc, Bool-cases, if◌then◌else◌, ◌≤◌, get_elem?, [], ◌∷◌, ◌⊎◌, some, ltb,
  length, ok, zero, inl, arith, ◌<◌, inr, ◌+◌, refl, u32, ◌^◌, ◌-◌, ap, subst, true, none, ◌==◌,
  eq_of_==, ==-false_of_ne,
}

abbrev pub marked : ℕ → Server → Server
marked hb_id s = record s { status = if ltb hb_max_lag (lag hb_id s) then chunk_down else chunk_ok }

status-cases : (t : ServerStatus) → (t ≡ chunk_down) ⊎ (t ≡ chunk_ok)
status-cases chunk_down = inl refl
status-cases chunk_ok = inr refl

hb_check-marked :
    (hb_id : ℕ) (s : Server) (num_act : ℕ)
    → (n : ℕ) × (hb_check hb_id s num_act ≡ (marked hb_id s, n))
unfolding hb_check
hb_check-marked hb_id s num_act = elim (Bool-cases (ltb hb_max_lag (lag hb_id s))) [
  | inl late ↦ (u32 (num_act + 2 ^ 32 - 1), rw late refl)
  | inr timely ↦ elim (status-cases s.status) [
    | inl down ↦ (u32 (num_act + 1), rw (timely, down) refl)
    | inr up ↦
        let same : s ≡ record s { status = chunk_ok } = ap (λ t. record s { status = t }) up in
        (num_act, rw (timely, up) (ap (λ (x : Server). (x, num_act)) same))
  ]
]

-- The servers after the first `n` are left.
abbrev pub mark_first : ℕ → ℕ → List Server → List Server
mark_first zero hb_id servers = servers
mark_first (suc n) hb_id [] = []
mark_first (suc n) hb_id (s ∷ rest) = marked hb_id s ∷ mark_first n hb_id rest

abbrev pub addrs : ℕ → List Server → List ℕ
addrs zero servers = []
addrs (suc n) [] = []
addrs (suc n) (s ∷ rest) = s.addr ∷ addrs n rest

hb_loop-marked :
    (n hb_id : ℕ) (servers : List Server) (num_act : ℕ)
    → n ≤ length servers
    → (num_act' : ℕ) × (hb_loop n hb_id servers num_act
        ≡ ok (mark_first n hb_id servers, num_act', addrs n servers))
unfolding hb_loop
hb_loop-marked zero hb_id servers num_act le = (num_act, refl)
hb_loop-marked (suc n) hb_id [] num_act le = absurd (omega arith)
hb_loop-marked (suc n) hb_id (s ∷ rest) num_act le =
    let (k, e) = hb_check-marked hb_id s num_act in
    let (k', e') = hb_loop-marked n hb_id rest k (omega arith) in (k', rw (e, e'))

-- The server is active.
abbrev pub IsActive : List Server → ℕ → Type 0
IsActive servers k = (s : Server) × (get_elem? servers k ≡ some s) × (s.status ≡ chunk_ok)

-- What a choice among the servers behind the first is among all.
abbrev Choice : ℕ → ℕ → List Server → ℕ → ℕ → Type 0
Choice n i servers server_id j =
    (j ≡ server_id) ⊎ ((k : ℕ) × (k < n) × (j ≡ i + k) × IsActive servers k)

Choice-later :
    (n i : ℕ) (s : Server) (rest : List Server) {server_id j : ℕ}
    → Choice n (i + 1) rest server_id j
    → Choice (suc n) i (s ∷ rest) server_id j
Choice-later n i s rest (inl e) = inl e
Choice-later n i s rest (inr (k, lt, at, active)) = inr (suc k, omega arith, omega arith, active)

Choice-taken :
    (n i : ℕ) (s : Server) (rest : List Server) {server_id j : ℕ}
    → s.status ≡ chunk_ok
    → Choice n (i + 1) rest i j
    → Choice (suc n) i (s ∷ rest) server_id j
Choice-taken n i s rest up (inl e) = inr (0, omega arith, omega arith, (s, refl, up))
Choice-taken n i s rest up (inr (k, lt, at, active)) = inr (suc k, omega arith, omega arith, active)

choose-IsActive :
    (n i : ℕ) (servers : List Server) (fake_rand : Option ℕ) (server_id : ℕ)
    → n ≤ length servers
    → (j : ℕ) × (fake_rand' : Option ℕ) × (choose n i servers fake_rand server_id
        ≡ ok (j, fake_rand'))
      × Choice n i servers server_id j
unfolding choose
choose-IsActive zero i servers fake_rand server_id le = (server_id, fake_rand, refl, inl refl)
choose-IsActive (suc n) i [] fake_rand server_id le = absurd (omega arith)
choose-IsActive (suc n) i (s ∷ rest) fake_rand server_id le = elim (status-cases s.status) [
  | inl down ↦
      let (j, f, e, c) = choose-IsActive n (i + 1) rest fake_rand server_id (omega arith) in
      (j, f, rw down e, Choice-later n i s rest c)
  | inr up ↦ elim (Bool-cases (same_index i fake_rand)) [
    | inl same ↦
        let (j, f, e, c) = choose-IsActive n (i + 1) rest none server_id (omega arith) in
        (j, f, rw (up, same) e, Choice-later n i s rest c)
    | inr other ↦
        let (j, f, e, c) = choose-IsActive n (i + 1) rest (some i) i (omega arith) in
        (j, f, rw (up, other) e, Choice-taken n i s rest up c)
  ]
]

chosen :
    (n : ℕ) (servers : List Server) {j : ℕ}
    → Choice n 0 servers 0 j
    → (j ≡ 0) ⊎ ((j < n) × IsActive servers j)
chosen n servers (inl e) = inl e
chosen n servers {j} (inr (k, lt, at, active)) =
    let same : k ≡ j = omega arith in inr (omega arith, subst (IsActive servers) same active)

-- With as many servers as the master counts, `dfs_master_get_server_for_new_chunk` always returns:
-- -1 if it counts no active server, and otherwise 0 or the index of a server that is active.
pub get_server_for_new_chunk-IsActive :
    (m : Master)
    → m.num_chunkserver ≤ length m.chunkservers
    → ((m.num_act_server ≡ 0) × (get_server_for_new_chunk m ≡ ok (none, m)))
      ⊎ ((j : ℕ) × (fake_rand' : Option ℕ) × (get_server_for_new_chunk m
            ≡ ok (some j, record m { fake_rand = fake_rand' }))
          × ((j ≡ 0) ⊎ ((j < m.num_chunkserver) × IsActive m.chunkservers j)))
unfolding get_server_for_new_chunk
get_server_for_new_chunk-IsActive m le = elim (Bool-cases (m.num_act_server == 0)) [
  | inl idle ↦ inl (eq_of_== m.num_act_server 0 idle, rw idle refl)
  | inr some_active ↦
      let (j, f, e, c) = choose-IsActive m.num_chunkserver 0 m.chunkservers m.fake_rand 0 le in
      inr (j, f, rw (some_active, e), chosen m.num_chunkserver m.chunkservers c)
]

-- Every active server is the one that `fake_rand` names.
abbrev pub OnlyAgain : ℕ → ℕ → List Server → Option ℕ → Type 0
OnlyAgain n i servers fake_rand =
    (k : ℕ) → k < n → IsActive servers k → same_index (i + k) fake_rand ≡ true

same_index_unique :
    (i k : ℕ) (fake_rand : Option ℕ)
    → same_index i fake_rand ≡ true
    → same_index (i + suc k) fake_rand ≡ true
    → ⊥
same_index_unique i k none e e' = cc
same_index_unique i k (some j) e e' = ground arith

OnlyAgain-rest :
    (n i : ℕ) (s : Server) (rest : List Server) (fake_rand : Option ℕ)
    → OnlyAgain (suc n) i (s ∷ rest) fake_rand
    → OnlyAgain n (i + 1) rest fake_rand
OnlyAgain-rest n i s rest fake_rand only k lt active =
    let at : i + suc k ≡ i + 1 + k = omega arith in
    subst (λ x. same_index x fake_rand ≡ true) at (only (suc k) (omega arith) active)

OnlyAgain-first :
    (n i : ℕ) (s : Server) (rest : List Server) (fake_rand : Option ℕ)
    → OnlyAgain (suc n) i (s ∷ rest) fake_rand
    → s.status ≡ chunk_ok
    → same_index i fake_rand ≡ true
OnlyAgain-first n i s rest fake_rand only up =
    let at : i + 0 ≡ i = omega arith in
    subst (λ x. same_index x fake_rand ≡ true) at (only 0 (omega arith) (s, refl, up))

choose-stays :
    (n i : ℕ) (servers : List Server) (fake_rand : Option ℕ) (server_id : ℕ)
    → n ≤ length servers
    → OnlyAgain n i servers fake_rand
    → (f : Option ℕ) × (choose n i servers fake_rand server_id ≡ ok (server_id, f))
unfolding choose
choose-stays zero i servers fake_rand server_id le only = (fake_rand, refl)
choose-stays (suc n) i [] fake_rand server_id le only = absurd (omega arith)
choose-stays (suc n) i (s ∷ rest) fake_rand server_id le only = elim (status-cases s.status) [
  | inl down ↦
      let (f, e) =
        choose-stays n (i + 1) rest fake_rand server_id (omega arith)
          (OnlyAgain-rest n i s rest fake_rand only) in
      (f, rw down e)
  | inr up ↦
      let same : same_index i fake_rand ≡ true = OnlyAgain-first n i s rest fake_rand only up in
      let (f, e) = choose-stays n (i + 1) rest none server_id (omega arith) (λ k lt active.
        absurd (same_index_unique i k fake_rand same (only (suc k) (omega arith) active))) in
      (f, rw (up, same) e)
]

-- With as many servers as the master counts, and a count of active servers that is not 0, where the
-- only active server, if any, is the one that `fake_rand` names:
-- `dfs_master_get_server_for_new_chunk` returns 0, whether server 0 is active or not.
pub get_server_for_new_chunk-stays :
    (m : Master)
    → 0 < m.num_act_server
    → m.num_chunkserver ≤ length m.chunkservers
    → OnlyAgain m.num_chunkserver 0 m.chunkservers m.fake_rand
    → (m' : Master) × (get_server_for_new_chunk m ≡ ok (some 0, m'))
unfolding get_server_for_new_chunk
get_server_for_new_chunk-stays m pos le only =
    let (f, e) = choose-stays m.num_chunkserver 0 m.chunkservers m.fake_rand 0 le only in
    (record m { fake_rand = f }, rw (==-false_of_ne m.num_act_server 0 (omega arith), e))

get_elem?-mark_first :
    (n hb_id : ℕ) (servers : List Server) (k : ℕ) {s : Server}
    → get_elem? servers k ≡ some s
    → get_elem? (mark_first n hb_id servers) k ≡ (if ltb k n then some (marked hb_id s) else some s)
get_elem?-mark_first n hb_id [] k at = cc
get_elem?-mark_first zero hb_id (s ∷ rest) k at = ground arith
get_elem?-mark_first (suc n) hb_id (s ∷ rest) zero at = ground arith
get_elem?-mark_first (suc n) hb_id (s ∷ rest) (suc k) at =
    ground (arith, get_elem?-mark_first n hb_id rest k at)

-- With as many servers as the master counts, a cycle of heartbeats always returns, with the next
-- heartbeat id: of the servers that it counts, each that is more than DFS_HB_MAX_LAG behind that id
-- is marked as down, and each other as active; the other servers stay, and a heartbeat is sent to
-- each server that it counts, in order.
pub heartbeat-marked :
    (m : Master)
    → m.num_chunkserver ≤ length m.chunkservers
    → (m' : Master) × (heartbeat m ≡ ok (m', addrs m.num_chunkserver m.chunkservers))
      × (m'.cur_hb_id ≡ u32 (m.cur_hb_id + 1))
      × ((k : ℕ) (s : Server)
          → get_elem? m.chunkservers k ≡ some s
          → get_elem? m'.chunkservers k
            ≡ (if ltb k m.num_chunkserver then some (marked (u32 (m.cur_hb_id + 1)) s) else some s))
unfolding heartbeat
heartbeat-marked m le =
    let hb_id = u32 (m.cur_hb_id + 1) in
    let (n, e) = hb_loop-marked m.num_chunkserver hb_id m.chunkservers m.num_act_server le in
    (
      record m {
        chunkservers = mark_first m.num_chunkserver hb_id m.chunkservers;
        num_act_server = n;
        cur_hb_id = hb_id;
      },
      rw e,
      refl,
      λ k s at. get_elem?-mark_first m.num_chunkserver hb_id m.chunkservers k at,
    )
