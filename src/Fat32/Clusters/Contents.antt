-- ===== src/Fat32/Clusters/Contents.antt =====
-- fat32/fat32.c: where the clusters lie on the card, and read_cluster_chain.
use dfs_pios_ro.Fat32.Clusters.Chain.{Chain, end, link, Chain-ge_two}
use dfs_pios_ro.Fat32.Clusters.{read_loop, cluster_to_lba, read_cluster_chain, copy_in}
use dfs_pios_ro.Base.{
  inl, inr, ◌>>=◌, zero, suc, arith, ok, ℕ, List, ◌≡◌, u32, ◌≤◌, Outcome, ◌∷◌, ◌<◌, length, arith,
  ◌+◌, true, ◌-◌, ◌*◌, ◌≢◌, ◌++◌, ◌^◌, ◌⊎◌, Bool-cases, suc, ltb, zero, inl, [], append-nil,
  >>=-eq-ok, ==-false_of_ne, append_assoc, length-append, assert, refl, ◌>>◌, ltb-false_of_le, ◌==◌,
  take-all, drop-all,
}
use dfs_pios_ro.Fat32.Disk.{SdCard, Fs, System, pi_sec_read}

-- The first sector of a cluster, as `cluster_to_lba` computes it.
abbrev pub lba_of : Fs → ℕ → ℕ
lba_of f c = u32 (f.cluster_begin_lba + (c - 2) * f.sectors_per_cluster)

-- A file system whose clusters all lie on a card of `capacity` sectors.
pub record Mounted {W : Type 0} (capacity : ℕ) (s : System W) : Type 0 where
  pub ready : s.sd_ready ≡ true
  pub entries : s.fs.n_entries ≡ length s.fs.fat
  pub on_card : s.fs.cluster_begin_lba + s.fs.n_entries * s.fs.sectors_per_cluster ≤ capacity
  pub words : capacity ≤ 2 ^ 32
  pub nonempty : 0 < s.fs.sectors_per_cluster
  pub small : s.fs.sectors_per_cluster ≤ 128

pub cluster_to_lba-eq : (f : Fs) (c : ℕ) → 2 ≤ c → cluster_to_lba f c ≡ ok (lba_of f c)
unfolding cluster_to_lba
cluster_to_lba-eq f c h = ground arith

offset-le : (begin spc c n : ℕ) → 2 ≤ c → c < n → begin + (c - 2) * spc + spc ≤ begin + n * spc
offset-le begin spc c n lo hi = grind arith

offset-lt :
    (begin spc c d : ℕ) → 2 ≤ c → c < d → begin + (c - 2) * spc + spc ≤ begin + (d - 2) * spc
offset-lt begin spc c d lo hi = grind arith

module _ {W : Type 0} {capacity : ℕ} {s : System W} (m : Mounted capacity s) where
  -- No sector number wraps, and the cluster lies on the card.
  pub lba_of-le :
      (c : ℕ)
      → 2 ≤ c
      → c < s.fs.n_entries
      → (lba_of s.fs c ≡ s.fs.cluster_begin_lba + (c - 2) * s.fs.sectors_per_cluster)
        × (lba_of s.fs c + s.fs.sectors_per_cluster ≤ capacity)
  lba_of-le c lo hi = omega (
    arith,
    offset-le s.fs.cluster_begin_lba s.fs.sectors_per_cluster c s.fs.n_entries lo hi,
    m.nonempty,
  )

  -- Two clusters share no sector.
  pub lba_of-apart :
      (c d : ℕ)
      → 2 ≤ c
      → c < s.fs.n_entries
      → 2 ≤ d
      → d < s.fs.n_entries
      → c ≢ d
      → (lba_of s.fs c + s.fs.sectors_per_cluster ≤ lba_of s.fs d)
        ⊎ (lba_of s.fs d + s.fs.sectors_per_cluster ≤ lba_of s.fs c)
  lba_of-apart c d lc hc ld hd ne = elim (Bool-cases (ltb c d)) [
    | inl p ↦ inl (
        omega (
          arith,
          lba_of-le c lc hc,
          lba_of-le d ld hd,
          offset-lt s.fs.cluster_begin_lba s.fs.sectors_per_cluster c d lc (ground arith),
        ))
    | inr p ↦ inr (
        omega (
          arith,
          lba_of-le c lc hc,
          lba_of-le d ld hd,
          offset-lt s.fs.cluster_begin_lba s.fs.sectors_per_cluster d c ld (ground arith),
        ))
  ]

  -- On a mounted file system `cluster_to_lba` takes two different clusters of the table to sectors
  -- from which on, over the length of a cluster, no sector is shared and all lie on the card.
  pub cluster_to_lba-apart :
      (c d : ℕ)
      → 2 ≤ c
      → c < s.fs.n_entries
      → 2 ≤ d
      → d < s.fs.n_entries
      → c ≢ d
      → (a b : ℕ) × (cluster_to_lba s.fs c ≡ ok a)
        × (cluster_to_lba s.fs d ≡ ok b)
        × ((a + s.fs.sectors_per_cluster ≤ b) ⊎ (b + s.fs.sectors_per_cluster ≤ a))
        × (a + s.fs.sectors_per_cluster ≤ capacity)
        × (b + s.fs.sectors_per_cluster ≤ capacity)
  cluster_to_lba-apart c d lc hc ld hd ne = (
    lba_of s.fs c,
    lba_of s.fs d,
    cluster_to_lba-eq s.fs c lc,
    cluster_to_lba-eq s.fs d ld,
    lba_of-apart c d lc hc ld hd ne,
    (lba_of-le c lc hc).1,
    (lba_of-le d ld hd).1,
  )

copy_in-end :
    (buffer : List ℕ) (at : ℕ) (bytes : List ℕ) (n : ℕ)
    → length buffer ≡ at
    → length bytes ≡ n
    → copy_in buffer at bytes n ≡ ok (buffer ++ bytes)
unfolding copy_in
copy_in-end buffer at bytes n here whole =
    rw
      (
        ltb-false_of_le (length bytes) n (omega arith),
        take-all at buffer (omega arith),
        take-all n bytes (omega arith),
        drop-all (at + n) buffer (omega arith),
        append-nil bytes,
      )
      refl

module _ {W : Type 0} (sd : SdCard W) where
  -- What the clusters of a list hold, one after the other: each read gives a whole cluster.
  abbrev pub contents : System W → List ℕ → Outcome (List ℕ)
  contents s [] = ok []
  contents s (c ∷ cs) = do
    b ← pi_sec_read sd s (lba_of s.fs c) s.fs.sectors_per_cluster
    assert (length b == s.fs.sectors_per_cluster * 512)
    rest ← contents s cs
    ok (b ++ rest)

  contents-cons :
      (s : System W) (c : ℕ) (cs : List ℕ) {bytes : List ℕ}
      → contents s (c ∷ cs) ≡ ok bytes
      → (b rest : List ℕ) × (pi_sec_read sd s (lba_of s.fs c) s.fs.sectors_per_cluster ≡ ok b)
        × (length b ≡ s.fs.sectors_per_cluster * 512)
        × (contents s cs ≡ ok rest)
        × (bytes ≡ b ++ rest)
  contents-cons s c cs is =
      let (b, read, is') =
        >>=-eq-ok (pi_sec_read sd s (lba_of s.fs c) s.fs.sectors_per_cluster) _ is in
      let (whole, checked, is'') =
        >>=-eq-ok (assert (length b == s.fs.sectors_per_cluster * 512)) _ is' in
      let (rest, more, e) = >>=-eq-ok (contents s cs) _ is'' in
      (b, rest, read, ground arith, more, cc)

  read_loop-contents :
      (k : ℕ) (s : System W) {c : ℕ} {cs bytes : List ℕ} (buffer : List ℕ) (i j : ℕ)
      → Chain s.fs.fat c cs
      → length cs ≤ k
      → contents s cs ≡ ok bytes
      → length buffer ≡ i
      → i + length cs * (s.fs.sectors_per_cluster * 512) < 2 ^ 32
      → j ≡ i + length cs * (s.fs.sectors_per_cluster * 512)
      → read_loop sd k s c buffer i ≡ ok (buffer ++ bytes, j)
  unfolding read_loop
  read_loop-contents zero s buffer i j (end h e l) le is here small q = absurd (omega arith)
  read_loop-contents (suc k) s buffer i j (end {c} h e l) le is here small q =
      let (b, rest, read, whole, more, split) = contents-cons s c [] is in
      let copied = copy_in-end buffer i b (s.fs.sectors_per_cluster * 512) here whole in
      let i' : u32 (i + s.fs.sectors_per_cluster * 512) ≡ j = omega arith in
      ground (arith, cluster_to_lba-eq s.fs c h, append-nil b)
  read_loop-contents zero s buffer i j (link h e u ch) le is here small q = absurd (omega arith)
  read_loop-contents (suc k) s buffer i j (link {c} {cs} h e u ch) le is here small q =
      let (b, rest, read, whole, more, split) = contents-cons s c cs is in
      let i' = u32 (i + s.fs.sectors_per_cluster * 512) in
      let copied = copy_in-end buffer i b (s.fs.sectors_per_cluster * 512) here whole in
      let moved : i' ≡ i + s.fs.sectors_per_cluster * 512 = omega arith in
      let here' : length (buffer ++ b) ≡ i' = omega (arith, length-append buffer b) in
      let ih =
        read_loop-contents k s (buffer ++ b) i' j ch (omega arith) more here' (omega arith)
          (omega arith) in
      ground (arith, cluster_to_lba-eq s.fs c h, append_assoc buffer b rest, ih)

  -- Along a chain of the table whose clusters, of less than 2 ^ 32 bytes together, can be read,
  -- with as many rounds as clusters, `read_cluster_chain` returns what the clusters hold, in order,
  -- and their number of bytes.
  pub read_cluster_chain-contents :
      (fuel : ℕ) (s : System W) {c : ℕ} {cs bytes : List ℕ}
      → Chain s.fs.fat c cs
      → length cs ≤ fuel
      → contents s cs ≡ ok bytes
      → length cs * (s.fs.sectors_per_cluster * 512) < 2 ^ 32
      → read_cluster_chain sd fuel s c ≡ ok (bytes, length cs * (s.fs.sectors_per_cluster * 512))
  unfolding read_cluster_chain
  read_cluster_chain-contents fuel s {c} ch le is small =
      rw (==-false_of_ne c 0 (ground (arith, Chain-ge_two ch)))
        (read_loop-contents fuel s [] 0 _ ch le is refl (omega arith) (omega arith))
