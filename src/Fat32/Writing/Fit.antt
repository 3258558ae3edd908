-- ===== src/Fat32/Writing/Fit.antt =====
-- `write_cluster_chain` where the data takes exactly the clusters that the file has.
use dfs_pios_ro.Fat32.Clusters.{read_cluster_chain}
use dfs_pios_ro.Fat32.Clusters.Walk.{Chain-distinct, get_cluster_chain_length-Chain}
use dfs_pios_ro.Fat32.Clusters.Free.{lt-length_of_some}
use dfs_pios_ro.Fat32.Writing.Steps.{walk_step-middle, walk_step-last}
use dfs_pios_ro.Fat32.Writing.Rounds.{
  walk_loop-next, walk_loop-stop, round_suc, before-false, more-false, after-false,
}
use dfs_pios_ro.Fat32.Clusters.Chain.{Chain, has, end, link, Chain-length-suc}
use dfs_pios_ro.Fat32.Writing.Store.{with_disk, IsCluster, SameOn, write_one}
use dfs_pios_ro.Fat32.Writing.{Walked, walk_loop, write_cluster_chain}
use dfs_pios_ro.Fat32.Disk.{SdCard, pi_sec_read, Reliable, System}
use dfs_pios_ro.Base.{
  zero, suc, refl, arith, ℕ, List, ◌≡◌, true, false, length, some, ◌≤◌, ok, ◌*◌, take, ◌+◌, ◌∷◌,
  ◌<◌, drop, ◌++◌, ◌^◌, length-drop, ◌∙◌, get_elem?, take-add, drop-drop, u32, [], append-nil, ap,
  length-take,
}
use dfs_pios_ro.Fat32.Clusters.Contents.{lba_of, Mounted, contents, read_cluster_chain-contents}

pub Mounted-with_disk :
    {W : Type 0} {capacity : ℕ} {s : System W} (w : W)
    → Mounted capacity s
    → Mounted capacity (with_disk s w)
Mounted-with_disk w m = record {
  ready = m.ready;
  entries = m.entries;
  on_card = m.on_card;
  words = m.words;
  nonempty = m.nonempty;
  small = m.small;
}

module _ {W : Type 0} (sd : SdCard W) where
  pub contents-read :
      (s : System W) (c : ℕ) (cs : List ℕ) {b rest : List ℕ}
      → s.sd_ready ≡ true
      → sd.readblock s.disk (lba_of s.fs c) s.fs.sectors_per_cluster ≡ some b
      → length b ≡ s.fs.sectors_per_cluster * 512
      → contents sd s cs ≡ ok rest
      → contents sd s (c ∷ cs) ≡ ok (b ++ rest)
  unfolding pi_sec_read
  contents-read s c cs ready read whole more = ground arith

  -- The walk has stored `length cs` clusters of data, from `index` on, in the clusters `cs`, and
  -- has changed nothing else.
  pub record Stored (bytes : List ℕ) (s : System W) (cs : List ℕ) (start index : ℕ) (v : Walked W)
      (w : W) : Type 0 where
    pub start_kept : v.start ≡ start
    pub enough : v.more ≡ false
    pub table_kept : v.sys ≡ with_disk s w
    pub holds :
        contents sd (with_disk s w) cs
        ≡ ok (take (length cs * (512 * s.fs.sectors_per_cluster)) (drop index bytes))
    pub same : (d : ℕ) → IsCluster s.fs d → has d cs ≡ false → SameOn sd s.fs s.disk w d

pub IsCluster-of_entry :
    {W : Type 0} {capacity : ℕ} {s : System W} {c v : ℕ}
    → Mounted capacity s
    → 2 ≤ c
    → get_elem? s.fs.fat c ≡ some v
    → IsCluster s.fs c
IsCluster-of_entry {s} {c} m lo e = (lo, omega (arith, m.entries, lt-length_of_some s.fs.fat c e))

-- The first cluster's worth of what is left, and the rest.
take-cluster :
    (size rest index : ℕ) {total : ℕ} (bytes : List ℕ)
    → total ≡ size + rest
    → take size (drop index bytes) ++ take rest (drop (index + size) bytes)
      ≡ take total (drop index bytes)
take-cluster size rest index bytes e =
    rw (e, take-add size rest (drop index bytes), drop-drop index size bytes)

module _ {W : Type 0} {sd : SdCard W} {capacity : ℕ} (r : Reliable sd capacity) (bytes : List ℕ)
    (nbytes start : ℕ) where
  walk_loop-Stored :
      (k : ℕ) (s : System W) {c : ℕ} {cs : List ℕ} (index count : ℕ)
      → Mounted capacity s
      → Chain s.fs.fat c cs
      → length cs ≤ k
      → index ≡ count * (512 * s.fs.sectors_per_cluster)
      → nbytes ≤ (count + length cs) * (512 * s.fs.sectors_per_cluster)
      → (count + length cs) * (512 * s.fs.sectors_per_cluster)
        < nbytes + 512 * s.fs.sectors_per_cluster
      → (count + length cs) * (512 * s.fs.sectors_per_cluster) < 2 ^ 32
      → (count + length cs) * (512 * s.fs.sectors_per_cluster) ≤ length bytes
      → (v : Walked W) × (w : W) × (walk_loop sd bytes nbytes k s c start index count ≡ ok v)
        × Stored sd bytes s cs start index v w
  walk_loop-Stored zero s index count m (end h e t) le ix hi lo top mem = absurd (omega arith)
  walk_loop-Stored (suc k) s index count m (end {c} h e t) le ix hi lo top mem =
      let spc = s.fs.sectors_per_cluster in
      let (w, wr, reads, apart) =
        write_one r m c (drop index bytes) (IsCluster-of_entry m h e)
          (rw (length-drop index bytes) (omega arith)) in
      let full : length (take (512 * spc) (drop index bytes)) ≡ spc * 512 =
        omega (arith, length-take (512 * spc) (drop index bytes), length-drop index bytes) in
      (
        _,
        w,
        walk_loop-stop sd bytes nbytes k s c start index count h
            (round_suc count spc m.nonempty (omega arith))
            (walk_step-last sd bytes nbytes s start index (suc count) h e t wr
              (before-false nbytes count spc (omega arith) (omega arith))),
        record {
          start_kept = refl;
          enough = more-false nbytes count spc (omega arith) (omega arith);
          table_kept = refl;
          holds =
              contents-read sd (with_disk s w) c [] m.ready reads full refl
              ∙ ground (arith, append-nil (take (512 * spc) (drop index bytes)));
          same = λ d is out. apart d is (ground arith);
        },
      )
  walk_loop-Stored zero s index count m (link h e u ch) le ix hi lo top mem = absurd (omega arith)
  walk_loop-Stored (suc k) s index count m (link {c} {n} {cs} h e u ch) le ix hi lo top mem =
      let spc = s.fs.sectors_per_cluster in
      let (rest, len) = Chain-length-suc ch in
      let more : length cs * (512 * spc) ≡ 512 * spc + rest * (512 * spc) = rw len (omega arith) in
      let (w, wr, reads, apart) =
        write_one r m c (drop index bytes) (IsCluster-of_entry m h e)
          (rw (length-drop index bytes) (omega arith)) in
      let full : length (take (512 * spc) (drop index bytes)) ≡ spc * 512 =
        omega (arith, length-take (512 * spc) (drop index bytes), length-drop index bytes) in
      let ix' : u32 (index + 512 * spc) ≡ suc count * (512 * spc) = omega arith in
      let (v, w', done, st) =
        walk_loop-Stored k (with_disk s w) (u32 (index + 512 * spc)) (suc count)
          (Mounted-with_disk w m) ch (omega arith) ix' (omega arith) (omega arith) (omega arith)
          (omega arith) in
      let is = IsCluster-of_entry m h e in
      let moved : u32 (index + 512 * spc) ≡ index + 512 * spc = omega arith in
      (
        v,
        w',
        walk_loop-next sd bytes nbytes k s c start index count h
              (round_suc count spc m.nonempty (omega arith))
              (walk_step-middle sd bytes nbytes s start index (suc count) h e u wr
                (before-false nbytes count spc (omega arith) (omega arith))
                (after-false nbytes count spc (omega arith) (omega arith)))
            ∙ done,
        record {
          start_kept = st.start_kept;
          enough = st.enough;
          table_kept = st.table_kept;
          holds =
              contents-read sd (with_disk s w') c cs m.ready
                (st.same c is (Chain-distinct (link h e u ch) ch) ∙ reads) full st.holds
              ∙ ap ok (
                  rw moved
                    (take-cluster (512 * spc) (length cs * (512 * spc)) index bytes (omega arith)));
          same = λ d is' out. st.same d is' (ground arith) ∙ apart d is' (ground arith);
        },
      )

-- On a reliable card and a mounted file system, where the data takes exactly the clusters that the
-- file has, less than 2 ^ 32 bytes, with as many rounds as clusters: `write_cluster_chain` returns
-- the start that it was given and keeps the table, `read_cluster_chain` then returns the data,
-- filled up to whole clusters from the memory behind it, and every cluster outside the chain keeps
-- what it held.
pub write_cluster_chain-read_back :
    {W : Type 0} {sd : SdCard W} {capacity : ℕ} (r : Reliable sd capacity) (bytes : List ℕ)
    (nbytes : ℕ) (fuel : ℕ) (s : System W) {c : ℕ} {cs : List ℕ}
    → Mounted capacity s
    → Chain s.fs.fat c cs
    → length cs ≤ fuel
    → nbytes ≤ length cs * (512 * s.fs.sectors_per_cluster)
    → length cs * (512 * s.fs.sectors_per_cluster) < nbytes + 512 * s.fs.sectors_per_cluster
    → length cs * (512 * s.fs.sectors_per_cluster) < 2 ^ 32
    → length cs * (512 * s.fs.sectors_per_cluster) ≤ length bytes
    → (w : W) × (write_cluster_chain sd bytes nbytes fuel s c ≡ ok (c, with_disk s w))
      × (read_cluster_chain sd fuel (with_disk s w) c
          ≡ ok (
            take (length cs * (512 * s.fs.sectors_per_cluster)) bytes,
            length cs * (512 * s.fs.sectors_per_cluster),
          ))
      × ((d : ℕ) → IsCluster s.fs d → has d cs ≡ false → SameOn sd s.fs s.disk w d)
unfolding write_cluster_chain
write_cluster_chain-read_back {sd} r bytes nbytes fuel s {c} {cs} m ch le hi lo top mem =
    let (v, w, done, st) =
      walk_loop-Stored r bytes nbytes c fuel s 0 0 m ch le (omega arith) (omega arith) (omega arith)
        (omega arith) (omega arith) in
    (
      w,
      rw (get_cluster_chain_length-Chain fuel ch le, done, st.enough, st.start_kept, st.table_kept),
      read_cluster_chain-contents sd fuel (with_disk s w) ch le st.holds (omega arith)
          ∙ ap (λ n. ok (take (length cs * (512 * s.fs.sectors_per_cluster)) bytes, n))
              (omega arith),
      st.same,
    )
