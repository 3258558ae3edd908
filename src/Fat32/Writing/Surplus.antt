-- ===== src/Fat32/Writing/Surplus.antt =====
-- The start that `write_cluster_chain` returns where the file has a cluster too many.
use dfs_pios_ro.Fat32.Writing.Fit.{IsCluster-of_entry, Mounted-with_disk}
use dfs_pios_ro.Fat32.Writing.Store.{write_one, with_disk}
use dfs_pios_ro.Fat32.Writing.Shrink.{Mounted-with_fat}
use dfs_pios_ro.Fat32.Writing.Steps.{
  walk_step-free_last, walk_step-free, walk_step-enough, walk_step-middle,
}
use dfs_pios_ro.Fat32.Writing.Rounds.{walk_loop-stop, round_suc, before-true, walk_loop-next}
use dfs_pios_ro.Fat32.Clusters.Walk.{get_cluster_chain_length-Chain, Chain-distinct}
use dfs_pios_ro.Fat32.Disk.{SdCard, Reliable, System, with_fat}
use dfs_pios_ro.Fat32.Writing.{write_cluster_chain, Walked, walk_loop, last_mark}
use dfs_pios_ro.Base.{
  inl, inr, zero, suc, refl, arith, Outcome, ℕ, ◌≡◌, List, ok, false, length, ◌≤◌, ◌*◌, ◌+◌, ◌<◌,
  ◌^◌, Bool-cases, leb, u32, ◌-◌, set, ◌∙◌, drop, length-drop,
}
use dfs_pios_ro.Fat32.Clusters.Contents.{Mounted}
use dfs_pios_ro.Fat32.Clusters.Chain.{Chain, end, link, Chain-set}

-- A run of the walk that ends with nothing more to write and with 0 for the start.
abbrev ForgetsStart : {W : Type 0} → Outcome (Walked W) → Type 0
ForgetsStart {W} run = (v : Walked W) × (run ≡ ok v) × (v.start ≡ 0) × (v.more ≡ false)

module _ {W : Type 0} {sd : SdCard W} {capacity : ℕ} (r : Reliable sd capacity) (bytes : List ℕ)
    (nbytes : ℕ) where
  walk_loop-ForgetsStart :
      (k : ℕ) (s : System W) {c : ℕ} {cs : List ℕ} (start index count : ℕ)
      → Mounted capacity s
      → Chain s.fs.fat c cs
      → length cs ≤ k
      → index ≤ count * (512 * s.fs.sectors_per_cluster)
      → nbytes + 512 * s.fs.sectors_per_cluster
        ≤ (count + length cs) * (512 * s.fs.sectors_per_cluster)
      → (count + length cs) * (512 * s.fs.sectors_per_cluster) < 2 ^ 32
      → (count + length cs) * (512 * s.fs.sectors_per_cluster) ≤ length bytes
      → ForgetsStart (walk_loop sd bytes nbytes k s c start index count)
  walk_loop-ForgetsStart zero s start index count m (end h e t) le ix hi top mem =
      absurd (omega arith)
  walk_loop-ForgetsStart (suc k) s start index count m (end {c} h e t) le ix hi top mem =
      let spc = s.fs.sectors_per_cluster in
      (
        _,
        walk_loop-stop sd bytes nbytes k s c start index count h
            (round_suc count spc m.nonempty (omega arith))
            (walk_step-free_last sd bytes nbytes s start index (suc count) h e t
              (before-true nbytes count spc (omega arith) (omega arith))),
        refl,
        refl,
      )
  walk_loop-ForgetsStart zero s start index count m (link h e u ch) le ix hi top mem =
      absurd (omega arith)
  walk_loop-ForgetsStart (suc k) s start index count m (link {c} {n} {cs} h e u ch) le ix hi top
        mem =
      let spc = s.fs.sectors_per_cluster in
      let out = Chain-distinct (link h e u ch) ch in
      let counted = round_suc count spc m.nonempty (omega arith) in
      elim (Bool-cases (leb nbytes (u32 ((suc count - 1) * 512 * spc)))) [
        | inl spent ↦
            let (v, done, zero_start, no_more) =
              walk_loop-ForgetsStart k (with_fat s (set s.fs.fat c 0)) start index (suc count)
                (Mounted-with_fat c 0 m) (Chain-set c 0 ch out) (omega arith) (omega arith)
                (omega arith) (omega arith) (omega arith) in
            (
              v,
              walk_loop-next sd bytes nbytes k s c start index count h counted
                    (walk_step-free sd bytes nbytes s start index (suc count) h e u spent)
                  ∙ done,
              zero_start,
              no_more,
            )
        | inr unspent ↦
            let (w, wr, reads, apart) =
              write_one r m c (drop index bytes) (IsCluster-of_entry m h e)
                (rw (length-drop index bytes) (omega arith)) in
            elim (Bool-cases (leb nbytes (u32 (suc count * 512 * spc)))) [
              | inl enough ↦
                  let (v, done, zero_start, no_more) =
                    walk_loop-ForgetsStart k (with_fat (with_disk s w) (set s.fs.fat c last_mark))
                      start (u32 (index + 512 * spc)) (suc count)
                      (Mounted-with_fat c last_mark (Mounted-with_disk w m))
                      (Chain-set c last_mark ch out) (omega arith) (omega arith) (omega arith)
                      (omega arith) (omega arith) in
                  (
                    v,
                    walk_loop-next sd bytes nbytes k s c start index count h counted (
                          walk_step-enough sd bytes nbytes s start index (suc count) h e u wr
                            unspent enough)
                        ∙ done,
                    zero_start,
                    no_more,
                  )
              | inr more ↦
                  let (v, done, zero_start, no_more) =
                    walk_loop-ForgetsStart k (with_disk s w) start (u32 (index + 512 * spc))
                      (suc count) (Mounted-with_disk w m) ch (omega arith) (omega arith)
                      (omega arith) (omega arith) (omega arith) in
                  (
                    v,
                    walk_loop-next sd bytes nbytes k s c start index count h counted (
                          walk_step-middle sd bytes nbytes s start index (suc count) h e u wr
                            unspent more)
                        ∙ done,
                    zero_start,
                    no_more,
                  )
            ]
      ]

-- On a reliable card and a mounted file system, where the file has at least a cluster more than the
-- data takes, less than 2 ^ 32 bytes, with as many rounds as clusters: `write_cluster_chain`
-- returns 0 for the start, whatever data it has stored.
pub write_cluster_chain-surplus :
    {W : Type 0} {sd : SdCard W} {capacity : ℕ} (r : Reliable sd capacity) (bytes : List ℕ)
    (nbytes fuel : ℕ) (s : System W) {c : ℕ} {cs : List ℕ}
    → Mounted capacity s
    → Chain s.fs.fat c cs
    → length cs ≤ fuel
    → nbytes + 512 * s.fs.sectors_per_cluster ≤ length cs * (512 * s.fs.sectors_per_cluster)
    → length cs * (512 * s.fs.sectors_per_cluster) < 2 ^ 32
    → length cs * (512 * s.fs.sectors_per_cluster) ≤ length bytes
    → (s' : System W) × (write_cluster_chain sd bytes nbytes fuel s c ≡ ok (0, s'))
unfolding write_cluster_chain
write_cluster_chain-surplus r bytes nbytes fuel s {c} m ch le hi top mem =
    let (v, done, zero_start, no_more) =
      walk_loop-ForgetsStart r bytes nbytes fuel s c 0 0 m ch le (omega arith) (omega arith)
        (omega arith) (omega arith) in
    (v.sys, rw (get_cluster_chain_length-Chain fuel ch le, done, no_more, zero_start))
