-- ===== src/Fat32/Writing/Shrink.antt =====
-- `write_cluster_chain` where the file has more clusters than the data takes.
use dfs_pios_ro.Fat32.Writing.Steps.{walk_step-free_last, walk_step-free}
use dfs_pios_ro.Fat32.Clusters.Walk.{get_cluster_chain_length-Chain, Chain-distinct}
use dfs_pios_ro.Fat32.Writing.Rounds.{walk_loop-stop, round_suc, before-true, walk_loop-next}
use dfs_pios_ro.Fat32.Clusters.Free.{clear, get_elem?-clear, Chain-lt-length}
use dfs_pios_ro.Fat32.Writing.{write_cluster_chain, Walked, walk_loop}
use dfs_pios_ro.Fat32.Disk.{SdCard, System, with_fat}
use dfs_pios_ro.Base.{
  zero, suc, refl, arith, ℕ, List, ◌<◌, length, set, ◌≤◌, length-set, ◌*◌, ◌+◌, ◌^◌, ◌≡◌, ok, false,
  get_elem?, if◌then◌else◌, some, ◌∙◌, ◌∷◌, [],
}
use dfs_pios_ro.Fat32.Clusters.Contents.{Mounted}
use dfs_pios_ro.Fat32.Clusters.Chain.{Chain, end, link, has, Chain-set}

pub Mounted-with_fat :
    {W : Type 0} {capacity : ℕ} {s : System W} (c v : ℕ)
    → Mounted capacity s
    → Mounted capacity (with_fat s (set s.fs.fat c v))
Mounted-with_fat {s} c v m = record {
  ready = m.ready;
  entries = omega (arith, m.entries, length-set s.fs.fat c v);
  on_card = m.on_card;
  words = m.words;
  nonempty = m.nonempty;
  small = m.small;
}

module _ {W : Type 0} (sd : SdCard W) (bytes : List ℕ) (nbytes : ℕ) where
  -- Once the data is stored, the walk frees the rest of the chain, and returns 0 as the start.
  walk_loop-clear :
      (k : ℕ) (s : System W) {c : ℕ} {cs : List ℕ} (start index count : ℕ)
      → 0 < s.fs.sectors_per_cluster
      → Chain s.fs.fat c cs
      → length cs ≤ k
      → nbytes ≤ count * (512 * s.fs.sectors_per_cluster)
      → (count + length cs) * (512 * s.fs.sectors_per_cluster) < 2 ^ 32
      → (v : Walked W) × (walk_loop sd bytes nbytes k s c start index count ≡ ok v)
        × (v.start ≡ 0)
        × (v.more ≡ false)
        × (v.sys ≡ with_fat s (clear s.fs.fat cs))
  walk_loop-clear zero s start index count pos (end h e t) le hi top = absurd (omega arith)
  walk_loop-clear (suc k) s start index count pos (end {c} h e t) le hi top =
      let spc = s.fs.sectors_per_cluster in
      (
        _,
        walk_loop-stop sd bytes nbytes k s c start index count h
            (round_suc count spc pos (omega arith))
            (walk_step-free_last sd bytes nbytes s start index (suc count) h e t
              (before-true nbytes count spc (omega arith) hi)),
        refl,
        refl,
        refl,
      )
  walk_loop-clear zero s start index count pos (link h e u ch) le hi top = absurd (omega arith)
  walk_loop-clear (suc k) s start index count pos (link {c} h e u ch) le hi top =
      let spc = s.fs.sectors_per_cluster in
      let s' = with_fat s (set s.fs.fat c 0) in
      let (v, done, zero_start, no_more, table) =
        walk_loop-clear k s' start index (suc count) pos
          (Chain-set c 0 ch (Chain-distinct (link h e u ch) ch)) (omega arith) (omega arith)
          (omega arith) in
      (
        v,
        walk_loop-next sd bytes nbytes k s c start index count h
              (round_suc count spc pos (omega arith))
              (walk_step-free sd bytes nbytes s start index (suc count) h e u
                (before-true nbytes count spc (omega arith) hi))
            ∙ done,
        zero_start,
        no_more,
        table,
      )

  -- With no data and as many rounds as clusters, on a chain of less than 2 ^ 32 bytes,
  -- `write_cluster_chain` sets the entries of the chain to 0, changes no other entry and nothing
  -- else of the state, so that it writes nothing to the card, and returns 0.
  pub write_cluster_chain-empty :
      (fuel : ℕ) (s : System W) {c : ℕ} {cs : List ℕ}
      → 0 < s.fs.sectors_per_cluster
      → Chain s.fs.fat c cs
      → length cs ≤ fuel
      → length cs * (512 * s.fs.sectors_per_cluster) < 2 ^ 32
      → nbytes ≡ 0
      → (fat' : List ℕ) × (write_cluster_chain sd bytes nbytes fuel s c ≡ ok (0, with_fat s fat'))
        × ((i : ℕ) → get_elem? fat' i ≡ (if has i cs then some 0 else get_elem? s.fs.fat i))
  unfolding write_cluster_chain
  write_cluster_chain-empty fuel s {c} {cs} pos ch le top none_left =
      let (v, done, zero_start, no_more, table) =
        walk_loop-clear fuel s c 0 0 pos ch le (omega arith) (omega arith) in
      (
        clear s.fs.fat cs,
        rw (get_cluster_chain_length-Chain fuel ch le, done, no_more, zero_start, table),
        λ i. ground (arith, get_elem?-clear cs s.fs.fat i, Chain-lt-length i ch),
      )

pub length-clear : (cs fat : List ℕ) → length (clear fat cs) ≡ length fat
length-clear [] fat = refl
length-clear (c ∷ cs) fat = length-clear cs (set fat c 0) ∙ length-set fat c 0

pub Mounted-clear :
    {W : Type 0} {capacity : ℕ} {s : System W} (cs : List ℕ)
    → Mounted capacity s
    → Mounted capacity (with_fat s (clear s.fs.fat cs))
Mounted-clear {s} cs m = record {
  ready = m.ready;
  entries = omega (arith, m.entries, length-clear cs s.fs.fat);
  on_card = m.on_card;
  words = m.words;
  nonempty = m.nonempty;
  small = m.small;
}
