-- ===== src/Fat32/Clusters/Walk.antt =====
-- fat32/fat32.c: get_cluster_chain_length along a chain of the table.
use dfs_pios_ro.Base.{
  ℕ, zero, suc, ◌+◌, ◌≤◌, ◌≡◌, false, List, ◌∷◌, arith, Bool-cases, inl, inr, length, ok,
  ==-false_of_ne, ◌∙◌,
}
use dfs_pios_ro.Fat32.Clusters.{chain_length_loop, get_cluster_chain_length}
use dfs_pios_ro.Fat32.Clusters.Chain.{Chain, end, link, has, Chain-ge_two, Chain-member}

module _ {fat : List ℕ} where
  chain_length_loop-Chain :
      (k : ℕ) {c : ℕ} {cs : List ℕ} (count : ℕ)
      → Chain fat c cs
      → length cs ≤ k
      → chain_length_loop k fat c count ≡ ok (count + length cs)
  unfolding chain_length_loop
  chain_length_loop-Chain zero count (end h e l) le = absurd (omega arith)
  chain_length_loop-Chain (suc k) count (end h e l) le = ground arith
  chain_length_loop-Chain zero count (link h e u ch) le = absurd (omega arith)
  chain_length_loop-Chain (suc k) count (link h e u ch) le =
      ground (arith, chain_length_loop-Chain k (count + 1) ch)

  -- With as many rounds as clusters, `get_cluster_chain_length` returns the number of clusters of
  -- the chain.
  pub get_cluster_chain_length-Chain :
      {c : ℕ} {cs : List ℕ} (fuel : ℕ)
      → Chain fat c cs
      → length cs ≤ fuel
      → get_cluster_chain_length fuel fat c ≡ ok (length cs)
  unfolding get_cluster_chain_length
  get_cluster_chain_length-Chain {c} fuel ch le =
      rw (==-false_of_ne c 0 (ground (arith, Chain-ge_two ch)))
        (chain_length_loop-Chain fuel 0 ch le ∙ ground arith)

  -- Two chains from one cluster are equally long, since the code counts only one length.
  Chain-length_unique :
      {c : ℕ} {cs ds : List ℕ} → Chain fat c cs → Chain fat c ds → length cs ≡ length ds
  Chain-length_unique {cs} {ds} p q =
      let fuel = length cs + length ds in
      ground (
        arith,
        get_cluster_chain_length-Chain fuel p (omega arith),
        get_cluster_chain_length-Chain fuel q (omega arith),
      )

  -- A chain does not come back to its first cluster.
  pub Chain-distinct :
      {c : ℕ} {cs : List ℕ} → Chain fat c (c ∷ cs) → {n : ℕ} → Chain fat n cs → has c cs ≡ false
  Chain-distinct {c} {cs} whole rest = elim (Bool-cases (has c cs)) [
    | inl m ↦
        let (ds, ch, le) = Chain-member c rest m in
        absurd (omega (arith, Chain-length_unique whole ch))
    | inr out ↦ out
  ]
