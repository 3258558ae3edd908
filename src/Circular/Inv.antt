-- ===== src/Circular/Inv.antt =====
-- The invariant of the queue, and what its counts are under it.
use dfs_pios_ro.Circular.{cq_empty, Queue, cq_nspace, cq_full, cq_nelem, cq_n}
use dfs_pios_ro.Base.{◌+◌, length, ℕ, ◌≡◌, arith, true, ◌-◌, ◌<◌, ◌↔◌, ◌%◌}

-- The indices lie in the buffer.
pub record IsValid (q : Queue) : Type 0 where
  pub room : length q.c_buf ≡ cq_n
  pub head_in : q.head < cq_n
  pub tail_in : q.tail < cq_n

-- The number of elements, without wrap-around.
abbrev pub count : Queue → ℕ
count q = (q.head + cq_n - q.tail) % cq_n

pub cq_nelem-count : {q : Queue} → IsValid q → cq_nelem q ≡ count q
unfolding cq_nelem
cq_nelem-count v = omega arith

-- While the indices lie in the buffer, `cq_nelem` and `cq_nspace` make up one less than the buffer.
pub cq_nelem-add-nspace : {q : Queue} → IsValid q → cq_nelem q + cq_nspace q ≡ cq_n - 1
unfolding cq_nspace
cq_nelem-add-nspace {q} v = omega (arith, cq_nelem-count v)

-- `cq_empty` says that there is no element, and `cq_full` that there is no space.
pub cq_empty_iff : {q : Queue} → IsValid q → (cq_empty q ≡ true) ↔ (count q ≡ 0)
unfolding cq_empty
cq_empty_iff v = (λ e. ground arith, λ e. ground arith)

pub cq_full_iff : {q : Queue} → IsValid q → (cq_full q ≡ true) ↔ (count q ≡ cq_n - 1)
unfolding cq_full
cq_full_iff v = (λ e. ground arith, λ e. ground arith)
