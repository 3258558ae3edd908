-- ===== src/Circular/Tests.antt =====
-- The theorems on the queue, at a queue that goes round the end of its buffer.
use dfs_pios_ro.Circular.Bulk.{cq_push_n-contents}
use dfs_pios_ro.Circular.Inv.{IsValid}
use dfs_pios_ro.Circular.{Queue, cq_n, fresh, cq_pop_nonblock, cq_push_n}
use dfs_pios_ro.Base.{
  ◌≡◌, length, true, ◌-◌, ◌+◌, arith, ℕ, [], refl, false, ◌<◌, ◌∷◌, ok, ◌⊎◌, replicate, ◌++◌, none,
  some,
}
use dfs_pios_ro.Circular.Refine.{contents, length-contents, cq_pop_nonblock-contents}

-- 7 in the last byte of the buffer, 8 and 9 in the first two.
abbrev wrapped : Queue
wrapped = record (fresh false) {
  c_buf = 8 ∷ 9 ∷ (replicate 8189 0 ++ (7 ∷ []));
  head = 2;
  tail = 8191;
}

wrapped-IsValid : IsValid wrapped
wrapped-IsValid = record { room = refl; head_in = omega arith; tail_in = omega arith }

cq_pop_nonblock-contents_example :
    ((contents wrapped ≡ []) × (cq_pop_nonblock wrapped ≡ ok (none, wrapped)))
    ⊎ ((x : ℕ) × (q' : Queue) × (cq_pop_nonblock wrapped ≡ ok (some x, q'))
        × (contents wrapped ≡ x ∷ contents q')
        × IsValid q'
        × (q' ≡ record wrapped { tail = q'.tail }))
cq_pop_nonblock-contents_example = cq_pop_nonblock-contents wrapped-IsValid

cq_push_n-contents_example :
    ((cq_n - 1 < length (contents wrapped) + 2)
      × (cq_push_n wrapped (5 ∷ 6 ∷ []) ≡ ok (false, wrapped)))
    ⊎ ((q' : Queue) × (cq_push_n wrapped (5 ∷ 6 ∷ []) ≡ ok (true, q'))
        × (contents q' ≡ contents wrapped ++ (5 ∷ 6 ∷ []))
        × IsValid q')
cq_push_n-contents_example = cq_push_n-contents (5 ∷ 6 ∷ []) wrapped-IsValid (omega arith)

length-wrapped : length (contents wrapped) ≡ 3
length-wrapped = length-contents wrapped-IsValid
