-- ===== src/Linked/Tests.antt =====
-- Two queues of one program: the first links 5 and 6, the second 7.
use dfs_pios_ro.Linked.Interrupted.{interrupted, interrupted-loses}
use dfs_pios_ro.Base.{none, some, ◌∷◌, [], arith, ◌++◌, refl, copies, ◌≡◌, u32}
use dfs_pios_ro.Linked.{Links, Q, set_next, q_append}
use dfs_pios_ro.Linked.Holding.{Holds, Chain}
use dfs_pios_ro.Linked.Operations.{q_append-Holds, q_pop-Popped, Popped, OthersKept}

abbrev links : Links
links = set_next (λ i. none) 5 (some 6)

abbrev queue : Q
queue = record { head = some 5; tail = some 6; cnt = 2 }

queue-Holds : Holds links queue (5 ∷ 6 ∷ [])
queue-Holds = record {
  chain = (refl, (refl, refl));
  ends = refl;
  counted = refl;
  apart = λ a. ground arith;
}

q_append-Holds_example :
    Holds (q_append links queue 8).0 (q_append links queue 8).1 ((5 ∷ 6 ∷ []) ++ (8 ∷ []))
    × OthersKept links (5 ∷ 6 ∷ []) 8 (q_append links queue 8).0
q_append-Holds_example = q_append-Holds links queue (5 ∷ 6 ∷ []) queue-Holds 8 refl

q_pop-Popped_example : Popped links queue (5 ∷ 6 ∷ [])
q_pop-Popped_example = q_pop-Popped links queue (5 ∷ 6 ∷ []) queue-Holds

interrupted-loses_example :
    Chain
      (interrupted links queue 6 8 9).0
      (interrupted links queue 6 8 9).1.head
      ((5 ∷ 6 ∷ []) ++ (9 ∷ []))
    × (copies 8 ((5 ∷ 6 ∷ []) ++ (9 ∷ [])) ≡ 0)
    × ((interrupted links queue 6 8 9).1.tail ≡ some 8)
    × ((interrupted links queue 6 8 9).1.cnt ≡ u32 4)
interrupted-loses_example =
    interrupted-loses links queue (5 ∷ 6 ∷ []) 6 queue-Holds refl 8 9 refl refl
      (λ e. absurd (omega arith))
