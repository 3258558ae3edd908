-- ===== src/Linked.antt =====
-- libpi/libc/Q.h: queues of elements that are linked by a field of their own, which all queues of
-- a program share. An element is a number, and `next` gives its field.
pub mod Holding
pub mod Operations
pub mod Interrupted
mod Tests
-- The field `next` of every element.
use dfs_pios_ro.Base.{
  ℕ, Outcome, Option, none, Bool, ◌>>=◌, u32, some, if◌then◌else◌, ok, true, false, ◌+◌, ◌==◌, ◌>>◌,
  ◌^◌, assert, ◌-◌,
}

abbrev pub Links : Type 0
Links = ℕ → Option ℕ

-- `Q_t`.
pub record Q : Type 0 where
  pub head : Option ℕ
  pub tail : Option ℕ
  pub cnt : ℕ

abbrev pub is_null : Option ℕ → Bool
is_null none = true
is_null (some e) = false

-- `e->next = v`.
abbrev pub set_next : Links → ℕ → Option ℕ → Links
set_next next e v i = if i == e then v else next i

unfoldable pub q_start : Q → Option ℕ
q_start q = q.head

unfoldable pub q_nelem : Q → ℕ
q_nelem q = q.cnt

unfoldable pub q_empty : Q → Outcome Bool
unfolding q_nelem
q_empty q = elim q.head [
  | some e ↦ ok false
  | none ↦ (do assert (q_nelem q == 0); assert (is_null q.tail); ok true)
]

-- What `Q_pop` leaves when the front element is linked to `rest`.
abbrev pub popped : Q → Option ℕ → Q
popped q rest = record {
  head = rest;
  tail = if is_null rest then none else q.tail;
  cnt = u32 (q.cnt + 2 ^ 32 - 1);
}

unfoldable pub q_pop : Links → Q → Outcome (Option ℕ × Q)
unfolding q_empty
q_pop next q = elim q.head [
  | none ↦ (do empty ← q_empty q; assert empty; ok (none, q))
  | some e ↦ ok (some e, popped q (next e))
]

unfoldable pub q_append : Links → Q → ℕ → Links × Q
q_append next q e =
    let next' = set_next next e none in
    let cnt' = u32 (q.cnt + 1) in
    elim q.tail [
      | none ↦ (next', record { head = some e; tail = some e; cnt = cnt' })
      | some t ↦ (set_next next' t (some e), record { head = q.head; tail = some e; cnt = cnt' })
    ]

-- The two halves of `Q_append` on a queue with a last element: an interrupt can come between them.
unfoldable pub append_begins : Links → Q → ℕ → ℕ → Links × Q
append_begins next q t e =
    (set_next (set_next next e none) t (some e), record q { cnt = u32 (q.cnt + 1) })

unfoldable pub append_ends : Q → ℕ → Q
append_ends q e = record q { tail = some e }

unfoldable pub q_push : Links → Q → ℕ → Links × Q
q_push next q e = (
  set_next next e q.head,
  record { head = some e; tail = if is_null q.tail then some e else q.tail; cnt = u32 (q.cnt + 1) },
)

unfoldable pub q_init : Q
q_init = record { head = none; tail = none; cnt = 0 }

-- A pointer to element `e`.
abbrev pub points_to : Option ℕ → ℕ → Bool
points_to none e = false
points_to (some t) e = t == e

unfoldable pub q_insert_after : Links → Q → Option ℕ → ℕ → Links × Q
unfolding q_push q_append
q_insert_after next q none e_new = q_push next q e_new
q_insert_after next q (some e) e_new = if points_to q.tail e then q_append next q e_new else (
  set_next (set_next next e_new (next e)) e (some e_new),
  record q { cnt = u32 (q.cnt + 1) },
)
