-- ===== src/Mm/Intrusive.antt =====
-- Intrusive lists, kernel/src/mm/intrusive.rs. The nodes are embedded in the program's objects; here
-- an address gives the node of the object that stands there, so one store of nodes carries all the
-- lists of a kind. `debug_assert!` is left out, as in a release build.
pub mod Links
pub mod Effects
pub mod Refines
use gb_os.Base.{ℕ, suc, ◌+◌, ◌-◌, Bool, true, false, ◌||◌, Option, none, some}
use gb_os.Base.{◌==◌, if◌then◌else◌}

pub record IntrusiveNode : Type 0 where
  pub next : Option ℕ
  pub prev : Option ℕ

abbrev pub unlinked : IntrusiveNode
unlinked = record { next = none; prev = none }

abbrev pub is_some : Option ℕ → Bool
is_some none = false
is_some (some a) = true

unfoldable pub is_linked : IntrusiveNode → Bool
is_linked n = is_some n.next || is_some n.prev

abbrev pub Nodes : Type 0
Nodes = ℕ → IntrusiveNode

abbrev pub update : Nodes → ℕ → IntrusiveNode → Nodes
update ns a n b = if b == a then n else ns b

abbrev pub set_next : Nodes → ℕ → Option ℕ → Nodes
set_next ns a v = update ns a (record (ns a) { next = v })

abbrev pub set_prev : Nodes → ℕ → Option ℕ → Nodes
set_prev ns a v = update ns a (record (ns a) { prev = v })

unfoldable pub reset : Nodes → ℕ → Nodes
reset ns a = update ns a unlinked

pub record IntrusiveList : Type 0 where
  pub head : Option ℕ
  pub tail : Option ℕ
  pub len : ℕ

unfoldable pub new : IntrusiveList
new = record { head = none; tail = none; len = 0 }

unfoldable pub is_empty : IntrusiveList → Bool
is_empty l = elim l.head [ none ↦ true | some a ↦ false ]

unfoldable pub push_front : IntrusiveList → Nodes → ℕ → IntrusiveList × Nodes
push_front l ns item =
    let ns1 = update ns item (record { next = l.head; prev = none }) in
    elim l.head [
      | some head ↦ (record l { head = some item; len = l.len + 1 }, set_prev ns1 head (some item))
      | none ↦ (record { head = some item; tail = some item; len = l.len + 1 }, ns1)
    ]

unfoldable pub push_back : IntrusiveList → Nodes → ℕ → IntrusiveList × Nodes
push_back l ns item =
    let ns1 = update ns item (record { next = none; prev = l.tail }) in
    elim l.tail [
      | some tail ↦ (record l { tail = some item; len = l.len + 1 }, set_next ns1 tail (some item))
      | none ↦ (record { head = some item; tail = some item; len = l.len + 1 }, ns1)
    ]

-- What a pop returns: the element, if there was one, and the list and nodes after it.
abbrev pub Popped : Type 0
Popped = Option ℕ × IntrusiveList × Nodes

unfoldable pub pop_front_at : IntrusiveList → Nodes → ℕ → Popped
unfolding reset
pop_front_at l ns head = elim (ns head).next [
  | some new_head ↦ (
    some head,
    record l { head = some new_head; len = l.len - 1 },
    reset (set_prev ns new_head none) head,
  )
  | none ↦ (some head, record { head = none; tail = none; len = l.len - 1 }, reset ns head)
]

unfoldable pub pop_front : IntrusiveList → Nodes → Popped
unfolding pop_front_at
pop_front l ns = elim l.head [ some head ↦ pop_front_at l ns head | none ↦ (none, l, ns) ]

unfoldable pub pop_back_at : IntrusiveList → Nodes → ℕ → Popped
unfolding reset
pop_back_at l ns tail = elim (ns tail).prev [
  | some new_tail ↦ (
    some tail,
    record l { tail = some new_tail; len = l.len - 1 },
    reset (set_next ns new_tail none) tail,
  )
  | none ↦ (some tail, record { head = none; tail = none; len = l.len - 1 }, reset ns tail)
]

unfoldable pub pop_back : IntrusiveList → Nodes → Popped
unfolding pop_back_at
pop_back l ns = elim l.tail [ some tail ↦ pop_back_at l ns tail | none ↦ (none, l, ns) ]

-- The neighbour before the item, or the head, is given what follows it.
unfoldable pub unlink_prev : IntrusiveList → Nodes → ℕ → IntrusiveList × Nodes
unlink_prev l ns item = elim (ns item).prev [
  | some prev ↦ (l, set_next ns prev (ns item).next)
  | none ↦ (record l { head = (ns item).next }, ns)
]

unfoldable pub unlink_next : IntrusiveList → Nodes → ℕ → IntrusiveList × Nodes
unlink_next l ns item = elim (ns item).next [
  | some next ↦ (l, set_prev ns next (ns item).prev)
  | none ↦ (record l { tail = (ns item).prev }, ns)
]

unfoldable pub remove : IntrusiveList → Nodes → ℕ → IntrusiveList × Nodes
unfolding unlink_prev unlink_next reset
remove l ns item =
    let (l1, ns1) = unlink_prev l ns item in
    let (l2, ns2) = unlink_next l1 ns1 item in (record l2 { len = l2.len - 1 }, reset ns2 item)

unfoldable pub front : IntrusiveList → Option ℕ
front l = l.head

unfoldable pub back : IntrusiveList → Option ℕ
back l = l.tail
