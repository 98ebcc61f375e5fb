-- ===== src/Lfu/FreqList.antt =====
-- include/LFU.h: FreqList, a doubly linked list between two dummy nodes. A `shared_ptr` is an address
-- or null, and keeps its node alive, so that the store is total. `none` is a call through null.
pub mod Chain
pub mod Linking
pub mod Runs
mod Tests
use kama_webserver.Prelude.{ℕ, Bool, true, false, Option, none, some, ◌==◌, if◌then◌else◌}

pub record Node : Type 0 where
  pub freq : ℕ
  pub key : ℕ
  pub value : ℕ
  pub pre : Option ℕ
  pub next : Option ℕ

abbrev pub Store : Type 0
Store = ℕ → Node

-- The dummy nodes are never null.
pub record FreqList : Type 0 where
  pub freq : ℕ
  pub head : ℕ
  pub tail : ℕ

pub set_pre : ℕ → Option ℕ → Store → Store
set_pre a p s b = if a == b then record (s b) { pre = p } else s b

pub set_next : ℕ → Option ℕ → Store → Store
set_next a n s b = if a == b then record (s b) { next = n } else s b

-- The constructor of a list, with the addresses of its new dummy nodes.
pub init : ℕ → ℕ → ℕ → Store → FreqList × Store
unfolding set_pre set_next
init freq head tail s = (
  record { freq = freq; head = head; tail = tail },
  set_pre tail (some head) (
      set_next head (some tail)
        (set_next tail none (set_pre tail none (set_next head none (set_pre head none s))))),
)

pub points_to : Option ℕ → ℕ → Bool
points_to none a = false
points_to (some b) a = b == a

pub is_empty : FreqList → Store → Bool
unfolding points_to
is_empty l s = points_to (s l.head).next l.tail

pub get_first_node : FreqList → Store → Option ℕ
get_first_node l s = (s l.head).next

-- `p->next = n` and `p->pre = n`, through a pointer that may be null.
pub store_next : Option ℕ → Option ℕ → Store → Option Store
unfolding set_next
store_next none n s = none
store_next (some p) n s = some (set_next p n s)

pub store_pre : Option ℕ → Option ℕ → Store → Option Store
unfolding set_pre
store_pre none p s = none
store_pre (some n) p s = some (set_pre n p s)

-- The part of `addNode` behind the pointers of the node.
pub link_last : FreqList → ℕ → Store → Option Store
unfolding store_next set_pre
link_last l node s = elim (store_next (s l.tail).pre (some node) s) [
  | none ↦ none
  | some linked ↦ some (set_pre l.tail (some node) linked)
]

pub add_node : FreqList → Option ℕ → Store → Option Store
unfolding link_last set_pre set_next
add_node l none s = some s
add_node l (some node) s =
    link_last l node (set_next node (some l.tail) (set_pre node (s l.tail).pre s))

-- `removeNode` with both pointers set.
pub unlink : ℕ → Store → Option Store
unfolding store_next store_pre set_pre set_next
unlink node s = elim (store_next (s node).pre (s node).next s) [
  | none ↦ none
  | some s1 ↦ elim (store_pre (s1 node).next (s1 node).pre s1) [
    | none ↦ none
    | some s2 ↦ some (set_next node none (set_pre node none s2))
  ]
]

pub is_null : Option ℕ → Bool
is_null none = true
is_null (some a) = false

pub remove_node : FreqList → Option ℕ → Store → Option Store
unfolding unlink is_null
remove_node l none s = some s
remove_node l (some node) s =
    if is_null (s node).pre then some s else if is_null (s node).next then some s else unlink node s
