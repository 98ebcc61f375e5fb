-- ===== src/Lfu.antt =====
-- include/LFU.h: the cache that evicts the least frequently used key. Keys and values are numbers, and
-- the `int` counters do not overflow. A node is known by its key: `node_map` lists the nodes in the
-- order in which the map is iterated, and a frequency list holds the keys of its nodes.
-- `none` stands for undefined behaviour: a null list, or no node to evict.
pub mod Counting
pub mod Lists
pub mod Lowering
pub mod Least
pub mod Valid
pub mod Access
pub mod Eviction
pub mod Methods
pub mod Runs
pub mod Sliced
pub mod FreqList
mod Tests
use mathlib.Core.Option
use kama_webserver.Prelude.{
  ℕ, zero, suc, ◌+◌, ◌-◌, ◌/◌, Bool, true, false, not, ◌&&◌, Option, none, some, List, [], ◌∷◌,
  ◌++◌, length, ltb, leb, ◌==◌, if◌then◌else◌,
}

infixl 5 ◌>>=◌
abbrev pub ◌>>=◌ {ℓ κ} : {A : Type ℓ} {B : Type κ} → Option A → (A → Option B) → Option B
none >>= f = none
some a >>= f = f a

pub record Node : Type 0 where
  pub freq : ℕ
  pub key : ℕ
  pub value : ℕ

-- `freqToFreqList_`: the list of a frequency, and the frequencies that have one.
pub record FreqLists : Type 0 where
  pub known : List ℕ
  pub list_of : ℕ → Option (List ℕ)

pub record KLfuCache : Type 0 where
  pub capacity : ℕ
  pub min_freq : ℕ
  pub max_average_num : ℕ
  pub cur_average_num : ℕ
  pub cur_total_num : ℕ
  pub node_map : List Node
  pub freq_lists : FreqLists

abbrev pub int8_max : ℕ
int8_max = 127

abbrev pub no_lists : FreqLists
no_lists = record { known = []; list_of = λ f. none }

pub init : ℕ → ℕ → KLfuCache
init capacity max_average_num = record {
  capacity = capacity;
  min_freq = int8_max;
  max_average_num = max_average_num;
  cur_average_num = 0;
  cur_total_num = 0;
  node_map = [];
  freq_lists = no_lists;
}

abbrev pub is_empty {ℓ} : {A : Type ℓ} → List A → Bool
is_empty [] = true
is_empty (x ∷ xs) = false

-- `removeNode` takes the node out of the list that holds it.
pub remove_node : ℕ → List ℕ → List ℕ
remove_node key [] = []
remove_node key (k ∷ ks) = let rest = remove_node key ks in if k == key then ks else k ∷ rest

abbrev pub add_node : ℕ → List ℕ → List ℕ
add_node key ks = ks ++ key ∷ []

pub set_list : ℕ → List ℕ → (ℕ → Option (List ℕ)) → ℕ → Option (List ℕ)
set_list f ks list_of g = if g == f then some ks else list_of g

pub remove_from_freq_list : Node → FreqLists → Option FreqLists
unfolding remove_node set_list
remove_from_freq_list n ls =
    Option.map (λ ks. record ls { list_of = set_list n.freq (remove_node n.key ks) ls.list_of })
      (ls.list_of n.freq)

-- A list is made for a frequency that has none.
pub add_to_freq_list : Node → FreqLists → FreqLists
unfolding set_list
add_to_freq_list n ls = elim (ls.list_of n.freq) [
  | none ↦ record {
    known = n.freq ∷ ls.known;
    list_of = set_list n.freq (add_node n.key []) ls.list_of;
  }
  | some ks ↦ record ls { list_of = set_list n.freq (add_node n.key ks) ls.list_of }
]

-- `nodeMap_.find`, the assignment through a node pointer, and `nodeMap_.erase`.
pub find : List Node → ℕ → Option Node
find [] key = none
find (n ∷ ns) key = let rest = find ns key in if n.key == key then some n else rest

pub update_node : Node → List Node → List Node
update_node m [] = []
update_node m (n ∷ ns) = let rest = update_node m ns in if n.key == m.key then m ∷ ns else n ∷ rest

pub erase : List Node → ℕ → List Node
erase [] key = []
erase (n ∷ ns) key = let rest = erase ns key in if n.key == key then ns else n ∷ rest

-- One round of the loop of `handleOverMaxAverageNum`.
abbrev pub lowered : ℕ → Node → Node
lowered half n = record n { freq = if ltb (n.freq - half) 1 then 1 else n.freq - half }

-- The loop over the map. std::unordered_map leaves the order open; here it is that of the insertions,
-- on which only the places in the frequency lists depend.
pub lower_all : ℕ → List Node → FreqLists → Option (List Node × FreqLists)
unfolding remove_from_freq_list add_to_freq_list
lower_all half [] ls = some ([], ls)
lower_all half (n ∷ ns) ls = do
  removed ← remove_from_freq_list n ls
  (rest, after) ← lower_all half ns (add_to_freq_list (lowered half n) removed)
  some (lowered half n ∷ rest, after)

-- The smallest frequency with a list that is not empty, but at most the given one.
abbrev pub has_nodes : Option (List ℕ) → Bool
has_nodes none = false
has_nodes (some ks) = not (is_empty ks)

pub smallest : (ℕ → Option (List ℕ)) → List ℕ → ℕ → ℕ
smallest list_of [] least = least
smallest list_of (f ∷ fs) least =
    smallest list_of fs (if has_nodes (list_of f) then if ltb f least then f else least else least)

pub update_min_freq : KLfuCache → KLfuCache
unfolding smallest
update_min_freq c =
    let least = smallest c.freq_lists.list_of c.freq_lists.known int8_max in
    record c { min_freq = if least == int8_max then 1 else least }

pub handle_over_max_average_num : KLfuCache → Option KLfuCache
unfolding lower_all update_min_freq
handle_over_max_average_num c =
    if is_empty c.node_map
    then some c
    else Option.map (λ r. update_min_freq (record c { node_map = r.0; freq_lists = r.1 }))
        (lower_all (c.max_average_num / 2) c.node_map c.freq_lists)

abbrev pub average : ℕ → List Node → ℕ
average total nodes = if is_empty nodes then 0 else total / length nodes

pub add_freq_num : KLfuCache → Option KLfuCache
unfolding handle_over_max_average_num
add_freq_num c =
    let counted = record c {
      cur_total_num = c.cur_total_num + 1;
      cur_average_num = average (c.cur_total_num + 1) c.node_map;
    } in
    if ltb c.max_average_num (average (c.cur_total_num + 1) c.node_map)
    then handle_over_max_average_num counted
    else some counted

pub decrease_freq_num : ℕ → KLfuCache → KLfuCache
decrease_freq_num num c = record c {
  cur_total_num = c.cur_total_num - num;
  cur_average_num = average (c.cur_total_num - num) c.node_map;
}

-- The node moves on to the next frequency; `node` holds the value that `get` gives out.
abbrev pub next_freq : Node → Node
next_freq n = record n { freq = n.freq + 1 }

pub moved : Node → FreqLists → KLfuCache → KLfuCache
unfolding add_to_freq_list update_node
moved n removed c =
    let after = add_to_freq_list (next_freq n) removed in
    record c {
      node_map = update_node (next_freq n) c.node_map;
      freq_lists = after;
      min_freq =
          if n.freq == c.min_freq && not (has_nodes (after.list_of n.freq))
          then c.min_freq + 1
          else c.min_freq;
    }

pub get_internal : Node → KLfuCache → Option KLfuCache
unfolding remove_from_freq_list moved add_freq_num
get_internal n c = do
  removed ← remove_from_freq_list n c.freq_lists
  add_freq_num (moved n removed c)

-- The first node of the least frequency's list. A null list and an empty one have none.
pub kick_out : KLfuCache → Option KLfuCache
unfolding find remove_from_freq_list erase decrease_freq_num
kick_out c = elim (c.freq_lists.list_of c.min_freq) [
  | none ↦ none
  | some [] ↦ none
  | some (key ∷ keys) ↦ do
    node ← find c.node_map key
    removed ← remove_from_freq_list node c.freq_lists
    some (
        decrease_freq_num node.freq
          (record c { node_map = erase c.node_map key; freq_lists = removed }))
]

abbrev pub fresh_node : ℕ → ℕ → Node
fresh_node key value = record { freq = 1; key = key; value = value }

abbrev pub enter : Node → KLfuCache → KLfuCache
enter n c = record c { node_map = n ∷ c.node_map; freq_lists = add_to_freq_list n c.freq_lists }

abbrev pub lower_min : KLfuCache → KLfuCache
lower_min c = record c { min_freq = if ltb c.min_freq 1 then c.min_freq else 1 }

pub put_internal : ℕ → ℕ → KLfuCache → Option KLfuCache
unfolding kick_out add_to_freq_list add_freq_num
put_internal key value c = do
  roomy ← if length c.node_map == c.capacity then kick_out c else some c
  counted ← add_freq_num (enter (fresh_node key value) roomy)
  some (lower_min counted)

pub put : ℕ → ℕ → KLfuCache → Option KLfuCache
unfolding find get_internal put_internal
put key value c = if c.capacity == 0 then some c else elim (find c.node_map key) [
  | none ↦ put_internal key value c
  | some n ↦ get_internal (record n { value = value }) c
]

pub get : ℕ → KLfuCache → Option (Option ℕ × KLfuCache)
unfolding find get_internal
get key c = elim (find c.node_map key) [
  | none ↦ some (none, c)
  | some n ↦ Option.map (λ after. (some n.value, after)) (get_internal n c)
]

pub purge : KLfuCache → KLfuCache
purge c = record c { node_map = []; freq_lists = no_lists }
