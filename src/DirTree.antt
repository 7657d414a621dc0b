-- ===== src/DirTree.antt =====
-- Class DirTree of src/dir_tree.h and src/dir_tree.cc: the tree of files that the group shares. A null
-- root is followed only by faulting. Boost's iteration over a path is the list of its elements.
pub mod Names
pub mod Node
pub mod NodeSet
pub mod Merging
pub mod Uniform
pub mod Everywhere
pub mod Marking
pub mod Conflicts
pub mod Finding
use group_share_filesystem.Base.{
  ℕ, zero, suc, ◌-◌, ◌==◌, if◌then◌else◌, not, ◌&&◌, Bool, true, false, Bytes, List, [], ◌∷◌,
  Option, none, some, Outcome, ok, fault, or_fault, null_pointer, assertion, ◌>>=◌,
}
use Names.{name_ltb, name_eq}
use Node.{TreeNode, node, Children, nil, cons, Attributes, attributes, name, children, set_host_id}
use NodeSet.{insert, lookup, erase_if}

pub record DirTree : Type 0 where
  pub root : Option TreeNode

-- `DirTree()`
abbrev pub empty_tree : DirTree
empty_tree = record { root = none }

-- `initialize`: the fields of the new node are as the memory was, but for the name and the children.
abbrev pub initialize : Attributes → DirTree
initialize memory = record { root = some (node memory [] nil) }

abbrev pub root_node : DirTree → Outcome TreeNode
root_node tree = or_fault null_pointer tree.root

-- `_root->children = …`
abbrev pub with_children : TreeNode → Children → DirTree
with_children (node a n cs) cs' = record { root = some (node a n cs') }

abbrev pub belongs_to : ℕ → TreeNode → Bool
belongs_to host_id n = (attributes n).host_id == host_id

unfoldable pub remove_of : ℕ → DirTree → Outcome DirTree
remove_of host_id tree = do
  root ← root_node tree
  ok (with_children root (erase_if (belongs_to host_id) (children root)))

unfoldable pub remove_not_of : ℕ → DirTree → Outcome DirTree
remove_not_of host_id tree = do
  root ← root_node tree
  ok (with_children root (erase_if (λ n. not (belongs_to host_id n)) (children root)))

-- The loop of `hasConflict` over the elements that are left between two pairs of iterators.
unfoldable pub common_names : Children → Children → List Bytes
common_names nil s = []
common_names (cons n t) nil = []
common_names (cons n t) (cons m s) =
    let skip_first = common_names t (cons m s) in
    let skip_second = common_names (cons n t) s in
    let skip_both = name n ∷ common_names t s in
    if name_ltb (name n) (name m)
    then skip_first
    else if name_ltb (name m) (name n)
    then skip_second
    else skip_both

-- An iterator is the number of elements before it.
abbrev pub set_begin : Children → ℕ
set_begin s = 0

abbrev pub set_end : Children → ℕ
set_end nil = 0
set_end (cons n s) = suc (set_end s)

abbrev drop_nodes : ℕ → Children → Children
drop_nodes zero s = s
drop_nodes (suc i) nil = nil
drop_nodes (suc i) (cons n s) = drop_nodes i s

abbrev take_nodes : ℕ → Children → Children
take_nodes zero s = nil
take_nodes (suc i) nil = nil
take_nodes (suc i) (cons n s) = cons n (take_nodes i s)

-- The elements from one iterator up to another.
abbrev pub elements_between : Children → ℕ → ℕ → Children
elements_between s first last = take_nodes (last - first) (drop_nodes first s)

-- As in the source, `last1` is the `begin()` of the other tree.
unfoldable pub has_conflict : DirTree → DirTree → Outcome (List Bytes)
has_conflict self tree = do
  other_root ← root_node tree
  let first1 = set_begin (children other_root)
  let last1 = set_begin (children other_root)
  self_root ← root_node self
  let first2 = set_begin (children self_root)
  let last2 = set_end (children self_root)
  ok (
      common_names (elements_between (children other_root) first1 last1)
        (elements_between (children self_root) first2 last2))

-- The loop of `merge`: each element is inserted into `_root->children`.
unfoldable pub merge_from : Children → DirTree → Outcome DirTree
merge_from nil self = ok self
merge_from (cons n rest) self = do
  self_root ← root_node self
  merge_from rest (with_children self_root (insert n (children self_root)))

unfoldable pub merge : DirTree → DirTree → Outcome DirTree
unfolding merge_from
merge self tree = do other_root ← root_node tree; merge_from (children other_root) self

-- `tree.root()->setHostID(host_id)`
unfoldable pub set_tree_host : ℕ → DirTree → Outcome DirTree
unfolding set_host_id
set_tree_host host_id tree = do
  root ← root_node tree
  ok (record { root = some (set_host_id host_id root) })

-- `_root->children = tree.root()->children`
unfoldable pub replace_children : DirTree → DirTree → Outcome DirTree
replace_children self tree = do
  other_root ← root_node tree
  self_root ← root_node self
  ok (with_children self_root (children other_root))

-- What one element of the path does to `node` in `find`: go on with a node, or return.
pub data FindStep : Type 0 where
  go_on : Option TreeNode → FindStep
  give_back : Outcome (Option TreeNode) → FindStep

abbrev pub dot : Bytes
dot = b'.' ∷ []

abbrev pub dot_dot : Bytes
dot_dot = b'.' ∷ b'.' ∷ []

abbrev pub slash : Bytes
slash = b'/' ∷ []

abbrev is_null : Option TreeNode → Bool
is_null none = true
is_null (some n) = false

descend : Bytes → TreeNode → FindStep
descend element n = elim (lookup element (children n)) [
  | none ↦ give_back (ok none)
  | some child ↦ go_on (some child)
]

descend_from : Bytes → Option TreeNode → FindStep
unfolding descend
descend_from element none = go_on none
descend_from element (some n) = descend element n

unfoldable pub find_step : Option TreeNode → Option TreeNode → Bytes → FindStep
unfolding descend_from
find_step root current element =
    if name_eq element dot_dot
    then give_back (fault assertion)
    else if name_eq element dot
    then go_on current
    else if name_eq element slash && is_null current
    then go_on root
    else descend_from element current

unfoldable pub find_loop :
    Option TreeNode → Option TreeNode → List Bytes → Outcome (Option TreeNode)
find_loop root current [] = ok current
find_loop root current (element ∷ rest) = elim (find_step root current element) [
  | go_on next ↦ find_loop root next rest
  | give_back r ↦ r
]

unfoldable pub find : DirTree → List Bytes → Outcome (Option TreeNode)
unfolding find_loop find_step
find tree path = find_loop tree.root none path
