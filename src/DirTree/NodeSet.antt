-- ===== src/DirTree/NodeSet.antt =====
-- `std::set<TreeNode>`: nodes in strictly ascending order of their names.
pub mod Sorted
pub mod Lookup
pub mod Every
pub mod Ordered
use group_share_filesystem.Base.{
  if◌then◌else◌, Bytes, Bool, true, ◌≡◌, List, [], ◌∷◌, Option, none, some,
}
use group_share_filesystem.DirTree.Names.{name_ltb, name_eq}
use group_share_filesystem.DirTree.Node.{TreeNode, Children, nil, cons, name}

-- `insert`: a node that has the name of an element is not taken in.
unfoldable pub insert : TreeNode → Children → Children
insert n nil = cons n nil
insert n (cons m rest) =
    if name_ltb (name n) (name m)
    then cons n (cons m rest)
    else if name_ltb (name m) (name n)
    then cons m (insert n rest)
    else cons m rest

-- Insertion of the elements of a set, from the first to the last.
unfoldable pub insert_all : Children → Children → Children
insert_all nil s = s
insert_all (cons n rest) s = insert_all rest (insert n s)

-- The load of a set: its elements are inserted one after the other.
unfoldable pub insert_each : List TreeNode → Children → Children
insert_each [] s = s
insert_each (n ∷ rest) s = insert_each rest (insert n s)

-- `find`: the element of that name.
unfoldable pub lookup : Bytes → Children → Option TreeNode
lookup k nil = none
lookup k (cons n rest) = if name_eq (name n) k then some n else lookup k rest

-- The loop that erases every element which passes the test.
unfoldable pub erase_if : (TreeNode → Bool) → Children → Children
erase_if test nil = nil
erase_if test (cons n rest) = if test n then erase_if test rest else cons n (erase_if test rest)

-- All names come after `k`.
abbrev pub IsAbove : Bytes → Children → Type 0
IsAbove k nil = Unit
IsAbove k (cons n rest) = (name_ltb k (name n) ≡ true) × IsAbove k rest

abbrev pub IsSorted : Children → Type 0
IsSorted nil = Unit
IsSorted (cons n rest) = IsAbove (name n) rest × IsSorted rest
