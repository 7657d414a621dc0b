-- ===== src/DirTree/NodeSet/Sorted.antt =====
-- The operations of the set keep the order.
use group_share_filesystem.Base.{Bytes, Bool, true, ◌≡◌, inl, inr, Bool-cases, arith}
use group_share_filesystem.DirTree.Names.{name_ltb, name_ltb_trans, name_cases}
use group_share_filesystem.DirTree.Node.{TreeNode, Children, nil, cons, name}
use group_share_filesystem.DirTree.NodeSet.{insert, insert_all, erase_if, IsAbove, IsSorted}

pub IsAbove-trans : (j k : Bytes) (s : Children) → name_ltb j k ≡ true → IsAbove k s → IsAbove j s
IsAbove-trans j k nil h a = tt
IsAbove-trans j k (cons n rest) h a =
    (name_ltb_trans j k (name n) h a.0, IsAbove-trans j k rest h a.1)

pub insert-IsAbove :
    (k : Bytes) (n : TreeNode) (s : Children)
    → name_ltb k (name n) ≡ true
    → IsAbove k s
    → IsAbove k (insert n s)
unfolding insert
insert-IsAbove k n nil h a = (h, tt)
insert-IsAbove k n (cons m rest) h a = ground (arith, insert-IsAbove k n rest h a.1)

pub insert-IsSorted : (n : TreeNode) (s : Children) → IsSorted s → IsSorted (insert n s)
unfolding insert
insert-IsSorted n nil o = (tt, tt)
insert-IsSorted n (cons m rest) o = elim (name_cases (name n) (name m)) [
  | inl (lt, _) ↦ rw lt ((lt, IsAbove-trans (name n) (name m) rest lt o.0), o)
  | inr (inl (ge, gt)) ↦
      rw (ge, gt) (insert-IsAbove (name m) n rest gt o.0, insert-IsSorted n rest o.1)
  | inr (inr (ge, le, _)) ↦ rw (ge, le) o
]

pub insert_all-IsSorted : (t s : Children) → IsSorted s → IsSorted (insert_all t s)
unfolding insert_all
insert_all-IsSorted nil s o = o
insert_all-IsSorted (cons n rest) s o =
    insert_all-IsSorted rest (insert n s) (insert-IsSorted n s o)

pub erase_if-IsAbove :
    (test : TreeNode → Bool) (k : Bytes) (s : Children) → IsAbove k s → IsAbove k (erase_if test s)
unfolding erase_if
erase_if-IsAbove test k nil a = tt
erase_if-IsAbove test k (cons n rest) a = elim (Bool-cases (test n)) [
  | inl e ↦ rw e (erase_if-IsAbove test k rest a.1)
  | inr e ↦ rw e (a.0, erase_if-IsAbove test k rest a.1)
]

pub erase_if-IsSorted :
    (test : TreeNode → Bool) (s : Children) → IsSorted s → IsSorted (erase_if test s)
unfolding erase_if
erase_if-IsSorted test nil o = tt
erase_if-IsSorted test (cons n rest) o = elim (Bool-cases (test n)) [
  | inl e ↦ rw e (erase_if-IsSorted test rest o.1)
  | inr e ↦ rw e (erase_if-IsAbove test (name n) rest o.0, erase_if-IsSorted test rest o.1)
]
