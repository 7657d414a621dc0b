-- ===== src/DirTree/NodeSet/Ordered.antt =====
-- Sets that are in their order at every depth: the operations keep them so, and inserting the elements of
-- one in their order gives it again.
use group_share_filesystem.Base.{
  Bytes, List, [], ◌∷◌, true, ◌≡◌, refl, sym, ap, ◌∙◌, inl, inr, ℕ, Bool, Bool-cases,
}
use group_share_filesystem.DirTree.Names.{name_ltb, name_cases}
use group_share_filesystem.DirTree.Node.{
  TreeNode, node, Children, nil, cons, name, set_host_children,
}
use group_share_filesystem.DirTree.NodeSet.{
  insert, insert_all, erase_if, insert_each, IsAbove, IsSorted,
}
use group_share_filesystem.DirTree.NodeSet.Sorted.{IsAbove-trans, insert-IsAbove, erase_if-IsAbove}

-- At every depth the children stand in the order of the set.
abbrev pub AreOrdered : Children → Type 0
AreOrdered nil = Unit
AreOrdered (cons (node a n cs) rest) = IsAbove n rest × AreOrdered cs × AreOrdered rest

pub AreOrdered-IsSorted : (s : Children) → AreOrdered s → IsSorted s
AreOrdered-IsSorted nil o = tt
AreOrdered-IsSorted (cons (node a n cs) rest) o = (o.0, AreOrdered-IsSorted rest o.2)

insert-AreOrdered :
    (n : TreeNode) (s : Children) → AreOrdered (cons n nil) → AreOrdered s → AreOrdered (insert n s)
unfolding insert
insert-AreOrdered (node a k cs) nil f h = f
insert-AreOrdered (node a k cs) (cons (node b j ds) rest) f h = elim (name_cases k j) [
  | inl (lt, _) ↦ rw lt ((lt, IsAbove-trans k j rest lt h.0), f.1, h)
  | inr (inl (ge, gt)) ↦
      rw (ge, gt)
        (
          insert-IsAbove j (node a k cs) rest gt h.0,
          h.1,
          insert-AreOrdered (node a k cs) rest f h.2,
        )
  | inr (inr (ge, le, _)) ↦ rw (ge, le) h
]

pub insert_all-AreOrdered :
    (t s : Children) → AreOrdered t → AreOrdered s → AreOrdered (insert_all t s)
unfolding insert_all
insert_all-AreOrdered nil s f h = h
insert_all-AreOrdered (cons (node a k cs) rest) s f h =
    insert_all-AreOrdered rest (insert (node a k cs) s) f.2
      (insert-AreOrdered (node a k cs) s (tt, f.1, tt) h)

pub erase_if-AreOrdered :
    (test : TreeNode → Bool) (s : Children) → AreOrdered s → AreOrdered (erase_if test s)
unfolding erase_if
erase_if-AreOrdered test nil h = tt
erase_if-AreOrdered test (cons (node a k cs) rest) h = elim (Bool-cases (test (node a k cs))) [
  | inl e ↦ rw e (erase_if-AreOrdered test rest h.2)
  | inr e ↦ rw e (erase_if-IsAbove test k rest h.0, h.1, erase_if-AreOrdered test rest h.2)
]

set_host_children-IsAbove :
    (host : ℕ) (k : Bytes) (s : Children) → IsAbove k s → IsAbove k (set_host_children host s)
unfolding set_host_children
set_host_children-IsAbove host k nil h = tt
set_host_children-IsAbove host k (cons (node a n cs) rest) h =
    (h.0, set_host_children-IsAbove host k rest h.1)

pub set_host_children-AreOrdered :
    (host : ℕ) (s : Children) → AreOrdered s → AreOrdered (set_host_children host s)
unfolding set_host_children
set_host_children-AreOrdered host nil h = tt
set_host_children-AreOrdered host (cons (node a n cs) rest) h = (
  set_host_children-IsAbove host n rest h.0,
  set_host_children-AreOrdered host cs h.1,
  set_host_children-AreOrdered host rest h.2,
)

-- The elements from the first to the last.
abbrev pub nodes_of : Children → List TreeNode
nodes_of nil = []
nodes_of (cons n rest) = n ∷ nodes_of rest

abbrev join : Children → Children → Children
join nil t = t
join (cons n s) t = cons n (join s t)

join-nil : (s : Children) → join s nil ≡ s
join-nil nil = refl
join-nil (cons n s) = ap (cons n) (join-nil s)

join_assoc :
    (s : Children) (n : TreeNode) (t : Children) → join (join s (cons n nil)) t ≡ join s (cons n t)
join_assoc nil n t = refl
join_assoc (cons m s) n t = ap (cons m) (join_assoc s n t)

below-last :
    (k : Bytes) (s : Children) (n : TreeNode) (t : Children)
    → IsAbove k (join s (cons n t))
    → name_ltb k (name n) ≡ true
below-last k nil n t h = h.0
below-last k (cons m s) n t h = below-last k s n t h.1

-- The last element of a set is inserted at the end.
insert-join :
    (s : Children) (n : TreeNode) (t : Children)
    → IsSorted (join s (cons n t))
    → insert n s ≡ join s (cons n nil)
unfolding insert
insert-join nil n t o = refl
insert-join (cons m s) n t o =
    let lt = below-last (name m) s n t o.0 in
    elim (name_cases (name m) (name n)) [
      | inl (_, ge) ↦ rw (ge, lt) (ap (cons m) (insert-join s n t o.1))
      | inr (inl (ge, gt)) ↦ cc
      | inr (inr (ge, le, _)) ↦ cc
    ]

insert_each-join : (t s : Children) → IsSorted (join s t) → insert_each (nodes_of t) s ≡ join s t
unfolding insert_each
insert_each-join nil s o = sym (join-nil s)
insert_each-join (cons n t) s o =
    ap (insert_each (nodes_of t)) (insert-join s n t o)
    ∙ insert_each-join t (join s (cons n nil)) (rw (join_assoc s n t) o)
    ∙ join_assoc s n t

pub insert_each-nodes_of : (s : Children) → IsSorted s → insert_each (nodes_of s) nil ≡ s
insert_each-nodes_of s o = insert_each-join s nil o
