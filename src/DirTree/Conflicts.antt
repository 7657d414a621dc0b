-- ===== src/DirTree/Conflicts.antt =====
-- `hasConflict` of src/dir_tree.cc: its loop, and the ranges that the loop is given.
use group_share_filesystem.Base.{
  ◌≡◌, ◌∙◌, refl, Bool, true, false, ◌&&◌, ◌||◌, Bytes, List, [], ◌∷◌, Option, none, some, ok,
  arith, inl, inr,
}
use group_share_filesystem.DirTree.Names.{name_eq, name_cases}
use group_share_filesystem.DirTree.Node.{TreeNode, Children, nil, cons, name, children}
use group_share_filesystem.DirTree.NodeSet.{lookup, IsSorted}
use group_share_filesystem.DirTree.NodeSet.Sorted.{IsAbove-trans}
use group_share_filesystem.DirTree.NodeSet.Lookup.{lookup_fresh}
use group_share_filesystem.DirTree.Merging.{rooted}
use group_share_filesystem.DirTree.{common_names, has_conflict}

abbrev pub lists : Bytes → List Bytes → Bool
lists k [] = false
lists k (j ∷ names) = name_eq j k || lists k names

abbrev pub is_found : Option TreeNode → Bool
is_found none = false
is_found (some n) = true

-- If two sets of children are in order, the loop lists exactly the names that both have.
pub lists-common_names :
    (k : Bytes) (t s : Children)
    → IsSorted t
    → IsSorted s
    → lists k (common_names t s) ≡ (is_found (lookup k t) && is_found (lookup k s))
unfolding common_names lookup
lists-common_names k nil s o p = refl
lists-common_names k (cons n t) nil o p = ground arith
lists-common_names k (cons n t) (cons m s) o p = elim (name_cases (name n) (name m)) [
  | inl (lt, ge) ↦ rw lt (
      lists-common_names k t (cons m s) o.1 p
      ∙ ground (arith, lookup_fresh k n (cons m s) (lt, IsAbove-trans (name n) (name m) s lt p.0)))
  | inr (inl (ge, gt)) ↦
      rw (ge, gt)
        (lists-common_names k (cons n t) s o p.1
          ∙ ground
              (arith, lookup_fresh k m (cons n t) (gt, IsAbove-trans (name m) (name n) t gt o.0)))
  | inr (inr (ge, le, e)) ↦
      rw (ge, le) (rw (← e) (ground (arith, lists-common_names k t s o.1 p.1)))
]

-- `hasConflict` never reports a name, whatever the two trees hold.
pub has_conflict-nil : (self other : TreeNode) → has_conflict (rooted self) (rooted other) ≡ ok []
unfolding has_conflict common_names
has_conflict-nil self other = refl

-- If the children of two trees are in order, a name that both trees have is in the list that the
-- loop computes from the two sets of children, and yet `hasConflict` reports nothing.
pub has_conflict_misses :
    (k : Bytes) (self other : TreeNode)
    → IsSorted (children self)
    → IsSorted (children other)
    → is_found (lookup k (children self)) ≡ true
    → is_found (lookup k (children other)) ≡ true
    → (lists k (common_names (children other) (children self)) ≡ true)
      × (has_conflict (rooted self) (rooted other) ≡ ok [])
has_conflict_misses k self other s o f g = (
  lists-common_names k (children other) (children self) o s ∙ rw (f, g),
  has_conflict-nil self other,
)
