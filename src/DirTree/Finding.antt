-- ===== src/DirTree/Finding.antt =====
-- `find` of src/dir_tree.cc against the tree: a path of plain names leads to the node that one
-- reaches by following them down from the root.
use mathlib.Core.Option.{some-injective}
use group_share_filesystem.Base.{
  ◌≡◌, ◌↔◌, ◌⊎◌, ◌∙◌, sym, ap, subst, refl, ◌++◌, true, false, if◌then◌else◌, Bytes, List, [], ◌∷◌,
  Option, none, some, Outcome, ok, some, arith, inl, inr, Option-cases, Bool-cases, ok-injective,
}
use group_share_filesystem.DirTree.Names.{name_eq, name_eq→eq, name_ltb}
use group_share_filesystem.DirTree.Node.{TreeNode, children}
use group_share_filesystem.DirTree.NodeSet.{lookup}
use group_share_filesystem.DirTree.Merging.{rooted}
use group_share_filesystem.DirTree.{
  FindStep, find, find_loop, find_step, go_on, give_back, dot, dot_dot, slash,
}

-- The node at the end of the path, from a node down.
pub data Located : TreeNode → List Bytes → TreeNode → Type 0 where
  here : (n : TreeNode) → Located n [] n
  below :
      {n child end : TreeNode} {element : Bytes} {rest : List Bytes}
      → lookup element (children n) ≡ some child
      → Located child rest end
      → Located n (element ∷ rest) end

-- Neither `.` nor `..`.
abbrev pub ArePlain : List Bytes → Type 0
ArePlain [] = Unit
ArePlain (e ∷ rest) = (name_eq e dot_dot ≡ false) × (name_eq e dot ≡ false) × ArePlain rest

-- The same without the relation.
unfoldable pub walk : TreeNode → List Bytes → Option TreeNode
walk n [] = some n
walk n (element ∷ rest) = elim (lookup element (children n)) [
  | none ↦ none
  | some child ↦ walk child rest
]

-- Two roots with the same children lead to the same nodes below them.
pub walk-children :
    (r s : TreeNode) (element : Bytes) (rest : List Bytes)
    → children r ≡ children s
    → walk r (element ∷ rest) ≡ walk s (element ∷ rest)
unfolding walk
walk-children r s element rest e =
    ap (λ cs. elim (lookup element cs) [ none ↦ none | some child ↦ walk child rest ]) e

module _ (root : Option TreeNode) (n : TreeNode) (e : Bytes) where
  find_step_missing :
      name_eq e dot_dot ≡ false
      → name_eq e dot ≡ false
      → lookup e (children n) ≡ none
      → find_step root (some n) e ≡ give_back (ok none)
  unfolding find_step
  find_step_missing h k l = ground arith

  find_step_found :
      (child : TreeNode)
      → name_eq e dot_dot ≡ false
      → name_eq e dot ≡ false
      → lookup e (children n) ≡ some child
      → find_step root (some n) e ≡ go_on (some child)
  unfolding find_step
  find_step_found child h k l = ground arith

find_loop-walk :
    (root : Option TreeNode) (n : TreeNode) (path : List Bytes)
    → ArePlain path
    → find_loop root (some n) path ≡ ok (walk n path)
unfolding find_loop walk
find_loop-walk root n [] p = refl
find_loop-walk root n (element ∷ rest) p = elim (Option-cases (lookup element (children n))) [
  | inl e ↦ rw (find_step_missing root n element p.0 p.1 e, find_loop, e, walk)
  | inr (child, e) ↦
      rw (find_step_found root n element child p.0 p.1 e, find_loop, e, walk)
        (find_loop-walk root child rest p.2)
]

-- A path that starts with `/` and goes on with plain names leads to what following the names gives.
pub find-walk :
    (r : TreeNode) (path : List Bytes)
    → ArePlain path
    → find (rooted r) (slash ∷ path) ≡ ok (walk r path)
unfolding find name_eq name_ltb
find-walk r path p = find_loop-walk (some r) r path p

walk-Located : (r n : TreeNode) (path : List Bytes) → walk r path ≡ some n → Located r path n
unfolding walk
walk-Located r n [] e = subst (Located r []) (some-injective r n e) (here r)
walk-Located r n (element ∷ rest) e = elim (Option-cases (lookup element (children r))) [
  | inl missing ↦ cc (rw (missing, walk) at e)
  | inr (child, found) ↦ below found (walk-Located child n rest (rw (found, walk) at e))
]

Located-walk : (r n : TreeNode) (path : List Bytes) → Located r path n → walk r path ≡ some n
unfolding walk
Located-walk r n [] (here _) = refl
Located-walk r n (element ∷ rest) (below found l) = rw (found, walk) (Located-walk _ n rest l)

-- `find` of a path that starts at the root and has no element `.` or `..` gives a node exactly
-- when the path leads to that node by the names of children.
pub find-Located :
    (r n : TreeNode) (path : List Bytes)
    → ArePlain path
    → (find (rooted r) (slash ∷ path) ≡ ok (some n)) ↔ Located r path n
find-Located r n path p = (
  λ e. walk-Located r n path (ok-injective (sym (find-walk r path p) ∙ e)),
  λ l. find-walk r path p ∙ ap ok (Located-walk r n path l),
)

-- The path without its dots.
strip_dots : List Bytes → List Bytes
strip_dots [] = []
strip_dots (e ∷ rest) = let tail = strip_dots rest in if name_eq e dot then tail else e ∷ tail

find_step-dot :
    (root current : Option TreeNode) (e : Bytes)
    → name_eq e dot ≡ true
    → find_step root current e ≡ go_on current
unfolding find_step name_eq name_ltb
find_step-dot root current e h =
    subst (λ x. find_step root current x ≡ go_on current) (sym (name_eq→eq e dot h)) refl

FindStep-cases :
    (s : FindStep)
    → ((n : Option TreeNode) × (s ≡ go_on n))
      ⊎ ((r : Outcome (Option TreeNode)) × (s ≡ give_back r))
FindStep-cases (go_on n) = inl (n, refl)
FindStep-cases (give_back r) = inr (r, refl)

find_loop-strip_dots :
    (root current : Option TreeNode) (path : List Bytes)
    → find_loop root current (strip_dots path) ≡ find_loop root current path
unfolding find_loop strip_dots
find_loop-strip_dots root current [] = refl
find_loop-strip_dots root current (e ∷ path) = elim (Bool-cases (name_eq e dot)) [
  | inl is_dot ↦
      rw (is_dot, find_step-dot root current e is_dot, find_loop)
        (find_loop-strip_dots root current path)
  | inr other ↦ elim (FindStep-cases (find_step root current e)) [
    | inl (n, next) ↦ rw (other, next, find_loop) (find_loop-strip_dots root n path)
    | inr (r, back) ↦ rw (other, back, find_loop)
  ]
]

-- Elements `.` anywhere in a path change nothing.
find-strip_dots :
    (r : TreeNode) (path : List Bytes) → find (rooted r) (strip_dots path) ≡ find (rooted r) path
unfolding find
find-strip_dots r path = find_loop-strip_dots (some r) none path

-- One name further down.
pub walk-snoc :
    (r n : TreeNode) (path : List Bytes) (k : Bytes)
    → walk r path ≡ some n
    → walk r (path ++ k ∷ []) ≡ lookup k (children n)
unfolding walk
walk-snoc r n [] k e = elim (Option-cases (lookup k (children r))) [
  | inl missing ↦
      rw (missing, walk) (sym missing ∙ ap (λ x. lookup k (children x)) (some-injective r n e))
  | inr (c, found) ↦
      rw (found, walk) (sym found ∙ ap (λ x. lookup k (children x)) (some-injective r n e))
]
walk-snoc r n (j ∷ path) k e = elim (Option-cases (lookup j (children r))) [
  | inl missing ↦ cc (rw (missing, walk) at e)
  | inr (c, found) ↦ rw (found, walk) (walk-snoc c n path k (rw (found, walk) at e))
]
