-- ===== src/DirTree/Marking.antt =====
-- `setHostID` of src/dir_tree.h, seen from the paths below a node.
use mathlib.Core.Option.{or_else}
use group_share_filesystem.Base.{
  ℕ, ◌≡◌, refl, if◌then◌else◌, Bytes, List, [], ◌∷◌, Option, none, some, Option-cases, inl, inr,
  Bool-cases,
}
use group_share_filesystem.DirTree.Conflicts.{is_found}
use group_share_filesystem.DirTree.Finding.{walk}
use group_share_filesystem.DirTree.Names.{name_eq}
use group_share_filesystem.DirTree.Node.{
  Attributes, TreeNode, node, Children, nil, cons, attributes, children, set_host_children,
}
use group_share_filesystem.DirTree.NodeSet.{lookup}

-- The attributes of a file, if it is there, and the same with another owner.
abbrev pub attributes_of : Option TreeNode → Option Attributes
attributes_of none = none
attributes_of (some n) = some (attributes n)

abbrev pub owned_by : ℕ → Option Attributes → Option Attributes
owned_by host none = none
owned_by host (some a) = some (record a { host_id = host })

-- A child that is marked, with what is below it.
abbrev marked : ℕ → TreeNode → TreeNode
marked host (node a n cs) = node (record a { host_id = host }) n (set_host_children host cs)

abbrev marked_child : ℕ → Option TreeNode → Option TreeNode
marked_child host none = none
marked_child host (some n) = some (marked host n)

pub lookup-set_host_children :
    (host : ℕ) (k : Bytes) (s : Children)
    → lookup k (set_host_children host s) ≡ marked_child host (lookup k s)
unfolding lookup set_host_children
lookup-set_host_children host k nil = refl
lookup-set_host_children host k (cons (node a n cs) rest) = elim (Bool-cases (name_eq n k)) [
  | inl e ↦ rw e refl
  | inr e ↦ rw e (lookup-set_host_children host k rest)
]

-- Below a marked node there is the same at every path, with the new owner.
pub walk-marked :
    (host : ℕ) (n : TreeNode) (path : List Bytes)
    → attributes_of (walk (marked host n) path) ≡ owned_by host (attributes_of (walk n path))
unfolding walk
walk-marked host (node a m cs) [] = refl
walk-marked host (node a m cs) (k ∷ path) = elim (Option-cases (lookup k cs)) [
  | inl missing ↦ rw (lookup-set_host_children host k cs, missing, walk) refl
  | inr (child, found) ↦
      rw (lookup-set_host_children host k cs, found, walk) (walk-marked host child path)
]

-- What stands at a path below the root of a merged tree: what one tree has, where it has the first name of
-- the path, and otherwise what the other has, with the new owner.
pub walk-merged :
    (host : ℕ) (master slave merged : TreeNode) (k : Bytes) (path : List Bytes)
    → lookup k (children merged)
      ≡ or_else (lookup k (children master)) (lookup k (set_host_children host (children slave)))
    → attributes_of (walk merged (k ∷ path)) ≡ (
        if is_found (lookup k (children master))
        then attributes_of (walk master (k ∷ path))
        else owned_by host (attributes_of (walk slave (k ∷ path))))
unfolding walk or_else
walk-merged host master slave merged k path e = elim (Option-cases (lookup k (children master))) [
  | inr (own, found) ↦ rw (e, found, walk) refl
  | inl missing ↦ elim (Option-cases (lookup k (children slave))) [
    | inl nowhere ↦
        rw (e, missing, lookup-set_host_children host k (children slave), nowhere, walk) refl
    | inr (child, came) ↦
        rw (e, missing, lookup-set_host_children host k (children slave), came, walk)
          (walk-marked host child path)
  ]
]
