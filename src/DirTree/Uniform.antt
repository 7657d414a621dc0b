-- ===== src/DirTree/Uniform.antt =====
-- Nodes of src/dir_tree.h whose descendants belong to the host of the node itself.
use mathlib.Core.Option.{some-injective}
use group_share_filesystem.Base.{
  ℕ, ◌≡◌, refl, sym, ap, ◌∙◌, subst, Bytes, List, [], ◌∷◌, some, Option-cases, inl, inr,
}
use group_share_filesystem.DirTree.Finding.{walk}
use group_share_filesystem.DirTree.Node.{
  TreeNode, node, Children, nil, cons, attributes, children, set_host_children,
}
use group_share_filesystem.DirTree.NodeSet.{lookup}
use group_share_filesystem.DirTree.NodeSet.Every.{Every, lookup-Every}

-- At every depth the nodes belong to the host.
abbrev pub AllBelow : ℕ → Children → Type 0
AllBelow host nil = Unit
AllBelow host (cons (node a n cs) rest) = (a.host_id ≡ host) × AllBelow host cs × AllBelow host rest

abbrev pub IsUniform : TreeNode → Type 0
IsUniform (node a n cs) = AllBelow a.host_id cs

set_host_children-AllBelow : (host : ℕ) (s : Children) → AllBelow host (set_host_children host s)
unfolding set_host_children
set_host_children-AllBelow host nil = tt
set_host_children-AllBelow host (cons (node a n cs) rest) =
    (refl, set_host_children-AllBelow host cs, set_host_children-AllBelow host rest)

-- A tree that is marked with an id is so at every depth.
pub AllBelow-IsUniform : (host : ℕ) (s : Children) → AllBelow host s → Every IsUniform s
AllBelow-IsUniform host nil h = tt
AllBelow-IsUniform host (cons (node a n cs) rest) h =
    (subst (λ id. AllBelow id cs) (sym h.0) h.1, AllBelow-IsUniform host rest h.2)

pub set_host_children-IsUniform :
    (host : ℕ) (s : Children) → Every IsUniform (set_host_children host s)
set_host_children-IsUniform host s =
    AllBelow-IsUniform host (set_host_children host s) (set_host_children-AllBelow host s)

abbrev Belongs : ℕ → TreeNode → Type 0
Belongs host (node a n cs) = (a.host_id ≡ host) × AllBelow host cs

AllBelow-Belongs : (host : ℕ) (s : Children) → AllBelow host s → Every (Belongs host) s
AllBelow-Belongs host nil h = tt
AllBelow-Belongs host (cons (node a n cs) rest) h = ((h.0, h.1), AllBelow-Belongs host rest h.2)

walk-Belongs :
    (host : ℕ) (t n : TreeNode) (path : List Bytes)
    → Belongs host t
    → walk t path ≡ some n
    → (attributes n).host_id ≡ host
unfolding walk
walk-Belongs host (node a m cs) n [] h e =
    ap (λ x. (attributes x).host_id) (sym (some-injective (node a m cs) n e)) ∙ h.0
walk-Belongs host (node a m cs) n (k ∷ path) h e = elim (Option-cases (lookup k cs)) [
  | inl missing ↦ cc (rw (missing, walk) at e)
  | inr (child, found) ↦
      walk-Belongs host child n path
        (lookup-Every (Belongs host) k cs child (AllBelow-Belongs host cs h.1) found)
        (rw (found, walk) at e)
]

-- What is found below a node belongs to the node's host.
pub walk-IsUniform :
    (t n : TreeNode) (path : List Bytes)
    → IsUniform t
    → walk t path ≡ some n
    → (attributes n).host_id ≡ (attributes t).host_id
walk-IsUniform (node a m cs) n path h e = walk-Belongs a.host_id (node a m cs) n path (refl, h) e

-- The first step of a path.
pub walk-first :
    (r n : TreeNode) (k : Bytes) (path : List Bytes)
    → walk r (k ∷ path) ≡ some n
    → (t : TreeNode) × (lookup k (children r) ≡ some t) × (walk t path ≡ some n)
unfolding walk
walk-first r n k path e = elim (Option-cases (lookup k (children r))) [
  | inl missing ↦ cc (rw (missing, walk) at e)
  | inr (t, found) ↦ (t, found, rw (found, walk) at e)
]
