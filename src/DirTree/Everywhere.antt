-- ===== src/DirTree/Everywhere.antt =====
-- A property of all nodes below a set of src/dir_tree.h, at every depth.
use group_share_filesystem.Base.{ℕ, ◌≡◌, refl}
use group_share_filesystem.DirTree.Node.{
  TreeNode, node, Children, nil, cons, attributes, set_host_children,
}
use group_share_filesystem.DirTree.NodeSet.Every.{Every}

abbrev pub Everywhere {κ} : (TreeNode → Type κ) → Children → Type κ
Everywhere P nil = Unit
Everywhere P (cons (node a n cs) rest) = P (node a n cs) × Everywhere P cs × Everywhere P rest

-- A node and all below it.
abbrev pub Throughout {κ} : (TreeNode → Type κ) → TreeNode → Type κ
Throughout P (node a n cs) = P (node a n cs) × Everywhere P cs

module _ {κ} (P : TreeNode → Type κ) where
  pub Everywhere-Every : (s : Children) → Everywhere P s → Every (Throughout P) s
  Everywhere-Every nil h = tt
  Everywhere-Every (cons (node a n cs) rest) h = ((h.0, h.1), Everywhere-Every rest h.2)

  pub Every-Everywhere : (s : Children) → Every (Throughout P) s → Everywhere P s
  Every-Everywhere nil h = tt
  Every-Everywhere (cons (node a n cs) rest) h = (h.0.0, h.0.1, Every-Everywhere rest h.1)

  -- What holds of all nodes of a host holds everywhere in a tree that is marked with it.
  pub set_host_children-Everywhere :
      (host : ℕ)
      → ((n : TreeNode) → (attributes n).host_id ≡ host → P n)
      → (s : Children) → Everywhere P (set_host_children host s)
  unfolding set_host_children
  set_host_children-Everywhere host f nil = tt
  set_host_children-Everywhere host f (cons (node a n cs) rest) =
      (f _ refl, set_host_children-Everywhere host f cs, set_host_children-Everywhere host f rest)

pub Everywhere-map {κ μ} :
    (P : TreeNode → Type κ) (Q : TreeNode → Type μ)
    → ((n : TreeNode) → P n → Q n)
    → (s : Children) → Everywhere P s
    → Everywhere Q s
Everywhere-map P Q f nil h = tt
Everywhere-map P Q f (cons (node a n cs) rest) h =
    (f _ h.0, Everywhere-map P Q f cs h.1, Everywhere-map P Q f rest h.2)
