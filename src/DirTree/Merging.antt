-- ===== src/DirTree/Merging.antt =====
-- `merge`, `removeOf`, `removeNotOf` and `setHostID` of src/dir_tree.h and src/dir_tree.cc together:
-- what joins the tree with one host can be taken out of it by that host's id.
use mathlib.Core.Option.{or_else}
use group_share_filesystem.Base.{
  ℕ, ◌≢◌, ◌≡◌, ◌∙◌, sym, ap, refl, Bool, true, Bytes, none, some, ok, ◌>>=◌, arith, ok-injective,
}
use group_share_filesystem.DirTree.Node.{
  TreeNode, node, Children, nil, cons, attributes, children, set_host_children,
}
use group_share_filesystem.DirTree.NodeSet.{insert, insert_all, lookup, erase_if, IsSorted}
use group_share_filesystem.DirTree.NodeSet.Every.{Every}
use group_share_filesystem.DirTree.NodeSet.Sorted.{insert_all-IsSorted}
use group_share_filesystem.DirTree.NodeSet.Lookup.{lookup-insert_all, lookup_ext}
use group_share_filesystem.DirTree.{
  DirTree, with_children, merge, merge_from, set_tree_host, remove_of, belongs_to,
}

-- A tree with a root.
abbrev pub rooted : TreeNode → DirTree
rooted r = record { root = some r }

-- The children of the root.
abbrev pub top_level : DirTree → Children
top_level tree = elim tree.root [ none ↦ nil | some r ↦ children r ]

pub top_level-with_children : (r : TreeNode) (s : Children) → top_level (with_children r s) ≡ s
top_level-with_children (node a n cs) s = refl

-- No element belongs to the host; all elements do.
abbrev pub NoneOf : ℕ → Children → Type 0
NoneOf host = Every (λ n. (attributes n).host_id ≢ host)

abbrev pub AllOf : ℕ → Children → Type 0
AllOf host = Every (λ n. (attributes n).host_id ≡ host)

pub set_host_children-AllOf : (host : ℕ) (s : Children) → AllOf host (set_host_children host s)
unfolding set_host_children
set_host_children-AllOf host nil = tt
set_host_children-AllOf host (cons (node a n cs) rest) = (refl, set_host_children-AllOf host rest)

-- `merge` is the insertion of all elements.
pub merge_lem :
    (r o : TreeNode)
    → merge (rooted r) (rooted o) ≡ ok (with_children r (insert_all (children o) (children r)))
unfolding merge insert_all
merge_lem r o = steps (children o) r
  where
    steps :
        (s : Children) (r : TreeNode)
        → merge_from s (rooted r) ≡ ok (with_children r (insert_all s (children r)))
    steps nil (node a n cs) = refl
    steps (cons m rest) (node a n cs) = steps rest (node a n (insert m cs))

erase_if-insert :
    (test : TreeNode → Bool) (n : TreeNode) (s : Children)
    → test n ≡ true
    → erase_if test (insert n s) ≡ erase_if test s
unfolding erase_if insert
erase_if-insert test n nil e = rw e
erase_if-insert test n (cons m rest) e = ground (arith, erase_if-insert test n rest e)

pub erase_if-insert_all :
    (host : ℕ) (t s : Children)
    → AllOf host t
    → erase_if (belongs_to host) (insert_all t s) ≡ erase_if (belongs_to host) s
unfolding insert_all
erase_if-insert_all host nil s a = refl
erase_if-insert_all host (cons n rest) s a =
    erase_if-insert_all host rest (insert n s) a.1
    ∙ erase_if-insert (belongs_to host) n s (ground arith)

pub erase_if-NoneOf : (host : ℕ) (s : Children) → NoneOf host s → erase_if (belongs_to host) s ≡ s
unfolding erase_if
erase_if-NoneOf host nil a = refl
erase_if-NoneOf host (cons n rest) a = ground (arith, erase_if-NoneOf host rest a.1)

with_children_self : (r : TreeNode) → with_children r (children r) ≡ rooted r
with_children_self (node a n cs) = refl

-- A slave joins and leaves: its tree is marked with its id, merged, and later all elements of that id
-- are removed. If the id is new to the tree, this gives back the tree that the master had.
remove_of-merge :
    (id : ℕ) (master slave : TreeNode)
    → NoneOf id (children master)
    → (do
      marked ← set_tree_host id (rooted slave)
      merged ← merge (rooted master) marked
      remove_of id merged)
      ≡ ok (rooted master)
unfolding set_tree_host remove_of
remove_of-merge id (node a n cs) (node b m ds) fresh =
    rw (merge_lem (node a n cs) (node b m (set_host_children id ds))) (
      rw (
        erase_if-insert_all id (set_host_children id ds) cs (set_host_children-AllOf id ds),
        erase_if-NoneOf id cs fresh,
      ))

top_level-merge :
    (r o : TreeNode) (t : DirTree)
    → merge (rooted r) (rooted o) ≡ ok t
    → top_level t ≡ insert_all (children o) (children r)
top_level-merge (node a n cs) o t e =
    ap top_level (ok-injective (sym e ∙ merge_lem (node a n cs) o))

-- If the children of the first tree are in order, the merged tree has under each name what the
-- first tree had, and otherwise what the second had.
lookup-merge :
    (k : Bytes) (r o : TreeNode) (t : DirTree)
    → IsSorted (children r)
    → merge (rooted r) (rooted o) ≡ ok t
    → lookup k (top_level t) ≡ or_else (lookup k (children r)) (lookup k (children o))
lookup-merge k r o t sorted e =
    ap (lookup k) (top_level-merge r o t e) ∙ lookup-insert_all k (children o) (children r) sorted

-- If no name is in both trees, and the children of both are in order, it does not matter for the
-- children of the result which of the two is merged into the other.
merge_comm :
    (r o : TreeNode) (t u : DirTree)
    → IsSorted (children r)
    → IsSorted (children o)
    → ((k : Bytes) → lookup k (children r) ≢ none → lookup k (children o) ≡ none)
    → merge (rooted r) (rooted o) ≡ ok t
    → merge (rooted o) (rooted r) ≡ ok u
    → top_level t ≡ top_level u
unfolding or_else
merge_comm r o t u sr so disjoint e f =
    rw (top_level-merge r o t e, top_level-merge o r u f)
      (lookup_ext _ _ (insert_all-IsSorted (children o) (children r) sr)
        (insert_all-IsSorted (children r) (children o) so)
        λ k.
          lookup-insert_all k (children o) (children r) sr
          ∙ ground (arith, disjoint k)
          ∙ sym (lookup-insert_all k (children r) (children o) so))
