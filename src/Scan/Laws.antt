-- ===== src/Scan/Laws.antt =====
-- What the walk over the working directory leaves behind.
use group_share_filesystem.Base.{
  ℕ, Bytes, ◌≡◌, refl, ◌⊎◌, inl, inr, Bool-cases, ok, ◌>>=◌, Holds, Holds-bind, Holds-ok, arith,
  if◌then◌else◌,
}
use group_share_filesystem.DirTree.Names.{name_eq, name_cases}
use group_share_filesystem.DirTree.Node.{
  Attributes, TreeNode, node, Children, nil, cons, name, children, FileType,
}
use group_share_filesystem.DirTree.NodeSet.{insert, lookup, IsAbove, IsSorted}
use group_share_filesystem.DirTree.NodeSet.Sorted.{IsAbove-trans, insert-IsAbove}
use group_share_filesystem.DirTree.NodeSet.Ordered.{AreOrdered}
use group_share_filesystem.DirTree.Merging.{AllOf}
use group_share_filesystem.Scan.{
  Listing, finished, broken_off, entry, Stat, traverse_directory, children_of, set_children_of,
  dir_node, file_node, treenode_type, kind_of, Kind, skipped, is_dir, is_file,
}

-- At every depth the nodes belong to the host, and stand in the order of their names.
abbrev pub IsShare : ℕ → Children → Type 0
IsShare host nil = Unit
IsShare host (cons (node a n cs) rest) =
    (a.host_id ≡ host) × IsAbove n rest × IsShare host cs × IsShare host rest

pub IsShare-IsSorted : (host : ℕ) (s : Children) → IsShare host s → IsSorted s
IsShare-IsSorted host nil h = tt
IsShare-IsSorted host (cons (node a n cs) rest) h = (h.1, IsShare-IsSorted host rest h.3)

pub IsShare-AllOf : (host : ℕ) (s : Children) → IsShare host s → AllOf host s
IsShare-AllOf host nil h = tt
IsShare-AllOf host (cons (node a n cs) rest) h = (h.0, IsShare-AllOf host rest h.3)

pub IsShare-AreOrdered : (host : ℕ) (s : Children) → IsShare host s → AreOrdered s
IsShare-AreOrdered host nil h = tt
IsShare-AreOrdered host (cons (node a n cs) rest) h =
    (h.1, IsShare-AreOrdered host cs h.2, IsShare-AreOrdered host rest h.3)

insert-IsShare :
    (host : ℕ) (n : TreeNode) (s : Children)
    → IsShare host (cons n nil)
    → IsShare host s
    → IsShare host (insert n s)
unfolding insert
insert-IsShare host (node a k cs) nil f h = f
insert-IsShare host (node a k cs) (cons (node b j ds) rest) f h = elim (name_cases k j) [
  | inl (lt, _) ↦ rw lt (f.0, (lt, IsAbove-trans k j rest lt h.1), f.2, h)
  | inr (inl (ge, gt)) ↦
      rw (ge, gt)
        (
          h.0,
          insert-IsAbove j (node a k cs) rest gt h.1,
          h.2,
          insert-IsShare host (node a k cs) rest f h.3,
        )
  | inr (inr (ge, le, _)) ↦ rw (ge, le) h
]

children_of-cons :
    (k : Bytes) (n : TreeNode) (rest : Children)
    → children_of k (cons n rest) ≡ (if name_eq (name n) k then children n else children_of k rest)
unfolding children_of lookup
children_of-cons k n rest = ground arith

children_of-IsShare :
    (host : ℕ) (k : Bytes) (s : Children) → IsShare host s → IsShare host (children_of k s)
unfolding children_of lookup
children_of-IsShare host k nil h = tt
children_of-IsShare host k (cons (node a n cs) rest) h = elim (Bool-cases (name_eq n k)) [
  | inl e ↦ rw (children_of-cons k (node a n cs) rest, e) h.2
  | inr e ↦ rw (children_of-cons k (node a n cs) rest, e) (children_of-IsShare host k rest h.3)
]

set_children_of-IsAbove :
    (j k : Bytes) (cs s : Children) → IsAbove j s → IsAbove j (set_children_of k cs s)
unfolding set_children_of
set_children_of-IsAbove j k cs nil h = tt
set_children_of-IsAbove j k cs (cons (node a n ds) rest) h = elim (Bool-cases (name_eq n k)) [
  | inl e ↦ rw e h
  | inr e ↦ rw e (h.0, set_children_of-IsAbove j k cs rest h.1)
]

set_children_of-IsShare :
    (host : ℕ) (k : Bytes) (cs s : Children)
    → IsShare host cs
    → IsShare host s
    → IsShare host (set_children_of k cs s)
unfolding set_children_of
set_children_of-IsShare host k cs nil f h = tt
set_children_of-IsShare host k cs (cons (node a n ds) rest) f h = elim (Bool-cases (name_eq n k)) [
  | inl e ↦ rw e (h.0, h.1, f, h.3)
  | inr e ↦ rw e (
    h.0,
    set_children_of-IsAbove n k cs rest h.1,
    h.2,
    set_children_of-IsShare host k cs rest f h.3,
  )
]

-- A node that the walk makes: of the host, of that name, with no children yet.
abbrev IsFresh : ℕ → Bytes → TreeNode → Type 0
IsFresh host k (node a n cs) = (a.host_id ≡ host) × (n ≡ k) × (cs ≡ nil)

IsFresh-IsShare :
    (host : ℕ) (k : Bytes) (n : TreeNode) → IsFresh host k n → IsShare host (cons n nil)
IsFresh-IsShare host k (node a n nil) f = (f.0, tt, tt, tt)
IsFresh-IsShare host k (node a n (cons m cs)) f = cc

dir_node-IsFresh :
    (memory : Attributes) (host : ℕ) (stat : Stat) (k : Bytes)
    → Holds (IsFresh host k) (dir_node memory host stat k)
unfolding dir_node
dir_node-IsFresh memory host stat k = ground arith

file_node-IsFresh :
    (memory : Attributes) (host : ℕ) (stat : Stat) (t : FileType) (k : Bytes)
    → Holds (IsFresh host k) (file_node memory host stat t k)
unfolding file_node
file_node-IsFresh memory host stat t k = ground arith

Kind-cases : (k : Kind) → (k ≡ skipped) ⊎ ((k ≡ is_dir) ⊎ ((t : FileType) × (k ≡ is_file t)))
Kind-cases skipped = inl refl
Kind-cases is_dir = inr (inl refl)
Kind-cases (is_file t) = inr (inr (t, refl))

-- The three cases of an entry, by what its status stands for.
module _ (memory : Attributes) (host : ℕ) (stat : Stat) (k : Bytes) (below rest : Listing)
    (s : Children) where
  traverse_skipped :
      kind_of (treenode_type stat.status) ≡ skipped
      → traverse_directory memory host (entry stat k below rest) s
        ≡ traverse_directory memory host rest s
  unfolding traverse_directory
  traverse_skipped e = rw (e, traverse_directory)

  traverse_is_dir :
      kind_of (treenode_type stat.status) ≡ is_dir
      → traverse_directory memory host (entry stat k below rest) s ≡ (
          dir_node memory host stat k >>= λ n.
          traverse_directory memory host below (children_of k (insert n s)) >>= λ cs.
          traverse_directory memory host rest (set_children_of k cs (insert n s)))
  unfolding traverse_directory
  traverse_is_dir e = rw (e, traverse_directory)

  traverse_is_file :
      {t : FileType}
      → kind_of (treenode_type stat.status) ≡ is_file t
      → traverse_directory memory host (entry stat k below rest) s
        ≡ (file_node memory host stat t k >>= λ n. traverse_directory memory host rest (insert n s))
  unfolding traverse_directory
  traverse_is_file e = rw (e, traverse_directory)

traverse-IsShare :
    (memory : Attributes) (host : ℕ) (l : Listing) (s : Children)
    → IsShare host s
    → Holds (IsShare host) (traverse_directory memory host l s)
unfolding traverse_directory
traverse-IsShare memory host finished s h = h
traverse-IsShare memory host broken_off s h = tt
traverse-IsShare memory host (entry stat k below rest) s h =
    let added : (n : TreeNode) → IsFresh host k n → IsShare host (insert n s) =
      λ n f. insert-IsShare host n s (IsFresh-IsShare host k n f) h in
    elim (Kind-cases (kind_of (treenode_type stat.status))) [
      | inl e ↦
          rw (traverse_skipped memory host stat k below rest s e)
            (traverse-IsShare memory host rest s h)
      | inr (inl e) ↦ rw (traverse_is_dir memory host stat k below rest s e) (
          Holds-bind (IsFresh host k) (IsShare host) (dir_node memory host stat k) _
            (dir_node-IsFresh memory host stat k)
            λ n f.
              Holds-bind (IsShare host) (IsShare host) _ _
                (traverse-IsShare memory host below (children_of k (insert n s))
                  (children_of-IsShare host k (insert n s) (added n f)))
                λ cs g.
                  traverse-IsShare memory host rest (set_children_of k cs (insert n s))
                    (set_children_of-IsShare host k cs (insert n s) g (added n f)))
      | inr (inr (t, e)) ↦ rw (traverse_is_file memory host stat k below rest s e) (
          Holds-bind (IsFresh host k) (IsShare host) (file_node memory host stat t k) _
            (file_node-IsFresh memory host stat t k)
            λ n f. traverse-IsShare memory host rest (insert n s) (added n f))
    ]

-- A scan that ends leaves a tree in which, at every depth, the nodes belong to the scanning host and
-- stand in strictly ascending order of their names.
pub traverse_directory-IsShare :
    (memory : Attributes) (host : ℕ) (l : Listing) (s : Children)
    → traverse_directory memory host l nil ≡ ok s
    → IsShare host s
traverse_directory-IsShare memory host l s e =
    Holds-ok (IsShare host) (traverse_directory memory host l nil)
      (traverse-IsShare memory host l nil tt) e
