-- ===== src/FuseInterface/Laws.antt =====
-- The calls of src/fuse_interface.cc against the tree.
use group_share_filesystem.Base.{
  ℕ, ◌≤◌, ◌≡◌, refl, ap, sym, ◌∙◌, ◌++◌, ok-injective, Bytes, List, [], ◌∷◌, Option, some, ok,
  ◌>>=◌, arith,
}
use group_share_filesystem.DirTree.Node.{
  regular, directory, TreeNode, Children, nil, cons, attributes, children,
}
use group_share_filesystem.DirTree.Finding.{ArePlain, walk, walk-snoc, find-walk}
use group_share_filesystem.DirTree.Merging.{rooted}
use group_share_filesystem.DirTree.Conflicts.{lists, is_found}
use group_share_filesystem.DirTree.NodeSet.{lookup}
use group_share_filesystem.DirTree.{slash, find as tree_find}
use group_share_filesystem.Ssh.Manager.{Connections}
use group_share_filesystem.UserFs.{UserFs, find}
use group_share_filesystem.UserFs.Reading.{World}
use group_share_filesystem.FuseInterface.{
  read_at, read_typed, read_node, read_from, done, names_of, readdir, read, at,
}

names_of-lookup : (k : Bytes) (s : Children) → lists k (names_of s) ≡ is_found (lookup k s)
unfolding names_of lookup
names_of-lookup k nil = refl
names_of-lookup k (cons n rest) = ground (arith, names_of-lookup k rest)

pub found_by :
    (fs : UserFs) (r : TreeNode)
    → fs.dir_tree ≡ rooted r
    → (path : List Bytes) → ArePlain path
    → find fs (slash ∷ path) ≡ ok (walk r path)
unfolding find
found_by fs r e path p = ap (λ t. tree_find t (slash ∷ path)) e ∙ find-walk r path p

module _ (fs : UserFs) (r : TreeNode) (has_root : fs.dir_tree ≡ rooted r) where
  -- The root, if it is a directory, lists its children.
  pub readdir-root :
      (attributes r).type ≡ directory → readdir fs (slash ∷ []) ≡ ok (done (names_of (children r)))
  unfolding readdir walk
  readdir-root dir = rw (found_by fs r has_root [] tt, dir) refl

  -- A plain name below the root leads to the child of that name.
  pub find-child :
      (k : Bytes) → ArePlain (k ∷ []) → find fs (slash ∷ k ∷ []) ≡ ok (lookup k (children r))
  unfolding walk
  find-child k plain = found_by fs r has_root (k ∷ []) plain ∙ ap ok (walk-snoc r r [] k refl)

module _ (fs : UserFs) (r n : TreeNode) (path : List Bytes) (has_root : fs.dir_tree ≡ rooted r)
    (plain : ArePlain path) (there : find fs (slash ∷ path) ≡ ok (some n)) where
  walked : walk r path ≡ some n
  walked = ok-injective (sym (found_by fs r has_root path plain) ∙ there)

  -- If a node has a root, and a path that starts at the root and has no element `.` or `..` leads to a
  -- directory: of the names other than `.` and `..`, the directory lists exactly those under which
  -- `find` sees a node in it.
  pub readdir-find :
      (attributes n).type ≡ directory
      → (names : List Bytes) × (readdir fs (slash ∷ path) ≡ ok (done names))
        × ((k : Bytes)
            → ArePlain (path ++ k ∷ [])
            → (child : Option TreeNode) × (find fs (slash ∷ (path ++ k ∷ [])) ≡ ok child)
              × (lists k names ≡ is_found child))
  unfolding readdir
  readdir-find dir = (
    names_of (children n),
    rw (there, dir),
    λ k p. (
      lookup k (children n),
      found_by fs r has_root (path ++ k ∷ []) p ∙ ap ok (walk-snoc r n path k walked),
      names_of-lookup k (children n),
    ),
  )

module _ (world : World) (fs : UserFs) (text : Bytes) (elements : List Bytes)
    (connections : Connections) (n : TreeNode) (there : find fs elements ≡ ok (some n))
    (a_file : (attributes n).type ≡ regular) where
  opened :
      (offset size : ℕ)
      → read world fs text elements connections size (at offset)
        ≡ read_at world fs text elements connections size offset (attributes n)
  unfolding read read_node read_typed read_from
  opened offset size =
      ap (λ r. r >>= read_node world fs text elements connections size (at offset)) there
      ∙ ap (λ t. read_typed world fs text elements connections size (at offset) t (attributes n))
          a_file

  -- A read of a regular file that starts at its end or behind it gives no bytes and asks nobody.
  read_past_end :
      (size offset : ℕ)
      → (attributes n).size ≤ offset
      → read world fs text elements connections size (at offset) ≡ ok (connections, done 0)
  unfolding read_at
  read_past_end size offset h = opened offset size ∙ ground (arith, h)
