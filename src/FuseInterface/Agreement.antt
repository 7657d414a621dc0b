-- ===== src/FuseInterface/Agreement.antt =====
-- The calls of src/fuse_interface.cc on two nodes that show the same files.
use group_share_filesystem.Base.{ℕ, ◌≡◌, ap, sym, ◌∙◌, Bytes, List, ◌∷◌, ok, ◌>>=◌}
use group_share_filesystem.DirTree.Finding.{ArePlain, walk-children}
use group_share_filesystem.DirTree.Merging.{rooted, top_level}
use group_share_filesystem.DirTree.Node.{TreeNode, children}
use group_share_filesystem.DirTree.{slash}
use group_share_filesystem.FuseInterface.{
  getattr, readdir, open_file, stat_of, entries_of, open_node,
}
use group_share_filesystem.FuseInterface.Laws.{found_by}
use group_share_filesystem.UserFs.{UserFs, find}

module _ (fs gs : UserFs) (r s : TreeNode) (element : Bytes) (rest : List Bytes)
    (fs_root : fs.dir_tree ≡ rooted r) (gs_root : gs.dir_tree ≡ rooted s)
    (same : top_level fs.dir_tree ≡ top_level gs.dir_tree) (plain : ArePlain (element ∷ rest)) where
  find-top_level : find fs (slash ∷ element ∷ rest) ≡ find gs (slash ∷ element ∷ rest)
  find-top_level =
      let same_children : children r ≡ children s =
        sym (ap top_level fs_root) ∙ same ∙ ap top_level gs_root in
      found_by fs r fs_root (element ∷ rest) plain
      ∙ ap ok (walk-children r s element rest same_children)
      ∙ sym (found_by gs s gs_root (element ∷ rest) plain)

  -- Every call that looks a path up gives the same on both.
  pub calls-top_level :
      (flags : ℕ)
      → (getattr fs (slash ∷ element ∷ rest) ≡ getattr gs (slash ∷ element ∷ rest))
        × (readdir fs (slash ∷ element ∷ rest) ≡ readdir gs (slash ∷ element ∷ rest))
        × (open_file fs (slash ∷ element ∷ rest) flags
            ≡ open_file gs (slash ∷ element ∷ rest) flags)
  unfolding getattr readdir open_file
  calls-top_level flags = (
    ap (λ node. node >>= λ n. ok (stat_of n)) find-top_level,
    ap (λ node. node >>= λ n. ok (entries_of n)) find-top_level,
    ap (λ node. node >>= λ n. ok (open_node flags n)) find-top_level,
  )
