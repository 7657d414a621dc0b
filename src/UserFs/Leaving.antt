-- ===== src/UserFs/Leaving.antt =====
-- A slave whose connection fails or breaks: `disconnect` of src/user_fs.cc.
use group_share_filesystem.Base.{
  ℕ, suc, ◌∙◌, Bool, Bool-cases, inl, inr, ◌≡◌, refl, ap, not, true, false, some, ok, arith,
}
use group_share_filesystem.Archive.{Archive}
use group_share_filesystem.DirTree.Node.{TreeNode, node, Children, nil, cons, children, attributes}
use group_share_filesystem.DirTree.NodeSet.{erase_if}
use group_share_filesystem.DirTree.NodeSet.Every.{Every-map, erase_if-fails}
use group_share_filesystem.DirTree.Merging.{rooted, top_level, top_level-with_children, AllOf}
use group_share_filesystem.DirTree.{DirTree, with_children, belongs_to, remove_not_of}
use group_share_filesystem.UserFs.Start.{wait_for_master}
use group_share_filesystem.UserFs.{UserFs, disconnect_from_master}

-- A node's tree with its own elements alone.
abbrev pub own_tree : ℕ → TreeNode → DirTree
own_tree id r = with_children r (erase_if (λ n. not (belongs_to id n)) (children r))

pub remove_not_of-rooted :
    (id : ℕ) (r : TreeNode) (t : DirTree) → t ≡ rooted r → remove_not_of id t ≡ ok (own_tree id r)
unfolding remove_not_of
remove_not_of-rooted id r t e = ap (remove_not_of id) e

belongs : (id : ℕ) (n : TreeNode) → not (belongs_to id n) ≡ false → (attributes n).host_id ≡ id
belongs id n e = ground (arith, e)

-- When the connection of a slave fails while its main thread waits, the slave keeps the files that have
-- its own id and no others, and the main thread goes on.
disconnect_from_master-wait_for_master :
    (archive : Archive) (fs : UserFs) (r : TreeNode)
    → fs.dir_tree ≡ rooted r
    → fs.main_thread_is_waiting ≡ true
    → (after : UserFs) × (woken : UserFs) × (disconnect_from_master archive fs ≡ ok after)
      × (wait_for_master after ≡ some woken)
      × AllOf fs.host_id (top_level after.dir_tree)
      × (after.main_thread_is_waiting ≡ false)
unfolding disconnect_from_master wait_for_master
disconnect_from_master-wait_for_master archive fs r has_root waits =
    let own = own_tree fs.host_id r in
    (
      record fs {
        dir_tree = own;
        main_thread_is_waiting = false;
        slave_wait_sem = suc fs.slave_wait_sem;
      },
      record fs { dir_tree = own; main_thread_is_waiting = false },
      rw (remove_not_of-rooted fs.host_id r fs.dir_tree has_root, waits) refl,
      refl,
      rw (top_level-with_children r (erase_if (λ n. not (belongs_to fs.host_id n)) (children r))) (
          Every-map _ _ (belongs fs.host_id) _
            (erase_if-fails (λ n. not (belongs_to fs.host_id n)) (children r))),
      refl,
    )

erase_if-erase_if :
    (test : TreeNode → Bool) (s : Children) → erase_if test (erase_if test s) ≡ erase_if test s
unfolding erase_if
erase_if-erase_if test nil = refl
erase_if-erase_if test (cons n rest) = elim (Bool-cases (test n)) [
  | inl gone ↦ rw (gone, erase_if) (erase_if-erase_if test rest)
  | inr kept ↦ rw (kept, erase_if, kept) (ap (cons n) (erase_if-erase_if test rest))
]

-- On a slave with a root `disconnect` succeeds and keeps the slave's own files alone, and a second call
-- changes nothing: the main thread is not woken twice.
pub disconnect_from_master-disconnect_from_master :
    (archive : Archive) (fs : UserFs) (r : TreeNode)
    → fs.dir_tree ≡ rooted r
    → (after : UserFs) × (disconnect_from_master archive fs ≡ ok after)
      × (disconnect_from_master archive after ≡ ok after)
      × AllOf fs.host_id (top_level after.dir_tree)
unfolding disconnect_from_master
disconnect_from_master-disconnect_from_master archive fs (node a n cs) has_root =
    let test : TreeNode → Bool = λ m. not (belongs_to fs.host_id m) in
    let own : DirTree = rooted (node a n (erase_if test cs)) in
    let first = remove_not_of-rooted fs.host_id (node a n cs) fs.dir_tree has_root in
    let again : remove_not_of fs.host_id own ≡ ok own =
      remove_not_of-rooted fs.host_id (node a n (erase_if test cs)) own refl
      ∙ ap (λ s. ok (rooted (node a n s))) (erase_if-erase_if test cs) in
    let files : AllOf fs.host_id (erase_if test cs) =
      Every-map _ _ (belongs fs.host_id) _ (erase_if-fails test cs) in
    elim (Bool-cases fs.main_thread_is_waiting) [
      | inl waits ↦ (
        record fs {
          dir_tree = own;
          main_thread_is_waiting = false;
          slave_wait_sem = suc fs.slave_wait_sem;
        },
        rw (first, waits) refl,
        rw again refl,
        files,
      )
      | inr runs ↦
          (record fs { dir_tree = own }, rw (first, runs) refl, rw (again, runs) refl, files)
    ]
