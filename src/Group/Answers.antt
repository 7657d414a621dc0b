-- ===== src/Group/Answers.antt =====
-- What the nodes of a group answer to the calls of src/fuse_interface.cc.
use group_share_filesystem.Base.{ℕ, ◌≡◌, ◌≢◌, Bytes, List, ◌∷◌, ◌++◌, ok}
use group_share_filesystem.Archive.{Archive, IsLossless}
use group_share_filesystem.DirTree.Finding.{ArePlain}
use group_share_filesystem.DirTree.{slash}
use group_share_filesystem.FuseInterface.{getattr, readdir, open_file}
use group_share_filesystem.FuseInterface.Agreement.{calls-top_level}
use group_share_filesystem.UserFs.{UserFs}
use group_share_filesystem.Group.{Peer, Group, Reach, read_all}
use group_share_filesystem.Group.Consistency.{Reach-IsGroup, Reach-IsCurrent}

-- If the archives lose nothing: in every group that can be reached, a slave that has an id can read all
-- messages that are on their way to it, and answers then as the master does when it is asked for the
-- attributes, the entries or the opening of a path below the root with no element `.` or `..`.
pub Reach-answers :
    (archive : Archive) (lossless : IsLossless archive) {g : Group} (before behind : List Peer)
    (p : Peer) (element : Bytes) (rest : List Bytes) (flags : ℕ)
    → Reach archive g
    → g.peers ≡ before ++ p ∷ behind
    → p.slave_id ≢ 0
    → ArePlain (element ∷ rest)
    → (after : UserFs) × (read_all archive p.inbox p.node ≡ ok after)
      × (getattr after (slash ∷ element ∷ rest) ≡ getattr g.master (slash ∷ element ∷ rest))
      × (readdir after (slash ∷ element ∷ rest) ≡ readdir g.master (slash ∷ element ∷ rest))
      × (open_file after (slash ∷ element ∷ rest) flags
          ≡ open_file g.master (slash ∷ element ∷ rest) flags)
Reach-answers archive lossless {g} before behind p element rest flags reach split known plain =
    let (after, read, (root, same)) =
      Reach-IsCurrent archive lossless before behind p reach split known in
    let serves = (Reach-IsGroup archive lossless reach).serves in
    let (attributes, entries, opening) =
      calls-top_level after g.master root.0 serves.root element rest root.1 serves.has_root
        same.same_files plain flags in
    (after, read, attributes, entries, opening)
