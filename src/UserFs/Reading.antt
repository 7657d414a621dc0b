-- ===== src/UserFs/Reading.antt =====
-- `UserFS::read` of src/user_fs.cc: which host a file is read from, and by which path. Boost's `/=` on
-- paths, and the bytes that the local file or the SFTP connection gives, are arguments.
use group_share_filesystem.Base.{
  ℕ, ◌==◌, ◌≡◌, ap, sym, ◌∙◌, if◌then◌else◌, Bool, true, false, Bytes, [], ◌∷◌, Option, none, some,
  Outcome, ok, ◌>>=◌, arith,
}
use group_share_filesystem.DirTree.Node.{TreeNode, attributes, children}
use group_share_filesystem.DirTree.NodeSet.{lookup}
use group_share_filesystem.DirTree.NodeSet.Every.{lookup-Every}
use group_share_filesystem.DirTree.Merging.{top_level}
use group_share_filesystem.Hosts.{Host, host_at}
use group_share_filesystem.Hosts.Numbering.{host_at-IsNumbered}
use group_share_filesystem.Ssh.Session.{Attempt}
use group_share_filesystem.Ssh.Manager.{Connections, find_host, insert_host, read as ssh_read}
use group_share_filesystem.UserFs.{UserFs}
use group_share_filesystem.UserFs.Membership.{IsMaster, HasOwnerBelow}

-- What the file systems and the network answer during a read: how the local file is joined to the
-- directory, what reading it gives (`none`: the stream is bad), and the answers for an SSH session.
pub record World : Type 0 where
  pub join_path : Bytes → Bytes → Bytes
  pub local_read : Bytes → ℕ → ℕ → Option ℕ
  pub first : Option ℕ
  pub attempt : Attempt
  pub second : Option ℕ

-- `path.substr(path.front() == '/'? 1: 0)`
unfoldable pub relative : Bytes → Bytes
relative [] = []
relative (c ∷ rest) = if c == b'/' then rest else c ∷ rest

-- A session for the host, if there is none yet; true is an error. `_hosts[node_id]` gives its address.
unfoldable pub ensure_host : ℕ → UserFs → Connections → Outcome (Connections × Bool)
ensure_host node_id fs connections =
    if find_host node_id connections
    then ok (connections, false)
    else (host_at fs.hosts node_id >>= λ host.
        ok (insert_host node_id host.address host.ssh_port connections))

unfoldable pub fetch :
    World → ℕ → Bytes → ℕ → ℕ → UserFs → Connections → Outcome (Connections × Option ℕ)
fetch world node_id path offset size fs connections = do
  host ← host_at fs.hosts node_id
  let remote_path = world.join_path host.working_dir (relative path)
  if node_id == fs.host_id
      then ok (connections, world.local_read remote_path offset size)
      else ssh_read node_id remote_path world.first world.attempt world.second connections

fetch_unless :
    World → ℕ → Bytes → ℕ → ℕ → UserFs → Connections × Bool → Outcome (Connections × Option ℕ)
fetch_unless world node_id path offset size fs (connections, true) = ok (connections, none)
fetch_unless world node_id path offset size fs (connections, false) =
    fetch world node_id path offset size fs connections

-- `none` is a negative value.
unfoldable pub read :
    World → ℕ → Bytes → ℕ → ℕ → UserFs → Connections → Outcome (Connections × Option ℕ)
unfolding relative ensure_host fetch fetch_unless
read world node_id path offset size fs connections = do
  ensured ← ensure_host node_id fs connections
  fetch_unless world node_id path offset size fs ensured

-- On a master that is ready to serve, the owner of a file of the top level stands in the vector of
-- hosts at its id, and has that id.
pub host_at-owner :
    (fs : UserFs) (k : Bytes) (n : TreeNode)
    → IsMaster fs
    → lookup k (top_level fs.dir_tree) ≡ some n
    → (host : Host) × (host_at fs.hosts (attributes n).host_id ≡ ok host)
      × (host.id ≡ (attributes n).host_id)
host_at-owner fs k n m found =
    let owned =
      lookup-Every (HasOwnerBelow fs.max_host_id) k (children m.root) n m.owned
        (ap (λ t. lookup k (top_level t)) (sym m.has_root) ∙ found) in
    host_at-IsNumbered fs.hosts (attributes n).host_id m.numbered owned.0
      (omega (arith, owned.1, m.counted))
