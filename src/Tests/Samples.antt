-- ===== src/Tests/Samples.antt =====
-- The data of the tests: a master with one file, a slave with another, and their hosts.
use group_share_filesystem.Base.{some, ℕ, refl, Bytes, [], ◌∷◌, true, false, arith}
use group_share_filesystem.DirTree.Node.{
  FileType, regular, directory, Attributes, TreeNode, node, Children, nil, cons,
}
use group_share_filesystem.DirTree.Names.{name_ltb}
use group_share_filesystem.DirTree.Merging.{rooted}
use group_share_filesystem.Hosts.{Host}
use group_share_filesystem.Scan.{Stat, regular_file, finished, entry}
use group_share_filesystem.UserFs.{UserFs}
use group_share_filesystem.UserFs.Start.{Surroundings}
use group_share_filesystem.UserFs.Membership.{IsMaster}

abbrev pub attributes_of : FileType → ℕ → Attributes
attributes_of type host = record {
  type = type;
  size = 5;
  uid = 0;
  gid = 0;
  atime = 0;
  mtime = 9;
  ctime = 0;
  host_id = host;
  num_links = 1;
}

-- A name of one byte.
abbrev pub file : ℕ → Bytes → TreeNode
file host name = node (attributes_of regular host) name nil

abbrev pub root_with : ℕ → Children → TreeNode
root_with host s = node (attributes_of directory host) [] s

-- A directory of the master with one file, and a file.
abbrev pub master_root : TreeNode
master_root = root_with 1 (
    cons (node (attributes_of directory 1) (b'a' ∷ []) (cons (file 1 (b'c' ∷ [])) nil))
      (cons (file 1 (b'b' ∷ [])) nil))

abbrev pub slave_root : TreeNode
slave_root = root_with 0 (cons (file 0 (b'd' ∷ [])) nil)

-- A tree that has a name in common with the master.
abbrev pub other_root : TreeNode
other_root = root_with 0 (cons (file 0 (b'b' ∷ [])) (cons (file 0 (b'd' ∷ [])) nil))

abbrev pub host_of : ℕ → Host
host_of id = record {
  id = id;
  address = b'h' ∷ [];
  working_dir = b'/' ∷ [];
  tcp_port = 80;
  ssh_port = 22;
}

abbrev pub master : UserFs
master = record {
  main_thread_is_waiting = false;
  slave_wait_sem = 0;
  host_id = 1;
  working_dir = b'/' ∷ [];
  max_host_id = 2;
  dir_tree = rooted master_root;
  hosts = record { hosts = host_of 1 ∷ host_of 1 ∷ [] };
}

abbrev pub slave : UserFs
slave = record {
  main_thread_is_waiting = true;
  slave_wait_sem = 0;
  host_id = 0;
  working_dir = b'/' ∷ [];
  max_host_id = 2;
  dir_tree = rooted slave_root;
  hosts = record { hosts = host_of 0 ∷ [] };
}

pub master-IsMaster : IsMaster master
unfolding name_ltb
master-IsMaster = record {
  root = master_root;
  has_root = refl;
  sorted = ((refl, tt), (tt, tt));
  owned = ((omega arith, omega arith), ((omega arith, omega arith), tt));
  self = refl;
  numbered = (refl, (refl, tt));
  started = omega arith;
  counted = refl;
}

abbrev stat_of_file : Stat
stat_of_file = record {
  status = regular_file;
  file_size = some 5;
  last_write_time = some 9;
  hard_link_count = some 1;
}

-- A directory with one file `d`.
abbrev pub os : Surroundings
os = record {
  memory = attributes_of directory 0;
  absolute_dir = b'/' ∷ b's' ∷ [];
  now = 9;
  root_links = some 2;
  listing = entry stat_of_file (b'd' ∷ []) finished finished;
}

abbrev pub address : Bytes
address = b'h' ∷ []

abbrev pub shared : ℕ → Children
shared host = cons (file host (b'd' ∷ [])) nil
