-- ===== src/UserFs/Start.antt =====
-- The calls that src/gsfs.cc makes of a new UserFS, in src/user_fs.cc: a node becomes the master or a
-- slave, scans its working directory and joins the network.
use group_share_filesystem.Base.{
  ℕ, suc, zero, ◌==◌, if◌then◌else◌, not, Bool, false, Bytes, List, [], ◌∷◌, ◌++◌, Option, none,
  some, Outcome, ok, or_fault, filesystem_error, ◌>>=◌,
}
use group_share_filesystem.Archive.{Archive}
use group_share_filesystem.DirTree.Node.{Attributes, directory, node, nil}
use group_share_filesystem.DirTree.{with_children}
use group_share_filesystem.Hosts.{push, host_at}
use group_share_filesystem.Protocol.{hello_message}
use group_share_filesystem.Scan.{Listing, traverse_directory}
use group_share_filesystem.UserFs.{UserFs, Effect, write_all, new_user_fs}

unfoldable pub set_master : UserFs → UserFs
set_master fs = record fs { host_id = 1 }

-- `size() && back() != '/'`, and then `push_back('/')`
abbrev needs_slash : Bytes → Bool
needs_slash [] = false
needs_slash (c ∷ []) = not (c == b'/')
needs_slash (c ∷ d ∷ rest) = needs_slash (d ∷ rest)

unfoldable pub add_trailing_slash : Bytes → Bytes
add_trailing_slash dir = if needs_slash dir then dir ++ b'/' ∷ [] else dir

-- What the operating system says of the working directory: its absolute path, the time, its count of
-- hard links, and what is in it. `memory` is what a new node holds before its fields are set.
pub record Surroundings : Type 0 where
  pub memory : Attributes
  pub absolute_dir : Bytes
  pub now : ℕ
  pub root_links : Option ℕ
  pub listing : Listing

unfoldable pub init_dir_tree : Surroundings → UserFs → Outcome UserFs
unfolding add_trailing_slash
init_dir_tree os fs = do
  num_links ← or_fault filesystem_error os.root_links
  let attributes = record os.memory {
    type = directory;
    size = 0;
    host_id = fs.host_id;
    mtime = os.now;
    num_links = num_links;
  }
  let root = node attributes [] nil
  shared ← traverse_directory os.memory fs.host_id os.listing nil
  ok (record fs {
    working_dir = add_trailing_slash os.absolute_dir;
    dir_tree = with_children root shared;
  })

unfoldable pub init_host : Bytes → ℕ → ℕ → UserFs → UserFs
unfolding push
init_host addr tcp_port ssh_port fs = record fs {
  hosts = push fs.hosts (record {
    id = fs.host_id;
    address = addr;
    working_dir = fs.working_dir;
    tcp_port = tcp_port;
    ssh_port = ssh_port;
  });
}

-- How `initTCPNetwork` goes: it fails, or the master serves, or a slave has written its introduction
-- and waits on the semaphore.
pub data Started : Type 0 where
  failed : Started
  serving : UserFs → Started
  waiting : UserFs → List Effect → Started

unfoldable pub serve : UserFs → Outcome Started
serve fs = do own ← host_at fs.hosts 0; ok (serving (record fs { hosts = push fs.hosts own }))

unfoldable pub introduce : Archive → UserFs → Outcome Started
introduce archive fs = do
  own ← host_at fs.hosts 0
  ok (
      waiting fs
        (write_all (hello_message (archive.save_tree fs.dir_tree) (archive.save_host own)) ∷ []))

-- `init_failed` is what the initialization of the TCP manager returns.
unfoldable pub init_tcp_network : Archive → Bool → UserFs → Outcome Started
unfolding serve introduce host_at push
init_tcp_network archive init_failed fs =
    if init_failed then ok failed else if fs.host_id == 1 then serve fs else introduce archive fs

-- `_slave_wait_sem.wait()`, which blocks at zero.
abbrev take_semaphore : ℕ → UserFs → Option UserFs
take_semaphore zero fs = none
take_semaphore (suc n) fs = some (record fs { slave_wait_sem = n })

unfoldable pub wait_for_master : UserFs → Option UserFs
wait_for_master fs = take_semaphore fs.slave_wait_sem fs

-- The start of a master up to the point where it serves, as `main` calls it.
unfoldable pub start_master : Archive → Surroundings → Bytes → ℕ → ℕ → Outcome Started
unfolding set_master init_dir_tree init_host init_tcp_network
start_master archive os addr tcp_port ssh_port = do
  fs ← init_dir_tree os (set_master new_user_fs)
  init_tcp_network archive false (init_host addr tcp_port ssh_port fs)

-- The start of a slave up to the point where it waits.
unfoldable pub start_slave : Archive → Surroundings → Bytes → ℕ → ℕ → Outcome Started
unfolding init_dir_tree init_host init_tcp_network
start_slave archive os addr tcp_port ssh_port = do
  fs ← init_dir_tree os new_user_fs
  init_tcp_network archive false (init_host addr tcp_port ssh_port fs)
