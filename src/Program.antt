-- ===== src/Program.antt =====
-- `main` of src/gsfs.cc: the options, the calls that start a node, and the call of FUSE. What the working
-- directory of a path holds, which side of the fork this is, and how the TCP manager's initialization
-- ends are arguments.
pub mod Running
use group_share_filesystem.Base.{
  ℕ, if◌then◌else◌, Bool, Bytes, List, Option, none, some, Outcome, ok, fault, filesystem_error,
  ◌>>=◌,
}
use group_share_filesystem.Archive.{Archive}
use group_share_filesystem.OptionParser.{
  Options, Parsed, prints_version, prints_help, starts, throws,
}
use group_share_filesystem.UserFs.Start.{
  Surroundings, Started, failed, serving, waiting, set_master, init_dir_tree, init_host,
  init_tcp_network, wait_for_master,
}
use group_share_filesystem.UserFs.{UserFs, Effect, new_user_fs}

-- The program exits with a status, or runs `fuse_main` on the mount point with a node; or it has made
-- the calls of a slave and waits in `initTCPNetwork`, before it mounts.
pub data Ending : Type 0 where
  exits : ℕ → Ending
  mounts : Bytes → UserFs → Ending
  waits : Bytes → UserFs → List Effect → Ending

-- `if (parser.is_master) fs.setMaster();`
abbrev pub new_node : Options → UserFs
new_node o = if o.is_master then set_master new_user_fs else new_user_fs

-- What follows `initTCPNetwork`, which a slave has not left yet.
unfoldable pub mount : Options → Started → Ending
mount o failed = exits 1
mount o (serving fs) = mounts o.mount_point fs
mount o (waiting fs effects) = waits o.mount_point fs effects

mounted : Bytes → Option UserFs → Option Ending
mounted mount_point none = none
mounted mount_point (some fs) = some (mounts mount_point fs)

-- The main thread of a slave that waits, in a later state of the node: `none` if it still blocks.
unfoldable pub go_on : Bytes → UserFs → Option Ending
unfolding mounted
go_on mount_point fs = mounted mount_point (wait_for_master fs)

module _ (archive : Archive) (surroundings : Bytes → Surroundings)
    (is_parent init_failed : Bool) where
  -- Only an exception of `initDirTree` is caught.
  unfoldable pub after_scan : Options → Outcome UserFs → Outcome Ending
  after_scan o (fault filesystem_error) = ok (exits 1)
  after_scan o (fault e) = fault e
  after_scan o (ok fs) = do
    started ← init_tcp_network archive init_failed (init_host o.address o.tcp_port o.ssh_port fs)
    ok (mount o started)

  unfoldable pub main : Parsed → Outcome Ending
  unfolding after_scan mount
  main (throws complaint) = ok (exits 1)
  main prints_version = ok (exits 0)
  main prints_help = ok (exits 0)
  main (starts o) =
      if is_parent
      then ok (exits 0)
      else after_scan o (init_dir_tree (surroundings o.working_dir) (new_node o))
