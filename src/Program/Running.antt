-- ===== src/Program/Running.antt =====
-- From the command line to a node that runs, through `main` of src/gsfs.cc.
use group_share_filesystem.Base.{
  ℕ, suc, none, Holds, Holds-after, ◌≡◌, refl, ap, ◌∙◌, true, false, Bytes, [], ◌∷◌, some, Outcome,
  ok, bind-eq-ok, ◌>>=◌,
}
use group_share_filesystem.Archive.{Archive}
use group_share_filesystem.DirTree.Node.{Children, nil}
use group_share_filesystem.DirTree.Merging.{rooted, top_level}
use group_share_filesystem.DirTree.{slash, replace_children, remove_not_of}
use group_share_filesystem.DirTree.Finding.{ArePlain}
use group_share_filesystem.DirTree.NodeSet.{lookup}
use group_share_filesystem.FuseInterface.{done, readdir, names_of}
use group_share_filesystem.FuseInterface.Laws.{readdir-root, find-child}
use group_share_filesystem.OptionParser.{Variables, Checks, Options, parse}
use group_share_filesystem.OptionParser.Parsing.{Asks, parse_iff}
use group_share_filesystem.Program.{mounts, waits, main, new_node, mount, after_scan, go_on}
use group_share_filesystem.Protocol.{hello_message}
use group_share_filesystem.Scan.{traverse_directory}
use group_share_filesystem.UserFs.Membership.{IsMaster}
use group_share_filesystem.UserFs.Start.{
  Surroundings, Started, serving, set_master, init_dir_tree, init_host, init_tcp_network,
  start_master, start_slave, wait_for_master,
}
use group_share_filesystem.UserFs.Starting.{
  start_master-IsMaster, start_slave_lem, scanned_root, own_host,
}
use group_share_filesystem.UserFs.{
  UserFs, find, write_all, new_user_fs, slave_recognized, disconnect_from_master,
}

-- The main thread of a node that waited goes on and mounts it.
abbrev pub Mounts : Bytes → UserFs → Type 0
Mounts mount_point fs = (after : UserFs) × (go_on mount_point fs ≡ some (mounts mount_point after))

go_on-blocks :
    (mount_point : Bytes) (fs : UserFs) → fs.slave_wait_sem ≡ 0 → go_on mount_point fs ≡ none
unfolding go_on wait_for_master
go_on-blocks mount_point fs e = rw e refl

go_on-posted :
    (mount_point : Bytes) (fs : UserFs) (n : ℕ) → fs.slave_wait_sem ≡ suc n → Mounts mount_point fs
unfolding go_on wait_for_master
go_on-posted mount_point fs n e = (record fs { slave_wait_sem = n }, rw e refl)

module _ (archive : Archive) (mount_point : Bytes) where
  slave_recognized-Mounts :
      (slave_id : ℕ) (dir_tree_seq hosts_seq : Bytes) (fs : UserFs)
      → Holds (Mounts mount_point) (slave_recognized archive slave_id dir_tree_seq hosts_seq fs)
  unfolding slave_recognized
  slave_recognized-Mounts slave_id d h fs =
      Holds-after (Mounts mount_point) (archive.load_tree d) _ λ t.
        Holds-after (Mounts mount_point) (archive.load_hosts h) _ λ hosts.
          Holds-after (Mounts mount_point) (replace_children fs.dir_tree t) _
            λ tree. go_on-posted mount_point _ fs.slave_wait_sem refl

  disconnect_from_master-Mounts :
      (fs : UserFs)
      → fs.main_thread_is_waiting ≡ true
      → Holds (Mounts mount_point) (disconnect_from_master archive fs)
  unfolding disconnect_from_master
  disconnect_from_master-Mounts fs e =
      Holds-after (Mounts mount_point) (remove_not_of fs.host_id fs.dir_tree) _
        λ tree. rw e (go_on-posted mount_point _ fs.slave_wait_sem refl)

module _ (archive : Archive) (surroundings : Bytes → Surroundings) (checks : Checks)
    (vm : Variables) (o : Options) (asks : Asks checks vm o) where
  main-starts :
      (fs : UserFs)
      → new_node o ≡ fs
      → main archive surroundings false false (parse checks vm)
        ≡ after_scan archive surroundings false false o
            (init_dir_tree (surroundings o.working_dir) fs)
  unfolding main
  main-starts fs e = rw ((parse_iff checks vm o).1 asks, e) refl

  after_scan-ok :
      (s : Started) (scanned : Outcome UserFs)
      → (scanned >>= λ fs.
          init_tcp_network archive false (init_host o.address o.tcp_port o.ssh_port fs))
        ≡ ok s
      → after_scan archive surroundings false false o scanned ≡ ok (mount o s)
  unfolding after_scan
  after_scan-ok s scanned e = let (fs, scan, run) = bind-eq-ok scanned _ e in rw (scan, run) refl

  -- If the scan of the working directory ends and the TCP manager is initialized, in the forked process:
  -- a command line that asks for a master makes one that is ready to serve, with the files of its scan,
  -- and mounts it at the directory that it names; the root lists the names that the scan has, and a name
  -- other than `.` and `..` leads to what the scan has under it.
  pub main-IsMaster :
      (links : ℕ) (shared : Children)
      → o.is_master ≡ true
      → (surroundings o.working_dir).root_links ≡ some links
      → traverse_directory
          (surroundings o.working_dir).memory
          1
          (surroundings o.working_dir).listing
          nil
        ≡ ok shared
      → (fs : UserFs) × (main archive surroundings false false (parse checks vm)
          ≡ ok (mounts o.mount_point fs))
        × IsMaster fs
        × (top_level fs.dir_tree ≡ shared)
        × (readdir fs (slash ∷ []) ≡ ok (done (names_of shared)))
        × ((k : Bytes) → ArePlain (k ∷ []) → find fs (slash ∷ k ∷ []) ≡ ok (lookup k shared))
  unfolding mount start_master
  main-IsMaster links shared is_master linked scan =
      let os = surroundings o.working_dir in
      let (fs, started, good, files) =
        start_master-IsMaster archive os o.address o.tcp_port o.ssh_port links shared linked scan in
      (
        fs,
        main-starts (set_master new_user_fs) (rw is_master refl)
            ∙ after_scan-ok (serving fs) (init_dir_tree os (set_master new_user_fs)) started,
        good,
        ap top_level files,
        readdir-root fs _ files refl,
        find-child fs _ files,
      )

  -- If the scan of the working directory ends and the TCP manager is initialized, in the forked process:
  -- a command line that asks for a stand by node makes a slave that has written one message, with its
  -- scan and its host, and whose main thread blocks before it mounts. When the master's recognition has
  -- been handled, or the end of the connection, the main thread goes on, and mounts the node at the
  -- directory that the command line names.
  pub main-waiting :
      (links : ℕ) (shared : Children)
      → o.is_master ≡ false
      → (surroundings o.working_dir).root_links ≡ some links
      → traverse_directory
          (surroundings o.working_dir).memory
          0
          (surroundings o.working_dir).listing
          nil
        ≡ ok shared
      → (fs : UserFs) × (main archive surroundings false false (parse checks vm)
          ≡ ok (
              waits o.mount_point fs (
                write_all (
                  hello_message
                    (archive.save_tree
                      (rooted (scanned_root (surroundings o.working_dir) 0 links shared)))
                    (archive.save_host
                      (own_host (surroundings o.working_dir) 0 o.address o.tcp_port o.ssh_port)))
                ∷ [])))
        × (top_level fs.dir_tree ≡ shared)
        × (go_on o.mount_point fs ≡ none)
        × ((slave_id : ℕ) (dir_tree_seq hosts_seq : Bytes)
            → Holds
                (Mounts o.mount_point)
                (slave_recognized archive slave_id dir_tree_seq hosts_seq fs))
        × Holds (Mounts o.mount_point) (disconnect_from_master archive fs)
  unfolding mount start_slave
  main-waiting links shared is_slave linked scan =
      let os = surroundings o.working_dir in
      let (fs, started, files, waits_on, empty) =
        start_slave_lem archive os o.address o.tcp_port o.ssh_port links shared linked scan in
      (
        fs,
        main-starts new_user_fs (rw is_slave refl)
            ∙ after_scan-ok _ (init_dir_tree os new_user_fs) started,
        ap top_level files,
        go_on-blocks o.mount_point fs empty,
        λ slave_id d h. slave_recognized-Mounts archive o.mount_point slave_id d h fs,
        disconnect_from_master-Mounts archive o.mount_point fs waits_on,
      )
