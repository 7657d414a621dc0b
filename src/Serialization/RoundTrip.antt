-- ===== src/Serialization/RoundTrip.antt =====
-- What `serialize` saved is what `deserialize` gives back.
use group_share_filesystem.Base.{
  ℕ, zero, suc, ◌≤◌, ◌≡◌, refl, ap, sym, subst, Bytes, true, false, List, [], ◌∷◌, ◌++◌, Option,
  none, some, length, All, append-nil, length-append, ok, arith,
}
use group_share_filesystem.DirTree.Node.{
  FileType, regular, directory, chrdevice, blkdevice, fifo, symlink, socket, unknown, Attributes,
  TreeNode, node, Children, nil, cons,
}
use group_share_filesystem.DirTree.NodeSet.{insert_each}
use group_share_filesystem.DirTree.NodeSet.Ordered.{
  AreOrdered, AreOrdered-IsSorted, nodes_of, insert_each-nodes_of,
}
use group_share_filesystem.DirTree.Merging.{top_level}
use group_share_filesystem.DirTree.{DirTree}
use group_share_filesystem.Archive.{IsLossless}
use group_share_filesystem.Hosts.{Host, Hosts}
use group_share_filesystem.Serialization.{
  Item, number, string, points, elements, TextArchive, type_number, type_of_number, size_of,
  node_items, children_items, tree_items, host_items, each_items, hosts_items, load_node, load_root,
  load_tree, load_host, load_hosts, archive_of, serialize_tree, deserialize_tree, serialize_host,
  deserialize_host, serialize_hosts, deserialize_hosts,
}
use group_share_filesystem.Serialization.Loading.{Load, then_load, done, load_from}
use group_share_filesystem.Serialization.Sequencing.{
  Loads, IsText, Loads-then_load, Loads-done, Loads-map,
}

type_of_number-type_number : (t : FileType) → type_of_number (type_number t) ≡ t
type_of_number-type_number regular = refl
type_of_number-type_number directory = refl
type_of_number-type_number chrdevice = refl
type_of_number-type_number blkdevice = refl
type_of_number-type_number fifo = refl
type_of_number-type_number symlink = refl
type_of_number-type_number socket = refl
type_of_number-type_number unknown = refl

length-nodes_of : (s : Children) → length (nodes_of s) ≡ size_of s
length-nodes_of nil = refl
length-nodes_of (cons n rest) = ap suc (length-nodes_of rest)

each_items-nodes_of : (s : Children) → each_items node_items (nodes_of s) ≡ children_items s
each_items-nodes_of nil = refl
each_items-nodes_of (cons n rest) = ap (◌++◌ (node_items n)) (each_items-nodes_of rest)

module _ (archive : TextArchive) (law : IsText archive) where
  open archive use {Input, text_of, open_text, get_number, get_string, get_points, get_each}
  open law use {Reads, opens, loads_number, loads_string, loads_points, loads_each, characters}

  number_first :
      {B : Type 0} (b : B) (n : ℕ) (second : ℕ → Load Input B) (items : List Item)
      → Loads Reads (second n) b items
      → Loads Reads (then_load get_number second) b (number n ∷ items)
  number_first b n second items =
      Loads-then_load Reads n b get_number second (number n ∷ []) items (loads_number n)

  string_first :
      {B : Type 0} (b : B) (s : Bytes) (second : Bytes → Load Input B) (items : List Item)
      → Loads Reads (second s) b items
      → Loads Reads (then_load get_string second) b (string s ∷ items)
  string_first b s second items =
      Loads-then_load Reads s b get_string second (string s ∷ []) items (loads_string s)

  Loads-load_host : (h : Host) → Loads Reads (load_host archive) h (host_items h)
  unfolding load_host
  Loads-load_host h = number_first h h.id _ _ (
      string_first h h.address _ _ (
        string_first h h.working_dir _ _
          (number_first h h.tcp_port _ _ (number_first h h.ssh_port _ _ (Loads-done Reads h)))))

  Loads-load_hosts : (h : Hosts) → Loads Reads (load_hosts archive) h (hosts_items h)
  unfolding load_hosts
  Loads-load_hosts h =
      Loads-map Reads h.hosts (get_each (load_host archive)) (λ hosts. record { hosts = hosts })
        (hosts_items h) (loads_each (load_host archive) host_items h.hosts (each_host h.hosts))
    where
      each_host :
          (row : List Host) → All (λ a. Loads Reads (load_host archive) a (host_items a)) row
      each_host [] = tt
      each_host (a ∷ row) = (Loads-load_host a, each_host row)

  -- The elements of a set, read one after the other, are inserted again to the same set.
  Loads-children :
      (depth : ℕ) (s : Children)
      → All (λ n. Loads Reads (load_node archive depth) n (node_items n)) (nodes_of s)
      → Loads Reads
          (get_each (load_node archive depth))
          (nodes_of s)
          (elements (size_of s) ∷ children_items s)
  Loads-children depth s h =
      rw (sym (length-nodes_of s), sym (each_items-nodes_of s))
        (loads_each (load_node archive depth) node_items (nodes_of s) h)

  Loads-node :
      (depth : ℕ) (a : Attributes) (k : Bytes) (s : Children)
      → AreOrdered s
      → All (λ n. Loads Reads (load_node archive depth) n (node_items n)) (nodes_of s)
      → Loads Reads (load_node archive (suc depth)) (node a k s) (node_items (node a k s))
  unfolding load_node
  Loads-node depth a k s o h =
      let n = node a k s in
      number_first n (type_number a.type) _ _ (
        number_first n a.size _ _ (
          number_first n a.uid _ _ (
            number_first n a.gid _ _ (
              number_first n a.atime _ _ (
                number_first n a.mtime _ _ (
                  number_first n a.ctime _ _ (
                    number_first n a.host_id _ _ (
                      number_first n a.num_links _ _ (
                        string_first n k _ _ (
                          rw (type_of_number-type_number a.type) (
                            subst (λ c. Loads Reads load_rest (node a k c) items)
                              (insert_each-nodes_of s (AreOrdered-IsSorted s o))
                              (Loads-map Reads (nodes_of s) load_each
                                (λ row. node a k (insert_each row nil)) items
                                (Loads-children depth s h)))))))))))))
    where
      load_each : Load Input (List TreeNode)
      load_each = get_each (load_node archive depth)

      load_rest : Load Input TreeNode
      load_rest = then_load load_each λ row. done (node a k (insert_each row nil))

      items : List Item
      items = elements (size_of s) ∷ children_items s

  Loads-nodes :
      (depth : ℕ) (s : Children)
      → AreOrdered s
      → length (children_items s) ≤ depth
      → All (λ n. Loads Reads (load_node archive depth) n (node_items n)) (nodes_of s)
  Loads-nodes depth nil o h = tt
  Loads-nodes zero (cons (node a k cs) rest) o h = absurd (omega arith)
  Loads-nodes (suc depth) (cons (node a k cs) rest) o h =
      let split = length-append (children_items cs) (children_items rest) in
      (
        Loads-node depth a k cs o.1 (Loads-nodes depth cs o.1 (omega arith)),
        Loads-nodes (suc depth) rest o.2 (omega arith),
      )

  Loads-load_root :
      (depth : ℕ) (root : Option TreeNode)
      → AreOrdered (top_level (record { root = root }))
      → length (tree_items (record { root = root })) ≤ depth
      → Loads Reads
          (load_tree archive depth)
          (record { root = root })
          (tree_items (record { root = root }))
  unfolding load_tree load_root
  Loads-load_root depth none o h =
      Loads-then_load Reads false (record { root = none }) get_points (load_root archive depth)
        (points false ∷ []) [] (loads_points false) (Loads-done Reads (record { root = none }))
  Loads-load_root zero (some n) o h = absurd (omega arith)
  Loads-load_root (suc depth) (some (node a k cs)) o h =
      let n = node a k cs in
      Loads-then_load Reads true (record { root = some n }) get_points
        (load_root archive (suc depth)) (points true ∷ []) (node_items n) (loads_points true)
        (Loads-map Reads n (load_node archive (suc depth)) (λ root. record { root = some root })
          (node_items n) (Loads-node depth a k cs o (Loads-nodes depth cs o (omega arith))))

  Loads-load_from :
      {A : Type 0} (a : A) (load : Load Input A) (items : List Item)
      → Loads Reads load a items
      → load_from open_text load (text_of items) ≡ ok a
  unfolding Loads
  Loads-load_from a load items h =
      let opened = opens items in
      let read = h opened.0 [] (rw (append-nil items) opened.2) in rw (opened.1, read.1) refl

  -- A tree whose sets are in their order survives saving and loading.
  deserialize_tree-serialize_tree :
      (t : DirTree)
      → AreOrdered (top_level t)
      → deserialize_tree archive (serialize_tree archive t) ≡ ok t
  unfolding serialize_tree deserialize_tree
  deserialize_tree-serialize_tree t o =
      let text = text_of (tree_items t) in
      Loads-load_from t (load_tree archive (length text)) (tree_items t)
        (Loads-load_root (length text) t.root o (characters (tree_items t)))

  -- The vector of hosts survives saving and loading.
  deserialize_hosts-serialize_hosts :
      (h : Hosts) → deserialize_hosts archive (serialize_hosts archive h) ≡ ok h
  unfolding serialize_hosts deserialize_hosts
  deserialize_hosts-serialize_hosts h =
      Loads-load_from h (load_hosts archive) (hosts_items h) (Loads-load_hosts h)

  -- A host survives saving and loading.
  deserialize_host-serialize_host :
      (h : Host) → deserialize_host archive (serialize_host archive h) ≡ ok h
  unfolding serialize_host deserialize_host
  deserialize_host-serialize_host h =
      Loads-load_from h (load_host archive) (host_items h) (Loads-load_host h)

  -- The archives of the program, made from any text archive that gives its items back, lose no tree whose
  -- sets are in their order, no host and no vector of hosts: what was serialized is deserialized.
  pub archive_of-IsLossless : IsLossless (archive_of archive)
  unfolding archive_of
  archive_of-IsLossless = record {
    load-save_tree = deserialize_tree-serialize_tree;
    load-save_host = deserialize_host-serialize_host;
    load-save_hosts = deserialize_hosts-serialize_hosts;
  }
