-- ===== src/Serialization.antt =====
-- The `serialize` and `deserialize` functions of src/dir_tree.h, src/dir_tree.cc and src/host.h: which
-- fields go into a text archive and in which order, and how they are read back. The archives themselves
-- are Boost's and a parameter.
pub mod Loading
pub mod Sequencing
pub mod RoundTrip
use group_share_filesystem.Base.{
  Option, none, some, ℕ, zero, suc, Bytes, Bool, true, false, List, [], ◌∷◌, ◌++◌, length, Outcome,
  ok, fault, archive_exception, ◌>>=◌,
}
use group_share_filesystem.DirTree.Node.{
  FileType, regular, directory, chrdevice, blkdevice, fifo, symlink, socket, unknown, Attributes,
  TreeNode, node, Children, nil, cons,
}
use group_share_filesystem.DirTree.NodeSet.{insert_each}
use group_share_filesystem.DirTree.{DirTree}
use group_share_filesystem.Archive.{Archive}
use group_share_filesystem.Hosts.{Host, Hosts}
use group_share_filesystem.Serialization.Loading.{Load, then_load, done, load_from}

-- What the `serialize` functions hand to an archive, one after the other: a number, a string, whether a
-- pointer points to an object that follows, the number of elements of a container that follow.
pub data Item : Type 0 where
  number : ℕ → Item
  string : Bytes → Item
  points : Bool → Item
  elements : ℕ → Item

-- Boost's text archives: the text that a row of items is saved as, and an input archive, which gives the
-- items back in their order. `get_each` loads a container with a function that loads an element.
pub record TextArchive : Type 1 where
  pub Input : Type 0
  pub text_of : List Item → Bytes
  pub open_text : Bytes → Outcome Input
  pub get_number : Load Input ℕ
  pub get_string : Load Input Bytes
  pub get_points : Load Input Bool
  pub get_each : {A : Type 0} → Load Input A → Load Input (List A)

-- An enumerator is saved as its number.
abbrev pub type_number : FileType → ℕ
type_number regular = 0
type_number directory = 1
type_number chrdevice = 2
type_number blkdevice = 3
type_number fifo = 4
type_number symlink = 5
type_number socket = 6
type_number unknown = 7

abbrev pub type_of_number : ℕ → FileType
type_of_number zero = regular
type_of_number (suc zero) = directory
type_of_number (suc (suc zero)) = chrdevice
type_of_number (suc (suc (suc zero))) = blkdevice
type_of_number (suc (suc (suc (suc zero)))) = fifo
type_of_number (suc (suc (suc (suc (suc zero))))) = symlink
type_of_number (suc (suc (suc (suc (suc (suc zero)))))) = socket
type_of_number _ = unknown

abbrev pub size_of : Children → ℕ
size_of nil = 0
size_of (cons n rest) = suc (size_of rest)

-- `TreeNode::serialize`, saving.
abbrev mutual
  pub node_items : TreeNode → List Item
  node_items (node a name children) =
      number (type_number a.type)
      ∷ number a.size
      ∷ number a.uid
      ∷ number a.gid
      ∷ number a.atime
      ∷ number a.mtime
      ∷ number a.ctime
      ∷ number a.host_id
      ∷ number a.num_links
      ∷ string name
      ∷ elements (size_of children)
      ∷ children_items children

  pub children_items : Children → List Item
  children_items nil = []
  children_items (cons n rest) = node_items n ++ children_items rest

-- `DirTree::serialize` on an archive, saving.
abbrev pub tree_items : DirTree → List Item
tree_items t = elim t.root [ none ↦ points false ∷ [] | some n ↦ points true ∷ node_items n ]

-- `Host::serialize` on an archive, saving.
abbrev pub host_items : Host → List Item
host_items h =
    number h.id
    ∷ string h.address
    ∷ string h.working_dir
    ∷ number h.tcp_port
    ∷ number h.ssh_port
    ∷ []

abbrev pub each_items {ℓ} : {A : Type ℓ} → (A → List Item) → List A → List Item
each_items items [] = []
each_items items (a ∷ rest) = items a ++ each_items items rest

-- `Hosts::serialize` on an archive, saving.
abbrev pub hosts_items : Hosts → List Item
hosts_items h = elements (length h.hosts) ∷ each_items host_items h.hosts

module _ (archive : TextArchive) where
  open archive use {Input, text_of, open_text, get_number, get_string, get_points, get_each}

  -- `TreeNode::serialize`, loading. The number bounds the nesting.
  unfoldable pub load_node : ℕ → Load Input TreeNode
  load_node zero = λ input. fault archive_exception
  load_node (suc depth) = then_load get_number λ type. then_load get_number λ size.
      then_load get_number λ uid. then_load get_number λ gid. then_load get_number λ atime.
        then_load get_number λ mtime. then_load get_number λ ctime. then_load get_number λ host_id.
          then_load get_number λ num_links. then_load get_string λ name.
            then_load (get_each (load_node depth)) λ children. done (
              node
                (record {
                  type = type_of_number type;
                  size = size;
                  uid = uid;
                  gid = gid;
                  atime = atime;
                  mtime = mtime;
                  ctime = ctime;
                  host_id = host_id;
                  num_links = num_links;
                })
                name (insert_each children nil))

  -- The object behind a pointer, if it points to one.
  unfoldable pub load_root : ℕ → Bool → Load Input DirTree
  load_root depth false = done (record { root = none })
  load_root depth true = then_load (load_node depth) λ root. done (record { root = some root })

  -- `DirTree::serialize` on an archive, loading.
  unfoldable pub load_tree : ℕ → Load Input DirTree
  load_tree depth = then_load get_points (load_root depth)

  -- `Host::serialize` on an archive, loading.
  unfoldable pub load_host : Load Input Host
  load_host = then_load get_number λ id. then_load get_string λ address.
      then_load get_string λ working_dir. then_load get_number λ tcp_port.
        then_load get_number λ ssh_port. done (record {
          id = id;
          address = address;
          working_dir = working_dir;
          tcp_port = tcp_port;
          ssh_port = ssh_port;
        })

  -- `Hosts::serialize` on an archive, loading.
  unfoldable pub load_hosts : Load Input Hosts
  load_hosts = then_load (get_each load_host) λ hosts. done (record { hosts = hosts })

  -- `DirTree::serialize` and `DirTree::deserialize`. A tree is not nested deeper than its text is long.
  unfoldable pub serialize_tree : DirTree → Bytes
  serialize_tree tree = text_of (tree_items tree)

  unfoldable pub deserialize_tree : Bytes → Outcome DirTree
  deserialize_tree bytes = load_from open_text (load_tree (length bytes)) bytes

  unfoldable pub serialize_host : Host → Bytes
  serialize_host host = text_of (host_items host)

  unfoldable pub deserialize_host : Bytes → Outcome Host
  deserialize_host bytes = load_from open_text load_host bytes

  unfoldable pub serialize_hosts : Hosts → Bytes
  serialize_hosts hosts = text_of (hosts_items hosts)

  unfoldable pub deserialize_hosts : Bytes → Outcome Hosts
  deserialize_hosts bytes = load_from open_text load_hosts bytes

  -- The archives that the rest of the program uses.
  unfoldable pub archive_of : Archive
  unfolding serialize_tree deserialize_tree serialize_host deserialize_host serialize_hosts
      deserialize_hosts
  archive_of = record {
    save_tree = serialize_tree;
    load_tree = deserialize_tree;
    save_host = serialize_host;
    load_host = deserialize_host;
    save_hosts = serialize_hosts;
    load_hosts = deserialize_hosts;
  }
