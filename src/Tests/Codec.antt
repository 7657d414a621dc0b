-- ===== src/Tests/Codec.antt =====
-- A concrete archive that loses nothing: numbers in a row, byte strings behind their lengths.
use group_share_filesystem.Base.{
  ℕ, zero, suc, ◌+◌, ◌<◌, ◌≡◌, refl, ap, sym, ◌∙◌, Bytes, List, [], ◌∷◌, ◌++◌, Option, none, some,
  Outcome, ok, fault, archive_exception, length, take, drop, take-length-append, drop-length-append,
  append_assoc, append-nil, length-append, arith,
}
use group_share_filesystem.Archive.{Archive, IsLossless}
use group_share_filesystem.DirTree.Node.{
  FileType, regular, directory, chrdevice, blkdevice, fifo, symlink, socket, unknown, Attributes,
  TreeNode, node, Children, nil, cons,
}
use group_share_filesystem.DirTree.{DirTree}
use group_share_filesystem.Hosts.{Host, Hosts}

abbrev type_code : FileType → ℕ
type_code regular = 0
type_code directory = 1
type_code chrdevice = 2
type_code blkdevice = 3
type_code fifo = 4
type_code symlink = 5
type_code socket = 6
type_code unknown = 7

abbrev type_of : ℕ → FileType
type_of zero = regular
type_of (suc zero) = directory
type_of (suc (suc zero)) = chrdevice
type_of (suc (suc (suc zero))) = blkdevice
type_of (suc (suc (suc (suc zero)))) = fifo
type_of (suc (suc (suc (suc (suc zero))))) = symlink
type_of (suc (suc (suc (suc (suc (suc zero)))))) = socket
type_of _ = unknown

type_of-type_code : (t : FileType) → type_of (type_code t) ≡ t
type_of-type_code regular = refl
type_of-type_code directory = refl
type_of-type_code chrdevice = refl
type_of-type_code blkdevice = refl
type_of-type_code fifo = refl
type_of-type_code symlink = refl
type_of-type_code socket = refl
type_of-type_code unknown = refl

save_children : Children → Bytes
save_children nil = 0 ∷ []
save_children (cons (node a n cs) rest) =
    1
    ∷ type_code a.type
    ∷ a.size
    ∷ a.uid
    ∷ a.gid
    ∷ a.atime
    ∷ a.mtime
    ∷ a.ctime
    ∷ a.host_id
    ∷ a.num_links
    ∷ length n
    ∷ (n ++ (save_children cs ++ save_children rest))

-- What a decoder has read, and the bytes behind it.
infixl 5 ◌>>=◌
abbrev ◌>>=◌ : {A B : Type 0} → Option A → (A → Option B) → Option B
none >>= f = none
some a >>= f = f a

-- The first number bounds the nesting.
load_children : ℕ → Bytes → Option (Children × Bytes)
load_children zero bytes = none
load_children (suc depth) (zero ∷ bytes) = some (nil, bytes)
load_children (suc depth) (suc k ∷ t ∷ s ∷ u ∷ g ∷ at ∷ mt ∷ ct ∷ host ∷ links ∷ len ∷ bytes) = do
  (cs, more) ← load_children depth (drop len bytes)
  (rest, end) ← load_children depth more
  let a : Attributes = record {
    type = type_of t;
    size = s;
    uid = u;
    gid = g;
    atime = at;
    mtime = mt;
    ctime = ct;
    host_id = host;
    num_links = links;
  }
  some (cons (node a (take len bytes) cs) rest, end)
load_children (suc depth) _ = none

cells : Children → ℕ
cells nil = 0
cells (cons (node a n cs) rest) = suc (cells cs + cells rest)

load_children-save_children :
    (depth : ℕ) (s : Children) (rest : Bytes)
    → cells s < depth
    → load_children depth (save_children s ++ rest) ≡ some (s, rest)
unfolding load_children save_children cells
load_children-save_children zero s rest h = absurd (omega arith)
load_children-save_children (suc depth) nil rest h = refl
load_children-save_children (suc depth) (cons (node a n cs) more) rest h = rw (
  append_assoc n,
  append_assoc (save_children cs),
  take-length-append n (save_children cs ++ (save_children more ++ rest)),
  drop-length-append n (save_children cs ++ (save_children more ++ rest)),
  load_children-save_children depth cs (save_children more ++ rest) (omega arith),
  load_children-save_children depth more rest (omega arith),
  type_of-type_code a.type,
)

cells-lt-length : (s : Children) → cells s < length (save_children s)
unfolding cells save_children
cells-lt-length nil = omega arith
cells-lt-length (cons (node a n cs) rest) = omega (
  arith,
  cells-lt-length cs,
  cells-lt-length rest,
  length-append n (save_children cs ++ save_children rest),
  length-append (save_children cs) (save_children rest),
)

save_root : Option TreeNode → Bytes
save_root none = 0 ∷ []
save_root (some r) = save_children (cons r nil)

save_tree : DirTree → Bytes
save_tree t = save_root t.root

root_of : Option (Children × Bytes) → Outcome DirTree
root_of none = fault archive_exception
root_of (some (nil, rest)) = ok (record { root = none })
root_of (some (cons r s, rest)) = ok (record { root = some r })

load_tree : Bytes → Outcome DirTree
load_tree bytes = root_of (load_children (length bytes) bytes)

load-save_root : (r : Option TreeNode) → load_tree (save_root r) ≡ ok (record { root = r })
unfolding load_tree save_root root_of load_children
load-save_root none = refl
load-save_root (some r) =
    let s = save_children (cons r nil) in
    ap (λ b. root_of (load_children (length s) b)) (sym (append-nil s))
    ∙ ap root_of
        (load_children-save_children (length s) (cons r nil) [] (cells-lt-length (cons r nil)))

save_fields : Host → Bytes
save_fields h =
    h.id
    ∷ h.tcp_port
    ∷ h.ssh_port
    ∷ length h.address
    ∷ length h.working_dir
    ∷ (h.address ++ h.working_dir)

load_fields : Bytes → Option (Host × Bytes)
load_fields (i ∷ t ∷ s ∷ la ∷ lw ∷ bytes) = some (
  record {
    id = i;
    address = take la bytes;
    working_dir = take lw (drop la bytes);
    tcp_port = t;
    ssh_port = s;
  },
  drop lw (drop la bytes),
)
load_fields _ = none

load_fields-save_fields :
    (h : Host) (rest : Bytes) → load_fields (save_fields h ++ rest) ≡ some (h, rest)
unfolding load_fields save_fields
load_fields-save_fields h rest = rw (
  append_assoc h.address,
  take-length-append h.address (h.working_dir ++ rest),
  drop-length-append h.address (h.working_dir ++ rest),
  take-length-append h.working_dir rest,
  drop-length-append h.working_dir rest,
)

host_of : Option (Host × Bytes) → Outcome Host
host_of none = fault archive_exception
host_of (some (h, rest)) = ok h

save_list : List Host → Bytes
save_list [] = []
save_list (h ∷ hs) = save_fields h ++ save_list hs

load_list : ℕ → Bytes → Option (List Host)
load_list zero bytes = some []
load_list (suc n) bytes = do (h, more) ← load_fields bytes; hs ← load_list n more; some (h ∷ hs)

load_list-save_list : (hs : List Host) → load_list (length hs) (save_list hs) ≡ some hs
unfolding load_list save_list
load_list-save_list [] = refl
load_list-save_list (h ∷ hs) = rw (load_fields-save_fields h (save_list hs), load_list-save_list hs)

hosts_of : Option (List Host) → Outcome Hosts
hosts_of none = fault archive_exception
hosts_of (some hs) = ok (record { hosts = hs })

load_hosts : Bytes → Outcome Hosts
load_hosts [] = fault archive_exception
load_hosts (n ∷ bytes) = hosts_of (load_list n bytes)

unfoldable pub codec : Archive
unfolding save_tree load_tree save_children load_children root_of save_root save_fields load_fields
    host_of save_list load_list load_hosts hosts_of
codec = record {
  save_tree = save_tree;
  load_tree = load_tree;
  save_host = save_fields;
  load_host = λ bytes. host_of (load_fields bytes);
  save_hosts = λ h. length h.hosts ∷ save_list h.hosts;
  load_hosts = load_hosts;
}

load-save_host : (h : Host) → host_of (load_fields (save_fields h)) ≡ ok h
unfolding host_of
load-save_host h =
    ap (λ b. host_of (load_fields b)) (sym (append-nil (save_fields h)))
    ∙ ap host_of (load_fields-save_fields h [])

pub codec-IsLossless : IsLossless codec
unfolding codec
codec-IsLossless = record {
  load-save_tree = λ t _. load-save_root t.root;
  load-save_host = load-save_host;
  load-save_hosts = λ h. ap hosts_of (load_list-save_list h.hosts);
}
