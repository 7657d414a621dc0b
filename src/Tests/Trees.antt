-- ===== src/Tests/Trees.antt =====
-- The theorems on trees, scans, sessions and calls of FUSE, on concrete data.
use group_share_filesystem.DirTree.Names.{name_eq→eq}
use group_share_filesystem.DirTree.NodeSet.{insert}
use group_share_filesystem.DirTree.Names.{name_eq, name_ltb}
use group_share_filesystem.Base.{
  ◌≡◌, ◌≢◌, ◌↔◌, refl, true, Bytes, List, [], ◌∷◌, none, some, ok, ◌&&◌, Bool-cases, inl, inr,
  subst, sym,
}
use group_share_filesystem.DirTree.Node.{directory, node, Children, nil, cons, children}
use group_share_filesystem.DirTree.NodeSet.{lookup}
use group_share_filesystem.DirTree.{
  DirTree, common_names, has_conflict, merge, find as tree_find, slash,
}
use group_share_filesystem.DirTree.Finding.{Located, find-Located}
use group_share_filesystem.DirTree.Merging.{rooted}
use group_share_filesystem.DirTree.Conflicts.{
  lists, is_found, lists-common_names, has_conflict_misses,
}
use group_share_filesystem.Scan.{
  Listing, finished, entry, Stat, directory_file, regular_file, traverse_directory,
}
use group_share_filesystem.Scan.Laws.{IsShare, traverse_directory-IsShare}
use group_share_filesystem.Ssh.Session.{opened, read as session_read}
use group_share_filesystem.Ssh.Laws.{Reads, is_open, open_at, read-Reads}
use group_share_filesystem.Tests.Samples.{
  attributes_of, file, root_with, master_root, slave_root, other_root,
}

-- The file `/a/c` of the master.
abbrev path : List Bytes
path = (b'a' ∷ []) ∷ (b'c' ∷ []) ∷ []

abbrev key : Bytes
key = b'b' ∷ []

find-Located_example :
    (tree_find (rooted master_root) (slash ∷ path) ≡ ok (some (file 1 (b'c' ∷ []))))
    ↔ Located master_root path (file 1 (b'c' ∷ []))
unfolding name_eq name_ltb
find-Located_example =
    find-Located master_root (file 1 (b'c' ∷ [])) path (refl, refl, (refl, refl, tt))

abbrev merged : DirTree
merged = rooted (
    root_with 1 (
      cons (node (attributes_of directory 1) (b'a' ∷ []) (cons (file 1 (b'c' ∷ [])) nil))
        (cons (file 1 (b'b' ∷ [])) (cons (file 0 (b'd' ∷ [])) nil))))

merge_other : merge (rooted master_root) (rooted other_root) ≡ ok merged
unfolding merge insert name_ltb
merge_other = refl

abbrev merged_back : DirTree
merged_back = rooted (
    root_with 0 (
      cons (node (attributes_of directory 1) (b'a' ∷ []) (cons (file 1 (b'c' ∷ [])) nil))
        (cons (file 1 (b'b' ∷ [])) (cons (file 0 (b'd' ∷ [])) nil))))

merge_slave : merge (rooted master_root) (rooted slave_root) ≡ ok merged
unfolding merge insert name_ltb
merge_slave = refl

merge_back : merge (rooted slave_root) (rooted master_root) ≡ ok merged_back
unfolding merge insert name_ltb
merge_back = refl

apart : (k : Bytes) → lookup k (children master_root) ≢ none → lookup k (children slave_root) ≡ none
unfolding lookup name_eq name_ltb
apart k h = elim (Bool-cases (name_eq (b'd' ∷ []) k)) [
  | inl e ↦ absurd (
      subst (λ j. lookup j (children master_root) ≢ none) (sym (name_eq→eq (b'd' ∷ []) k e)) h refl)
  | inr e ↦ rw e refl
]

lists-common_names_example :
    lists key (common_names (children master_root) (children other_root))
    ≡ (is_found (lookup key (children master_root)) && is_found (lookup key (children other_root)))
unfolding name_ltb
lists-common_names_example =
    lists-common_names key (children master_root) (children other_root) ((refl, tt), (tt, tt))
      ((refl, tt), (tt, tt))

in_master : is_found (lookup key (children master_root)) ≡ true
unfolding lookup name_eq name_ltb
in_master = refl

in_other : is_found (lookup key (children other_root)) ≡ true
unfolding lookup name_eq name_ltb
in_other = refl

has_conflict_misses_example :
    (lists key (common_names (children other_root) (children master_root)) ≡ true)
    × (has_conflict (rooted master_root) (rooted other_root) ≡ ok [])
unfolding name_ltb
has_conflict_misses_example =
    has_conflict_misses key master_root other_root ((refl, tt), (tt, tt)) ((refl, tt), (tt, tt))
      in_master in_other

abbrev stat_of_file : Stat
stat_of_file = record {
  status = regular_file;
  file_size = some 5;
  last_write_time = some 9;
  hard_link_count = some 1;
}

abbrev stat_of_directory : Stat
stat_of_directory = record stat_of_file { status = directory_file }

-- A file `b`, and a directory `a` with a file `c`.
abbrev listing : Listing
listing = entry stat_of_file (b'b' ∷ []) finished (
    entry stat_of_directory (b'a' ∷ []) (entry stat_of_file (b'c' ∷ []) finished finished) finished)

abbrev scanned : Children
scanned =
    cons
      (node (record (attributes_of directory 1) { size = 0 }) (b'a' ∷ [])
        (cons (file 1 (b'c' ∷ [])) nil))
      (cons (file 1 (b'b' ∷ [])) nil)

scans : traverse_directory (attributes_of directory 0) 1 listing nil ≡ ok scanned
unfolding traverse_directory insert name_ltb name_eq lookup
scans = refl

traverse_directory-IsShare_example : IsShare 1 scanned
traverse_directory-IsShare_example =
    traverse_directory-IsShare (attributes_of directory 0) 1 listing scanned scans

abbrev address : Bytes
address = b'h' ∷ []

read-Reads_example :
    Reads address 22 key
      (session_read key (some 3) opened (some 3) (open_at address 22 (b'c' ∷ [])))
read-Reads_example =
    read-Reads address 22 key (some 3) opened (some 3) (open_at address 22 (b'c' ∷ []))
      (is_open (b'c' ∷ []))
