-- ===== src/OptionParser.antt =====
-- `OptionParser::parse` of src/option_parser.h and src/option_parser.cc. Boost has already stored the
-- options of the command line: here the map of variables is a record of what each option was given; in
-- OptionParser/Stored it is the map itself.
pub mod Parsing
pub mod Declared
pub mod Stored
pub mod Casts
use group_share_filesystem.Base.{
  ℕ, ◌+◌, ◌==◌, if◌then◌else◌, not, ◌&&◌, ◌||◌, Bool, true, false, Bytes, List, [], ◌∷◌, Option,
  none, some,
}

-- `variables_map`. `--help` and `--version` have no value.
pub record Variables : Type 0 where
  pub listen : Option Bytes
  pub connect : Option Bytes
  pub tcp_port : Option ℕ
  pub ssh_port : Option ℕ
  pub mount_point : Option Bytes
  pub working_directory : Option Bytes
  pub help : Bool
  pub version : Bool

-- What Boost says of an address and of a path.
pub record Checks : Type 0 where
  pub is_address : Bytes → Bool
  pub exists : Bytes → Bool
  pub is_directory : Bytes → Bool

pub record Options : Type 0 where
  pub is_master : Bool
  pub is_standby : Bool
  pub address : Bytes
  pub tcp_port : ℕ
  pub ssh_port : ℕ
  pub mount_point : Bytes
  pub working_dir : Bytes

-- The messages of `invalid_argument`, without their text.
pub data Complaint : Type 0 where
  conflict_listen_connect invalid_help invalid_version no_address : Complaint
  invalid_address no_tcp_port : Complaint
  no_mount_point mount_point_missing mount_point_no_directory : Complaint
  no_working_dir working_dir_missing working_dir_no_directory : Complaint

-- `parse` prints and returns, or sets the members, or throws.
pub data Parsed : Type 0 where
  prints_version prints_help : Parsed
  starts : Options → Parsed
  throws : Complaint → Parsed

-- `count` of an option with a value.
abbrev pub count : {A : Type 0} → Option A → ℕ
count none = 0
count (some a) = 1

abbrev pub count_if : Bool → ℕ
count_if false = 0
count_if true = 1

abbrev pub given : {A : Type 0} → Option A → Bool
given none = false
given (some a) = true

-- `vm.size()`
abbrev pub size : Variables → ℕ
size vm =
    count vm.listen
    + count vm.connect
    + count vm.tcp_port
    + count vm.ssh_port
    + count vm.mount_point
    + count vm.working_directory
    + count_if vm.help
    + count_if vm.version

-- The role and the address; `--connect` is looked at only without `--listen`.
abbrev pub role : Variables → Option (Bool × Bytes)
role vm = elim vm.listen [
  | some address ↦ some (true, address)
  | none ↦ elim vm.connect [ some address ↦ some (false, address) | none ↦ none ]
]

abbrev pub ssh_port_of : Option ℕ → ℕ
ssh_port_of none = 22
ssh_port_of (some port) = port

-- The checks of the working directory, which come last.
module _ (checks : Checks) (vm : Variables) where
  unfoldable pub check_working_dir : Bool × Bytes → ℕ → Bytes → Option Bytes → Parsed
  check_working_dir r tcp_port mount_point none = throws no_working_dir
  check_working_dir (is_master, address) tcp_port mount_point (some dir) =
      if not (checks.exists dir)
      then throws working_dir_missing
      else if not (checks.is_directory dir)
      then throws working_dir_no_directory
      else starts (record {
        is_master = is_master;
        is_standby = not is_master;
        address = address;
        tcp_port = tcp_port;
        ssh_port = ssh_port_of vm.ssh_port;
        mount_point = mount_point;
        working_dir = dir;
      })

  unfoldable pub check_mount_point : Bool × Bytes → ℕ → Option Bytes → Parsed
  check_mount_point r tcp_port none = throws no_mount_point
  check_mount_point r tcp_port (some dir) =
      if not (checks.exists dir)
      then throws mount_point_missing
      else if not (checks.is_directory dir)
      then throws mount_point_no_directory
      else check_working_dir r tcp_port dir vm.working_directory

  unfoldable pub check_tcp_port : Bool × Bytes → Option ℕ → Parsed
  check_tcp_port r none = throws no_tcp_port
  check_tcp_port r (some port) = check_mount_point r port vm.mount_point

  unfoldable pub check_address : Option (Bool × Bytes) → Parsed
  check_address none = throws no_address
  check_address (some (is_master, address)) =
      if not (checks.is_address address)
      then throws invalid_address
      else check_tcp_port (is_master, address) vm.tcp_port

  unfoldable pub parse : Parsed
  unfolding check_address check_tcp_port check_mount_point check_working_dir
  parse =
      if size vm == 1 && vm.version
      then prints_version
      else if (size vm == 1 && vm.help) || size vm == 0
      then prints_help
      else if given vm.listen && given vm.connect
      then throws conflict_listen_connect
      else if vm.help
      then throws invalid_help
      else if vm.version
      then throws invalid_version
      else check_address (role vm)
