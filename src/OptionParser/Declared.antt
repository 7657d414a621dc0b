-- ===== src/OptionParser/Declared.antt =====
-- The options that `OptionParser::initialize` of src/option_parser.cc declares, and the variables that
-- Boost stores for them. A stored value has the type that its option was declared with.
use group_share_filesystem.Base.{
  ℕ, ◌+◌, if◌then◌else◌, ◌≡◌, Bytes, List, [], ◌∷◌, Option, none, some,
}
use group_share_filesystem.DirTree.Names.{name_eq}
use group_share_filesystem.OptionParser.{count}

-- `value<string>`, `value<uint16_t>`, `value<boost::filesystem::path>`, or no value.
pub data ValueType : Type 0 where
  string uint16 path no_value : ValueType

pub record Declaration : Type 0 where
  pub long_name : Bytes
  pub short_name : ℕ
  pub value : ValueType

abbrev pub listen_name : Bytes
listen_name = b'l' ∷ b'i' ∷ b's' ∷ b't' ∷ b'e' ∷ b'n' ∷ []

abbrev pub connect_name : Bytes
connect_name = b'c' ∷ b'o' ∷ b'n' ∷ b'n' ∷ b'e' ∷ b'c' ∷ b't' ∷ []

abbrev pub tcp_port_name : Bytes
tcp_port_name = b't' ∷ b'c' ∷ b'p' ∷ b'-' ∷ b'p' ∷ b'o' ∷ b'r' ∷ b't' ∷ []

abbrev pub ssh_port_name : Bytes
ssh_port_name = b's' ∷ b's' ∷ b'h' ∷ b'-' ∷ b'p' ∷ b'o' ∷ b'r' ∷ b't' ∷ []

abbrev pub mount_point_name : Bytes
mount_point_name = b'm' ∷ b'o' ∷ b'u' ∷ b'n' ∷ b't' ∷ b'-' ∷ b'p' ∷ b'o' ∷ b'i' ∷ b'n' ∷ b't' ∷ []

abbrev pub working_directory_name : Bytes
working_directory_name =
    b'w' ∷ b'o' ∷ b'r' ∷ b'k' ∷ b'i' ∷ b'n' ∷ b'g' ∷ 45 ∷ b'd' ∷ b'i' ∷ b'r' ∷ b'e' ∷ b'c' ∷ b't'
    ∷ b'o' ∷ b'r' ∷ b'y' ∷ []

abbrev pub help_name : Bytes
help_name = b'h' ∷ b'e' ∷ b'l' ∷ b'p' ∷ []

abbrev pub version_name : Bytes
version_name = b'v' ∷ b'e' ∷ b'r' ∷ b's' ∷ b'i' ∷ b'o' ∷ b'n' ∷ []

declare : Bytes → ℕ → ValueType → Declaration
declare long_name short_name value = record {
  long_name = long_name;
  short_name = short_name;
  value = value;
}

-- `initialize`: the master's option, the stand by node's, and the generic ones. A short name is a letter.
unfoldable pub all_options : List Declaration
unfolding declare
all_options =
    declare listen_name b'l' string
    ∷ declare connect_name b'c' string
    ∷ declare tcp_port_name b't' uint16
    ∷ declare ssh_port_name b's' uint16
    ∷ declare mount_point_name b'm' path
    ∷ declare working_directory_name b'w' path
    ∷ declare help_name b'h' no_value
    ∷ declare version_name b'v' no_value
    ∷ []

-- A `variable_value`. `nothing` is what Boost stores for an option without a value, whatever that is:
-- the code casts it to no type.
pub data Value : Type 0 where
  a_string : Bytes → Value
  a_uint16 : ℕ → Value
  a_path : Bytes → Value
  nothing : Value

abbrev pub type_of : Value → ValueType
type_of (a_string s) = string
type_of (a_uint16 n) = uint16
type_of (a_path p) = path
type_of nothing = no_value

-- `variables_map`, by name.
abbrev pub VariablesMap : Type 0
VariablesMap = Bytes → Option Value

unfoldable pub declared_type : Bytes → List Declaration → Option ValueType
declared_type name [] = none
declared_type name (d ∷ rest) =
    if name_eq d.long_name name then some d.value else declared_type name rest

-- What Boost documents of `store`: only a declared option is stored, with a value of its type.
unfoldable pub IsStored : VariablesMap → Type 0
IsStored vm =
    (name : Bytes) (v : Value)
    → vm name ≡ some v
    → declared_type name all_options ≡ some (type_of v)

-- `vm.size()`: only declared options are stored.
unfoldable pub stored_count : VariablesMap → List Declaration → ℕ
stored_count vm [] = 0
stored_count vm (d ∷ rest) = count (vm d.long_name) + stored_count vm rest
