-- ===== src/OptionParser/Casts.antt =====
-- The casts in `OptionParser::parse` of src/option_parser.cc agree with the declarations of `initialize`.
use group_share_filesystem.Base.{
  ℕ, ◌≡◌, refl, ap, Bool, true, false, Bytes, Option, none, some, arith,
}
use group_share_filesystem.DirTree.Names.{name_eq, name_ltb}
use group_share_filesystem.OptionParser.{
  Variables, Checks, parse, check_address, check_tcp_port, check_mount_point, check_working_dir,
  size, role, given, count, count_if, ssh_port_of,
}
use group_share_filesystem.OptionParser.Declared.{
  ValueType, string, uint16, path, Value, a_string, a_uint16, a_path, nothing, type_of,
  VariablesMap, IsStored, all_options, declared_type, stored_count, listen_name, connect_name,
  tcp_port_name, ssh_port_name, mount_point_name, working_directory_name, help_name, version_name,
}
use group_share_filesystem.OptionParser.Stored.{
  cast_working_dir, cast_mount_point, cast_ssh_port, cast_tcp_port, cast_address, cast_role,
  parse_stored,
}
use mathlib.Core.Option.{map}

-- What a cast to each type takes out of an entry.
unfoldable string_of : Option Value → Option Bytes
string_of (some (a_string s)) = some s
string_of _ = none

unfoldable number_of : Option Value → Option ℕ
number_of (some (a_uint16 n)) = some n
number_of _ = none

unfoldable path_of : Option Value → Option Bytes
path_of (some (a_path p)) = some p
path_of _ = none

unfoldable pub variables_of : VariablesMap → Variables
unfolding string_of number_of path_of
variables_of vm = record {
  listen = string_of (vm listen_name);
  connect = string_of (vm connect_name);
  tcp_port = number_of (vm tcp_port_name);
  ssh_port = number_of (vm ssh_port_name);
  mount_point = path_of (vm mount_point_name);
  working_directory = path_of (vm working_directory_name);
  help = given (vm help_name);
  version = given (vm version_name);
}

-- An entry has the type `t`, if there is one.
abbrev Typed : ValueType → Option Value → Type 0
Typed t e = (v : Value) → e ≡ some v → some t ≡ some (type_of v)

map-string_of : (e : Option Value) → Typed string e → e ≡ map a_string (string_of e)
unfolding string_of
map-string_of none h = refl
map-string_of (some (a_string s)) h = refl
map-string_of (some (a_uint16 n)) h = let k = h (a_uint16 n) refl in cc
map-string_of (some (a_path p)) h = let k = h (a_path p) refl in cc
map-string_of (some nothing) h = let k = h nothing refl in cc

map-number_of : (e : Option Value) → Typed uint16 e → e ≡ map a_uint16 (number_of e)
unfolding number_of
map-number_of none h = refl
map-number_of (some (a_uint16 n)) h = refl
map-number_of (some (a_string s)) h = let k = h (a_string s) refl in cc
map-number_of (some (a_path p)) h = let k = h (a_path p) refl in cc
map-number_of (some nothing) h = let k = h nothing refl in cc

map-path_of : (e : Option Value) → Typed path e → e ≡ map a_path (path_of e)
unfolding path_of
map-path_of none h = refl
map-path_of (some (a_path p)) h = refl
map-path_of (some (a_string s)) h = let k = h (a_string s) refl in cc
map-path_of (some (a_uint16 n)) h = let k = h (a_uint16 n) refl in cc
map-path_of (some nothing) h = let k = h nothing refl in cc

-- The map holds the values of the variables, each with the type that is cast to.
record Holds (vm : VariablesMap) (v : Variables) : Type 0 where
  listen : vm listen_name ≡ map a_string v.listen
  connect : vm connect_name ≡ map a_string v.connect
  tcp_port : vm tcp_port_name ≡ map a_uint16 v.tcp_port
  ssh_port : vm ssh_port_name ≡ map a_uint16 v.ssh_port
  mount_point : vm mount_point_name ≡ map a_path v.mount_point
  working_directory : vm working_directory_name ≡ map a_path v.working_directory
  help : given (vm help_name) ≡ v.help
  version : given (vm version_name) ≡ v.version

variables_of-Holds : (vm : VariablesMap) → IsStored vm → Holds vm (variables_of vm)
unfolding variables_of IsStored declared_type all_options name_eq name_ltb
variables_of-Holds vm h = record {
  listen = map-string_of (vm listen_name) (h listen_name);
  connect = map-string_of (vm connect_name) (h connect_name);
  tcp_port = map-number_of (vm tcp_port_name) (h tcp_port_name);
  ssh_port = map-number_of (vm ssh_port_name) (h ssh_port_name);
  mount_point = map-path_of (vm mount_point_name) (h mount_point_name);
  working_directory = map-path_of (vm working_directory_name) (h working_directory_name);
  help = refl;
  version = refl;
}

module _ (checks : Checks) (vm : VariablesMap) (v : Variables) (held : Holds vm v) where
  cast_working_dir-check :
      (r : Bool × Bytes) (tcp_port : ℕ) (mount_point : Bytes) (dir : Option Bytes)
      → cast_working_dir checks vm r tcp_port (ssh_port_of v.ssh_port) mount_point (map a_path dir)
        ≡ some (check_working_dir checks v r tcp_port mount_point dir)
  unfolding cast_working_dir check_working_dir
  cast_working_dir-check r tcp_port mount_point none = refl
  cast_working_dir-check (m, a) tcp_port mount_point (some dir) = refl

  cast_mount_point-check :
      (r : Bool × Bytes) (tcp_port : ℕ) (dir : Option Bytes)
      → cast_mount_point checks vm r tcp_port (ssh_port_of v.ssh_port) (map a_path dir)
        ≡ some (check_mount_point checks v r tcp_port dir)
  unfolding cast_mount_point check_mount_point
  cast_mount_point-check r tcp_port none = refl
  cast_mount_point-check r tcp_port (some dir) =
      let rest = cast_working_dir-check r tcp_port dir v.working_directory in
      rw held.working_directory (ground (arith, rest))

  cast_ssh_port-check :
      (r : Bool × Bytes) (tcp_port : ℕ) (port : Option ℕ)
      → v.ssh_port ≡ port
      → cast_ssh_port checks vm r tcp_port (map a_uint16 port)
        ≡ some (check_mount_point checks v r tcp_port v.mount_point)
  unfolding cast_ssh_port
  cast_ssh_port-check r tcp_port none e =
      let checked = cast_mount_point-check r tcp_port v.mount_point in
      let same = ap ssh_port_of e in rw held.mount_point cc
  cast_ssh_port-check r tcp_port (some port) e =
      let checked = cast_mount_point-check r tcp_port v.mount_point in
      let same = ap ssh_port_of e in rw held.mount_point cc

  cast_tcp_port-check :
      (r : Bool × Bytes) (port : Option ℕ)
      → cast_tcp_port checks vm r (map a_uint16 port) ≡ some (check_tcp_port checks v r port)
  unfolding cast_tcp_port check_tcp_port
  cast_tcp_port-check r none = refl
  cast_tcp_port-check r (some port) = rw held.ssh_port (cast_ssh_port-check r port v.ssh_port refl)

  cast_address-check :
      (is_master : Bool) (address : Bytes)
      → cast_address checks vm is_master address
        ≡ some (check_address checks v (some (is_master, address)))
  unfolding cast_address check_address
  cast_address-check is_master address =
      let rest = cast_tcp_port-check (is_master, address) v.tcp_port in
      rw held.tcp_port (ground (arith, rest))

  cast_role-check :
      (listen connect : Option Bytes)
      → cast_role checks vm (map a_string listen) (map a_string connect)
        ≡ some (check_address checks v (role (record v { listen = listen; connect = connect })))
  unfolding cast_role check_address
  cast_role-check (some l) connect = cast_address-check true l
  cast_role-check none (some c) = cast_address-check false c
  cast_role-check none none = refl

  count-map : {A B : Type 0} (f : A → B) (e : Option A) → count (map f e) ≡ count e
  count-map f none = refl
  count-map f (some a) = refl

  given-map : {A B : Type 0} (f : A → B) (e : Option A) → given (map f e) ≡ given e
  given-map f none = refl
  given-map f (some a) = refl

  count-given : {A : Type 0} (e : Option A) → count e ≡ count_if (given e)
  count-given none = refl
  count-given (some a) = refl

  stored_count-size : stored_count vm all_options ≡ size v
  unfolding stored_count all_options
  stored_count-size =
      rw
        (
          held.listen,
          held.connect,
          held.tcp_port,
          held.ssh_port,
          held.mount_point,
          held.working_directory,
          count-given (vm help_name),
          count-given (vm version_name),
          held.help,
          held.version,
          count-map a_string v.listen,
          count-map a_string v.connect,
          count-map a_uint16 v.tcp_port,
          count-map a_uint16 v.ssh_port,
          count-map a_path v.mount_point,
          count-map a_path v.working_directory,
        )
        (omega arith)

  parse_stored-parse : parse_stored checks vm ≡ some (parse checks v)
  unfolding parse_stored parse
  parse_stored-parse =
      let last = cast_role-check v.listen v.connect in
      rw
        (
          stored_count-size,
          held.listen,
          held.connect,
          held.help,
          held.version,
          given-map a_string v.listen,
          given-map a_string v.connect,
        )
        (ground (arith, last))

-- If Boost stores only declared options, each with a value of its declared type: no cast throws, and
-- `parse` does with the map what it does with the values that the casts take out of it.
pub parse_stored-variables_of :
    (checks : Checks) (vm : VariablesMap)
    → IsStored vm
    → parse_stored checks vm ≡ some (parse checks (variables_of vm))
parse_stored-variables_of checks vm h =
    parse_stored-parse checks vm (variables_of vm) (variables_of-Holds vm h)
