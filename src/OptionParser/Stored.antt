-- ===== src/OptionParser/Stored.antt =====
-- `OptionParser::parse` of src/option_parser.cc on the map of stored variables, with the casts that it
-- makes: `none` is a cast to another type than the value's, which throws out of `parse`.
use group_share_filesystem.Base.{
  ℕ, ◌==◌, if◌then◌else◌, not, ◌&&◌, ◌||◌, Bool, true, false, Bytes, Option, none, some,
}
use group_share_filesystem.OptionParser.{
  Checks, Parsed, prints_version, prints_help, starts, throws, given, conflict_listen_connect,
  invalid_help, invalid_version, no_address, invalid_address, no_tcp_port, no_mount_point,
  mount_point_missing, mount_point_no_directory, no_working_dir, working_dir_missing,
  working_dir_no_directory,
}
use group_share_filesystem.OptionParser.Declared.{
  Value, a_string, a_uint16, a_path, VariablesMap, all_options, stored_count, listen_name,
  connect_name, tcp_port_name, ssh_port_name, mount_point_name, working_directory_name, help_name,
  version_name,
}

module _ (checks : Checks) (vm : VariablesMap) where
  unfoldable pub cast_working_dir : Bool × Bytes → ℕ → ℕ → Bytes → Option Value → Option Parsed
  cast_working_dir r tcp_port ssh_port mount_point none = some (throws no_working_dir)
  cast_working_dir (is_master, address) tcp_port ssh_port mount_point (some (a_path dir)) = some (
      if not (checks.exists dir)
      then throws working_dir_missing
      else if not (checks.is_directory dir)
      then throws working_dir_no_directory
      else starts (record {
        is_master = is_master;
        is_standby = not is_master;
        address = address;
        tcp_port = tcp_port;
        ssh_port = ssh_port;
        mount_point = mount_point;
        working_dir = dir;
      }))
  cast_working_dir r tcp_port ssh_port mount_point (some _) = none

  unfoldable pub cast_mount_point : Bool × Bytes → ℕ → ℕ → Option Value → Option Parsed
  cast_mount_point r tcp_port ssh_port none = some (throws no_mount_point)
  cast_mount_point r tcp_port ssh_port (some (a_path dir)) =
      if not (checks.exists dir)
      then some (throws mount_point_missing)
      else if not (checks.is_directory dir)
      then some (throws mount_point_no_directory)
      else cast_working_dir r tcp_port ssh_port dir (vm working_directory_name)
  cast_mount_point r tcp_port ssh_port (some _) = none

  unfoldable pub cast_ssh_port : Bool × Bytes → ℕ → Option Value → Option Parsed
  cast_ssh_port r tcp_port none = cast_mount_point r tcp_port 22 (vm mount_point_name)
  cast_ssh_port r tcp_port (some (a_uint16 port)) =
      cast_mount_point r tcp_port port (vm mount_point_name)
  cast_ssh_port r tcp_port (some _) = none

  unfoldable pub cast_tcp_port : Bool × Bytes → Option Value → Option Parsed
  cast_tcp_port r none = some (throws no_tcp_port)
  cast_tcp_port r (some (a_uint16 port)) = cast_ssh_port r port (vm ssh_port_name)
  cast_tcp_port r (some _) = none

  unfoldable pub cast_address : Bool → Bytes → Option Parsed
  cast_address is_master address =
      if not (checks.is_address address)
      then some (throws invalid_address)
      else cast_tcp_port (is_master, address) (vm tcp_port_name)

  -- The values of `--listen` and `--connect`; the second is looked at only without the first.
  unfoldable pub cast_role : Option Value → Option Value → Option Parsed
  cast_role (some (a_string address)) connect = cast_address true address
  cast_role (some _) connect = none
  cast_role none (some (a_string address)) = cast_address false address
  cast_role none (some _) = none
  cast_role none none = some (throws no_address)

  unfoldable pub parse_stored : Option Parsed
  parse_stored =
      let size = stored_count vm all_options in
      if size == 1 && given (vm version_name)
      then some prints_version
      else if (size == 1 && given (vm help_name)) || size == 0
      then some prints_help
      else if given (vm listen_name) && given (vm connect_name)
      then some (throws conflict_listen_connect)
      else if given (vm help_name)
      then some (throws invalid_help)
      else if given (vm version_name)
      then some (throws invalid_version)
      else cast_role (vm listen_name) (vm connect_name)
