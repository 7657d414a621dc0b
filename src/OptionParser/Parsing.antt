-- ===== src/OptionParser/Parsing.antt =====
-- When `OptionParser::parse` of src/option_parser.cc lets the program start.
use group_share_filesystem.Base.{
  ℕ, if◌then◌else◌, ◌≡◌, ◌≢◌, ◌↔◌, refl, sym, ap, ◌∙◌, not, Bool, true, false, ◌&&◌, Bytes, Option,
  none, some, arith,
}
use group_share_filesystem.OptionParser.{
  check_address, check_working_dir, check_mount_point, check_tcp_port, Variables, Checks, Options,
  starts, parse, size, role, given, ssh_port_of,
}

-- A directory that is there.
abbrev pub IsPlace : Checks → Bytes → Type 0
IsPlace checks dir = (checks.exists dir ≡ true) × (checks.is_directory dir ≡ true)

-- A command line that asks for what the options say, and for nothing else.
pub record Asks (checks : Checks) (vm : Variables) (o : Options) : Type 0 where
  pub no_help : vm.help ≡ false
  pub no_version : vm.version ≡ false
  pub listens : vm.listen ≡ (if o.is_master then some o.address else none)
  pub connects : vm.connect ≡ (if o.is_master then none else some o.address)
  pub one_role : o.is_standby ≡ not o.is_master
  pub address_ok : checks.is_address o.address ≡ true
  pub tcp_port_given : vm.tcp_port ≡ some o.tcp_port
  pub ssh_port_or_22 : ssh_port_of vm.ssh_port ≡ o.ssh_port
  pub mount_point_given : vm.mount_point ≡ some o.mount_point
  pub mount_point_ok : IsPlace checks o.mount_point
  pub working_dir_given : vm.working_directory ≡ some o.working_dir
  pub working_dir_ok : IsPlace checks o.working_dir

module _ (checks : Checks) (vm : Variables) (o : Options) where
  opened :
      vm.help ≡ false
      → vm.version ≡ false
      → size vm ≢ 0
      → given vm.listen && given vm.connect ≡ false
      → parse checks vm ≡ check_address checks vm (role vm)
  unfolding parse
  opened h v n c = ground (arith, h, v, n, c)

  from_working_dir :
      (is_master : Bool) (address : Bytes) (tcp_port : ℕ) (mount_point : Bytes) (dir : Option Bytes)
      → check_working_dir checks vm (is_master, address) tcp_port mount_point dir ≡ starts o
      → (dir ≡ some o.working_dir)
        × IsPlace checks o.working_dir
        × (o.is_master ≡ is_master)
        × (o.is_standby ≡ not is_master)
        × (o.address ≡ address)
        × (o.tcp_port ≡ tcp_port)
        × (ssh_port_of vm.ssh_port ≡ o.ssh_port)
        × (o.mount_point ≡ mount_point)
  unfolding check_working_dir
  from_working_dir is_master address tcp_port mount_point none e = cc
  from_working_dir is_master address tcp_port mount_point (some dir) e = ground (arith, e)

  from_mount_point :
      (is_master : Bool) (address : Bytes) (tcp_port : ℕ) (mount_point : Option Bytes)
      → check_mount_point checks vm (is_master, address) tcp_port mount_point ≡ starts o
      → (dir : Bytes) × (mount_point ≡ some dir)
        × IsPlace checks dir
        × (check_working_dir checks vm (is_master, address) tcp_port dir vm.working_directory
            ≡ starts o)
  unfolding check_mount_point
  from_mount_point is_master address tcp_port none e = cc
  from_mount_point is_master address tcp_port (some dir) e =
      (dir, refl, (ground (arith, e), ground (arith, e)), ground (arith, e))

  from_tcp_port :
      (r : Bool × Bytes) (tcp_port : Option ℕ)
      → check_tcp_port checks vm r tcp_port ≡ starts o
      → (port : ℕ) × (tcp_port ≡ some port)
        × (check_mount_point checks vm r port vm.mount_point ≡ starts o)
  unfolding check_tcp_port
  from_tcp_port r none e = cc
  from_tcp_port r (some port) e = (port, refl, e)

  from_address :
      (r : Option (Bool × Bytes))
      → check_address checks vm r ≡ starts o
      → (is_master : Bool) × (address : Bytes) × (r ≡ some (is_master, address))
        × (checks.is_address address ≡ true)
        × (check_tcp_port checks vm (is_master, address) vm.tcp_port ≡ starts o)
  unfolding check_address
  from_address none e = cc
  from_address (some (is_master, address)) e =
      (is_master, address, refl, ground (arith, e), ground (arith, e))

  from_parse :
      parse checks vm ≡ starts o
      → (vm.help ≡ false)
        × (vm.version ≡ false)
        × (given vm.listen && given vm.connect ≡ false)
        × (check_address checks vm (role vm) ≡ starts o)
  unfolding parse
  from_parse e = ground (arith, e)

  from_role :
      (listen connect : Option Bytes) (is_master : Bool) (address : Bytes)
      → given listen && given connect ≡ false
      → role (record vm { listen = listen; connect = connect }) ≡ some (is_master, address)
      → (listen ≡ (if is_master then some address else none))
        × (connect ≡ (if is_master then none else some address))
  from_role none none is_master address c e = cc
  from_role (some l) (some d) is_master address c e = cc
  from_role none (some d) is_master address c e = ground (arith, e)
  from_role (some l) none is_master address c e = ground (arith, e)

  Asks-parse : parse checks vm ≡ starts o → Asks checks vm o
  Asks-parse e =
      let (h, v, c, e1) = from_parse e in
      let (is_master, address, chosen, good, e2) = from_address (role vm) e1 in
      let (port, tcp, e3) = from_tcp_port (is_master, address) vm.tcp_port e2 in
      let (mount_point, mounted, place, e4) =
        from_mount_point is_master address port vm.mount_point e3 in
      let (dir, dir_place, m, s, a, p, ssh, mp) =
        from_working_dir is_master address port mount_point vm.working_directory e4 in
      let (l, d) = from_role vm.listen vm.connect is_master address c chosen in
      record {
        no_help = h;
        no_version = v;
        listens = rw (m, a) l;
        connects = rw (m, a) d;
        one_role = s ∙ ap not (sym m);
        address_ok = ap checks.is_address a ∙ good;
        tcp_port_given = tcp ∙ ap some (sym p);
        ssh_port_or_22 = ssh;
        mount_point_given = rw mp mounted;
        mount_point_ok = rw mp place;
        working_dir_given = dir;
        working_dir_ok = dir_place;
      }

  parse-Asks : Asks checks vm o → parse checks vm ≡ starts o
  unfolding check_address check_tcp_port check_mount_point check_working_dir
  parse-Asks a =
      let open_role : role vm ≡ some (o.is_master, o.address) =
        ground (arith, a.listens, a.connects) in
      opened a.no_help a.no_version (ground (arith, a.tcp_port_given))
        (ground (arith, a.listens, a.connects))
      ∙ rw
          (
            open_role, a.address_ok, a.tcp_port_given, a.mount_point_given, a.mount_point_ok,
            a.working_dir_given, a.working_dir_ok,
          )
          (ground (arith, a.one_role, a.ssh_port_or_22))

-- The program starts with some options exactly when the command line asks for them: one of `--listen` and
-- `--connect` with an address, the TCP port, the SSH port or else 22, two directories that are there, and
-- neither `--help` nor `--version`.
pub parse_iff :
    (checks : Checks) (vm : Variables) (o : Options)
    → (parse checks vm ≡ starts o) ↔ Asks checks vm o
parse_iff checks vm o = (Asks-parse checks vm o, parse-Asks checks vm o)
