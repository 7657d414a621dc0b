-- ===== src/Ssh/Session.antt =====
-- Class SSHSession of src/libssh_wrapper.h and src/libssh_wrapper.cc. What the calls of libssh come to
-- is an argument.
use group_share_filesystem.Base.{
  ℕ, if◌then◌else◌, Bool, true, false, Bytes, [], Option, none, some, Outcome, ok, fault,
  null_pointer, ◌>>=◌,
}
use group_share_filesystem.DirTree.Names.{name_eq}

-- A member that points to an object of libssh. The constructor leaves it indeterminate, and to read
-- such a pointer is undefined.
pub data Pointer : Type 0 where
  indeterminate null live : Pointer

pub record SshSession : Type 0 where
  pub address : Bytes
  pub port : ℕ
  pub ssh_session : Pointer
  pub sftp_session : Pointer
  pub file_handle : Pointer
  pub file_open : Bytes

-- `SSHSession(host, port)`
abbrev pub new_session : Bytes → ℕ → SshSession
new_session host port = record {
  address = host;
  port = port;
  ssh_session = indeterminate;
  sftp_session = indeterminate;
  file_handle = indeterminate;
  file_open = [];
}

-- How far `do_connect` gets: the first call that fails, or none.
pub data Attempt : Type 0 where
  no_session no_options no_connection no_authentication : Attempt
  no_sftp no_sftp_init no_file opened : Attempt

-- The value of a pointer that is read.
value_of : Pointer → Outcome Bool
value_of indeterminate = fault null_pointer
value_of null = ok false
value_of live = ok true

-- True is an error. The members are assigned as far as the calls went.
do_connect : Bytes → Attempt → SshSession → SshSession × Bool
do_connect path no_session s = (record s { ssh_session = null }, true)
do_connect path no_options s = (record s { ssh_session = live }, true)
do_connect path no_connection s = (record s { ssh_session = live }, true)
do_connect path no_authentication s = (record s { ssh_session = live }, true)
do_connect path no_sftp s = (record s { ssh_session = live; sftp_session = null }, true)
do_connect path no_sftp_init s = (record s { ssh_session = live; sftp_session = live }, true)
do_connect path no_file s =
    (record s { ssh_session = live; sftp_session = live; file_handle = null }, true)
do_connect path opened s = (
  record s { ssh_session = live; sftp_session = live; file_handle = live; file_open = path },
  false,
)

abbrev pub closed_session : SshSession → SshSession
closed_session s = record s {
  ssh_session = null;
  sftp_session = null;
  file_handle = null;
  file_open = [];
}

-- Each pointer is read, its object is given back, and it becomes null.
unfoldable pub disconnect : SshSession → Outcome SshSession
unfolding value_of
disconnect s = value_of s.file_handle >>= λ _.
    value_of s.sftp_session >>= λ _. value_of s.ssh_session >>= λ _. ok (closed_session s)

disconnect_if : Bool → SshSession → Outcome (SshSession × Bool)
disconnect_if true s = disconnect s >>= λ s'. ok (s', true)
disconnect_if false s = ok (s, false)

unfoldable pub connect : Bytes → Attempt → SshSession → Outcome (SshSession × Bool)
unfolding do_connect disconnect_if disconnect
connect path attempt s = let (s', failed) = do_connect path attempt s in disconnect_if failed s'

-- What `do_read` returns: a count of bytes, or `none` for a negative value.
give_back : Option ℕ → SshSession → Outcome (SshSession × Option ℕ)
give_back (some n) s = ok (s, some n)
give_back none s = disconnect s >>= λ s'. ok (s', none)

after_connect : Option ℕ → SshSession × Bool → Outcome (SshSession × Option ℕ)
after_connect answer (s, true) = ok (s, none)
after_connect answer (s, false) = give_back answer s

-- The part of `read` after the first attempt, if there was one, has failed.
unfoldable pub reconnect : Bytes → Attempt → Option ℕ → SshSession → Outcome (SshSession × Option ℕ)
unfolding after_connect give_back
reconnect path attempt answer s = connect path attempt s >>= after_connect answer

-- A file is open: read it, and start over if that fails.
try_open : Bytes → Option ℕ → Attempt → Option ℕ → SshSession → Outcome (SshSession × Option ℕ)
try_open path (some n) attempt second s = ok (s, some n)
try_open path none attempt second s = disconnect s >>= reconnect path attempt second

-- `_file_open == path && _sftp_session`
is_connected_to : Bytes → SshSession → Outcome Bool
is_connected_to path s = if name_eq s.file_open path then value_of s.sftp_session else ok false

-- `read`: `first` and `second` are what the two calls of `do_read` return, if they are made.
unfoldable pub read :
    Bytes → Option ℕ → Attempt → Option ℕ → SshSession → Outcome (SshSession × Option ℕ)
unfolding is_connected_to try_open value_of
read path first attempt second s = is_connected_to path s >>= λ connected.
    if connected then try_open path first attempt second s else reconnect path attempt second s
