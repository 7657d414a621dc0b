-- ===== src/Ssh/Manager.antt =====
-- Class SSHManager of src/ssh_manager.h: a session for each host, by its id.
use group_share_filesystem.Base.{
  ℕ, ◌==◌, if◌then◌else◌, not, Bool, true, false, Bytes, List, [], ◌∷◌, Option, none, some, Outcome,
  ok, ◌>>=◌,
}
use group_share_filesystem.Ssh.Session.{
  SshSession, new_session, Attempt, disconnect, read as session_read,
}

abbrev pub Connections : Type 0
Connections = List (ℕ × SshSession)

unfoldable pub find_session : ℕ → Connections → Option SshSession
find_session id [] = none
find_session id ((i, s) ∷ rest) = if i == id then some s else find_session id rest

abbrev is_some : Option SshSession → Bool
is_some none = false
is_some (some s) = true

unfoldable pub find_host : ℕ → Connections → Bool
unfolding find_session
find_host id connections = is_some (find_session id connections)

-- `emplace`, which keeps an old session; true is an error.
unfoldable pub insert_host : ℕ → Bytes → ℕ → Connections → Connections × Bool
unfolding find_host
insert_host id addr port connections =
    if find_host id connections
    then (connections, true)
    else ((id, new_session addr port) ∷ connections, false)

drop_session : ℕ → Connections → Connections
drop_session id [] = []
drop_session id ((i, s) ∷ rest) = if i == id then rest else (i, s) ∷ drop_session id rest

-- True is an error: there was no such session.
unfoldable pub remove_host : ℕ → Connections → Connections × Bool
unfolding find_host drop_session
remove_host id connections = (drop_session id connections, not (find_host id connections))

-- The session of an id, after a call of it.
unfoldable pub set_session : ℕ → SshSession → Connections → Connections
set_session id s [] = []
set_session id s ((i, old) ∷ rest) =
    if i == id then (i, s) ∷ rest else (i, old) ∷ set_session id s rest

read_by :
    ℕ
    → Bytes
    → Option ℕ
    → Attempt
    → Option ℕ
    → Connections
    → Option SshSession
    → Outcome (Connections × Option ℕ)
read_by id path first attempt second connections none = ok (connections, none)
read_by id path first attempt second connections (some s) = do
  (s', count) ← session_read path first attempt second s
  ok (set_session id s' connections, count)

-- `none` is a negative value.
unfoldable pub read :
    ℕ → Bytes → Option ℕ → Attempt → Option ℕ → Connections → Outcome (Connections × Option ℕ)
unfolding read_by find_session set_session
read id path first attempt second connections =
    read_by id path first attempt second connections (find_session id connections)

-- `~SSHManager`: each session is deleted, which disconnects it.
unfoldable pub destroy : Connections → Outcome (List SshSession)
destroy [] = ok []
destroy ((i, s) ∷ rest) = disconnect s >>= λ closed. destroy rest >>= λ others. ok (closed ∷ others)
