-- ===== src/Ssh/Laws.antt =====
-- When SSHSession of src/libssh_wrapper.cc can be used, and what a read leaves behind.
use group_share_filesystem.Base.{
  ℕ, ◌≡◌, ◌⊎◌, refl, true, false, Bytes, [], Option, none, some, Outcome, ok, fault, null_pointer,
  inl, inr, ap, Bool-cases,
}
use group_share_filesystem.DirTree.Names.{name_eq, name_eq→eq}
use group_share_filesystem.Ssh.Session.{
  live, SshSession, new_session, closed_session, Attempt, no_session, no_file, opened, connect,
  disconnect, reconnect, read,
}

abbrev pub open_at : Bytes → ℕ → Bytes → SshSession
open_at address port path = record {
  address = address;
  port = port;
  ssh_session = live;
  sftp_session = live;
  file_handle = live;
  file_open = path;
}

abbrev pub shut : Bytes → ℕ → SshSession
shut address port = closed_session (new_session address port)

-- Closed, or connected and with a file open.
pub data IsReady (address : Bytes) (port : ℕ) : SshSession → Type 0 where
  is_closed : IsReady address port (shut address port)
  is_open : (path : Bytes) → IsReady address port (open_at address port path)

-- The calls of libssh that fail before `_file_handle` is assigned.
abbrev pub IsEarly : Attempt → Type 0
IsEarly no_file = ⊥
IsEarly opened = ⊥
IsEarly _ = Unit

module _ (address : Bytes) (port : ℕ) where
  -- What a read leaves: the file open if it gave bytes, and else a closed session.
  abbrev pub Leaves : Bytes → SshSession × Option ℕ → Type 0
  Leaves path (s, some n) = s ≡ open_at address port path
  Leaves path (s, none) = s ≡ (shut address port)

  abbrev Connects : Bytes → Attempt → SshSession → Type 0
  Connects path attempt s =
      (connect path attempt s ≡ ok ((shut address port), true))
      ⊎ (connect path attempt s ≡ ok (open_at address port path, false))

  connect-Connects :
      (path : Bytes) (attempt : Attempt) (s : SshSession)
      → IsReady address port s
      → Connects path attempt s
  unfolding connect
  connect-Connects path opened _ is_closed = inr refl
  connect-Connects path opened _ (is_open p) = inr refl
  connect-Connects path no_session _ is_closed = inl refl
  connect-Connects path _ _ is_closed = inl refl
  connect-Connects path no_session _ (is_open p) = inl refl
  connect-Connects path _ _ (is_open p) = inl refl

  -- A result that the theorem below speaks of.
  abbrev pub Reads : Bytes → Outcome (SshSession × Option ℕ) → Type 0
  Reads path o = (r : SshSession × Option ℕ) × (o ≡ ok r) × Leaves path r

  reconnect-Reads :
      (path : Bytes) (attempt : Attempt) (second : Option ℕ) (s : SshSession)
      → IsReady address port s
      → Reads path (reconnect path attempt second s)
  unfolding reconnect disconnect
  reconnect-Reads path attempt none s h = elim (connect-Connects path attempt s h) [
    | inl e ↦ (((shut address port), none), rw e, refl)
    | inr e ↦ (((shut address port), none), rw e, refl)
  ]
  reconnect-Reads path attempt (some n) s h = elim (connect-Connects path attempt s h) [
    | inl e ↦ (((shut address port), none), rw e, refl)
    | inr e ↦ ((open_at address port path, some n), rw e, refl)
  ]

  read-open :
      (path p : Bytes) (first : Option ℕ) (attempt : Attempt) (second : Option ℕ)
      → Reads path (read path first attempt second (open_at address port p))
  unfolding read disconnect
  read-open path p none attempt second = elim (Bool-cases (name_eq p path)) [
    | inr other ↦
        rw (other, read) (reconnect-Reads path attempt second (open_at address port p) (is_open p))
    | inl same ↦ rw (same, read) (reconnect-Reads path attempt second (shut address port) is_closed)
  ]
  read-open path p (some n) attempt second = elim (Bool-cases (name_eq p path)) [
    | inr other ↦
        rw (other, read) (reconnect-Reads path attempt second (open_at address port p) (is_open p))
    | inl same ↦ (
      (open_at address port p, some n),
      rw (same, read),
      ap (open_at address port) (name_eq→eq p path same),
    )
  ]

  -- A session that is closed or has a file open can be read at any path: no call of libssh is given an
  -- indeterminate pointer. If the read gives bytes, the session has that file open; if not, it is closed.
  pub read-Reads :
      (path : Bytes) (first : Option ℕ) (attempt : Attempt) (second : Option ℕ) (s : SshSession)
      → IsReady address port s
      → Reads path (read path first attempt second s)
  unfolding read
  read-Reads path first attempt second _ is_closed = elim (Bool-cases (name_eq [] path)) [
    | inl e ↦ rw (e, read) (reconnect-Reads path attempt second (shut address port) is_closed)
    | inr e ↦ rw (e, read) (reconnect-Reads path attempt second (shut address port) is_closed)
  ]
  read-Reads path first attempt second _ (is_open p) = read-open path p first attempt second

  connect-new_session :
      (path : Bytes) (attempt : Attempt)
      → IsEarly attempt
      → connect path attempt (new_session address port) ≡ fault null_pointer
  unfolding connect
  connect-new_session path no_file h = absurd h
  connect-new_session path opened h = absurd h
  connect-new_session path _ h = refl

  -- A session that was never connected faults in its first read if the connection fails early:
  -- `disconnect` reads the pointers that the constructor has left indeterminate.
  read-new_session :
      (path : Bytes) (first : Option ℕ) (attempt : Attempt) (second : Option ℕ)
      → IsEarly attempt
      → read path first attempt second (new_session address port) ≡ fault null_pointer
  unfolding read reconnect
  read-new_session path first attempt second h = elim (Bool-cases (name_eq [] path)) [
    | inl e ↦ rw (e, read)
    | inr e ↦ rw (e, read, connect-new_session path attempt h)
  ]
