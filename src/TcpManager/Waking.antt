-- ===== src/TcpManager/Waking.antt =====
-- The semaphore on which the main thread of a slave waits in `initTCPNetwork` of src/user_fs.cc, over the
-- callbacks of its messager.
use group_share_filesystem.Base.{
  ℕ, suc, ◌≤◌, ◌≡◌, refl, Bool-cases, inl, inr, true, false, List, [], ◌∷◌, some, ok, Holds,
  Holds-bind, Holds-ok, Holds-map, Holds-after, zero, ap, Bytes, arith, ◌⊎◌,
}
use group_share_filesystem.Archive.{Archive}
use group_share_filesystem.DirTree.{remove_not_of, replace_children}
use group_share_filesystem.Packet.{Packet, readable}
use group_share_filesystem.Protocol.{
  SlaveCall, slave_recognized as slave_recognized_call, update_info as update_info_call,
  parse_for_slave,
}
use group_share_filesystem.TcpMessager.Slave.Ending.{over_reading}
use group_share_filesystem.TcpMessager.Slave.{
  idle, Action, start_read, start_write, deliver, disconnected,
}
use group_share_filesystem.TcpMessager.Slave.Events.{Line, Event, started_line, run, told}
use group_share_filesystem.TcpMessager.Slave.Outages.{reached-HasFront}
use group_share_filesystem.TcpManager.Outages.{call_back}
use group_share_filesystem.TcpManager.{read_from_master, dispatch_to_slave}
use group_share_filesystem.UserFs.Start.{wait_for_master}
use group_share_filesystem.UserFs.{UserFs, disconnect_from_master, slave_recognized, update_info}

-- The semaphore has been posted, and the flag says so.
abbrev IsWoken : UserFs → Type 0
IsWoken fs = (fs.main_thread_is_waiting ≡ false) × (1 ≤ fs.slave_wait_sem)

-- The flag tells whether the semaphore has been posted, and from `fs` on it stays posted.
abbrev IsHonest : UserFs → Type 0
IsHonest fs = (fs.main_thread_is_waiting ≡ true) ⊎ IsWoken fs

abbrev Keeps : UserFs → UserFs → Type 0
Keeps fs after = (IsHonest fs → IsHonest after) × (IsWoken fs → IsWoken after)

abbrev Wakes : UserFs → UserFs → Type 0
Wakes fs after = IsHonest fs → IsWoken after

module _ (archive : Archive) (fs : UserFs) where
  disconnect-Wakes : Holds (Wakes fs) (disconnect_from_master archive fs)
  unfolding disconnect_from_master
  disconnect-Wakes = Holds-after (Wakes fs) (remove_not_of fs.host_id fs.dir_tree) _ λ tree.
      elim (Bool-cases fs.main_thread_is_waiting) [
        | inl waits ↦ rw waits (λ h. (refl, omega arith))
        | inr runs ↦ rw runs (λ h. elim h [ inl waits ↦ absurd (cc waits) | inr woken ↦ woken ])
      ]

  recognized-Keeps : (id : ℕ) (d h : Bytes) → Holds (Keeps fs) (slave_recognized archive id d h fs)
  unfolding slave_recognized
  recognized-Keeps id d h = Holds-after (Keeps fs) (archive.load_tree d) _ λ tree.
      Holds-after (Keeps fs) (archive.load_hosts h) _ λ hosts.
        Holds-after (Keeps fs) (replace_children fs.dir_tree tree) _
          λ merged. (λ _. inr (refl, omega arith), λ _. (refl, omega arith))

  update-Keeps : (d h : Bytes) → Holds (Keeps fs) (update_info archive d h fs)
  unfolding update_info
  update-Keeps d h = Holds-after (Keeps fs) (archive.load_tree d) _ λ tree.
      Holds-after (Keeps fs) (archive.load_hosts h) _ λ hosts.
        Holds-after (Keeps fs) (replace_children fs.dir_tree tree) _
          λ merged. (λ honest. honest, λ woken. woken)

  call-Keeps : (call : SlaveCall) → Holds (Keeps fs) (dispatch_to_slave archive fs call)
  unfolding dispatch_to_slave
  call-Keeps (slave_recognized_call id d h) = recognized-Keeps id d h
  call-Keeps (update_info_call d h) = update-Keeps d h
  call-Keeps SlaveCall.ignored = (λ honest. honest, λ woken. woken)

  read-Keeps : (p : Packet) → Holds (Keeps fs) (read_from_master archive p fs)
  unfolding read_from_master
  read-Keeps p = Holds-after (Keeps fs) (parse_for_slave (readable p)) _ call-Keeps

-- What a row of callbacks leaves, if none faults.
abbrev Ends : List Action → UserFs → UserFs → Type 0
Ends actions fs after =
    (IsHonest fs → IsHonest after)
    × (IsWoken fs → IsWoken after)
    × (IsHonest fs → 1 ≤ told actions → IsWoken after)

call_back-Ends :
    (archive : Archive) (actions : List Action) (fs : UserFs)
    → Holds (Ends actions fs) (call_back archive actions fs)
unfolding call_back
call_back-Ends archive [] fs = (λ h. h, λ w. w, λ h one. absurd (omega (arith, one)))
call_back-Ends archive (deliver p ∷ actions) fs =
    Holds-bind (Keeps fs) (Ends (deliver p ∷ actions) fs) (read_from_master archive p fs)
      (call_back archive actions) (read-Keeps archive fs p)
      λ next keeps.
        Holds-map (Ends actions next) (Ends (deliver p ∷ actions) fs)
          (call_back archive actions next)
          (λ after ends.
            (λ h. ends.0 (keeps.0 h), λ w. ends.1 (keeps.1 w), λ h one. ends.2 (keeps.0 h) one))
          (call_back-Ends archive actions next)
call_back-Ends archive (disconnected ∷ actions) fs =
    Holds-bind (Wakes fs) (Ends (disconnected ∷ actions) fs) (disconnect_from_master archive fs)
      (call_back archive actions) (disconnect-Wakes archive fs)
      λ next wakes.
        Holds-map (Ends actions next) (Ends (disconnected ∷ actions) fs)
          (call_back archive actions next)
          (λ after ends.
            (λ h. ends.0 (inr (wakes h)), λ w. ends.1 (wakes (inr w)), λ h one. ends.1 (wakes h)))
          (call_back-Ends archive actions next)
call_back-Ends archive (start_read n ∷ actions) fs = call_back-Ends archive actions fs
call_back-Ends archive (start_write p ∷ actions) fs = call_back-Ends archive actions fs

woken :
    (n : ℕ) (fs : UserFs)
    → fs.slave_wait_sem ≡ n
    → 1 ≤ n
    → (gs : UserFs) × (wait_for_master fs ≡ some gs)
unfolding wait_for_master
woken zero fs e h = absurd (omega (arith, h))
woken (suc n) fs e h = (record fs { slave_wait_sem = n }, rw e refl)

-- Take any run of the messager of a slave whose main thread waits, in which the connection or a read has
-- failed. If none of its callbacks faults, the main thread can go on: it does not block on the semaphore.
pub wait_for_master-run :
    (archive : Archive) (events : List Event) (fs : UserFs) {l : Line} {actions : List Action}
    {after : UserFs}
    → fs.main_thread_is_waiting ≡ true
    → run events started_line ≡ ok (l, actions)
    → l.messager.reading ≡ idle
    → call_back archive actions fs ≡ ok after
    → (next : UserFs) × (wait_for_master after ≡ some next) × (after.main_thread_is_waiting ≡ false)
wait_for_master-run archive events fs {l} {actions} {after} waits runs is_idle calls =
    let counted = (reached-HasFront events runs).1 in
    let one : 1 ≤ told actions = omega (arith, counted, ap over_reading is_idle) in
    let (runs_on, posted) =
      (Holds-ok (Ends actions fs) (call_back archive actions fs) (call_back-Ends archive actions fs)
          calls).2
        (inl waits) one in
    let (next, goes_on) = woken after.slave_wait_sem after refl posted in (next, goes_on, runs_on)
