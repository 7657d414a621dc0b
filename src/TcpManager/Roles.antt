-- ===== src/TcpManager/Roles.antt =====
-- The two roles of a TCPManager of src/tcp_manager.h and src/tcp_manager.cc.
use group_share_filesystem.Base.{
  ◌≡◌, ◌↔◌, refl, sym, ◌∙◌, if◌then◌else◌, Bool, true, false, ◌||◌, Bool-cases, inl, inr, Bytes,
  List, [], ◌∷◌, some, Outcome, ok, fault, null_pointer,
}
use group_share_filesystem.Packet.{empty_packet, encode_data}
use group_share_filesystem.TcpManager.{
  TcpManager, Role, master, slave, new_tcp_manager, Resolved, initialize, start, thread_body,
  Request, to_all_slaves, to_master, to_peer, close_connection, write, write_to, close, stops,
  joins, deletes, destroy,
}

abbrev pub role_of : Bool → Role
role_of is_master = if is_master then master else slave

abbrev pub initialized : Bool → Resolved → TcpManager
initialized is_master answer = (initialize is_master answer new_tcp_manager).0

-- The call of the messager of a role, and the calls that only the messager of a master has.
abbrev pub broadcast : Bool → Bytes → Request
broadcast is_master message =
    let packet = encode_data empty_packet message in
    if is_master then to_all_slaves packet else to_master packet

abbrev pub master_only : Bool → Request → Outcome (List Request)
master_only is_master request = if is_master then ok (request ∷ []) else fault null_pointer

-- A manager that is initialized once, in either role: it starts the thread of that role, which finds its
-- messager; it writes to the messager of that role, once for a message; calls for one peer reach the
-- messager of a master and follow a null pointer on a slave; and the destructor stops the messager that
-- the thread runs before it joins the thread, and deletes it after that. If no thread was started, the
-- destructor stops and deletes that messager and joins nothing.
pub initialize-destroy :
    (is_master : Bool) (answer : Resolved) (message : Bytes)
    → (started : TcpManager) × (start (initialized is_master answer) ≡ ok started)
      × (started.thread ≡ some (role_of is_master))
      × (thread_body (role_of is_master) started ≡ ok tt)
      × (write started message ≡ ok (broadcast is_master message ∷ []))
      × (write_to started message
          ≡ master_only is_master (to_peer (encode_data empty_packet message)))
      × (close started ≡ master_only is_master close_connection)
      × (destroy started
          ≡ stops (role_of is_master)
            ∷ joins (role_of is_master)
            ∷ deletes (role_of is_master)
            ∷ [])
      × (destroy (initialized is_master answer)
          ≡ stops (role_of is_master) ∷ deletes (role_of is_master) ∷ [])
unfolding initialize start thread_body write write_to close destroy
initialize-destroy true answer message = (_, refl, refl, refl, refl, refl, refl, refl, refl)
initialize-destroy false answer message = (_, refl, refl, refl, refl, refl, refl, refl, refl)

-- Calls of `initialize`, one after the other.
abbrev pub initialize_all : List (Bool × Resolved) → TcpManager → TcpManager
initialize_all [] manager = manager
initialize_all ((is_master, answer) ∷ calls) manager =
    initialize_all calls (initialize is_master answer manager).0

abbrev pub any_master : List (Bool × Resolved) → Bool
any_master [] = false
any_master ((is_master, answer) ∷ calls) = is_master || any_master calls

or_false : (b : Bool) → b ≡ b || false
or_false true = refl
or_false false = refl

or_true : (b : Bool) → true ≡ b || true
or_true true = refl
or_true false = refl

initialize_all-is_master :
    (calls : List (Bool × Resolved)) (manager : TcpManager)
    → (initialize_all calls manager).is_master ≡ manager.is_master || any_master calls
unfolding initialize
initialize_all-is_master [] manager = or_false manager.is_master
initialize_all-is_master ((true, answer) ∷ calls) manager =
    initialize_all-is_master calls (initialize true answer manager).0 ∙ or_true manager.is_master
initialize_all-is_master ((false, answer) ∷ calls) manager =
    initialize_all-is_master calls (initialize false answer manager).0

-- After any calls of `initialize`, a further one makes `write` follow a null pointer exactly when it is
-- for a slave and one of those before was for a master: the flag of the master is never cleared.
pub write-initialize_iff :
    (calls : List (Bool × Resolved)) (is_master : Bool) (answer : Resolved) (message : Bytes)
    → (write (initialize is_master answer (initialize_all calls new_tcp_manager)).0 message
        ≡ fault null_pointer)
      ↔ ((is_master ≡ false) × (any_master calls ≡ true))
unfolding initialize write
write-initialize_iff calls true answer message = (λ e. cc, λ h. cc)
write-initialize_iff calls false answer message =
    let flag = initialize_all-is_master calls new_tcp_manager in
    elim (Bool-cases (any_master calls)) [
      | inl some_master ↦ (λ e. (refl, some_master), λ h. rw (flag, some_master) refl)
      | inr none ↦
          (λ e. absurd (cc (sym (rw (flag, none) at e))), λ h. absurd (cc (sym none ∙ h.1)))
    ]
