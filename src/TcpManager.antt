-- ===== src/TcpManager.antt =====
-- Class TCPManager of src/tcp_manager.h and src/tcp_manager.cc: which messager a node runs, the packets
-- that it hands to it, and the handler that an incoming packet goes to.
pub mod Replication
pub mod Rooted
pub mod Joining
pub mod Outages
pub mod Roles
pub mod Early
pub mod Waking
pub mod Overruns
pub mod Returning
use group_share_filesystem.Base.{
  ℕ, if◌then◌else◌, Bool, true, false, Bytes, List, [], ◌∷◌, ◌++◌, Option, none, some, Outcome, ok,
  fault, null_pointer, assertion, ◌>>=◌,
}
use group_share_filesystem.Archive.{Archive}
use group_share_filesystem.Packet.{Packet, empty_packet, encode_data, readable}
use group_share_filesystem.Protocol.{
  MasterCall, new_connection as new_connection_call, SlaveCall,
  slave_recognized as slave_recognized_call, update_info as update_info_call, parse_for_master,
  parse_for_slave,
}
use group_share_filesystem.TcpMessager.Master.{MasterMessager, new_master_messager}
use group_share_filesystem.TcpMessager.Slave.{SlaveMessager, new_slave_messager}
use group_share_filesystem.UserFs.{
  UserFs, Effect, write_all, write_to_peer, close_peer, Reply, new_connection, disconnect_slave,
  disconnect_from_master, slave_recognized, update_info,
}

-- The threads that the manager can start: of the master's messager and of a slave's.
pub data Role : Type 0 where
  master slave : Role

-- A null pointer is `none`, and so is a thread that is not joinable.
pub record TcpManager : Type 0 where
  pub is_master : Bool
  pub is_slave : Bool
  pub master_messager : Option MasterMessager
  pub slave_messager : Option SlaveMessager
  pub thread : Option Role

-- `TCPManager(owner)`
abbrev pub new_tcp_manager : TcpManager
new_tcp_manager = record {
  is_master = false;
  is_slave = false;
  master_messager = none;
  slave_messager = none;
  thread = none;
}

-- What the resolver answers: the endpoints, and whether it reports an error.
pub record Resolved : Type 0 where
  pub endpoints : List Bytes
  pub failed : Bool

-- `TCPMasterMessager::init`: there must be exactly one endpoint. True is an error.
master_init : Resolved → Bool
master_init answer = elim answer.endpoints [
  | [] ↦ true
  | e ∷ more ↦ elim more [ [] ↦ answer.failed | f ∷ rest ↦ true ]
]

-- `TCPSlaveMessager::init`
slave_init : Resolved → Bool
slave_init answer = answer.failed

-- `initialize`: the manager, and whether it failed.
unfoldable pub initialize : Bool → Resolved → TcpManager → TcpManager × Bool
unfolding master_init slave_init
initialize true answer manager = (
  record manager {
    is_master = true;
    master_messager = some new_master_messager;
    slave_messager = none;
  },
  master_init answer,
)
initialize false answer manager = (
  record manager {
    is_slave = true;
    master_messager = none;
    slave_messager = some new_slave_messager;
  },
  slave_init answer,
)

-- The assignment of a new thread, which ends the program if the old one is still joinable.
spawn : Role → TcpManager → Outcome TcpManager
spawn role manager = elim manager.thread [
  | none ↦ ok (record manager { thread = some role })
  | some r ↦ fault assertion
]

unfoldable pub start : TcpManager → Outcome TcpManager
unfolding spawn
start manager =
    if manager.is_master
    then spawn master manager
    else if manager.is_slave
    then spawn slave manager
    else ok manager

follow : {A : Type 0} → Option A → Outcome (Unit {0})
follow none = fault null_pointer
follow (some messager) = ok tt

-- What the new thread runs: it follows the pointer to a messager.
unfoldable pub thread_body : Role → TcpManager → Outcome (Unit {0})
unfolding follow
thread_body master manager = follow manager.master_messager
thread_body slave manager = follow manager.slave_messager

-- A call of a messager.
pub data Request : Type 0 where
  to_all_slaves : Packet → Request
  to_master : Packet → Request
  to_peer : Packet → Request
  close_connection : Request

-- A call through a pointer.
call : {A : Type 0} → Option A → Request → Outcome (List Request)
call none request = fault null_pointer
call (some messager) request = ok (request ∷ [])

unfoldable pub write : TcpManager → Bytes → Outcome (List Request)
unfolding call
write manager message =
    let packet = encode_data empty_packet message in
    if manager.is_master
    then call manager.master_messager (to_all_slaves packet)
    else if manager.is_slave
    then call manager.slave_messager (to_master packet)
    else ok []

unfoldable pub write_to : TcpManager → Bytes → Outcome (List Request)
unfolding call
write_to manager message = call manager.master_messager (to_peer (encode_data empty_packet message))

unfoldable pub close : TcpManager → Outcome (List Request)
unfolding call
close manager = call manager.master_messager close_connection

-- What an effect of UserFS comes to.
unfoldable pub requests_of : TcpManager → Effect → Outcome (List Request)
unfolding write write_to close
requests_of manager (write_all message) = write manager message
requests_of manager (write_to_peer message) = write_to manager message
requests_of manager close_peer = close manager

-- What the destructor does, in order.
pub data Teardown : Type 0 where
  stops joins deletes : Role → Teardown

abbrev for_messager : {A : Type 0} → (Role → Teardown) → Role → Option A → List Teardown
for_messager action role none = []
for_messager action role (some messager) = action role ∷ []

join_thread : Option Role → List Teardown
join_thread none = []
join_thread (some role) = joins role ∷ []

-- `~TCPManager`; the `delete` of a null pointer does nothing.
unfoldable pub destroy : TcpManager → List Teardown
unfolding join_thread
destroy manager =
    for_messager stops master manager.master_messager
    ++ for_messager stops slave manager.slave_messager
    ++ join_thread manager.thread
    ++ for_messager deletes master manager.master_messager
    ++ for_messager deletes slave manager.slave_messager

module _ (archive : Archive) where
  dispatch_to_master : Bytes → ℕ → UserFs → MasterCall → Outcome Reply
  dispatch_to_master address handle_id fs (new_connection_call d h) =
      new_connection archive d h address handle_id fs
  dispatch_to_master address handle_id fs MasterCall.ignored =
      ok (record { fs = fs; slave_id = handle_id; effects = [] })

  -- `read(packet, handle)`, on the master.
  unfoldable pub read_from_slave : Packet → Bytes → ℕ → UserFs → Outcome Reply
  unfolding dispatch_to_master
  read_from_slave packet address handle_id fs = do
    call ← parse_for_master (readable packet)
    dispatch_to_master address handle_id fs call

  dispatch_to_slave : UserFs → SlaveCall → Outcome UserFs
  dispatch_to_slave fs (slave_recognized_call slave_id d h) =
      slave_recognized archive slave_id d h fs
  dispatch_to_slave fs (update_info_call d h) = update_info archive d h fs
  dispatch_to_slave fs SlaveCall.ignored = ok fs

  -- `read(packet)`, on a slave.
  unfoldable pub read_from_master : Packet → UserFs → Outcome UserFs
  unfolding dispatch_to_slave
  read_from_master packet fs = do
    call ← parse_for_slave (readable packet)
    dispatch_to_slave fs call
