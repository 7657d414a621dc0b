-- ===== src/Lib.antt =====
-- Group-Share Filesystem: a master and its slaves share the files of their working directories over a
-- FUSE mount. The master keeps one tree of all files and a vector of all hosts; it takes in slaves, and
-- sends the tree and the hosts to all of them at each change. The contents of a file are read from its
-- owner over SFTP.
--
-- Which file models which part (a component's own file holds its definitions, the files in its folder
-- the theorems and the parts that are larger):
--   BytesOrder    src/bytes_order.h: host_to_network_16/32/64 and back, and to a pointer. A C string of
--                 bytes is a list of numbers, and a read or a write behind its end is a fault.
--   Packet        class Packet of src/tcp_messager.h: encodeData, decodeSize, setData.
--   Protocol      the three messages: built in src/user_fs.cc, parsed in src/tcp_manager.cc.
--   DirTree       src/dir_tree.h and src/dir_tree.cc. DirTree/Node has the nodes, DirTree/NodeSet the
--                 std::set of children as a list in the order of the names, DirTree/Names that order.
--   Hosts         src/host.h: the vector of hosts.
--   Archive       the interface of saving and loading that the handlers take as a parameter, with the
--                 hypothesis that what was saved loads back.
--   Serialization the serialize and deserialize functions of src/dir_tree.h, src/dir_tree.cc and src/host.h,
--                 which fill that interface from Boost's text archives, a parameter.
--   Scan          the walk over the working directory in UserFS::initDirTree of src/user_fs.cc.
--   UserFs        class UserFS of src/user_fs.cc: newConnection, disconnect, slaveRecognized, updateInfo,
--                 sendUpdate, find. UserFs/Start has the calls that start a node, UserFs/Reading `read`.
--   TcpManager    src/tcp_manager.h and src/tcp_manager.cc: the two messagers and the thread of one of
--                 them, which messager a message goes to, and which call of UserFS a packet leads to.
--                 TcpManager/Outages makes the callbacks of a slave's messager; TcpManager/Early is
--                 UserFS::initTCPNetwork with the messages that come while it runs.
--   TcpMessager   src/tcp_messager.cc: TcpMessager/Slave and TcpMessager/Master have the handlers that Boost
--                 calls when a read, a write or a connection ends. `run` of TcpMessager/Slave/Events and
--                 of TcpMessager/Master takes any row of events; the files beside them follow what the owner
--                 is told, and the packets for one connection. TcpMessager/Sending and Receiving are the two
--                 directions of a slave alone. TcpMessager/Master/Accepting has the calls of the acceptor.
--   Ssh           SSHSession of src/libssh_wrapper.cc and SSHManager of src/ssh_manager.h.
--   FuseInterface src/fuse_interface.cc: getattr, readdir, open, read.
--   OptionParser  src/option_parser.cc: OptionParser/Declared has the options of `initialize`,
--                 OptionParser/Stored `parse` on the map that Boost stores, with its casts, and OptionParser
--                 `parse` on the values of the variables.
--   Program       `main` of src/gsfs.cc.
--   Group         the nodes together, as a step relation: a master, its connections, and the slave at the
--                 other end of each.
--                 Group/Delivery follows a message from the messager of the master to the callbacks of a
--                 slave; Group/Answers and Group/Ownership are about the file system calls on the nodes of
--                 a group, with FuseInterface/Agreement and DirTree/Uniform.
--   Base          shared names, lists, bits, and Outcome: a call returns, or ends in a fault (a null or
--                 indeterminate pointer, a read behind the end, a bad index, a failed assertion, a throw).
--   Tests         runs on concrete data.
--
-- How the parts meet: a packet that a messager delivers goes to TcpManager, which parses it with Protocol
-- and calls a handler of UserFs; the handler returns the new state with the calls of the TCP manager that
-- it makes, in order. The network thread of a node runs one handler after the other, so a handler is one
-- step here.
--
-- Numbers: uint64_t and uint16_t are natural numbers, with the wrap-around written out where the code can
-- reach it. Every recursion but two is on a list, a tree or a listing. `reads` counts the reads that it
-- makes, and two for each message are enough; a tree is loaded to the depth of the length of its text, and
-- a tree that was saved is not deeper.
--
-- A group is followed as long as the saved tree and hosts of the master and its next id fit the 48 bits
-- that a length or an id has on the wire, and from slaves whose introduction does and was written before
-- any message came. TcpManager/Early and TcpManager/Overruns are about what happens otherwise. A slave
-- whose connection breaks is no part of the group any more; TcpManager/Outages follows it.
--
-- Not modelled: the lock, and two threads at one moment (a message that comes while initTCPNetwork runs is
-- handled before or after each access of the main thread); `stop` of a messager, which posts the end of
-- Boost's loop, and so how long the destructor of TCPManager waits for its thread; the resolver and the
-- acceptor, whose answers are arguments; the contents of files; the function pointers of FUSEInterface;
-- Boost, which reads the command line too, libssh and FUSE.
pub mod Base
pub mod BytesOrder
pub mod Packet
pub mod Protocol
pub mod DirTree
pub mod Hosts
pub mod Archive
pub mod Serialization
pub mod Scan
pub mod UserFs
pub mod TcpManager
pub mod TcpMessager
pub mod Ssh
pub mod FuseInterface
pub mod OptionParser
pub mod Program
pub mod Group
pub mod Tests
