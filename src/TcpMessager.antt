-- ===== src/TcpMessager.antt =====
-- src/tcp_messager.h and src/tcp_messager.cc: the two messagers. Boost's asynchronous operations are
-- started by a handler and end in another: the handlers are functions here, what they start is in the
-- list of actions that they return, and what the operation came to is an argument.
pub mod Queue
pub mod Slave
pub mod Master
pub mod Sending
pub mod Receiving
