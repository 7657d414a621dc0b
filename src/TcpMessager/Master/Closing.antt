-- ===== src/TcpMessager/Master/Closing.antt =====
-- How TCPMasterMessager of src/tcp_messager.cc closes its connections.
use group_share_filesystem.Base.{
  ℕ, suc, ◌+◌, ◌≡◌, refl, ap, ◌==◌, ltb, if◌then◌else◌, Bool, true, false, not, ◌&&◌, Bytes, List,
  [], ◌∷◌, ◌++◌, length, Outcome, ok, fault, over_read, Holds, Holds-bind, Holds-ok, Holds-after,
  Holds-if, Holds-map, arith,
}
use group_share_filesystem.Packet.{Packet, decode_size, set_data, size_length}
use group_share_filesystem.TcpMessager.Queue.{enqueue, dequeue}
use group_share_filesystem.TcpMessager.Slave.Events.{told, told-starts}
use group_share_filesystem.TcpMessager.Slave.{
  Action, start_read, start_write, deliver, disconnected, front_size,
}
use group_share_filesystem.TcpMessager.Master.{
  Connection, MasterMessager, new_master_messager, close_connection, write_ends, header_ends,
  body_ends, push_packet, push_if_open, tag, at_handle, write_loop, Event, accepts, reads_header,
  reads_body, writes_all, writes_to, closes, ends_write, handle_event, accept_ends, after_write,
  step, run,
}

-- How often the owner is told that the connection of a handle is gone.
abbrev pub disconnects : ℕ → List (ℕ × Action) → ℕ
disconnects h [] = 0
disconnects h ((i, a) ∷ actions) = (if i == h then told (a ∷ []) else 0) + disconnects h actions

abbrev one_if : Bool → ℕ
one_if true = 1
one_if false = 0

-- How many open connections a handle has.
abbrev pub opens : ℕ → List (ℕ × Connection) → ℕ
opens h [] = 0
opens h ((i, c) ∷ rest) = (if i == h then one_if c.is_open else 0) + opens h rest

-- Handles count up from zero.
abbrev pub given : ℕ → ℕ → ℕ
given h n = if ltb h n then 1 else 0

disconnects-append :
    (h : ℕ) (xs ys : List (ℕ × Action))
    → disconnects h (xs ++ ys) ≡ disconnects h xs + disconnects h ys
disconnects-append h [] ys = omega arith
disconnects-append h ((i, a) ∷ xs) ys = omega (arith, disconnects-append h xs ys)

disconnects-tag :
    (h i : ℕ) (actions : List Action)
    → disconnects h (tag i actions) ≡ (if i == h then told actions else 0)
disconnects-tag h i [] = ground arith
disconnects-tag h i (disconnected ∷ actions) = ground (arith, disconnects-tag h i actions)
disconnects-tag h i (start_read n ∷ actions) = ground (arith, disconnects-tag h i actions)
disconnects-tag h i (start_write p ∷ actions) = ground (arith, disconnects-tag h i actions)
disconnects-tag h i (deliver p ∷ actions) = ground (arith, disconnects-tag h i actions)

-- A connection that closes is reported gone, and no other is.
abbrev Accounts : Connection → Connection × List Action → Type 0
Accounts c r = told r.1 + one_if r.0.is_open ≡ one_if c.is_open

close_connection-Accounts : (c : Connection) → Accounts c (close_connection c)
unfolding close_connection
close_connection-Accounts c = ground arith

push_packet-Accounts : (p : Packet) (c : Connection) → Accounts c (push_packet p c)
unfolding push_packet
push_packet-Accounts p c = omega (arith, told-starts (enqueue p c.write_packets).1)

push_if_open-Accounts : (p : Packet) (c : Connection) → Accounts c (push_if_open p c)
unfolding push_if_open
push_if_open-Accounts p c = ground (arith, push_packet-Accounts p c)

header_ends-Accounts :
    (ec : Bool) (buffer : Bytes) (c : Connection) → Holds (Accounts c) (header_ends ec buffer c)
unfolding header_ends
header_ends-Accounts ec buffer c =
    Holds-if (Accounts c) (not ec && length buffer == size_length) _ (ok (close_connection c))
      (Holds-after (Accounts c) (decode_size c.packet buffer) _ λ p. omega arith)
      (close_connection-Accounts c)

body_ends-Accounts :
    (ec : Bool) (buffer : Bytes) (c : Connection) → Holds (Accounts c) (body_ends ec buffer c)
unfolding body_ends
body_ends-Accounts ec buffer c =
    Holds-if (Accounts c) (not ec && length buffer == c.packet.size) _ (ok (close_connection c))
      (Holds-after (Accounts c) (set_data c.packet buffer) _ λ p. omega arith)
      (close_connection-Accounts c)

after_write-Accounts : (b : Bool) (c : Connection) → Accounts c (after_write b c)
unfolding after_write
after_write-Accounts true c = omega (arith, told-starts (dequeue c.write_packets).1)
after_write-Accounts false c = close_connection-Accounts c

write_ends-Accounts :
    (ec : Bool) (count : ℕ) (c : Connection) → Holds (Accounts c) (write_ends ec count c)
unfolding write_ends
write_ends-Accounts true count c = after_write-Accounts false c
write_ends-Accounts false count c =
    Holds-after (Accounts c) (front_size c.write_packets) _
      λ size. after_write-Accounts (count == size) c

-- The same for a step on all connections, none of which comes or goes.
abbrev Keeps : ℕ → List (ℕ × Connection) → List (ℕ × Connection) × List (ℕ × Action) → Type 0
Keeps h cs r = (disconnects h r.1 + opens h r.0 ≡ opens h cs) × (length r.0 ≡ length cs)

at_handle-Keeps :
    (f : Connection → Outcome (Connection × List Action))
    → ((c : Connection) → Holds (Accounts c) (f c))
    → (h k : ℕ) (cs : List (ℕ × Connection)) → Holds (Keeps h cs) (at_handle k f cs)
unfolding at_handle
at_handle-Keeps f good h k [] = tt
at_handle-Keeps f good h k ((i, c) ∷ rest) =
    Holds-if (Keeps h ((i, c) ∷ rest)) (i == k) _ _
      (Holds-bind (Accounts c) (Keeps h ((i, c) ∷ rest)) (f c) _ (good c)
        λ r e. (ground (arith, disconnects-tag h i r.1, e), refl))
      (Holds-bind (Keeps h rest) (Keeps h ((i, c) ∷ rest)) (at_handle k f rest) _
        (at_handle-Keeps f good h k rest) λ r e. (omega (arith, e.0), ap suc e.1))

write_loop-Keeps : (h : ℕ) (p : Packet) (cs : List (ℕ × Connection)) → Keeps h cs (write_loop p cs)
unfolding write_loop
write_loop-Keeps h p [] = (omega arith, refl)
write_loop-Keeps h p ((i, c) ∷ rest) =
    let (e, same) = write_loop-Keeps h p rest in
    let own = push_if_open p c in
    (
      ground (
        arith,
        disconnects-append h (tag i own.1) (write_loop p rest).1,
        disconnects-tag h i own.1,
        push_if_open-Accounts p c,
        e,
      ),
      ap suc same,
    )

-- The same for any event: the connection that comes is open and is given the next handle.
abbrev Balances : ℕ → List (ℕ × Connection) → List (ℕ × Connection) × List (ℕ × Action) → Type 0
Balances h cs r =
    disconnects h r.1 + opens h r.0 + given h (length cs) ≡ opens h cs + given h (length r.0)

Keeps-Balances :
    (h : ℕ) (cs : List (ℕ × Connection)) (r : List (ℕ × Connection) × List (ℕ × Action))
    → Keeps h cs r
    → Balances h cs r
Keeps-Balances h cs r (e, same) = rw same (omega (arith, e))

handle_event-Balances :
    (h : ℕ) (event : Event) (cs : List (ℕ × Connection))
    → Holds (Balances h cs) (handle_event event cs)
unfolding handle_event accept_ends
handle_event-Balances h (accepts true) cs = omega arith
handle_event-Balances h (accepts false) cs = ground arith
handle_event-Balances h (writes_all p) cs = Keeps-Balances h cs _ (write_loop-Keeps h p cs)
handle_event-Balances h (reads_header k ec buffer) cs =
    Holds-map (Keeps h cs) (Balances h cs) _ (Keeps-Balances h cs)
      (at_handle-Keeps (header_ends ec buffer) (header_ends-Accounts ec buffer) h k cs)
handle_event-Balances h (reads_body k ec buffer) cs =
    Holds-map (Keeps h cs) (Balances h cs) _ (Keeps-Balances h cs)
      (at_handle-Keeps (body_ends ec buffer) (body_ends-Accounts ec buffer) h k cs)
handle_event-Balances h (writes_to p k) cs =
    Holds-map (Keeps h cs) (Balances h cs) _ (Keeps-Balances h cs)
      (at_handle-Keeps (λ c. ok (push_packet p c)) (push_packet-Accounts p) h k cs)
handle_event-Balances h (closes k) cs =
    Holds-map (Keeps h cs) (Balances h cs) _ (Keeps-Balances h cs)
      (at_handle-Keeps (λ c. ok (close_connection c)) close_connection-Accounts h k cs)
handle_event-Balances h (ends_write k ec count) cs =
    Holds-map (Keeps h cs) (Balances h cs) _ (Keeps-Balances h cs)
      (at_handle-Keeps (write_ends ec count) (write_ends-Accounts ec count) h k cs)

abbrev RunBalances : ℕ → MasterMessager → MasterMessager × List (ℕ × Action) → Type 0
RunBalances h m r = Balances h m.connections (r.0.connections, r.1)

run-Balances :
    (h : ℕ) (events : List Event) (m : MasterMessager) → Holds (RunBalances h m) (run events m)
unfolding run step
run-Balances h [] m = omega arith
run-Balances h (event ∷ events) m =
    Holds-bind (RunBalances h m) (RunBalances h m) (step event m) _
      (Holds-bind (Balances h m.connections) (RunBalances h m) (handle_event event m.connections) _
        (handle_event-Balances h event m.connections) λ r e. e)
      λ r e.
        Holds-bind (RunBalances h r.0) (RunBalances h m) (run events r.0) _
          (run-Balances h events r.0) λ s f. omega (arith, e, f, disconnects-append h r.1 s.1)

-- Whatever events come from the start, and in whatever order, if none of them faults: a connection
-- that was accepted is either open, or its owner has been told once that it is gone; no connection
-- is reported gone twice, and none while it is open.
pub disconnects-run :
    (h : ℕ) (events : List Event) {m : MasterMessager} {actions : List (ℕ × Action)}
    → run events new_master_messager ≡ ok (m, actions)
    → disconnects h actions + opens h m.connections
      ≡ (if ltb h (length m.connections) then 1 else 0)
disconnects-run h events {m} {actions} e =
    let balance =
      Holds-ok (RunBalances h new_master_messager) (run events new_master_messager)
        (run-Balances h events new_master_messager) e in
    ground (arith, balance)

-- A write that has ended with success, and whose handler runs after the connection was closed, takes the
-- front of an empty queue.
pub write_ends-close_connection :
    (c : Connection) (count : ℕ)
    → c.is_open ≡ true
    → write_ends false count (close_connection c).0 ≡ fault over_read
unfolding write_ends close_connection
write_ends-close_connection c count e = rw e refl
