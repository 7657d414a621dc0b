-- ===== src/TcpMessager/Master/Ordering.antt =====
-- The sending side of TCPMasterMessager in src/tcp_messager.cc: what becomes of the packets for one
-- connection.
use mathlib.Core.Option.{some-injective}
use group_share_filesystem.Base.{
  ℕ, ◌+◌, ◌≡◌, refl, sym, ap, subst, ◌∙◌, ◌==◌, ltb, if◌then◌else◌, Bool, true, false, not, ◌&&◌,
  Bytes, List, [], ◌∷◌, ◌++◌, append-nil, append_assoc, length, Option, none, some, ok, Holds,
  Holds-after, Holds-if, Bool-cases, inl, inr,
}
use group_share_filesystem.Packet.{Packet, decode_size, set_data, size_length}
use group_share_filesystem.TcpMessager.Queue.{enqueue, dequeue}
use group_share_filesystem.TcpMessager.Sending.{waiting}
use group_share_filesystem.TcpMessager.Slave.{
  Action, start_read, start_write, deliver, disconnected, front_size, starts,
}
use group_share_filesystem.TcpMessager.Master.{
  Connection, close_connection, write_ends, header_ends, body_ends, push_packet, push_if_open,
  Event, accepts, writes_all, writes_to, after_write,
}

pub if_true {ℓ} : {A : Type ℓ} (b : Bool) (x y : A) → b ≡ true → (if b then x else y) ≡ x
if_true b x y e = rw e refl

pub if_false {ℓ} : {A : Type ℓ} (b : Bool) (x y : A) → b ≡ false → (if b then x else y) ≡ y
if_false b x y e = rw e refl

-- The packets whose writing begins.
abbrev pub started : List Action → List Packet
started [] = []
started (start_write p ∷ actions) = p ∷ started actions
started (start_read n ∷ actions) = started actions
started (deliver p ∷ actions) = started actions
started (disconnected ∷ actions) = started actions

-- The same for the connection of a handle.
abbrev pub begun : ℕ → List (ℕ × Action) → List Packet
begun h [] = []
begun h ((i, a) ∷ actions) = (if i == h then started (a ∷ []) else []) ++ begun h actions

-- What waits on an open connection behind the packet that is being written.
abbrev pub line_of : Connection → Option (List Packet)
line_of c = if c.is_open then some (waiting c.write_packets) else none

abbrev pub line : ℕ → List (ℕ × Connection) → Option (List Packet)
line h [] = none
line h ((i, c) ∷ rest) = if i == h then line_of c else line h rest

-- What an event posts to a connection, when so many have been accepted.
abbrev pub posted_by : ℕ → ℕ → Event → List Packet
posted_by h n (writes_all p) = if ltb h n then p ∷ [] else []
posted_by h n (writes_to p k) = if k == h then p ∷ [] else []
posted_by h n _ = []

abbrev pub accepted : Event → ℕ
accepted (accepts false) = 1
accepted _ = 0

-- The packets that are posted to a connection after it was accepted, in their order.
abbrev pub posted : ℕ → ℕ → List Event → List Packet
posted h n [] = []
posted h n (event ∷ events) = posted_by h n event ++ posted h (n + accepted event) events

-- From one line to the next: what begins and what then waits is what waited and what was posted.
abbrev pub Follows :
    List Packet → Option (List Packet) → Option (List Packet) → List Packet → Type 0
Follows packets old new begins =
    (w' : List Packet)
    → new ≡ some w'
    → (w : List Packet) × (old ≡ some w) × (begins ++ w' ≡ w ++ packets)

pub Follows-same : (l : Option (List Packet)) → Follows [] l l []
Follows-same l w e = (w, e, sym (append-nil w))

pub Follows-trans :
    (ps qs : List Packet) (x y z : Option (List Packet)) (b c : List Packet)
    → Follows ps x y b
    → Follows qs y z c
    → Follows (ps ++ qs) x z (b ++ c)
Follows-trans ps qs x y z b c f g w'' e =
    let (w', e', same') = g w'' e in
    let (w, e'', same) = f w' e' in
    (
      w,
      e'',
      append_assoc b c w''
          ∙ ap (◌++◌ b) same'
          ∙ sym (append_assoc b w' qs)
          ∙ ap (λ l. l ++ qs) same
          ∙ append_assoc w ps qs,
    )

-- A handler on one connection.
abbrev pub Obeys : List Packet → Connection → Connection × List Action → Type 0
Obeys packets c r = Follows packets (line_of c) (line_of r.0) (started r.1)

Obeys-closed :
    (packets : List Packet) (c c' : Connection) (actions : List Action)
    → c'.is_open ≡ false
    → Obeys packets c (c', actions)
Obeys-closed packets c c' actions closed w e = cc

Obeys-open :
    (packets : List Packet) (c c' : Connection) (actions : List Action)
    → c'.is_open ≡ c.is_open
    → started actions ++ waiting c'.write_packets ≡ waiting c.write_packets ++ packets
    → Obeys packets c (c', actions)
Obeys-open packets c c' actions same kept w e = elim (Bool-cases c.is_open) [
  | inl opened ↦
      let is : some (waiting c'.write_packets) ≡ some w = rw (same, opened) at e in
      (
        waiting c.write_packets,
        rw opened refl,
        ap (λ l. started actions ++ l) (sym (some-injective (waiting c'.write_packets) w is))
            ∙ kept,
      )
  | inr closed ↦ cc
]

pub close_connection-Obeys : (ps : List Packet) (c : Connection) → Obeys ps c (close_connection c)
unfolding close_connection
close_connection-Obeys ps c = elim (Bool-cases c.is_open) [
  | inl opened ↦ subst (Obeys ps c) (sym (if_true c.is_open _ (c, []) opened)) (
      Obeys-closed ps c (record c { is_open = false; write_packets = [] }) (disconnected ∷ []) refl)
  | inr closed ↦
      subst (Obeys ps c) (sym (if_false c.is_open _ (c, []) closed)) (Obeys-closed ps c c [] closed)
]

started-starts : (ps : List Packet) → started (starts ps) ≡ ps
started-starts [] = refl
started-starts (p ∷ ps) = ap (◌∷◌ p) (started-starts ps)

enqueue-waiting :
    (p : Packet) (queue : List Packet)
    → started (starts (enqueue p queue).1) ++ waiting (enqueue p queue).0 ≡ waiting queue ++ p ∷ []
unfolding enqueue
enqueue-waiting p [] = refl
enqueue-waiting p (q ∷ queue) = refl

dequeue-waiting :
    (queue : List Packet)
    → started (starts (dequeue queue).1) ++ waiting (dequeue queue).0 ≡ waiting queue ++ []
unfolding dequeue
dequeue-waiting [] = refl
dequeue-waiting (p ∷ []) = refl
dequeue-waiting (p ∷ q ∷ queue) = ap (◌∷◌ q) (sym (append-nil queue))

pub push_packet-Obeys : (p : Packet) (c : Connection) → Obeys (p ∷ []) c (push_packet p c)
unfolding push_packet
push_packet-Obeys p c =
    Obeys-open (p ∷ []) c (record c { write_packets = (enqueue p c.write_packets).0 })
      (starts (enqueue p c.write_packets).1) refl (enqueue-waiting p c.write_packets)

pub push_if_open-Obeys : (p : Packet) (c : Connection) → Obeys (p ∷ []) c (push_if_open p c)
unfolding push_if_open
push_if_open-Obeys p c = elim (Bool-cases c.is_open) [
  | inl opened ↦
      subst (Obeys (p ∷ []) c) (sym (if_true c.is_open (push_packet p c) (c, []) opened))
        (push_packet-Obeys p c)
  | inr closed ↦
      subst (Obeys (p ∷ []) c) (sym (if_false c.is_open (push_packet p c) (c, []) closed))
        (Obeys-closed (p ∷ []) c c [] closed)
]

pub header_ends-Obeys :
    (ec : Bool) (buffer : Bytes) (c : Connection) → Holds (Obeys [] c) (header_ends ec buffer c)
unfolding header_ends
header_ends-Obeys ec buffer c =
    Holds-if (Obeys [] c) (not ec && length buffer == size_length) _ (ok (close_connection c))
      (Holds-after (Obeys [] c) (decode_size c.packet buffer) _ λ p. Follows-same (line_of c))
      (close_connection-Obeys [] c)

pub body_ends-Obeys :
    (ec : Bool) (buffer : Bytes) (c : Connection) → Holds (Obeys [] c) (body_ends ec buffer c)
unfolding body_ends
body_ends-Obeys ec buffer c =
    Holds-if (Obeys [] c) (not ec && length buffer == c.packet.size) _ (ok (close_connection c))
      (Holds-after (Obeys [] c) (set_data c.packet buffer) _ λ p. Follows-same (line_of c))
      (close_connection-Obeys [] c)

after_write-Obeys : (b : Bool) (c : Connection) → Obeys [] c (after_write b c)
unfolding after_write
after_write-Obeys true c =
    Obeys-open [] c (record c { write_packets = (dequeue c.write_packets).0 })
      (starts (dequeue c.write_packets).1) refl (dequeue-waiting c.write_packets)
after_write-Obeys false c = close_connection-Obeys [] c

pub write_ends-Obeys :
    (ec : Bool) (count : ℕ) (c : Connection) → Holds (Obeys [] c) (write_ends ec count c)
unfolding write_ends
write_ends-Obeys true count c = after_write-Obeys false c
write_ends-Obeys false count c =
    Holds-after (Obeys [] c) (front_size c.write_packets) _
      λ size. after_write-Obeys (count == size) c
