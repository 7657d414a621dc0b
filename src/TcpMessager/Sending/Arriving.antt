-- ===== src/TcpMessager/Sending/Arriving.antt =====
-- What calls of `write` and ends of writes do to the queue of TCPSlaveMessager in src/tcp_messager.cc.
use group_share_filesystem.Base.{
  ℕ, ◌≡◌, refl, sym, ap, ◌∙◌, Bool, true, false, ◌==◌, inl, inr, Bool-cases, List, [], ◌∷◌, ◌++◌,
  append_assoc, append-nil, Option, none, some, ok,
}
use group_share_filesystem.Packet.{Packet}
use group_share_filesystem.TcpMessager.Queue.{enqueue, dequeue}
use group_share_filesystem.TcpMessager.Slave.{SlaveMessager, write, written}
use group_share_filesystem.TcpMessager.Sending.{
  Sender, SendEvent, post, write_ends, begin_writes, send_step, send_run, posts, front, waiting,
}

-- What is written: the front of the queue while the socket is open. After a write has failed nothing is,
-- and the packet of that write stays at the front.
abbrev pub IsWritten : Bool → Option Packet → List Packet → Type 0
IsWritten true outstanding queue = outstanding ≡ front queue
IsWritten false outstanding [] = ⊥
IsWritten false outstanding (p ∷ queue) = outstanding ≡ none

abbrev posted_by : SendEvent → List Packet
posted_by (post p) = p ∷ []
posted_by (write_ends ec count) = []

posts-cons :
    (e : SendEvent) (events : List SendEvent) → posted_by e ++ posts events ≡ posts (e ∷ events)
posts-cons (post p) events = refl
posts-cons (write_ends ec count) events = refl

abbrev pub sender_with : SlaveMessager → Bool → List Packet → Option Packet → List Packet → Sender
sender_with m is_open queue outstanding started = record {
  messager = record m { is_open = is_open; write_packets = queue };
  outstanding = outstanding;
  started = started;
}

-- What one step does to the queue and to what has been started; a socket that is closed stays so, and
-- no write starts on it.
Advances : SlaveMessager → SendEvent → Bool → List Packet → Option Packet → List Packet → Type 0
Advances m e is_open queue outstanding started =
    (is_open' : Bool) × (queue' : List Packet) × (outstanding' : Option Packet) × (started' : List
      Packet)
    × (send_step e (sender_with m is_open queue outstanding started)
        ≡ ok (sender_with m is_open' queue' outstanding' started'))
    × (started' ++ waiting queue' ≡ (started ++ waiting queue) ++ posted_by e)
    × IsWritten is_open' outstanding' queue'
    × (is_open ≡ false → (is_open' ≡ false) × (started' ≡ started))

step_written-Advances :
    (m : SlaveMessager) (ec : Bool) (count : ℕ) (p : Packet) (queue started : List Packet)
    → Advances m (write_ends ec count) true (p ∷ queue) (some p) started
unfolding Advances send_step written dequeue begin_writes
step_written-Advances m true count p queue started =
    (false, p ∷ queue, none, started, refl, simp append-nil, refl, λ e. (refl, refl))
step_written-Advances m false count p [] started = elim (Bool-cases (count == p.size)) [
  | inl all ↦ (true, [], none, started, rw all refl, simp append-nil, refl, λ e. absurd (cc e))
  | inr other ↦
      (false, p ∷ [], none, started, rw other refl, simp append-nil, refl, λ e. (refl, refl))
]
step_written-Advances m false count p (q ∷ rest) started = elim (Bool-cases (count == p.size)) [
  | inl all ↦ (
    true,
    q ∷ rest,
    some q,
    started ++ q ∷ [],
    rw all refl,
    simp (append_assoc, append-nil),
    refl,
    λ e. absurd (cc e),
  )
  | inr other ↦
      (false, p ∷ q ∷ rest, none, started, rw other refl, simp append-nil, refl, λ e. (refl, refl))
]

send_step-Advances :
    (m : SlaveMessager) (e : SendEvent) (is_open : Bool) (queue : List Packet)
    (outstanding : Option Packet) (started : List Packet)
    → IsWritten is_open outstanding queue
    → Advances m e is_open queue outstanding started
unfolding Advances send_step write enqueue begin_writes
send_step-Advances m (post p) true [] outstanding started w =
    (true, p ∷ [], some p, started ++ p ∷ [], rw w refl, simp append-nil, refl, λ e. absurd (cc e))
send_step-Advances m (post p) true (q ∷ queue) outstanding started w = (
  true,
  q ∷ (queue ++ p ∷ []),
  outstanding,
  started,
  refl,
  simp append_assoc,
  w,
  λ e. absurd (cc e),
)
send_step-Advances m (post p) false [] outstanding started w = absurd w
send_step-Advances m (post p) false (q ∷ queue) outstanding started w = (
  false,
  q ∷ (queue ++ p ∷ []),
  outstanding,
  started,
  refl,
  simp append_assoc,
  w,
  λ e. (refl, refl),
)
send_step-Advances m (write_ends ec count) true [] outstanding started w =
    (true, [], outstanding, started, rw w refl, simp append-nil, w, λ e. absurd (cc e))
send_step-Advances m (write_ends ec count) true (q ∷ queue) outstanding started w =
    rw w (step_written-Advances m ec count q queue started)
send_step-Advances m (write_ends ec count) false [] outstanding started w = absurd w
send_step-Advances m (write_ends ec count) false (q ∷ queue) outstanding started w =
    (false, q ∷ queue, outstanding, started, rw w refl, simp append-nil, w, λ e. (refl, refl))

-- The same of a row of events.
unfoldable pub Arrives :
    SlaveMessager → List SendEvent → Bool → List Packet → Option Packet → List Packet → Type 0
Arrives m events is_open queue outstanding started =
    (is_open' : Bool) × (queue' : List Packet) × (outstanding' : Option Packet) × (started' : List
      Packet)
    × (send_run events (sender_with m is_open queue outstanding started)
        ≡ ok (sender_with m is_open' queue' outstanding' started'))
    × (started' ++ waiting queue' ≡ (started ++ waiting queue) ++ posts events)
    × IsWritten is_open' outstanding' queue'
    × (is_open ≡ false → (is_open' ≡ false) × (started' ≡ started))

pub send_run-Arrives :
    (events : List SendEvent) (m : SlaveMessager) (is_open : Bool) (queue : List Packet)
    (outstanding : Option Packet) (started : List Packet)
    → IsWritten is_open outstanding queue
    → Arrives m events is_open queue outstanding started
unfolding Arrives Advances send_run
send_run-Arrives [] m is_open queue outstanding started w =
    (is_open, queue, outstanding, started, refl, sym (append-nil _), w, λ e. (e, refl))
send_run-Arrives (e ∷ events) m is_open queue outstanding started w =
    let (o, q, out, begun, steps, kept, w', stays) =
      send_step-Advances m e is_open queue outstanding started w in
    let (o', q', out', begun', runs, kept', w'', stays') =
      send_run-Arrives events m o q out begun w' in
    (
      o',
      q',
      out',
      begun',
      rw steps runs,
      kept'
          ∙ ap (λ l. l ++ posts events) kept
          ∙ append_assoc (started ++ waiting queue) (posted_by e) (posts events)
          ∙ ap (◌++◌ (started ++ waiting queue)) (posts-cons e events),
      w'',
      λ closed. ((stays' (stays closed).0).0, (stays' (stays closed).0).1 ∙ (stays closed).1),
    )
