-- ===== src/TcpMessager/Slave/Outages.antt =====
-- How the connection of TCPSlaveMessager in src/tcp_messager.cc fails: what the owner is told of it, and
-- what is left under way.
use group_share_filesystem.Base.{
  ◌+◌, ◌≤◌, ◌≡◌, ◌≢◌, refl, sym, ap, subst, ◌∙◌, true, Bytes, List, [], ◌∷◌, ◌++◌, Option, none,
  some, Outcome, ok, ok-injective, arith,
}
use group_share_filesystem.Packet.{Packet}
use group_share_filesystem.TcpMessager.Queue.{enqueue, in_progress}
use group_share_filesystem.TcpMessager.Slave.{
  Reading, idle, connecting, header, body, Action, start_read, start_write, deliver, disconnected,
  SlaveMessager, connected, header_read, body_read, write,
}
use group_share_filesystem.TcpMessager.Slave.Events.{
  told, deliveries, Line, Event, read_ends, posts, write_ends, started_line, end_reading,
  end_writing, step, run,
}
use group_share_filesystem.TcpMessager.Slave.Ending.{over_reading, over_writing, over, HasFront}
use group_share_filesystem.TcpMessager.Slave.Telling.{StaysIdle, Tells, step-Tells}

told-append : (xs ys : List Action) → told (xs ++ ys) ≡ told xs + told ys
told-append [] ys = omega arith
told-append (disconnected ∷ xs) ys = omega (arith, told-append xs ys)
told-append (start_read n ∷ xs) ys = told-append xs ys
told-append (start_write p ∷ xs) ys = told-append xs ys
told-append (deliver p ∷ xs) ys = told-append xs ys

deliveries-append : (xs ys : List Action) → deliveries (xs ++ ys) ≡ deliveries xs ++ deliveries ys
deliveries-append [] ys = refl
deliveries-append (disconnected ∷ xs) ys = deliveries-append xs ys
deliveries-append (start_read n ∷ xs) ys = deliveries-append xs ys
deliveries-append (start_write p ∷ xs) ys = deliveries-append xs ys
deliveries-append (deliver p ∷ xs) ys = ap (◌∷◌ p) (deliveries-append xs ys)

run-Tells : (events : List Event) (l : Line) → HasFront l → Tells l (run events l)
unfolding StaysIdle run
run-Tells [] l front = (l, [], refl, front, λ e. (e, refl), omega arith)
run-Tells (event ∷ events) l front =
    let (l', actions, steps, front', quiet, count) = step-Tells event l front in
    let (l'', more, runs, front'', quiet', count') = run-Tells events l' front' in
    (
      l'',
      actions ++ more,
      rw (steps, runs) refl,
      front'',
      λ e. (
        (quiet' (quiet e).0).0,
        deliveries-append actions more
            ∙ ap (λ ps. ps ++ deliveries more) (quiet e).1
            ∙ (quiet' (quiet e).0).1,
      ),
      omega (arith, told-append actions more, count, count'),
    )

over_reading-bounded : (r : Reading) → over_reading r ≤ 1
over_reading-bounded idle = omega arith
over_reading-bounded connecting = omega arith
over_reading-bounded header = omega arith
over_reading-bounded body = omega arith

over_writing-bounded : (queue : List Packet) (w : Option Packet) → over_writing queue w ≤ 1
over_writing-bounded [] w = omega arith
over_writing-bounded (p ∷ queue) (some w) = omega arith
over_writing-bounded (p ∷ queue) none = omega arith

over-bounded : (l : Line) → over l ≤ 2
over-bounded l = omega (
  arith,
  over_reading-bounded l.messager.reading,
  over_writing-bounded l.messager.write_packets l.writing,
)

pub run-told :
    (events : List Event)
    → (l : Line) × (actions : List Action) × (run events started_line ≡ ok (l, actions))
      × HasFront l
      × (told actions
          ≡ over_reading l.messager.reading + over_writing l.messager.write_packets l.writing)
      × (told actions ≤ 2)
run-told events =
    let (l, actions, runs, front, _, count) = run-Tells events started_line tt in
    (l, actions, runs, front, omega (arith, count), omega (arith, count, over-bounded l))

-- The same of the line that a run has reached.
pub reached-HasFront :
    (events : List Event) {l : Line} {actions : List Action}
    → run events started_line ≡ ok (l, actions)
    → HasFront l × (told actions ≡ over l)
reached-HasFront events {l} {actions} runs =
    let (m, told_by_m, runs', front, count, _) = run-told events in
    let same : ◌≡◌ {A = Line × List Action} (m, told_by_m) (l, actions) =
      ok-injective (sym runs' ∙ runs) in
    subst (λ r. HasFront r.0 × (told r.1 ≡ over r.0)) same (front, count)

-- Nothing is under way, and the packet at the front of the queue keeps other writes from starting.
abbrev IsOver : Line → Type 0
IsOver l =
    (l.messager.reading ≡ idle) × (in_progress l.messager.write_packets ≡ true) × (l.writing ≡ none)

reading-over : (r : Reading) → 1 ≤ over_reading r → r ≡ idle
reading-over idle h = refl
reading-over connecting h = absurd (omega (arith, h))
reading-over header h = absurd (omega (arith, h))
reading-over body h = absurd (omega (arith, h))

writing-over :
    (queue : List Packet) (w : Option Packet)
    → 1 ≤ over_writing queue w
    → (in_progress queue ≡ true) × (w ≡ none)
writing-over [] w h = absurd (omega (arith, h))
writing-over (p ∷ queue) (some w) h = absurd (omega (arith, h))
writing-over (p ∷ queue) none h = (refl, refl)

over-IsOver : (l : Line) → over l ≡ 2 → IsOver l
over-IsOver l twice =
    let read = over_reading-bounded l.messager.reading in
    let wrote = over_writing-bounded l.messager.write_packets l.writing in
    let (busy, silent) =
      writing-over l.messager.write_packets l.writing (omega (arith, twice, read)) in
    (reading-over l.messager.reading (omega (arith, twice, wrote)), busy, silent)

abbrev StaysOver : Outcome (Line × List Action) → Type 0
StaysOver outcome = (l : Line) × (outcome ≡ ok (l, [])) × IsOver l

enqueue-busy :
    (p : Packet) (queue : List Packet)
    → in_progress queue ≡ true
    → (in_progress (enqueue p queue).0 ≡ true) × ((enqueue p queue).1 ≡ [])
unfolding enqueue
enqueue-busy p [] busy = absurd (cc busy)
enqueue-busy p (q ∷ queue) busy = (refl, refl)

step-StaysOver : (event : Event) (l : Line) → IsOver l → StaysOver (step event l)
unfolding step end_reading end_writing write
step-StaysOver (read_ends ec buffer) l (is_idle, busy, silent) =
    (l, rw is_idle refl, (is_idle, busy, silent))
step-StaysOver (posts p) l (is_idle, busy, silent) =
    let (still, nothing) = enqueue-busy p l.messager.write_packets busy in
    (
      record {
        messager = record l.messager { write_packets = (enqueue p l.messager.write_packets).0 };
        writing = none;
      },
      rw (nothing, silent) refl,
      (is_idle, still, refl),
    )
step-StaysOver (write_ends ec count) l (is_idle, busy, silent) =
    (l, rw silent refl, (is_idle, busy, silent))

run-StaysOver : (events : List Event) (l : Line) → IsOver l → StaysOver (run events l)
unfolding run
run-StaysOver [] l is_over = (l, refl, is_over)
run-StaysOver (event ∷ events) l is_over =
    let (l', steps, is_over') = step-StaysOver event l is_over in
    let (l'', runs, is_over'') = run-StaysOver events l' is_over' in
    (l'', rw (steps, runs) refl, is_over'')

-- After the owner has been told twice that the connection is gone, the messager has come to its end:
-- no operation is under way, and whatever comes, none starts and the owner is told no more.
pub run-stops :
    (before later : List Event) {l : Line} {actions : List Action}
    → run before started_line ≡ ok (l, actions)
    → told actions ≡ 2
    → (l' : Line) × (run later l ≡ ok (l', [])) × (l'.messager.reading ≡ idle) × (l'.writing ≡ none)
run-stops before later {l} {actions} runs twice =
    let counted : over l ≡ 2 = sym (reached-HasFront before runs).1 ∙ twice in
    let (l', runs_on, (is_idle, _, silent)) = run-StaysOver later l (over-IsOver l counted) in
    (l', runs_on, is_idle, silent)

failed_read :
    (r : Reading) (buffer : Bytes) (m : SlaveMessager)
    → r ≢ idle
    → (m' : SlaveMessager) × (end_reading r true buffer m ≡ ok (m', disconnected ∷ []))
      × (m'.reading ≡ idle)
      × (m'.write_packets ≡ m.write_packets)
unfolding end_reading connected header_read body_read
failed_read idle buffer m busy = absurd (busy refl)
failed_read connecting buffer m busy = (_, refl, refl, refl)
failed_read header buffer m busy = (_, refl, refl, refl)
failed_read body buffer m busy = (_, refl, refl, refl)

-- When the connection or a read fails, the owner is told, and whatever comes then, it is given no packet.
pub run-read_fails :
    (buffer : Bytes) (later : List Event) (l : Line)
    → HasFront l
    → l.messager.reading ≢ idle
    → (l' : Line) × (more : List Action) × (run (read_ends true buffer ∷ later) l
        ≡ ok (l', disconnected ∷ more))
      × (deliveries more ≡ [])
unfolding StaysIdle run step
run-read_fails buffer later l front busy =
    let (m, fails, is_idle, same) = failed_read l.messager.reading buffer l.messager busy in
    let failed : Line = record l { messager = m } in
    let (l', more, runs, _, quiet, _) = run-Tells later failed (rw same front) in
    (l', more, rw (fails, runs) refl, (quiet is_idle).1)
