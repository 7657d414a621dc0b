-- ===== src/TcpMessager/Master/InOrder.antt =====
-- The packets for one connection of TCPMasterMessager in src/tcp_messager.cc, over any row of events.
use mathlib.Core.Option.{some-injective}
use group_share_filesystem.Base.{
  ℕ, ◌+◌, ◌≡◌, refl, sym, ap, subst, ◌∙◌, ◌==◌, ltb, false, List, [], ◌∷◌, ◌++◌, length, none, some,
  ok, Holds, Holds-bind, Holds-ok, Bool-cases, inl, inr, arith,
}
use group_share_filesystem.Packet.{Packet}
use group_share_filesystem.TcpMessager.Slave.{Action}
use group_share_filesystem.TcpMessager.Master.{
  Connection, MasterMessager, new_master_messager, Event, handle_event, step, run,
}
use group_share_filesystem.TcpMessager.Master.Ordering.{
  begun, line, posted_by, accepted, posted, Follows, Follows-same, Follows-trans, if_true, if_false,
}
use group_share_filesystem.TcpMessager.Master.Lines.{
  handles, Counted, before, Follows-cong, begun-append,
}
use group_share_filesystem.TcpMessager.Master.Events.{Ends, handle_event-Ends}

-- A row of events.
abbrev RunEnds : ℕ → ℕ → List Event → MasterMessager → MasterMessager × List (ℕ × Action) → Type 0
RunEnds h n events m r =
    Counted (handles r.0.connections)
    × Follows (posted h n events) (before h m.connections) (before h r.0.connections) (begun h r.1)

run-Ends :
    (h : ℕ) (events : List Event) (m : MasterMessager)
    → Counted (handles m.connections)
    → Holds (RunEnds h (length (handles m.connections)) events m) (run events m)
unfolding run step
run-Ends h [] m good = (good, Follows-same (before h m.connections))
run-Ends h (event ∷ events) m good =
    let n = length (handles m.connections) in
    let Goal = RunEnds h n (event ∷ events) m in
    Holds-bind
      (λ r. Ends h (posted_by h n event) (accepted event) m.connections (r.0.connections, r.1)) Goal
      (step event m) _
      (Holds-bind (Ends h (posted_by h n event) (accepted event) m.connections) _
        (handle_event event m.connections) _ (handle_event-Ends h m.connections good event)
        λ r e. e)
      λ r e.
        Holds-bind (RunEnds h (n + accepted event) events r.0) Goal (run events r.0) _
          (subst (λ k. Holds (RunEnds h k events r.0) (run events r.0)) e.1
            (run-Ends h events r.0 e.0))
          λ s f. (
            f.0,
            Follows-cong (posted h n (event ∷ events)) refl refl (begun-append h r.1 s.1) (
                Follows-trans (posted_by h n event) (posted h (n + accepted event) events) _ _ _ _ _
                  e.2 f.1),
          )

line-absent :
    (h : ℕ) (cs : List (ℕ × Connection))
    → Counted (handles cs)
    → ltb h (length (handles cs)) ≡ false
    → line h cs ≡ none
line-absent h [] good e = refl
line-absent h ((i, c) ∷ rest) good e =
    if_false (i == h) _ _ (ground (arith, good.0, e))
    ∙ line-absent h rest good.1 (ground (arith, e))

before-line :
    (h : ℕ) (cs : List (ℕ × Connection)) (w : List Packet)
    → Counted (handles cs)
    → line h cs ≡ some w
    → before h cs ≡ some w
before-line h cs w good e = elim (Bool-cases (ltb h (length (handles cs)))) [
  | inl given ↦ if_true _ _ _ given ∙ e
  | inr absent ↦ let gone = line-absent h cs good absent in cc
]

-- Whatever events come from the start, and in whatever order, if none of them faults: for a connection
-- that is open in the end, the packets whose writing has begun, followed by those that wait behind
-- the one that is being written, are those that were posted to all or to it since it was accepted, each
-- once and in their order.
pub begun-run :
    (h : ℕ) (events : List Event) {m : MasterMessager} {actions : List (ℕ × Action)}
    (w : List Packet)
    → run events new_master_messager ≡ ok (m, actions)
    → line h m.connections ≡ some w
    → begun h actions ++ w ≡ posted h 0 events
begun-run h events {m} {actions} w e l =
    let ends =
      Holds-ok (RunEnds h 0 events new_master_messager) (run events new_master_messager)
        (run-Ends h events new_master_messager tt) e in
    let (w0, start, same) = ends.1 w (before-line h m.connections w ends.0 l) in
    let nothing : before h [] ≡ some [] = if_false (ltb h 0) none (some []) (ground arith) in
    same
    ∙ ap (λ packets. packets ++ posted h 0 events)
        (sym (some-injective [] w0 (sym nothing ∙ start)))
