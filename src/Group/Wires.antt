-- ===== src/Group/Wires.antt =====
-- What the steps of a group do to its connections, against the TCP manager and the messager of the master:
-- the messages on the way to a slave are those whose packets are posted to its connection.
use group_share_filesystem.Base.{
  ℕ, ◌+◌, ◌<◌, ◌≡◌, ◌≢◌, refl, sym, ap, ◌∙◌, ◌==◌, ==_iff, ltb, if◌then◌else◌, Bool, true, false,
  Bytes, List, [], ◌∷◌, ◌++◌, append-nil, append_assoc, map, Option, none, some, Outcome, ok, ◌>>=◌,
  arith,
}
use group_share_filesystem.Packet.{Packet, empty_packet, encode_data}
use group_share_filesystem.TcpMessager.Master.{Event, writes_all, writes_to, closes}
use group_share_filesystem.TcpMessager.Master.Ordering.{posted}
use group_share_filesystem.TcpManager.{
  TcpManager, Request, to_all_slaves, to_master, to_peer, close_connection, Resolved, write,
  write_to, close, initialize, requests_of,
}
use group_share_filesystem.TcpManager.Roles.{initialized}
use group_share_filesystem.UserFs.{Effect, write_all, write_to_peer, close_peer}
use group_share_filesystem.Group.{Peer, post, Focus, at_focus, carry, carry_all}

-- The calls of the messager of a master, for a handler that was called for this handle.
abbrev pub events_of_requests : ℕ → List Request → List Event
events_of_requests h [] = []
events_of_requests h (to_all_slaves p ∷ rest) = writes_all p ∷ events_of_requests h rest
events_of_requests h (to_peer p ∷ rest) = writes_to p h ∷ events_of_requests h rest
events_of_requests h (close_connection ∷ rest) = closes h ∷ events_of_requests h rest
events_of_requests h (to_master p ∷ rest) = events_of_requests h rest

pub events_of : TcpManager → ℕ → List Effect → Outcome (List Event)
events_of manager h [] = ok []
events_of manager h (effect ∷ effects) = do
  requests ← requests_of manager effect
  more ← events_of manager h effects
  ok (events_of_requests h requests ++ more)

-- The messages of the effects for the slave of the handle, and for another.
abbrev pub to_this : List Effect → List Bytes
to_this [] = []
to_this (write_all message ∷ effects) = message ∷ to_this effects
to_this (write_to_peer message ∷ effects) = message ∷ to_this effects
to_this (close_peer ∷ effects) = to_this effects

abbrev pub to_another : List Effect → List Bytes
to_another [] = []
to_another (write_all message ∷ effects) = message ∷ to_another effects
to_another (write_to_peer message ∷ effects) = to_another effects
to_another (close_peer ∷ effects) = to_another effects

abbrev pub packet_of : Bytes → Packet
packet_of message = encode_data empty_packet message

-- Messages behind those that are on their way.
abbrev pub post_each : List Bytes → Peer → Peer
post_each messages p = record p { inbox = p.inbox ++ messages }

post_each-nil : (ps : List Peer) → ps ≡ map (post_each []) ps
post_each-nil [] = refl
post_each-nil (p ∷ ps) = λ i. record p { inbox = sym (append-nil p.inbox) i } ∷ post_each-nil ps i

post_each-cons :
    (message : Bytes) (messages : List Bytes) (ps : List Peer)
    → map (post_each messages) (map (post message) ps) ≡ map (post_each (message ∷ messages)) ps
post_each-cons message messages [] = refl
post_each-cons message messages (p ∷ ps) = λ i.
    record p { inbox = append_assoc p.inbox (message ∷ []) messages i }
    ∷ post_each-cons message messages ps i

before-carry_all :
    (effects : List Effect) (f : Focus)
    → (carry_all effects f).before ≡ map (post_each (to_another effects)) f.before
before-carry_all [] f = post_each-nil f.before
before-carry_all (write_all message ∷ effects) f =
    before-carry_all effects (carry (write_all message) f)
    ∙ post_each-cons message (to_another effects) f.before
before-carry_all (write_to_peer message ∷ effects) f =
    before-carry_all effects (carry (write_to_peer message) f)
before-carry_all (close_peer ∷ effects) f = before-carry_all effects (carry close_peer f)

behind-carry_all :
    (effects : List Effect) (f : Focus)
    → (carry_all effects f).behind ≡ map (post_each (to_another effects)) f.behind
behind-carry_all [] f = post_each-nil f.behind
behind-carry_all (write_all message ∷ effects) f =
    behind-carry_all effects (carry (write_all message) f)
    ∙ post_each-cons message (to_another effects) f.behind
behind-carry_all (write_to_peer message ∷ effects) f =
    behind-carry_all effects (carry (write_to_peer message) f)
behind-carry_all (close_peer ∷ effects) f = behind-carry_all effects (carry close_peer f)

-- The connection of the handle itself, unless the effects close it.
abbrev pub closes_peer : List Effect → Bool
closes_peer [] = false
closes_peer (close_peer ∷ effects) = true
closes_peer (write_all message ∷ effects) = closes_peer effects
closes_peer (write_to_peer message ∷ effects) = closes_peer effects

closed-carry_all :
    (effects : List Effect) (f : Focus) → f.here ≡ none → (carry_all effects f).here ≡ none
closed-carry_all [] f e = e
closed-carry_all (write_all message ∷ effects) f e =
    closed-carry_all effects (carry (write_all message) f) (ap (at_focus (post message)) e)
closed-carry_all (write_to_peer message ∷ effects) f e =
    closed-carry_all effects (carry (write_to_peer message) f) (ap (at_focus (post message)) e)
closed-carry_all (close_peer ∷ effects) f e = closed-carry_all effects (carry close_peer f) refl

post_each_one-cons :
    (message : Bytes) (messages : List Bytes) (here : Option Peer)
    → at_focus (post_each messages) (at_focus (post message) here)
      ≡ at_focus (post_each (message ∷ messages)) here
post_each_one-cons message messages none = refl
post_each_one-cons message messages (some p) =
    λ i. some (record p { inbox = append_assoc p.inbox (message ∷ []) messages i })

post_each_one-nil : (here : Option Peer) → here ≡ at_focus (post_each []) here
post_each_one-nil none = refl
post_each_one-nil (some p) = λ i. some (record p { inbox = sym (append-nil p.inbox) i })

here-carry_all :
    (effects : List Effect) (f : Focus)
    → (carry_all effects f).here
      ≡ (if closes_peer effects then none else at_focus (post_each (to_this effects)) f.here)
here-carry_all [] f = post_each_one-nil f.here
here-carry_all (close_peer ∷ effects) f = closed-carry_all effects (carry close_peer f) refl
here-carry_all (write_all message ∷ effects) f =
    here-carry_all effects (carry (write_all message) f)
    ∙ ap (λ x. if closes_peer effects then none else x)
        (post_each_one-cons message (to_this effects) f.here)
here-carry_all (write_to_peer message ∷ effects) f =
    here-carry_all effects (carry (write_to_peer message) f)
    ∙ ap (λ x. if closes_peer effects then none else x)
        (post_each_one-cons message (to_this effects) f.here)

-- What the effects come to on a master.
abbrev events_for : ℕ → List Effect → List Event
events_for h [] = []
events_for h (write_all message ∷ effects) = writes_all (packet_of message) ∷ events_for h effects
events_for h (write_to_peer message ∷ effects) =
    writes_to (packet_of message) h ∷ events_for h effects
events_for h (close_peer ∷ effects) = closes h ∷ events_for h effects

events_of-master :
    (answer : Resolved) (h : ℕ) (effects : List Effect)
    → events_of (initialized true answer) h effects ≡ ok (events_for h effects)
unfolding events_of requests_of write write_to close initialize
events_of-master answer h [] = refl
events_of-master answer h (write_all message ∷ effects) =
    rw (events_of-master answer h effects) refl
events_of-master answer h (write_to_peer message ∷ effects) =
    rw (events_of-master answer h effects) refl
events_of-master answer h (close_peer ∷ effects) = rw (events_of-master answer h effects) refl

posted-to_another :
    (h k n : ℕ) (effects : List Effect)
    → k < n
    → (h == k) ≡ false
    → posted k n (events_for h effects) ≡ map packet_of (to_another effects)
posted-to_another h k n [] known other = refl
posted-to_another h k n (write_all message ∷ effects) known other =
    let is_given : ltb k n ≡ true = ground (arith, known) in
    let rest = posted-to_another h k (n + 0) effects (omega arith) other in
    rw is_given (ap (◌∷◌ (packet_of message)) rest)
posted-to_another h k n (write_to_peer message ∷ effects) known other =
    rw other (posted-to_another h k (n + 0) effects (omega arith) other)
posted-to_another h k n (close_peer ∷ effects) known other =
    posted-to_another h k (n + 0) effects (omega arith) other

posted-to_this :
    (h n : ℕ) (effects : List Effect)
    → h < n
    → posted h n (events_for h effects) ≡ map packet_of (to_this effects)
posted-to_this h n [] known = refl
posted-to_this h n (write_all message ∷ effects) known =
    let is_given : ltb h n ≡ true = ground (arith, known) in
    let rest = posted-to_this h (n + 0) effects (omega arith) in
    rw is_given (ap (◌∷◌ (packet_of message)) rest)
posted-to_this h n (write_to_peer message ∷ effects) known =
    let self : (h == h) ≡ true = (==_iff h h).1 refl in
    rw self (ap (◌∷◌ (packet_of message)) (posted-to_this h (n + 0) effects (omega arith)))
posted-to_this h n (close_peer ∷ effects) known = posted-to_this h (n + 0) effects (omega arith)

-- The calls that a handler of the master makes for the connection `h`, of `n` that were accepted, with a
-- TCP manager that was initialized as the master's: no call follows a null pointer; each other connection
-- `k` has the messages put on its way whose packets the TCP manager and the messager post to it, in that
-- order, and so has the connection of the handler unless the calls close it.
pub carry_all-posted :
    (answer : Resolved) (h k n : ℕ) (effects : List Effect) (f : Focus)
    → h < n
    → k < n
    → h ≢ k
    → (events : List Event) × (events_of (initialized true answer) h effects ≡ ok events)
      × ((carry_all effects f).before ≡ map (post_each (to_another effects)) f.before)
      × ((carry_all effects f).behind ≡ map (post_each (to_another effects)) f.behind)
      × (posted k n events ≡ map packet_of (to_another effects))
      × ((carry_all effects f).here
          ≡ (if closes_peer effects then none else at_focus (post_each (to_this effects)) f.here))
      × (posted h n events ≡ map packet_of (to_this effects))
carry_all-posted answer h k n effects f known_h known_k other = (
  events_for h effects,
  events_of-master answer h effects,
  before-carry_all effects f,
  behind-carry_all effects f,
  posted-to_another h k n effects known_k (ground (arith, other)),
  here-carry_all effects f,
  posted-to_this h n effects known_h,
)
