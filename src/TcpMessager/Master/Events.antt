-- ===== src/TcpMessager/Master/Events.antt =====
-- What each event of TCPMasterMessager in src/tcp_messager.cc does to the packets for one connection.
use group_share_filesystem.Base.{
  ℕ, ◌+◌, ◌≡◌, refl, sym, ap, subst, ◌∙◌, ◌==◌, ==_iff, ltb, if◌then◌else◌, Bool, true, false, List,
  [], ◌∷◌, append-nil, length, some, Outcome, ok, Holds, Holds-map, Bool-cases, inl, inr, arith,
}
use group_share_filesystem.Packet.{Packet}
use group_share_filesystem.TcpMessager.Slave.{Action}
use group_share_filesystem.TcpMessager.Master.{
  Connection, accepted_connection, close_connection, write_ends, header_ends, body_ends,
  push_packet, push_if_open, tag, at_handle, write_loop, Event, accepts, reads_header, reads_body,
  writes_all, writes_to, closes, ends_write, handle_event, accept_ends,
}
use group_share_filesystem.TcpMessager.Master.Ordering.{
  begun, line, posted_by, accepted, Follows, Follows-same, Obeys, close_connection-Obeys,
  push_packet-Obeys, push_if_open-Obeys, header_ends-Obeys, body_ends-Obeys, write_ends-Obeys,
  if_true, if_false,
}
use group_share_filesystem.TcpMessager.Master.Lines.{
  handles, Counted, length-handles, before, Follows-cong, begun-append, begun-tag_here,
  begun-tag_there, Here, There, at_handle-Here, at_handle-There, at_handle-absent,
}

-- The loop of `write`, for a connection that is in the list and for one that is not.
handles-write_loop :
    (p : Packet) (cs : List (ℕ × Connection)) → handles (write_loop p cs).0 ≡ handles cs
unfolding write_loop
handles-write_loop p [] = refl
handles-write_loop p ((i, c) ∷ rest) = ap (◌∷◌ i) (handles-write_loop p rest)

begun-write_loop :
    (h : ℕ) (p : Packet) (cs : List (ℕ × Connection))
    → Counted (handles cs)
    → ltb h (length (handles cs)) ≡ false
    → begun h (write_loop p cs).1 ≡ []
unfolding write_loop
begun-write_loop h p [] good e = refl
begun-write_loop h p ((i, c) ∷ rest) good e =
    let other : (i == h) ≡ false = ground (arith, good.0, e) in
    begun-append h (tag i (push_if_open p c).1) (write_loop p rest).1
    ∙ rw
        (
          begun-tag_there h i (push_if_open p c).1 other,
          begun-write_loop h p rest good.1 (ground (arith, good.0, e)),
        )
        refl

write_loop-Follows :
    (h : ℕ) (p : Packet) (cs : List (ℕ × Connection))
    → Counted (handles cs)
    → ltb h (length (handles cs)) ≡ true
    → Follows (p ∷ []) (line h cs) (line h (write_loop p cs).0) (begun h (write_loop p cs).1)
unfolding write_loop
write_loop-Follows h p [] good e = absurd (ground (arith, e))
write_loop-Follows h p ((i, c) ∷ rest) good e = elim (Bool-cases (i == h)) [
  | inl same ↦
      Follows-cong (p ∷ []) (if_true (i == h) _ _ same) (if_true (i == h) _ _ same)
        (begun-append h (tag i (push_if_open p c).1) (write_loop p rest).1
          ∙ rw
              (
                begun-tag_here h i (push_if_open p c).1 same,
                begun-write_loop h p rest good.1 (ground (arith, good.0, same)),
              )
              (append-nil _))
        (push_if_open-Obeys p c)
  | inr other ↦
      Follows-cong (p ∷ []) (if_false (i == h) _ _ other) (if_false (i == h) _ _ other)
        (begun-append h (tag i (push_if_open p c).1) (write_loop p rest).1
          ∙ rw (begun-tag_there h i (push_if_open p c).1 other) refl)
        (write_loop-Follows h p rest good.1 (ground (arith, good.0, other, e)))
]

-- After an event that posts these packets to a connection, which may also be accepted later.
abbrev pub Ends :
    ℕ → List Packet → ℕ → List (ℕ × Connection) → List (ℕ × Connection) × List (ℕ × Action) → Type 0
Ends h ps more cs r =
    Counted (handles r.0)
    × (length (handles r.0) ≡ length (handles cs) + more)
    × Follows ps (before h cs) (before h r.0) (begun h r.1)

-- From what a handler does to the line of a connection that has been accepted.
Here-Ends :
    (h : ℕ) (ps : List Packet) (cs : List (ℕ × Connection))
    (r : List (ℕ × Connection) × List (ℕ × Action))
    → Counted (handles cs)
    → ltb h (length (handles cs)) ≡ true
    → Here h ps cs r
    → Ends h ps 0 cs r
Here-Ends h ps cs r good given here = (
  subst Counted (sym here.0) good,
  omega (arith, ap length here.0),
  Follows-cong ps (if_true _ _ _ given) (if_true _ _ _ (ap (λ l. ltb h (length l)) here.0 ∙ given))
      refl here.1,
)

There-Ends :
    (h : ℕ) (cs : List (ℕ × Connection)) (r : List (ℕ × Connection) × List (ℕ × Action))
    → Counted (handles cs)
    → There h cs r
    → Ends h [] 0 cs r
There-Ends h cs r good there = (
  subst Counted (sym there.0) good,
  omega (arith, ap length there.0),
  Follows-cong [] refl
      (ap (λ l. if ltb h (length l) then line h r.0 else some []) there.0
        ∙ ap (λ l. if ltb h (length (handles cs)) then l else some []) there.1)
      there.2 (Follows-same (before h cs)),
)

if_same {ℓ} : {A : Type ℓ} (b : Bool) (x : A) → (if b then x else x) ≡ x
if_same true x = refl
if_same false x = refl

module _ (h : ℕ) (cs : List (ℕ × Connection)) (good : Counted (handles cs)) where
  at_handle-Ends :
      (f : Connection → Outcome (Connection × List Action)) (ps : List Packet)
      → ((c : Connection) → Holds (Obeys ps c) (f c))
      → (k : ℕ) → Holds (Ends h (if k == h then ps else []) 0 cs) (at_handle k f cs)
  at_handle-Ends f ps obeys k = elim (Bool-cases (k == h)) [
    | inr other ↦
        subst (λ qs. Holds (Ends h qs 0 cs) (at_handle k f cs)) (sym (if_false (k == h) _ _ other))
          (Holds-map (There h cs) (Ends h [] 0 cs) (at_handle k f cs) (λ r. There-Ends h cs r good)
            (at_handle-There f h k cs other))
    | inl same ↦
        subst (λ qs. Holds (Ends h qs 0 cs) (at_handle k f cs)) (sym (if_true (k == h) _ _ same))
          (subst (λ i. Holds (Ends h ps 0 cs) (at_handle i f cs)) (sym ((==_iff k h).0 same))
            (elim (Bool-cases (ltb h (length (handles cs)))) [
              | inl given ↦
                  Holds-map (Here h ps cs) (Ends h ps 0 cs) (at_handle h f cs)
                    (λ r. Here-Ends h ps cs r good given) (at_handle-Here f ps obeys h cs)
              | inr absent ↦
                  subst (Holds (Ends h ps 0 cs)) (sym (at_handle-absent f h cs good absent)) tt
            ]))
  ]

  -- A handler that posts nothing.
  at_handle-Ends_none :
      (f : Connection → Outcome (Connection × List Action))
      → ((c : Connection) → Holds (Obeys [] c) (f c))
      → (k : ℕ) → Holds (Ends h [] 0 cs) (at_handle k f cs)
  at_handle-Ends_none f obeys k =
      subst (λ qs. Holds (Ends h qs 0 cs) (at_handle k f cs)) (if_same (k == h) [])
        (at_handle-Ends f [] obeys k)

  write_loop-Ends :
      (p : Packet)
      → Ends h (if ltb h (length (handles cs)) then p ∷ [] else []) 0 cs (write_loop p cs)
  write_loop-Ends p = elim (Bool-cases (ltb h (length (handles cs)))) [
    | inl given ↦
        subst (λ qs. Ends h qs 0 cs (write_loop p cs)) (sym (if_true _ _ _ given))
          (Here-Ends h (p ∷ []) cs (write_loop p cs) good given
            (handles-write_loop p cs, write_loop-Follows h p cs good given))
    | inr absent ↦
        subst (λ qs. Ends h qs 0 cs (write_loop p cs)) (sym (if_false _ _ _ absent))
          (
            subst Counted (sym (handles-write_loop p cs)) good,
            omega (arith, ap length (handles-write_loop p cs)),
            Follows-cong [] (if_false _ _ _ absent)
                (if_false _ _ _ (ap (λ l. ltb h (length l)) (handles-write_loop p cs) ∙ absent))
                (begun-write_loop h p cs good absent) (Follows-same (some [])),
          )
  ]

  -- A connection that is accepted has nothing waiting.
  before-accepted : before h ((length cs, accepted_connection) ∷ cs) ≡ before h cs
  before-accepted = ground (arith, length-handles cs)

  accept_ends-Ends : (ec : Bool) → Ends h [] (accepted (accepts ec)) cs (accept_ends ec cs)
  unfolding accept_ends
  accept_ends-Ends true = (good, omega arith, Follows-same (before h cs))
  accept_ends-Ends false = (
    (sym (length-handles cs), good),
    omega arith,
    Follows-cong [] refl before-accepted (append-nil _ ∙ if_same (length cs == h) [])
        (Follows-same (before h cs)),
  )

  pub handle_event-Ends :
      (event : Event)
      → Holds
          (Ends h (posted_by h (length (handles cs)) event) (accepted event) cs)
          (handle_event event cs)
  unfolding handle_event
  handle_event-Ends (accepts true) = accept_ends-Ends true
  handle_event-Ends (accepts false) = accept_ends-Ends false
  handle_event-Ends (writes_all p) = write_loop-Ends p
  handle_event-Ends (reads_header k ec buffer) =
      at_handle-Ends_none (header_ends ec buffer) (header_ends-Obeys ec buffer) k
  handle_event-Ends (reads_body k ec buffer) =
      at_handle-Ends_none (body_ends ec buffer) (body_ends-Obeys ec buffer) k
  handle_event-Ends (writes_to p k) =
      at_handle-Ends (λ c. ok (push_packet p c)) (p ∷ []) (push_packet-Obeys p) k
  handle_event-Ends (closes k) =
      at_handle-Ends_none (λ c. ok (close_connection c)) (close_connection-Obeys []) k
  handle_event-Ends (ends_write k ec count) =
      at_handle-Ends_none (write_ends ec count) (write_ends-Obeys ec count) k
