-- ===== src/TcpMessager/Master/Lines.antt =====
-- The handlers of TCPMasterMessager in src/tcp_messager.cc that work on one connection of the list.
use group_share_filesystem.Base.{
  ℕ, suc, ◌≡◌, refl, sym, ap, subst, ◌∙◌, ◌==◌, ltb, if◌then◌else◌, true, false, List, [], ◌∷◌,
  ◌++◌, append_assoc, length, Option, some, Outcome, ok, fault, bad_index, ◌>>=◌, Holds, Holds-bind,
  Holds-after, Bool-cases, inl, inr, arith,
}
use group_share_filesystem.Packet.{Packet}
use group_share_filesystem.TcpMessager.Slave.{
  Action, start_read, start_write, deliver, disconnected,
}
use group_share_filesystem.TcpMessager.Master.{Connection, tag, at_handle}
use group_share_filesystem.TcpMessager.Master.Ordering.{
  started, begun, line_of, line, Follows, Obeys, if_true, if_false,
}

abbrev pub handles : List (ℕ × Connection) → List ℕ
handles [] = []
handles ((i, c) ∷ rest) = i ∷ handles rest

-- Each connection has the count of those that were accepted before as its handle.
abbrev pub Counted : List ℕ → Type 0
Counted [] = Unit
Counted (i ∷ rest) = (i ≡ length rest) × Counted rest

pub length-handles : (cs : List (ℕ × Connection)) → length (handles cs) ≡ length cs
length-handles [] = refl
length-handles ((i, c) ∷ rest) = ap suc (length-handles rest)

-- What waits for a connection; one that has not been accepted yet has nothing waiting.
abbrev pub before : ℕ → List (ℕ × Connection) → Option (List Packet)
before h cs = if ltb h (length (handles cs)) then line h cs else some []

pub Follows-cong :
    (ps : List Packet) {x x' y y' : Option (List Packet)} {b b' : List Packet}
    → x ≡ x'
    → y ≡ y'
    → b ≡ b'
    → Follows ps x' y' b'
    → Follows ps x y b
Follows-cong ps e f g h = rw (e, f, g) h

pub begun-append :
    (h : ℕ) (xs ys : List (ℕ × Action)) → begun h (xs ++ ys) ≡ begun h xs ++ begun h ys
begun-append h [] ys = refl
begun-append h ((i, a) ∷ xs) ys =
    ap (◌++◌ (if i == h then started (a ∷ []) else [])) (begun-append h xs ys)
    ∙ sym (append_assoc _ (begun h xs) (begun h ys))

pub begun-tag_here :
    (h i : ℕ) (actions : List Action) → (i == h) ≡ true → begun h (tag i actions) ≡ started actions
begun-tag_here h i [] e = refl
begun-tag_here h i (disconnected ∷ actions) e = rw e (begun-tag_here h i actions e)
begun-tag_here h i (start_read n ∷ actions) e = rw e (begun-tag_here h i actions e)
begun-tag_here h i (start_write p ∷ actions) e = rw e (ap (◌∷◌ p) (begun-tag_here h i actions e))
begun-tag_here h i (deliver p ∷ actions) e = rw e (begun-tag_here h i actions e)

pub begun-tag_there :
    (h i : ℕ) (actions : List Action) → (i == h) ≡ false → begun h (tag i actions) ≡ []
begun-tag_there h i [] e = refl
begun-tag_there h i (a ∷ actions) e = rw e (begun-tag_there h i actions e)

-- A handler on the connection of the handle, and on another.
abbrev pub Here :
    ℕ → List Packet → List (ℕ × Connection) → List (ℕ × Connection) × List (ℕ × Action) → Type 0
Here h ps cs r = (handles r.0 ≡ handles cs) × Follows ps (line h cs) (line h r.0) (begun h r.1)

abbrev pub There : ℕ → List (ℕ × Connection) → List (ℕ × Connection) × List (ℕ × Action) → Type 0
There h cs r = (handles r.0 ≡ handles cs) × (line h r.0 ≡ line h cs) × (begun h r.1 ≡ [])

module _ (f : Connection → Outcome (Connection × List Action)) where
  pub at_handle-Here :
      (ps : List Packet)
      → ((c : Connection) → Holds (Obeys ps c) (f c))
      → (h : ℕ) (cs : List (ℕ × Connection)) → Holds (Here h ps cs) (at_handle h f cs)
  unfolding at_handle
  at_handle-Here ps good h [] = tt
  at_handle-Here ps good h ((i, c) ∷ rest) = elim (Bool-cases (i == h)) [
    | inl same ↦ subst (Holds (Here h ps ((i, c) ∷ rest))) (sym (if_true (i == h) _ _ same)) (
        Holds-bind (Obeys ps c) (Here h ps ((i, c) ∷ rest)) (f c) _ (good c) λ r o. (
          refl,
          Follows-cong ps (if_true (i == h) _ _ same) (if_true (i == h) _ _ same)
              (begun-tag_here h i r.1 same) o,
        ))
    | inr other ↦ subst (Holds (Here h ps ((i, c) ∷ rest))) (sym (if_false (i == h) _ _ other)) (
        Holds-bind (Here h ps rest) (Here h ps ((i, c) ∷ rest)) (at_handle h f rest) _
          (at_handle-Here ps good h rest)
          λ r o. (
            ap (◌∷◌ i) o.0,
            Follows-cong ps (if_false (i == h) _ _ other) (if_false (i == h) _ _ other) refl o.1,
          ))
  ]

  pub at_handle-There :
      (h k : ℕ) (cs : List (ℕ × Connection))
      → (k == h) ≡ false
      → Holds (There h cs) (at_handle k f cs)
  unfolding at_handle
  at_handle-There h k [] e = tt
  at_handle-There h k ((i, c) ∷ rest) e = elim (Bool-cases (i == k)) [
    | inl same ↦
        let other : (i == h) ≡ false = ground (arith, same, e) in
        subst (Holds (There h ((i, c) ∷ rest))) (sym (if_true (i == k) _ _ same)) (
          Holds-after (There h ((i, c) ∷ rest)) (f c) _ λ r. (
            refl,
            if_false (i == h) _ _ other ∙ sym (if_false (i == h) _ _ other),
            begun-tag_there h i r.1 other,
          ))
    | inr other ↦ subst (Holds (There h ((i, c) ∷ rest))) (sym (if_false (i == k) _ _ other)) (
        Holds-bind (There h rest) (There h ((i, c) ∷ rest)) (at_handle k f rest) _
          (at_handle-There h k rest e)
          λ r o. (ap (◌∷◌ i) o.0, ap (λ l. if i == h then line_of c else l) o.1, o.2))
  ]

  -- There is no connection of a handle that has not been given.
  pub at_handle-absent :
      (h : ℕ) (cs : List (ℕ × Connection))
      → Counted (handles cs)
      → ltb h (length (handles cs)) ≡ false
      → at_handle h f cs ≡ fault bad_index
  unfolding at_handle
  at_handle-absent h [] good e = refl
  at_handle-absent h ((i, c) ∷ rest) good e =
      let other : (i == h) ≡ false = ground (arith, good.0, e) in
      if_false (i == h) _ _ other
      ∙ ap (λ m. m >>= λ r. ok ((i, c) ∷ r.0, r.1))
          (at_handle-absent h rest good.1 (ground (arith, good.0, e)))
