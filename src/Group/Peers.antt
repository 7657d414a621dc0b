-- ===== src/Group/Peers.antt =====
-- The connections of a group one by one: what holds of each, and who owns a file.
use group_share_filesystem.Base.{
  All, ℕ, ◌≡◌, ◌≢◌, ◌⊎◌, inl, inr, sym, ◌∙◌, Bytes, List, [], ◌∷◌, ◌++◌, map,
}
use group_share_filesystem.DirTree.Node.{TreeNode, attributes}
use group_share_filesystem.Group.{Peer, post}

-- One element of a list, and those before and behind it.
module _ {ℓ κ} {A : Type ℓ} (P : A → Type κ) where
  pub All-middle : (xs ys : List A) (y : A) → All P xs → P y → All P ys → All P (xs ++ y ∷ ys)
  All-middle [] ys y a h b = (h, b)
  All-middle (x ∷ xs) ys y a h b = (a.0, All-middle xs ys y a.1 h b)

  pub All-append : (xs ys : List A) → All P xs → All P ys → All P (xs ++ ys)
  All-append [] ys a b = b
  All-append (x ∷ xs) ys a b = (a.0, All-append xs ys a.1 b)

  pub All-split : (xs ys : List A) (y : A) → All P (xs ++ y ∷ ys) → All P xs × P y × All P ys
  All-split [] ys y a = (tt, a.0, a.1)
  All-split (x ∷ xs) ys y a = let (b, h, c) = All-split xs ys y a.1 in ((a.0, b), h, c)

  pub All-map {μ} :
      (Q : A → Type μ) (f : A → A) (xs : List A)
      → ((x : A) → P x → Q (f x))
      → All P xs
      → All Q (map f xs)
  All-map Q f [] k a = tt
  All-map Q f (x ∷ xs) k a = (k x a.0, All-map Q f xs k a.1)

-- A connection has that id in its handle.
abbrev pub HasPeer : ℕ → List Peer → Type 0
HasPeer id [] = ⊥
HasPeer id (p ∷ peers) = (p.slave_id ≡ id) ⊎ HasPeer id peers

-- A file belongs to the master or to the slave of a connection.
abbrev pub HasOwner : List Peer → TreeNode → Type 0
HasOwner peers n =
    ((attributes n).host_id ≡ 1)
    ⊎ (((attributes n).host_id ≢ 0) × HasPeer (attributes n).host_id peers)

pub HasOwner-map :
    (xs ys : List Peer) (n : TreeNode)
    → ((attributes n).host_id ≢ 0
        → HasPeer (attributes n).host_id xs
        → HasPeer (attributes n).host_id ys)
    → HasOwner xs n
    → HasOwner ys n
HasOwner-map xs ys n keep (inl e) = inl e
HasOwner-map xs ys n keep (inr (known, h)) = inr (known, keep known h)

HasPeer-left : (id : ℕ) (xs ys : List Peer) → HasPeer id xs → HasPeer id (xs ++ ys)
HasPeer-left id [] ys h = absurd h
HasPeer-left id (x ∷ xs) ys (inl e) = inl e
HasPeer-left id (x ∷ xs) ys (inr h) = inr (HasPeer-left id xs ys h)

pub HasPeer-right : (id : ℕ) (xs ys : List Peer) → HasPeer id ys → HasPeer id (xs ++ ys)
HasPeer-right id [] ys h = h
HasPeer-right id (x ∷ xs) ys h = inr (HasPeer-right id xs ys h)

HasPeer-split : (id : ℕ) (xs ys : List Peer) → HasPeer id (xs ++ ys) → HasPeer id xs ⊎ HasPeer id ys
HasPeer-split id [] ys h = inr h
HasPeer-split id (x ∷ xs) ys (inl e) = inl (inl e)
HasPeer-split id (x ∷ xs) ys (inr h) = elim (HasPeer-split id xs ys h) [
  | inl a ↦ inl (inr a)
  | inr b ↦ inr b
]

HasPeer-post :
    (id : ℕ) (message : Bytes) (peers : List Peer)
    → HasPeer id peers
    → HasPeer id (map (post message) peers)
HasPeer-post id message [] h = absurd h
HasPeer-post id message (p ∷ peers) (inl e) = inl e
HasPeer-post id message (p ∷ peers) (inr h) = inr (HasPeer-post id message peers h)

-- A change of one connection, and a message to the others, keep an id that the others have or that the
-- connection has afterwards.
pub HasPeer-replace :
    (id : ℕ) (message : Bytes) (before behind old new : List Peer)
    → (HasPeer id old → HasPeer id new)
    → HasPeer id (before ++ (old ++ behind))
    → HasPeer id (map (post message) before ++ (new ++ map (post message) behind))
HasPeer-replace id message before behind old new keep h =
    let xs = map (post message) before in
    let ys = map (post message) behind in
    elim (HasPeer-split id before (old ++ behind) h) [
      | inl a ↦ HasPeer-left id xs (new ++ ys) (HasPeer-post id message before a)
      | inr b ↦ HasPeer-right id xs (new ++ ys) (elim (HasPeer-split id old behind b) [
        | inl c ↦ HasPeer-left id new ys (keep c)
        | inr d ↦ HasPeer-right id new ys (HasPeer-post id message behind d)
      ])
    ]

-- The same with no message.
pub HasPeer-swap :
    (id : ℕ) (before behind old new : List Peer)
    → (HasPeer id old → HasPeer id new)
    → HasPeer id (before ++ (old ++ behind))
    → HasPeer id (before ++ (new ++ behind))
HasPeer-swap id before behind old new keep h = elim (HasPeer-split id before (old ++ behind) h) [
  | inl a ↦ HasPeer-left id before (new ++ behind) a
  | inr b ↦ HasPeer-right id before (new ++ behind) (elim (HasPeer-split id old behind b) [
    | inl c ↦ HasPeer-left id new behind (keep c)
    | inr d ↦ HasPeer-right id new behind d
  ])
]

pub no_owner : (id : ℕ) (p : Peer) → p.slave_id ≡ 0 → id ≢ 0 → HasPeer id (p ∷ []) → HasPeer id []
no_owner id p zero known (inl e) = known (sym e ∙ zero)
no_owner id p zero known (inr h) = h

pub another : (id : ℕ) (p : Peer) → id ≢ p.slave_id → HasPeer id (p ∷ []) → HasPeer id []
another id p other (inl e) = other (sym e)
another id p other (inr h) = h
