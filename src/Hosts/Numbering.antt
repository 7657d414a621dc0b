-- ===== src/Hosts/Numbering.antt =====
-- The vector of the master: its own host stands at 0 and at 1, and the host of id `i` at index `i`.
use group_share_filesystem.Base.{
  ℕ, zero, suc, ◌+◌, ◌<◌, ◌≤◌, ◌≡◌, refl, List, [], ◌∷◌, ◌++◌, length, length-append, get_elem?,
  some, ok, arith,
}
use group_share_filesystem.Hosts.{Host, Hosts, size, push, host_at}

-- Ids that count up from a first one.
abbrev pub NumberedFrom : ℕ → List Host → Type 0
NumberedFrom i [] = Unit
NumberedFrom i (h ∷ hs) = (h.id ≡ i) × NumberedFrom (suc i) hs

abbrev pub StartsWithMaster : List Host → Type 0
StartsWithMaster [] = ⊥
StartsWithMaster (own ∷ hs) = (own.id ≡ 1) × NumberedFrom 1 hs

abbrev pub IsNumbered : Hosts → Type 0
IsNumbered h = StartsWithMaster h.hosts

NumberedFrom-append :
    (i : ℕ) (hs : List Host) (h : Host)
    → NumberedFrom i hs
    → h.id ≡ i + length hs
    → NumberedFrom i (hs ++ h ∷ [])
NumberedFrom-append i [] h n e = (omega arith, tt)
NumberedFrom-append i (g ∷ hs) h n e = (n.0, NumberedFrom-append (suc i) hs h n.1 (omega arith))

StartsWithMaster-append :
    (hs : List Host) (host : Host)
    → StartsWithMaster hs
    → host.id ≡ length hs
    → StartsWithMaster (hs ++ host ∷ [])
StartsWithMaster-append [] host n e = absurd n
StartsWithMaster-append (own ∷ hs) host n e = (n.0, NumberedFrom-append 1 hs host n.1 (omega arith))

pub push-IsNumbered :
    (h : Hosts) (host : Host) → IsNumbered h → host.id ≡ size h → IsNumbered (push h host)
unfolding push
push-IsNumbered h host n e = StartsWithMaster-append h.hosts host n e

pub size-push : (h : Hosts) (host : Host) → size (push h host) ≡ suc (size h)
unfolding push
size-push h host = omega (arith, length-append h.hosts (host ∷ []))

get_elem?-NumberedFrom :
    (i j : ℕ) (hs : List Host)
    → NumberedFrom i hs
    → j < length hs
    → (h : Host) × (get_elem? hs j ≡ some h) × (h.id ≡ i + j)
get_elem?-NumberedFrom i j [] n b = absurd (omega arith)
get_elem?-NumberedFrom i zero (h ∷ hs) n b = (h, refl, omega arith)
get_elem?-NumberedFrom i (suc j) (h ∷ hs) n b =
    let (g, e, k) = get_elem?-NumberedFrom (suc i) j hs n.1 (omega arith) in (g, e, omega arith)

get_elem?-StartsWithMaster :
    (hs : List Host) (id : ℕ)
    → StartsWithMaster hs
    → 1 ≤ id
    → id < length hs
    → (host : Host) × (get_elem? hs id ≡ some host) × (host.id ≡ id)
get_elem?-StartsWithMaster [] id n b c = absurd n
get_elem?-StartsWithMaster (own ∷ hs) zero n b c = absurd (omega arith)
get_elem?-StartsWithMaster (own ∷ hs) (suc j) n b c =
    let (g, e, k) = get_elem?-NumberedFrom 1 j hs n.1 (omega arith) in (g, e, omega arith)

-- Every id in range is the index of its host.
pub host_at-IsNumbered :
    (h : Hosts) (id : ℕ)
    → IsNumbered h
    → 1 ≤ id
    → id < size h
    → (host : Host) × (host_at h id ≡ ok host) × (host.id ≡ id)
unfolding host_at
host_at-IsNumbered h id n b c =
    let (g, e, k) = get_elem?-StartsWithMaster h.hosts id n b c in (g, rw e, k)
