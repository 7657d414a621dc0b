-- ===== src/DirTree/NodeSet/Lookup.antt =====
-- What `find` sees after each operation of the set, and that it sees all there is to a set.
use mathlib.Core.Option.{or_else, some-injective}
use group_share_filesystem.Base.{
  Bytes, Bool, true, false, ◌≡◌, ◌∙◌, sym, ap, subst, refl, inl, inr, Bool-cases, arith,
  if◌then◌else◌, Option, none, some,
}
use group_share_filesystem.DirTree.Names.{
  name_ltb, name_eq, name_cases, name_eq_refl, name_eq→eq, name_ltb_asymm,
}
use group_share_filesystem.DirTree.Node.{TreeNode, Children, nil, cons, name}
use group_share_filesystem.DirTree.NodeSet.{insert, insert_all, lookup, erase_if, IsAbove, IsSorted}
use group_share_filesystem.DirTree.NodeSet.Sorted.{insert-IsSorted, IsAbove-trans}

name_eq_of_lt : (a b : Bytes) → name_ltb a b ≡ true → name_eq b a ≡ false
unfolding name_eq
name_eq_of_lt a b h = ground (arith, name_ltb_asymm a b h)

-- A name before all of a set is not in it.
lookup-above : (k : Bytes) (s : Children) → IsAbove k s → lookup k s ≡ none
unfolding lookup
lookup-above k nil a = refl
lookup-above k (cons n rest) a = rw (name_eq_of_lt k (name n) a.0) (lookup-above k rest a.1)

lookup-name : (k : Bytes) (s : Children) (n : TreeNode) → lookup k s ≡ some n → name n ≡ k
unfolding lookup
lookup-name k nil n e = cc
lookup-name k (cons m rest) n e = elim (Bool-cases (name_eq (name m) k)) [
  | inl same ↦ ground (arith, name_eq→eq (name m) k)
  | inr other ↦ lookup-name k rest n (rw other at e)
]

-- So a node that comes before a set takes a name that the set lacks.
pub lookup_fresh :
    (k : Bytes) (n : TreeNode) (s : Children)
    → IsAbove (name n) s
    → name_eq (name n) k ≡ true
    → lookup k s ≡ none
lookup_fresh k n s a e = lookup-above k s (subst (λ j. IsAbove j s) (name_eq→eq (name n) k e) a)

-- An insertion shows at the name of the node, unless the name was there, and nowhere else.
lookup-insert :
    (k : Bytes) (n : TreeNode) (s : Children)
    → IsSorted s
    → lookup k (insert n s)
      ≡ (if name_eq (name n) k then or_else (lookup k s) (some n) else lookup k s)
unfolding insert lookup or_else
lookup-insert k n nil o = refl
lookup-insert k n (cons m rest) o = elim (name_cases (name n) (name m)) [
  | inl (lt, ge) ↦
      rw (lt, lookup)
        (ground
          (arith, lookup_fresh k n (cons m rest) (lt, IsAbove-trans (name n) (name m) rest lt o.0)))
  | inr (inl (ge, gt)) ↦ rw (ge, gt, lookup) (ground (arith, lookup-insert k n rest o.1))
  | inr (inr (ge, le, e)) ↦ rw (ge, le, lookup, e) (ground arith)
]

-- After the insertions the old elements are found first, and then those that came.
pub lookup-insert_all :
    (k : Bytes) (t s : Children)
    → IsSorted s
    → lookup k (insert_all t s) ≡ or_else (lookup k s) (lookup k t)
unfolding insert_all lookup or_else
lookup-insert_all k nil s o = ground arith
lookup-insert_all k (cons n rest) s o =
    lookup-insert_all k rest (insert n s) (insert-IsSorted n s o)
    ∙ rw (lookup-insert k n s o) (ground arith)

-- A found element, if it does not pass the test.
abbrev pub unless : (TreeNode → Bool) → Option TreeNode → Option TreeNode
unless test none = none
unless test (some n) = if test n then none else some n

-- Erasing by a test hides the elements that pass it, and only those.
pub lookup-erase_if :
    (test : TreeNode → Bool) (k : Bytes) (s : Children)
    → IsSorted s
    → lookup k (erase_if test s) ≡ unless test (lookup k s)
unfolding erase_if lookup
lookup-erase_if test k nil o = refl
lookup-erase_if test k (cons n rest) o =
    ground (arith, lookup-erase_if test k rest o.1, lookup_fresh k n rest o.0)

lookup_here : (n : TreeNode) (rest : Children) → lookup (name n) (cons n rest) ≡ some n
unfolding lookup
lookup_here n rest = rw (name_eq_refl (name n))

lookup_rest :
    (n m : TreeNode) (r q : Children)
    → n ≡ m
    → IsAbove (name n) r
    → IsAbove (name m) q
    → (k : Bytes) → lookup k (cons n r) ≡ lookup k (cons m q)
    → lookup k r ≡ lookup k q
unfolding lookup
lookup_rest n m r q e a b k h = elim (Bool-cases (name_eq (name n) k)) [
  | inl same ↦
      lookup_fresh k n r a same
      ∙ sym (lookup_fresh k m q b (subst (λ x. name_eq (name x) k ≡ true) e same))
  | inr other ↦ let other' = subst (λ x. name_eq (name x) k ≡ false) e other in ground arith
]

-- Two sets in which every name finds the same are equal.
pub lookup_ext :
    (s t : Children) → IsSorted s → IsSorted t → ((k : Bytes) → lookup k s ≡ lookup k t) → s ≡ t
unfolding lookup
lookup_ext nil nil o p h = refl
lookup_ext nil (cons m q) o p h = cc (h (name m), lookup_here m q)
lookup_ext (cons n r) nil o p h = cc (h (name n), lookup_here n r)
lookup_ext (cons n r) (cons m q) o p h = elim (name_cases (name n) (name m)) [
  | inl (lt, ge) ↦ cc (
    h (name n),
    lookup_here n r,
    lookup-above (name n) (cons m q) (lt, IsAbove-trans (name n) (name m) q lt p.0),
  )
  | inr (inl (ge, gt)) ↦ cc (
    h (name m),
    lookup_here m q,
    lookup-above (name m) (cons n r) (gt, IsAbove-trans (name m) (name n) r gt o.0),
  )
  | inr (inr (ge, le, e)) ↦
      let head : n ≡ m =
        some-injective n m (
          sym (lookup_here n r) ∙ h (name n) ∙ ap (λ k. lookup k (cons m q)) e ∙ lookup_here m q) in
      cc (head, lookup_ext r q o.1 p.1 (λ k. lookup_rest n m r q head o.0 p.0 k (h k)))
]
