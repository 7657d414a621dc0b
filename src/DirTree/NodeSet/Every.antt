-- ===== src/DirTree/NodeSet/Every.antt =====
-- A property of all elements of a set, under the operations of the set.
use mathlib.Core.Option.{some-injective}
use mathlib.Core.Path.{subst}
use group_share_filesystem.Base.{Bool, false, ◌≡◌, inl, inr, Bool-cases, some, Bytes}
use group_share_filesystem.DirTree.Names.{name_cases, name_eq}
use group_share_filesystem.DirTree.Node.{TreeNode, Children, nil, cons, name}
use group_share_filesystem.DirTree.NodeSet.{insert, insert_all, erase_if, lookup}

abbrev pub Every {κ} : (TreeNode → Type κ) → Children → Type κ
Every P nil = Unit
Every P (cons n rest) = P n × Every P rest

module _ {κ} (P : TreeNode → Type κ) where
  insert-Every : (n : TreeNode) (s : Children) → P n → Every P s → Every P (insert n s)
  unfolding insert
  insert-Every n nil h e = (h, tt)
  insert-Every n (cons m rest) h e = elim (name_cases (name n) (name m)) [
    | inl (lt, _) ↦ rw lt (h, e)
    | inr (inl (ge, gt)) ↦ rw (ge, gt) (e.0, insert-Every n rest h e.1)
    | inr (inr (ge, le, _)) ↦ rw (ge, le) e
  ]

  pub insert_all-Every : (t s : Children) → Every P t → Every P s → Every P (insert_all t s)
  unfolding insert_all
  insert_all-Every nil s f e = e
  insert_all-Every (cons n rest) s f e =
      insert_all-Every rest (insert n s) f.1 (insert-Every n s f.0 e)

  pub erase_if-Every :
      (test : TreeNode → Bool) (s : Children) → Every P s → Every P (erase_if test s)
  unfolding erase_if
  erase_if-Every test nil e = tt
  erase_if-Every test (cons n rest) e = elim (Bool-cases (test n)) [
    | inl t ↦ rw t (erase_if-Every test rest e.1)
    | inr t ↦ rw t (e.0, erase_if-Every test rest e.1)
  ]

  -- What is found is an element.
  pub lookup-Every :
      (k : Bytes) (s : Children) (n : TreeNode) → Every P s → lookup k s ≡ some n → P n
  unfolding lookup
  lookup-Every k nil n e found = cc
  lookup-Every k (cons m rest) n e found = elim (Bool-cases (name_eq (name m) k)) [
    | inl same ↦ subst P (some-injective m n (rw (same, lookup) at found)) e.0
    | inr other ↦ lookup-Every k rest n e.1 (rw (other, lookup) at found)
  ]

pub Every-map {κ μ} :
    (P : TreeNode → Type κ) (Q : TreeNode → Type μ)
    → ((n : TreeNode) → P n → Q n)
    → (s : Children) → Every P s
    → Every Q s
Every-map P Q f nil e = tt
Every-map P Q f (cons n rest) e = (f n e.0, Every-map P Q f rest e.1)

pub Every-both {κ μ} :
    (P : TreeNode → Type κ) (Q : TreeNode → Type μ) (s : Children)
    → Every P s
    → Every Q s
    → Every (λ n. P n × Q n) s
Every-both P Q nil h k = tt
Every-both P Q (cons n rest) h k = ((h.0, k.0), Every-both P Q rest h.1 k.1)

-- What is left after erasing fails the test.
pub erase_if-fails :
    (test : TreeNode → Bool) (s : Children) → Every (λ n. test n ≡ false) (erase_if test s)
unfolding erase_if
erase_if-fails test nil = tt
erase_if-fails test (cons n rest) = elim (Bool-cases (test n)) [
  | inl t ↦ rw t (erase_if-fails test rest)
  | inr t ↦ rw t (t, erase_if-fails test rest)
]
