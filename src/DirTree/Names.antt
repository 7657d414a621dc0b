-- ===== src/DirTree/Names.antt =====
-- The order of `std::string`, by which `TreeNode::operator<` of src/dir_tree.h compares names.
use group_share_filesystem.Base.{
  ltb, if◌then◌else◌, Bytes, [], ◌∷◌, Bool, true, false, ◌≡◌, ◌⊎◌, inl, inr, refl, Bool-cases,
  arith, not, ◌||◌,
}

-- Lexicographic, byte by byte; a proper prefix comes first.
unfoldable pub name_ltb : Bytes → Bytes → Bool
name_ltb [] [] = false
name_ltb [] (y ∷ ys) = true
name_ltb (x ∷ xs) [] = false
name_ltb (x ∷ xs) (y ∷ ys) = if ltb x y then true else if ltb y x then false else name_ltb xs ys

-- `operator==` of names.
unfoldable pub name_eq : Bytes → Bytes → Bool
name_eq a b = not (name_ltb a b || name_ltb b a)

name_ltb_irrefl : (a : Bytes) → name_ltb a a ≡ false
unfolding name_ltb
name_ltb_irrefl [] = refl
name_ltb_irrefl (x ∷ xs) = ground (arith, name_ltb_irrefl xs)

pub name_ltb_trans :
    (a b c : Bytes) → name_ltb a b ≡ true → name_ltb b c ≡ true → name_ltb a c ≡ true
unfolding name_ltb
name_ltb_trans [] [] c h k = cc
name_ltb_trans [] (y ∷ ys) [] h k = cc
name_ltb_trans [] (y ∷ ys) (z ∷ zs) h k = refl
name_ltb_trans (x ∷ xs) [] c h k = cc
name_ltb_trans (x ∷ xs) (y ∷ ys) [] h k = cc
name_ltb_trans (x ∷ xs) (y ∷ ys) (z ∷ zs) h k = ground (arith, name_ltb_trans xs ys zs)

pub name_ltb_asymm : (a b : Bytes) → name_ltb a b ≡ true → name_ltb b a ≡ false
unfolding name_ltb
name_ltb_asymm [] [] h = cc
name_ltb_asymm [] (y ∷ ys) h = refl
name_ltb_asymm (x ∷ xs) [] h = cc
name_ltb_asymm (x ∷ xs) (y ∷ ys) h = ground (arith, name_ltb_asymm xs ys)

-- Names of which neither comes first are equal.
name_ltb_connex : (a b : Bytes) → name_ltb a b ≡ false → name_ltb b a ≡ false → a ≡ b
unfolding name_ltb
name_ltb_connex [] [] h k = refl
name_ltb_connex [] (y ∷ ys) h k = cc
name_ltb_connex (x ∷ xs) [] h k = cc
name_ltb_connex (x ∷ xs) (y ∷ ys) h k = ground (arith, name_ltb_connex xs ys)

-- The three ways in which two names compare.
pub name_cases :
    (a b : Bytes)
    → ((name_ltb a b ≡ true) × (name_ltb b a ≡ false))
      ⊎ (((name_ltb a b ≡ false) × (name_ltb b a ≡ true))
          ⊎ ((name_ltb a b ≡ false) × (name_ltb b a ≡ false) × (a ≡ b)))
name_cases a b = elim (Bool-cases (name_ltb a b)) [
  | inl h ↦ inl (h, name_ltb_asymm a b h)
  | inr h ↦ elim (Bool-cases (name_ltb b a)) [
    | inl k ↦ inr (inl (h, k))
    | inr k ↦ inr (inr (h, k, name_ltb_connex a b h k))
  ]
]

pub name_eq_refl : (a : Bytes) → name_eq a a ≡ true
unfolding name_eq
name_eq_refl a = rw (name_ltb_irrefl a)

pub name_eq→eq : (a b : Bytes) → name_eq a b ≡ true → a ≡ b
unfolding name_eq
name_eq→eq a b h = ground (arith, name_ltb_connex a b)
