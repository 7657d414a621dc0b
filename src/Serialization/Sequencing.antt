-- ===== src/Serialization/Sequencing.antt =====
-- What an input archive must do, and loads one behind the other.
use group_share_filesystem.Base.{
  ℕ, ◌≤◌, ◌≡◌, refl, subst, Bytes, Bool, List, [], ◌∷◌, ◌++◌, length, All, append_assoc, ok,
}
use group_share_filesystem.Serialization.{
  Item, number, string, points, elements, TextArchive, each_items,
}
use group_share_filesystem.Serialization.Loading.{Load, then_load, done}

-- From an input that holds these items and more, `load` gives `a` and leaves the rest.
unfoldable pub Loads {ℓ κ μ} :
    {Input : Type ℓ} {A : Type κ}
    → (Input → List Item → Type μ)
    → Load Input A
    → A
    → List Item
    → Type (ℓ ⊔ κ ⊔ μ)
Loads {Input = Input} Reads load a items =
    (input : Input) (rest : List Item)
    → Reads input (items ++ rest)
    → (left : Input) × (load input ≡ ok (a, left)) × Reads left rest

-- The documented behaviour of a text archive: an input opened on a text gives back the items that were
-- saved, in their order; a container gives its elements; each item takes at least a character.
pub record IsText (archive : TextArchive) : Type 1 where
  pub Reads : archive.Input → List Item → Type 0
  pub opens :
      (items : List Item)
      → (input : archive.Input) × (archive.open_text (archive.text_of items) ≡ ok input)
        × Reads input items
  pub loads_number : (n : ℕ) → Loads Reads archive.get_number n (number n ∷ [])
  pub loads_string : (s : Bytes) → Loads Reads archive.get_string s (string s ∷ [])
  pub loads_points : (b : Bool) → Loads Reads archive.get_points b (points b ∷ [])
  pub loads_each :
      {A : Type 0} (load : Load archive.Input A) (items : A → List Item) (row : List A)
      → All (λ a. Loads Reads load a (items a)) row
      → Loads Reads (archive.get_each load) row (elements (length row) ∷ each_items items row)
  pub characters : (items : List Item) → length items ≤ length (archive.text_of items)

-- One load behind the other.
module _ {ℓ κ} {Input : Type ℓ} (Reads : Input → List Item → Type κ) where
  pub Loads-then_load {μ ν} :
      {A : Type μ} {B : Type ν} (a : A) (b : B) (first : Load Input A) (second : A → Load Input B)
      (xs ys : List Item)
      → Loads Reads first a xs
      → Loads Reads (second a) b ys
      → Loads Reads (then_load first second) b (xs ++ ys)
  unfolding Loads
  Loads-then_load a b first second xs ys h k input rest reads =
      let front = h input (ys ++ rest) (subst (Reads input) (append_assoc xs ys rest) reads) in
      let back = k front.0 rest front.2 in (back.0, rw front.1 back.1, back.2)

  pub Loads-done {μ} : {A : Type μ} (a : A) → Loads Reads (done a) a []
  unfolding Loads
  Loads-done a input rest reads = (input, refl, reads)

  -- A load whose result is only rearranged.
  pub Loads-map {μ ν} :
      {A : Type μ} {B : Type ν} (a : A) (load : Load Input A) (f : A → B) (items : List Item)
      → Loads Reads load a items
      → Loads Reads (then_load load (λ b. done (f b))) (f a) items
  unfolding Loads
  Loads-map a load f items h input rest reads =
      let front = h input rest reads in (front.0, rw front.1 refl, front.2)
