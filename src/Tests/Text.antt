-- ===== src/Tests/Text.antt =====
-- A concrete text archive: a number is one character, a string stands behind its length, a container
-- behind the number of its elements.
use group_share_filesystem.Base.{
  ℕ, zero, suc, ◌≤◌, ◌≡◌, refl, ap, ◌∙◌, Bytes, Bool, true, false, List, [], ◌∷◌, ◌++◌, ok, fault,
  archive_exception, length, take, drop, take-length-append, drop-length-append, append_assoc,
  length-append, All, arith,
}
use group_share_filesystem.Archive.{IsLossless}
use group_share_filesystem.Serialization.{
  Item, number, string, points, elements, TextArchive, each_items, archive_of,
}
use group_share_filesystem.Serialization.Loading.{Load, then_load, done}
use group_share_filesystem.Serialization.RoundTrip.{archive_of-IsLossless}
use group_share_filesystem.Serialization.Sequencing.{Loads, IsText}

abbrev item_text : Item → Bytes
item_text (number n) = n ∷ []
item_text (string s) = length s ∷ s
item_text (points false) = 0 ∷ []
item_text (points true) = 1 ∷ []
item_text (elements n) = n ∷ []

abbrev text : List Item → Bytes
text [] = []
text (item ∷ items) = item_text item ++ text items

abbrev next_number : Load Bytes ℕ
next_number [] = fault archive_exception
next_number (n ∷ input) = ok (n, input)

abbrev next_string : Load Bytes Bytes
next_string [] = fault archive_exception
next_string (n ∷ input) = ok (take n input, drop n input)

abbrev next_points : Load Bytes Bool
next_points [] = fault archive_exception
next_points (zero ∷ input) = ok (false, input)
next_points (suc n ∷ input) = ok (true, input)

unfoldable times : {A : Type 0} → Load Bytes A → ℕ → Load Bytes (List A)
times load zero = done []
times load (suc n) = then_load load λ a. then_load (times load n) λ row. done (a ∷ row)

abbrev plain_text : TextArchive
plain_text = record {
  Input = Bytes;
  text_of = text;
  open_text = λ bytes. ok bytes;
  get_number = next_number;
  get_string = next_string;
  get_points = next_points;
  get_each = λ load. then_load next_number (times load);
}

abbrev Holding : Bytes → List Item → Type 0
Holding input items = input ≡ text items

times_lem :
    {A : Type 0} (load : Load Bytes A) (items : A → List Item) (row : List A)
    → All (λ a. Loads Holding load a (items a)) row
    → Loads Holding (times load (length row)) row (each_items items row)
unfolding times Loads
times_lem load items [] h input rest e = (input, refl, e)
times_lem load items (a ∷ row) h input rest e =
    let (more, first, e') =
      h.0 input (each_items items row ++ rest)
        (e ∙ ap text (append_assoc (items a) (each_items items row) rest)) in
    let (left, others, e'') = times_lem load items row h.1 more rest e' in
    (left, rw (first, others) refl, e'')

long_enough : (items : List Item) → length items ≤ length (text items)
long_enough [] = omega arith
long_enough (number n ∷ items) = omega (arith, long_enough items)
long_enough (string s ∷ items) = omega (arith, long_enough items, length-append s (text items))
long_enough (points false ∷ items) = omega (arith, long_enough items)
long_enough (points true ∷ items) = omega (arith, long_enough items)
long_enough (elements n ∷ items) = omega (arith, long_enough items)

plain_text-IsText : IsText plain_text
unfolding Loads
plain_text-IsText = record {
  Reads = Holding;
  opens = λ items. (text items, refl, refl);
  loads_number = λ n input rest e. (text rest, ap next_number e, refl);
  loads_string = λ s input rest e. (
    text rest,
    ap next_string e ∙ rw (take-length-append s (text rest), drop-length-append s (text rest)) refl,
    refl,
  );
  loads_points = λ b input rest e. loads b input rest e;
  loads_each = λ load items row h input rest e.
      let (left, others, e') = times_lem load items row h _ rest refl in
      (left, rw (e, others) refl, e');
  characters = long_enough;
}
  where
    loads : (b : Bool) → Loads Holding next_points b (points b ∷ [])
    loads false input rest e = (text rest, ap next_points e, refl)
    loads true input rest e = (text rest, ap next_points e, refl)

archive_of-IsLossless_example : IsLossless (archive_of plain_text)
archive_of-IsLossless_example = archive_of-IsLossless plain_text plain_text-IsText
