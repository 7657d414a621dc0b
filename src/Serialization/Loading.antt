-- ===== src/Serialization/Loading.antt =====
-- Loading from an input archive: what was read, and the archive behind it.
use group_share_filesystem.Base.{Outcome, ok, ◌>>=◌}

abbrev pub Load {ℓ κ} : Type ℓ → Type κ → Type (ℓ ⊔ κ)
Load Input A = Input → Outcome (A × Input)

-- `ar & first; ar & second`: the second is read behind the first.
abbrev pub then_load {ℓ κ μ} :
    {Input : Type ℓ} {A : Type κ} {B : Type μ} → Load Input A → (A → Load Input B) → Load Input B
then_load first second input = first input >>= λ read. second read.0 read.1

abbrev pub done {ℓ κ} : {Input : Type ℓ} {A : Type κ} → A → Load Input A
done a input = ok (a, input)

-- `open` the text, and keep what was loaded.
abbrev pub load_from {ℓ κ μ} :
    {Text : Type ℓ} {Input : Type κ} {A : Type μ}
    → (Text → Outcome Input)
    → Load Input A
    → Text
    → Outcome A
load_from open_text load text = do input ← open_text text; read ← load input; ok read.0
