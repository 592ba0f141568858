-- ===== src/ToolLoop/Deltas.antt =====
-- What the slots of a streamed response hold.
use mozilla_ai.Common.{
  ℕ, String, ◌≡◌, refl, sym, ap, ◌∙◌, Bool, true, false, Option, none, some, List, [], ◌∷◌,
  if◌then◌else◌, ◌==◌, ==_iff, nat_eq, Bool-cases, inl, inr, str_eq, str_eq_iff,
}
use mozilla_ai.Common.Dict.{Dict, lookup, insert, lookup-insert}
use mozilla_ai.ToolLoop.{FunctionCall}
use mozilla_ai.ToolLoop.Stream.{
  Delta, FunctionDelta, accumulate_tool_call_deltas, add_function, slot_or_empty, truthy, joined,
  or_keep,
}
use Prim.Native.String.{◌++◌ as append}
use text.Mathlib.TextLemmas.{append-nil, append_assoc, nil-append}

abbrev text_or_empty : Option String → String
text_or_empty none = ""
text_or_empty (some s) = s

-- the piece of the arguments that a delta carries
abbrev piece_of : Option FunctionDelta → String
piece_of none = ""
piece_of (some fn) = text_or_empty fn.arguments

-- the pieces for one index, joined in the order of the deltas
abbrev pub pieces : ℕ → List Delta → String
pieces i [] = ""
pieces i (delta ∷ deltas) =
    let rest = pieces i deltas in
    if delta.index == i then append (piece_of delta.function) rest else rest

joined-truthy : (s : String) (a : Option String) → joined s (truthy a) ≡ append s (text_or_empty a)
joined-truthy s none = sym (append-nil s)
joined-truthy s (some t) = elim (Bool-cases (str_eq t "")) [
  | inl e ↦ rw e (sym (ap (append s) ((str_eq_iff t "").0 e) ∙ append-nil s))
  | inr e ↦ rw e refl
]

arguments-add_function :
    (fn : Option FunctionDelta) (slot : FunctionCall)
    → (add_function fn slot).arguments ≡ append slot.arguments (piece_of fn)
arguments-add_function none slot = sym (append-nil slot.arguments)
arguments-add_function (some fn) slot = joined-truthy slot.arguments fn.arguments

abbrev arguments_at : ℕ → Dict ℕ FunctionCall → String
arguments_at i slots = (slot_or_empty (lookup i slots)).arguments

arguments-if :
    (b : Bool) (slot : FunctionCall) (old : Option FunctionCall)
    → (slot_or_empty (if b then some slot else old)).arguments
      ≡ (if b then slot.arguments else (slot_or_empty old).arguments)
arguments-if true slot old = refl
arguments-if false slot old = refl

arguments_at-insert :
    (i j : ℕ) (slot : FunctionCall) (slots : Dict ℕ FunctionCall)
    → arguments_at i (insert j slot slots)
      ≡ (if j == i then slot.arguments else arguments_at i slots)
arguments_at-insert i j slot slots =
    ap (λ found. (slot_or_empty found).arguments) (lookup-insert j i slot slots)
    ∙ arguments-if (j == i) slot (lookup i slots)

-- one delta: its piece goes to its own slot
arguments_at-delta :
    (i : ℕ) (delta : Delta) (slot : FunctionCall) (slots : Dict ℕ FunctionCall) (rest : String)
    → slot.arguments ≡ append (arguments_at delta.index slots) (piece_of delta.function)
    → append (arguments_at i (insert delta.index slot slots)) rest
      ≡ append
          (arguments_at i slots)
          (if delta.index == i then append (piece_of delta.function) rest else rest)
arguments_at-delta i delta slot slots rest h = elim (Bool-cases (delta.index == i)) [
  | inl e ↦
      rw (arguments_at-insert i delta.index slot slots, e, h, (==_iff delta.index i).0 e)
        (append_assoc (arguments_at i slots) (piece_of delta.function) rest)
  | inr e ↦ rw (arguments_at-insert i delta.index slot slots, e) refl
]

arguments_at-accumulate :
    (i : ℕ) (deltas : List Delta) (slots : Dict ℕ FunctionCall)
    → arguments_at i (accumulate_tool_call_deltas deltas slots)
      ≡ append (arguments_at i slots) (pieces i deltas)
unfolding accumulate_tool_call_deltas
arguments_at-accumulate i [] slots = sym (append-nil (arguments_at i slots))
arguments_at-accumulate i (delta ∷ deltas) slots =
    let old = slot_or_empty (lookup delta.index slots) in
    let slot = add_function delta.function (record old { id = or_keep (truthy delta.id) old.id }) in
    arguments_at-accumulate i deltas (insert delta.index slot slots)
    ∙ arguments_at-delta i delta slot slots (pieces i deltas) (
        arguments-add_function delta.function
          (record old { id = or_keep (truthy delta.id) old.id }))

-- The arguments of the call in a slot are the pieces that the deltas of its index carried, joined in
-- the order in which they came.
pub accumulate-arguments :
    (i : ℕ) (deltas : List Delta)
    → (slot_or_empty (lookup i (accumulate_tool_call_deltas deltas []))).arguments ≡ pieces i deltas
accumulate-arguments i deltas = arguments_at-accumulate i deltas [] ∙ nil-append (pieces i deltas)
