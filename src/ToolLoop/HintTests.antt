-- ===== src/ToolLoop/HintTests.antt =====
-- Runs of the hints and of the slots.
use mozilla_ai.Common.{nat_eq, String, ◌≡◌, refl, none, some, List, [], ◌∷◌, false}
use mozilla_ai.ToolLoop.Hints.{ChatMessage, Setting, text, inject_purpose_hints}
use mozilla_ai.ToolLoop.Deltas.{pieces}
use mozilla_ai.ToolLoop.Stream.{Delta}
use Prim.Native.Nat.{ℕ}

abbrev setting : Setting Unit Unit
setting = record {
  tools_header = some "Tools:";
  is_true = λ p. false;
  print = λ p. "";
  no_rest = tt;
}

abbrev message : String → String → ChatMessage Unit Unit
message role said = record { role = some role; content = some (text said); rest = tt }

abbrev messages : List (ChatMessage Unit Unit)
messages = message "system" "Be brief." ∷ message "user" "hi" ∷ []

abbrev hints : List (String × String)
hints = ("search", "look it up") ∷ []

extended :
    inject_purpose_hints setting messages hints none
    ≡ message "system" "Be brief.\n\nTools:\n- search: look it up" ∷ message "user" "hi" ∷ []
unfolding inject_purpose_hints
extended = refl

abbrev piece : ℕ → String → Delta
piece i s = record {
  index = i;
  id = none;
  function = some (record { name = none; arguments = some s });
}

abbrev deltas : List Delta
deltas = piece 1 "{\"a\":" ∷ piece 0 "{}" ∷ piece 1 "1}" ∷ []

joined_pieces : pieces 1 deltas ≡ "{\"a\":1}"
joined_pieces = refl
