-- ===== src/Budget/Normalize.antt =====
-- `_normalize_strategy` of otari/src/gateway/services/budget_service.py.
use mozilla_ai.Common.{ℕ, Option, none, some, List, if◌then◌else◌}
use mozilla_ai.Common.Text.{codes, same, strip, lower}

pub data Strategy : Type 0 where
  for_update : Strategy
  cas : Strategy
  disabled : Strategy

-- `strategy or "for_update"`, stripped and lowered; what is unknown falls back to `for_update`
unfoldable pub normalize_strategy : Option (List ℕ) → Strategy
unfolding strip lower
normalize_strategy none = for_update
normalize_strategy (some text) =
    let word = lower (strip text) in
    if same word (codes "cas")
    then cas
    else if same word (codes "disabled")
    then disabled
    else for_update
