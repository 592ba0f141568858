-- ===== src/ToolLoop/Hints.antt =====
-- `inject_purpose_hints` of otari/src/gateway/services/mcp_loop.py.
use mozilla_ai.Common.{
  String, ◌≡◌, refl, ◌≢◌, Bool, true, false, Option, none, some, List, [], ◌∷◌, if◌then◌else◌,
  str_eq, Bool-cases, inl, inr, arith, ap, str_eq_iff,
}
use mozilla_ai.ToolLoop.Stream.{truthy}
use Prim.Native.String.{◌++◌ as append}

-- the content of a message: a text, or parts, which a format string prints as `print` does
pub data Content (P : Type 0) : Type 0 where
  text : String → Content P
  parts : P → Content P

pub record ChatMessage (P R : Type 0) : Type 0 where
  pub role : Option String
  pub content : Option (Content P)
  pub rest : R

abbrev pub purpose_hint_header : String
purpose_hint_header = "You have access to the following tools:"

abbrev pub first_of : Option String → String → String
first_of none default = default
first_of (some s) default = s

abbrev pub hint_lines : List (String × String) → String
hint_lines [] = ""
hint_lines ((name, hint) ∷ hints) =
    append "\n- " (append name (append ": " (append hint (hint_lines hints))))

abbrev pub has_role : String → Option String → Bool
has_role role none = false
has_role role (some r) = str_eq r role

-- the environment's OTARI_TOOLS_HEADER, the truth and the print of parts, and the fields of a new message
pub record Setting (P R : Type 0) : Type 0 where
  pub tools_header : Option String
  pub is_true : P → Bool
  pub print : P → String
  pub no_rest : R

module _ {P R : Type 0} (env : Setting P R) where
  abbrev pub hint_block : Option String → List (String × String) → String
  hint_block header hints =
      append (first_of (truthy header) (first_of (truthy env.tools_header) purpose_hint_header))
        (hint_lines hints)

  -- `content or ""`, printed, where it is true
  abbrev pub existing : Option (Content P) → Option String
  existing none = none
  existing (some (text s)) = truthy (some s)
  existing (some (parts p)) = if env.is_true p then some (env.print p) else none

  abbrev pub below : Option String → String → String
  below none block = block
  below (some old) block = append old (append "\n\n" block)

  abbrev pub is_system : ChatMessage P R → Bool
  is_system message = has_role "system" message.role

  abbrev pub extend : ChatMessage P R → String → ChatMessage P R
  extend message block = record message {
    content = some (text (below (existing message.content) block));
  }

  abbrev pub system_message : String → ChatMessage P R
  system_message block = record {
    role = some "system";
    content = some (text block);
    rest = env.no_rest;
  }

  abbrev pub with_block : List (ChatMessage P R) → String → List (ChatMessage P R)
  with_block [] block = system_message block ∷ []
  with_block (message ∷ messages) block =
      if is_system message
      then extend message block ∷ messages
      else system_message block ∷ message ∷ messages

  unfoldable pub inject_purpose_hints :
      List (ChatMessage P R) → List (String × String) → Option String → List (ChatMessage P R)
  inject_purpose_hints messages [] header = messages
  inject_purpose_hints messages (hint ∷ hints) header =
      with_block messages (hint_block header (hint ∷ hints))

  -- the messages after a leading system message
  abbrev pub conversation : List (ChatMessage P R) → List (ChatMessage P R)
  conversation [] = []
  conversation (message ∷ messages) = if is_system message then messages else message ∷ messages

  -- what the leading system message says, where there is one
  abbrev pub instructions : List (ChatMessage P R) → Option String
  instructions [] = none
  instructions (message ∷ _) = if is_system message then existing message.content else none

  abbrev pub Leads : String → List (ChatMessage P R) → Type 0
  Leads content [] = ⊥
  Leads content (message ∷ _) =
      (message.role ≡ some "system") × (message.content ≡ some (text content))

  has_role-system : (role : Option String) → has_role "system" role ≡ true → role ≡ some "system"
  has_role-system none h = ground (arith, h)
  has_role-system (some r) h = ap some ((str_eq_iff r "system").0 h)

  with_block-keeps :
      (messages : List (ChatMessage P R)) (block : String)
      → (conversation (with_block messages block) ≡ conversation messages)
        × Leads (below (instructions messages) block) (with_block messages block)
  with_block-keeps [] block = (refl, (refl, refl))
  with_block-keeps (message ∷ messages) block = elim (Bool-cases (is_system message)) [
    | inl e ↦ rw (e, e) (refl, (has_role-system message.role e, refl))
    | inr e ↦ rw e (refl, (refl, refl))
  ]

  -- Where there are hints, the messages then start with one system message, whose text is the block
  -- of the hints below what a leading system message said before, if it said anything, and the other
  -- messages follow as they were.
  pub inject_purpose_hints-keeps :
      (messages : List (ChatMessage P R)) (hints : List (String × String)) (header : Option String)
      → hints ≢ []
      → (conversation (inject_purpose_hints messages hints header) ≡ conversation messages)
        × Leads
            (below (instructions messages) (hint_block header hints))
            (inject_purpose_hints messages hints header)
  unfolding inject_purpose_hints
  inject_purpose_hints-keeps messages [] header some_hints = absurd (some_hints refl)
  inject_purpose_hints-keeps messages (hint ∷ hints) header some_hints =
      with_block-keeps messages (hint_block header (hint ∷ hints))
