-- ===== src/ToolFormat/Hinted.antt =====
-- The hints stand above the instructions of the caller, and the other keywords are left alone.
use Prim.Native.String.{◌++◌ as append}
use text.Mathlib.TextLemmas.{append-nil, nil-append}
use mozilla_ai.Common.{
  String, ◌≡◌, ◌≢◌, refl, sym, ap, ◌∙◌, inl, inr, false, Option, none, some, List, ◌∷◌, if_cases,
  Bool-cases, str_eq, str_eq_iff, string_eq, if◌then◌else◌, subst,
}
use mozilla_ai.Platform.Payload.{
  Json, Fields, null, boolean, integer, decimal, text as json_text, array, object, item, no_fields,
  field, get,
}
use mozilla_ai.Pipeline.Tools.{put}
use mozilla_ai.ToolFormat.{
  above, text_block, system_with, instructions_with, build_hint_block,
  inject_purpose_hints_anthropic, inject_purpose_hints_responses,
}

get-put_same : (k : String) (v : Json) (d : Fields) → get k (put k v d) ≡ some v
get-put_same k v no_fields = rw ((str_eq_iff k k).1 refl) refl
get-put_same k v (field j w d) =
    if_cases (λ e. get k e ≡ some v) (str_eq j k) (field j v d) (field j w (put k v d))
      (λ e. rw e refl) (λ e. rw e (get-put_same k v d))

str_ne : (j k : String) → k ≢ j → str_eq j k ≡ false
str_ne j k ne = elim (Bool-cases (str_eq j k)) [
  | inl e ↦ absurd (ne (sym ((str_eq_iff j k).0 e)))
  | inr e ↦ e
]

get-put_other : (k j : String) (v : Json) (d : Fields) → k ≢ j → get k (put j v d) ≡ get k d
get-put_other k j v no_fields ne = rw (str_ne j k ne) refl
get-put_other k j v (field i w d) ne =
    if_cases (λ e. get k e ≡ get k (field i w d)) (str_eq i j) (field i v d) (field i w (put j v d))
      (λ e. let off = str_ne i k (λ same. ne (same ∙ (str_eq_iff i j).0 e)) in rw off refl)
      (λ e. ap (λ o. if str_eq i k then some w else o) (get-put_other k j v d ne))

-- a text with the block above it; the other values are replaced by the block
abbrev pub IsTextAbove : String → Option Json → Option Json → Type 0
IsTextAbove block (some (json_text old)) new =
    (between : String) × (new ≡ some (json_text (append block (append between old))))
IsTextAbove block _ new = new ≡ some (json_text block)

-- the same, and a list with the block before its elements
abbrev pub IsAbove : String → Option Json → Option Json → Type 0
IsAbove block (some (array blocks)) new = new ≡ some (array (item (text_block block) blocks))
IsAbove block old new = IsTextAbove block old new

text-IsTextAbove :
    (block old : String)
    → IsTextAbove block
        (some (json_text old))
        (some (json_text (if str_eq old "" then block else above block old)))
text-IsTextAbove block old =
    if_cases (λ s. IsTextAbove block (some (json_text old)) (some (json_text s))) (str_eq old "")
      block (above block old)
      (λ e. (
        "",
        ap (λ s. some (json_text s))
            (sym (append-nil block)
              ∙ ap (append block) (sym ((str_eq_iff old "").0 e) ∙ sym (nil-append old))),
      ))
      (λ e. ("\n\n", refl))

instructions-IsTextAbove :
    (block : String) (old : Option Json)
    → IsTextAbove block old (some (instructions_with block old))
instructions-IsTextAbove block none = refl
instructions-IsTextAbove block (some null) = refl
instructions-IsTextAbove block (some (boolean b)) = refl
instructions-IsTextAbove block (some (integer n)) = refl
instructions-IsTextAbove block (some (decimal b s)) = refl
instructions-IsTextAbove block (some (json_text old)) = text-IsTextAbove block old
instructions-IsTextAbove block (some (array blocks)) = refl
instructions-IsTextAbove block (some (object entries)) = refl

system-IsAbove :
    (block : String) (old : Option Json) → IsAbove block old (some (system_with block old))
system-IsAbove block none = refl
system-IsAbove block (some null) = refl
system-IsAbove block (some (boolean b)) = refl
system-IsAbove block (some (integer n)) = refl
system-IsAbove block (some (decimal b s)) = refl
system-IsAbove block (some (json_text old)) = text-IsTextAbove block old
system-IsAbove block (some (array blocks)) = refl
system-IsAbove block (some (object entries)) = refl

module _ (tools_header : Option String) where
  -- Where there are hints, their block stands above the system prompt of a call of the messages API,
  -- be it a text or a list of blocks, and above the instructions of one of the responses API, replaces
  -- a value of another kind, and every other keyword is left alone.
  pub inject_purpose_hints-IsAbove :
      (call_kwargs : Fields) (h : String × String) (hints : List (String × String))
      (header : Option String) (k : String)
      → k ≢ "system"
      → k ≢ "instructions"
      → let block = build_hint_block tools_header (h ∷ hints) header in
        let anthropic =
          inject_purpose_hints_anthropic tools_header call_kwargs (h ∷ hints) header in
        let responses =
          inject_purpose_hints_responses tools_header call_kwargs (h ∷ hints) header in
        IsAbove block (get "system" call_kwargs) (get "system" anthropic)
        × IsTextAbove block (get "instructions" call_kwargs) (get "instructions" responses)
        × (get k anthropic ≡ get k call_kwargs)
        × (get k responses ≡ get k call_kwargs)
  unfolding inject_purpose_hints_anthropic inject_purpose_hints_responses
  inject_purpose_hints-IsAbove call_kwargs h hints header k not_system not_instructions =
      let block = build_hint_block tools_header (h ∷ hints) header in
      let old = get "system" call_kwargs in
      let instructions = get "instructions" call_kwargs in
      (
        subst (IsAbove block old) (sym (get-put_same "system" (system_with block old) call_kwargs))
            (system-IsAbove block old),
        subst (IsTextAbove block instructions)
            (sym (get-put_same "instructions" (instructions_with block instructions) call_kwargs))
            (instructions-IsTextAbove block instructions),
        get-put_other k "system" _ call_kwargs not_system,
        get-put_other k "instructions" _ call_kwargs not_instructions,
      )
