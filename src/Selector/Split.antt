-- ===== src/Selector/Split.antt =====
-- `split_selector` of a prefix and a remainder that are joined by a delimiter.
use mozilla_ai.Common.{
  ℕ, ◌+◌, ◌<◌, String, ◌≡◌, refl, ◌≢◌, ◌⊎◌, inl, inr, true, false, Option, none, some, arith, ◌==◌,
  str_eq_iff, string_eq,
}
use mozilla_ai.Selector.{
  colon, slash, find, split_once, before, both_given, split_selector, add_one,
}
use Prim.Native.String.{◌++◌ as append}
use text.Mathlib.TextLemmas.{nil-append, cons-append}
use Prim.Native.Char.{code, Char}

-- no character of the text is `k`
abbrev pub Lacks : ℕ → String → Type 0
Lacks k s = find k s ≡ none

abbrev size : String → ℕ
size String.[] = 0
size (String.◌∷◌ c s) = size s + 1

Lacks-tail :
    (k : ℕ) (c : Char) (s : String) → Lacks k (String.◌∷◌ c s) → (code c == k ≡ false) × Lacks k s
Lacks-tail k c s h = (ground (arith, h), ground (arith, h))

find-append :
    (k : ℕ) (p : String) (c : Char) (r : String)
    → Lacks k p
    → code c == k ≡ true
    → find k (append p (String.◌∷◌ c r)) ≡ some (size p)
find-append k String.[] c r h e = rw (nil-append (String.◌∷◌ c r), e) refl
find-append k (String.◌∷◌ d p) c r h e =
    let tail = Lacks-tail k d p h in
    rw (cons-append d p (String.◌∷◌ c r), tail.0, find-append k p c r tail.1 e) refl

split_once-append :
    (k : ℕ) (p : String) (c : Char) (r : String)
    → Lacks k p
    → code c == k ≡ true
    → split_once k (append p (String.◌∷◌ c r)) ≡ some (p, r)
split_once-append k String.[] c r h e = rw (nil-append (String.◌∷◌ c r), e) refl
split_once-append k (String.◌∷◌ d p) c r h e =
    let tail = Lacks-tail k d p h in
    rw (cons-append d p (String.◌∷◌ c r), tail.0, split_once-append k p c r tail.1 e) refl

-- another delimiter is not found before the end of the prefix
abbrev NotBefore : ℕ → Option ℕ → Type 0
NotBefore n none = Unit
NotBefore n (some i) = n < i

NotBefore-add_one : (n : ℕ) (i : Option ℕ) → NotBefore n i → NotBefore (n + 1) (add_one i)
NotBefore-add_one n none h = tt
NotBefore-add_one n (some i) h = omega arith

find-NotBefore :
    (k : ℕ) (p : String) (c : Char) (r : String)
    → Lacks k p
    → code c == k ≡ false
    → NotBefore (size p) (find k (append p (String.◌∷◌ c r)))
find-NotBefore k String.[] c r h e = rw (nil-append (String.◌∷◌ c r), e) (go (find k r))
  where
    go : (i : Option ℕ) → NotBefore 0 (add_one i)
    go none = tt
    go (some i) = omega arith
find-NotBefore k (String.◌∷◌ d p) c r h e =
    let tail = Lacks-tail k d p h in
    rw (cons-append d p (String.◌∷◌ c r), tail.0)
      (NotBefore-add_one (size p) (find k (append p (String.◌∷◌ c r)))
        (find-NotBefore k p c r tail.1 e))

before-NotBefore : (n : ℕ) (i : Option ℕ) → NotBefore n i → before (some n) i ≡ true
before-NotBefore n none h = refl
before-NotBefore n (some i) h = ground arith

after-NotBefore : (n : ℕ) (i : Option ℕ) → NotBefore n i → before i (some n) ≡ false
after-NotBefore n none h = refl
after-NotBefore n (some i) h = ground arith

both_given-some : (p r : String) → p ≢ "" → r ≢ "" → both_given (some (p, r)) ≡ some (p, r)
both_given-some p r hp hr = ground (arith, str_eq_iff p "", str_eq_iff r "")

-- A prefix and a remainder that are not empty, joined by a colon or a slash, are split again where
-- the prefix has neither; the remainder may have both.
pub split_selector-append :
    (p : String) (c : Char) (r : String)
    → (code c ≡ colon) ⊎ (code c ≡ slash)
    → Lacks colon p
    → Lacks slash p
    → p ≢ ""
    → r ≢ ""
    → split_selector (append p (String.◌∷◌ c r)) ≡ some (p, r)
unfolding split_selector
split_selector-append p c r (inl is_colon) hc hs hp hr =
    let at : code c == colon ≡ true = ground arith in
    let other : code c == slash ≡ false = ground arith in
    rw (split_selector, find-append colon p c r hc at)
      (rw
        (before-NotBefore (size p) (find slash (append p (String.◌∷◌ c r)))
          (find-NotBefore slash p c r hs other))
        (rw (split_once-append colon p c r hc at) (both_given-some p r hp hr)))
split_selector-append p c r (inr is_slash) hc hs hp hr =
    let at : code c == slash ≡ true = ground arith in
    let other : code c == colon ≡ false = ground arith in
    rw (split_selector, find-append slash p c r hs at)
      (rw
        (after-NotBefore (size p) (find colon (append p (String.◌∷◌ c r)))
          (find-NotBefore colon p c r hc other))
        (rw (split_once-append slash p c r hs at) (both_given-some p r hp hr)))
