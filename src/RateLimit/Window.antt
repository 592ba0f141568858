-- ===== src/RateLimit/Window.antt =====
-- The deques of the rate limiter, in time order, and what dropping and sweeping do to them.
use mozilla_ai.Common.{
  ℕ, ◌+◌, ◌≤◌, ◌≡◌, refl, true, false, List, [], ◌∷◌, ◌++◌, arith, not, filterb, length, All,
  get_last_or, length-append, filterb-append,
}
use mozilla_ai.RateLimit.{expired, drop_expired, stale}

-- the entries of the last 60 seconds
abbrev pub live : ℕ → List ℕ → ℕ
live now ts = length (filterb (λ t. not (expired now t)) ts)

-- In time order, and none later than `clock`.
abbrev pub IsQueue : ℕ → List ℕ → Type 0
IsQueue clock [] = Unit
IsQueue clock (t ∷ ts) = (t ≤ clock) × All (λ u. t ≤ u) ts × IsQueue clock ts

pub drop_expired-IsQueue :
    (clock now : ℕ) (ts : List ℕ) → IsQueue clock ts → IsQueue clock (drop_expired now ts)
unfolding drop_expired
drop_expired-IsQueue clock now [] h = tt
drop_expired-IsQueue clock now (t ∷ ts) h = ground (arith, drop_expired-IsQueue clock now ts h.2)

-- What is dropped stays expired.
pub live-drop_expired :
    (now later : ℕ) (ts : List ℕ) → now ≤ later → live later (drop_expired now ts) ≡ live later ts
unfolding drop_expired
live-drop_expired now later [] h = refl
live-drop_expired now later (t ∷ ts) h = ground (arith, live-drop_expired now later ts h)

pub live_unexpired :
    (now t : ℕ) (ts : List ℕ)
    → expired now t ≡ false
    → All (λ u. t ≤ u) ts
    → live now ts ≡ length ts
live_unexpired now t [] h a = refl
live_unexpired now t (u ∷ ts) h a = ground (arith, live_unexpired now t ts h a.1)

-- After the drop every entry left is live.
pub length-drop_expired :
    (clock now : ℕ) (ts : List ℕ) → IsQueue clock ts → length (drop_expired now ts) ≡ live now ts
unfolding drop_expired
length-drop_expired clock now [] h = refl
length-drop_expired clock now (t ∷ ts) h =
    ground (arith, length-drop_expired clock now ts h.2, live_unexpired now t ts)

pub length-drop_expired-le : (now : ℕ) (ts : List ℕ) → length (drop_expired now ts) ≤ length ts
unfolding drop_expired
length-drop_expired-le now [] = omega arith
length-drop_expired-le now (t ∷ ts) = ground (arith, length-drop_expired-le now ts)

last_bound :
    (t : ℕ) (ts : List ℕ) (clock : ℕ)
    → IsQueue clock (t ∷ ts)
    → All (λ u. u ≤ get_last_or t ts) (t ∷ ts)
last_bound t [] clock h = omega arith
last_bound t (u ∷ ts) clock h = let r = last_bound u ts clock h.2 in ground (arith, h.1.0, r.0, r)

live_none : (now m : ℕ) (ts : List ℕ) → expired now m ≡ true → All (λ u. u ≤ m) ts → live now ts ≡ 0
live_none now m [] h a = refl
live_none now m (u ∷ ts) h a = ground (arith, live_none now m ts h a.1)

-- A stale deque has nothing live, now or later.
pub live-stale :
    (clock now later : ℕ) (ts : List ℕ)
    → IsQueue clock ts
    → stale now ts ≡ true
    → now ≤ later
    → live later ts ≡ 0
unfolding stale
live-stale clock now later [] q s h = refl
live-stale clock now later (t ∷ ts) q s h =
    live_none later (get_last_or t ts) (t ∷ ts) (ground arith) (last_bound t ts clock q)

All-append_le :
    (t now : ℕ) (ts : List ℕ) → t ≤ now → All (λ u. t ≤ u) ts → All (λ u. t ≤ u) (ts ++ now ∷ [])
All-append_le t now [] h a = (h, tt)
All-append_le t now (u ∷ ts) h a = (a.0, All-append_le t now ts h a.1)

pub append-IsQueue :
    (clock now : ℕ) (ts : List ℕ) → clock ≤ now → IsQueue clock ts → IsQueue now (ts ++ now ∷ [])
append-IsQueue clock now [] h q = (omega arith, tt, tt)
append-IsQueue clock now (t ∷ ts) h q =
    (omega arith, All-append_le t now ts (omega arith) q.1, append-IsQueue clock now ts h q.2)

pub IsQueue-later : (clock now : ℕ) (ts : List ℕ) → clock ≤ now → IsQueue clock ts → IsQueue now ts
IsQueue-later clock now [] h q = tt
IsQueue-later clock now (t ∷ ts) h q = (omega arith, q.1, IsQueue-later clock now ts h q.2)

pub live-append :
    (now t : ℕ) (ts : List ℕ) → live now (ts ++ t ∷ []) ≡ live now ts + live now (t ∷ [])
live-append now t ts = rw filterb-append (length-append (filterb (λ u. not (expired now u)) ts) _)
