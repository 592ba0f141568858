-- ===== src/Streaming/Billed.antt =====
-- What a stream that was read to its end sends and bills.
use mozilla_ai.Common.{
  ℕ, String, ◌≡◌, refl, ap, ◌∙◌, ◌≢◌, Option, none, some, List, [], ◌∷◌, map, arith, string_eq,
}
use mozilla_ai.Streaming.{
  StreamFormat, CompletionUsage, merge_usage, no_usage_yet, or_nat, cache_read_tokens_of,
  cache_write_tokens_of,
}
use mozilla_ai.Streaming.Generator.{
  resumed, closed, cancelled, exhausted, returned, failed, cut_off, completed, take_usage,
  usage_or_none_yet, consume, streaming_generator, guarded, Callbacks, Consumer, Call, Outcome,
  finished, End,
}

-- the last value that is not 0, or 0
abbrev pub last_nonzero : List ℕ → ℕ
last_nonzero [] = 0
last_nonzero (x ∷ xs) = or_nat (last_nonzero xs) x

abbrev pub folded : Option CompletionUsage → List CompletionUsage → Option CompletionUsage
folded acc [] = acc
folded acc (u ∷ us) = folded (take_usage acc (some u)) us

folded-some :
    (v : CompletionUsage) (us : List CompletionUsage)
    → folded (some v) us ≡ some (usage_or_none_yet (folded (some v) us))
folded-some v [] = refl
folded-some v (u ∷ us) = folded-some (merge_usage v u) us

or_nat_assoc : (a b c : ℕ) → or_nat a (or_nat b c) ≡ or_nat (or_nat a b) c
or_nat_assoc a b c = ground arith

or_nat_zero : (a : ℕ) → or_nat a 0 ≡ a
or_nat_zero a = ground arith

module _ (f : CompletionUsage → ℕ)
    (merges : (c u : CompletionUsage) → f (merge_usage c u) ≡ or_nat (f u) (f c)) where
  -- A field that is merged as "the new value or the old" ends as its last value that is not 0.
  folded-last_nonzero :
      (acc : Option CompletionUsage) (us : List CompletionUsage)
      → f (usage_or_none_yet (folded acc us))
        ≡ or_nat (last_nonzero (map f us)) (f (usage_or_none_yet acc))
  folded-last_nonzero acc [] = refl
  folded-last_nonzero acc (u ∷ us) =
      folded-last_nonzero (take_usage acc (some u)) us
      ∙ (ap (or_nat (last_nonzero (map f us))) (merges (usage_or_none_yet acc) u)
          ∙ or_nat_assoc (last_nonzero (map f us)) (f u) (f (usage_or_none_yet acc)))

-- `u` has in each field the last value that is not 0 of the usages `us`.
pub record IsLastOf (us : List CompletionUsage) (u : CompletionUsage) : Type 0 where
  last_prompt : u.prompt_tokens ≡ last_nonzero (map (λ v. v.prompt_tokens) us)
  last_completion : u.completion_tokens ≡ last_nonzero (map (λ v. v.completion_tokens) us)
  last_total : u.total_tokens ≡ last_nonzero (map (λ v. v.total_tokens) us)
  last_read : cache_read_tokens_of u ≡ last_nonzero (map cache_read_tokens_of us)
  last_write : cache_write_tokens_of u ≡ last_nonzero (map cache_write_tokens_of us)

folded-IsLastOf : (us : List CompletionUsage) → IsLastOf us (usage_or_none_yet (folded none us))
unfolding merge_usage cache_read_tokens_of cache_write_tokens_of
folded-IsLastOf us = record {
  last_prompt = folded-last_nonzero (λ v. v.prompt_tokens) (λ c u. refl) none us ∙ or_nat_zero _;
  last_completion =
      folded-last_nonzero (λ v. v.completion_tokens) (λ c u. refl) none us ∙ or_nat_zero _;
  last_total = folded-last_nonzero (λ v. v.total_tokens) (λ c u. refl) none us ∙ or_nat_zero _;
  last_read = folded-last_nonzero cache_read_tokens_of (λ c u. refl) none us ∙ or_nat_zero _;
  last_write = folded-last_nonzero cache_write_tokens_of (λ c u. refl) none us ∙ or_nat_zero _;
}

module _ {C : Type 0} (fmt : StreamFormat) (cb : Callbacks C) where
  -- the usages that the chunks carry
  abbrev some_or : Option CompletionUsage → List CompletionUsage → List CompletionUsage
  some_or none us = us
  some_or (some u) us = u ∷ us

  abbrev pub usages : List (C × Consumer) → List CompletionUsage
  usages [] = []
  usages ((chunk, _) ∷ chunks) = some_or (cb.extract_usage chunk) (usages chunks)

  abbrev pub formatted : List (C × Consumer) → List String
  formatted [] = fmt.done_marker ∷ []
  formatted ((chunk, _) ∷ chunks) = cb.format_chunk chunk ∷ formatted chunks

  -- the consumer asked for more after every chunk
  abbrev pub AllResumed : List (C × Consumer) → Type 0
  AllResumed [] = Unit
  AllResumed ((_, resumed) ∷ chunks) = AllResumed chunks
  AllResumed ((_, closed) ∷ chunks) = ⊥
  AllResumed ((_, cancelled) ∷ chunks) = ⊥

  folded-take_usage :
      (acc u : Option CompletionUsage) (us : List CompletionUsage)
      → folded (take_usage acc u) us ≡ folded acc (some_or u us)
  folded-take_usage acc none us = refl
  folded-take_usage acc (some u) us = refl

  sent-guarded : (call : Call) (o : Outcome) (end : End) → (guarded call o end).sent ≡ []
  sent-guarded call returned end = refl
  sent-guarded call failed end = refl
  sent-guarded call cut_off end = refl

  called-guarded : (call : Call) (o : Outcome) (end : End) → (guarded call o end).called ≡ call ∷ []
  called-guarded call returned end = refl
  called-guarded call failed end = refl
  called-guarded call cut_off end = refl

  consume-AllResumed :
      (chunks : List (C × Consumer)) (acc : Option CompletionUsage)
      → AllResumed chunks
      → (v : CompletionUsage) → folded acc (usages chunks) ≡ some v
      → ((consume fmt cb acc chunks (exhausted resumed)).called ≡ completed v ∷ [])
        × ((consume fmt cb acc chunks (exhausted resumed)).sent ≡ formatted chunks)
  unfolding consume
  consume-AllResumed [] acc a v e = (
    rw e (called-guarded (completed v) (cb.on_complete v) finished),
    ap (λ sent. fmt.done_marker ∷ sent)
        (rw e (sent-guarded (completed v) (cb.on_complete v) finished)),
  )
  consume-AllResumed ((chunk, resumed) ∷ chunks) acc a v e =
      let rest =
        consume-AllResumed chunks (take_usage acc (cb.extract_usage chunk)) a v
          (folded-take_usage acc (cb.extract_usage chunk) (usages chunks) ∙ e) in
      (rest.0, ap (λ sent. cb.format_chunk chunk ∷ sent) rest.1)
  consume-AllResumed ((chunk, closed) ∷ chunks) acc a v e = elim a [ ]
  consume-AllResumed ((chunk, cancelled) ∷ chunks) acc a v e = elim a [ ]

  folded-any :
      (us : List CompletionUsage)
      → us ≢ []
      → folded none us ≡ some (usage_or_none_yet (folded none us))
  folded-any [] h = absurd (h refl)
  folded-any (u ∷ us) h = folded-some (merge_usage no_usage_yet u) us

  -- Where the consumer reads a stream to its end, marker included, and some chunk carries a usage,
  -- all chunks and the marker are sent in order, and the one call is `on_complete`, with in each
  -- field the last value of the usages that is not 0.
  pub billed_in_full :
      (chunks : List (C × Consumer))
      → AllResumed chunks
      → usages chunks ≢ []
      → (u : CompletionUsage) × IsLastOf (usages chunks) u
        × ((streaming_generator fmt cb chunks (exhausted resumed)).called ≡ completed u ∷ [])
        × ((streaming_generator fmt cb chunks (exhausted resumed)).sent ≡ formatted chunks)
  unfolding streaming_generator
  billed_in_full chunks a some_usage =
      let v = usage_or_none_yet (folded none (usages chunks)) in
      let run = consume-AllResumed chunks none a v (folded-any (usages chunks) some_usage) in
      (v, folded-IsLastOf (usages chunks), run.0, run.1)
