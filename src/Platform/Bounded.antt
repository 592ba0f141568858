-- ===== src/Platform/Bounded.antt =====
-- How long `_report_platform_usage` goes on.
use native.Mathlib.Nat.{pow-suc}
use mozilla_ai.Common.{
  ℕ, zero, suc, ◌+◌, ◌-◌, ◌*◌, ◌≤◌, ◌<◌, String, ◌≡◌, refl, sym, ap, subst, inl, inr, Bool, true,
  false, ◌||◌, Option, some, List, [], ◌∷◌, arith, leb, ◌==◌, Bool-cases, str_eq, string_eq, ◌^◌,
  leb→le,
}
use mozilla_ai.Platform.Report.{
  Posted, responded, unreachable, post_raised, UsagePayload, Reported, report_platform_usage,
  usage_payload, attempts, after_post, retry, stopped, usage_non_retryable_status_codes,
}
use mozilla_ai.Streaming.{CompletionUsage}
use mozilla_ai.Platform.Errors.{one_of, ErrorClass}

-- a timeout, a network error, or a status from 500 on
abbrev pub IsTransient : Posted → Type 0
IsTransient (responded code) = 500 ≤ code
IsTransient unreachable = Unit
IsTransient post_raised = ⊥

abbrev pub waited : List ℕ → ℕ
waited [] = 0
waited (d ∷ ds) = d + waited ds

-- Of at most `left` posts from the one that `made` went before, the ones made are all transient but
-- for the last, which is transient only where no attempt was left, and the delays double.
abbrev pub IsBounded : (ℕ → Posted) → ℕ → ℕ → ℕ → Reported → Type 0
IsBounded post left made delay r =
    (1 ≤ r.posts)
    × (r.posts ≤ left)
    × ((i : ℕ) → i + 1 < r.posts → IsTransient (post (made + i)))
    × (IsTransient (post (made + (r.posts - 1))) → r.posts ≡ left)
    × (waited r.delays + delay ≡ delay * 2 ^ (r.posts - 1))

add_zero : (n : ℕ) → n + 0 ≡ n
add_zero n = omega arith

double : (d w x : ℕ) → w + d * 2 ≡ d * 2 * x → d + w + d ≡ d * (x * 2)
double d w x h = grind (arith, h)

later : (made p : ℕ) → 1 ≤ p → made + (suc p - 1) ≡ made + 1 + (p - 1)
later made p h = omega (arith, h)

one_post :
    (post : ℕ → Posted) (left made delay : ℕ) (raised : Bool)
    → (IsTransient (post made) → left ≡ 0)
    → IsBounded post (suc left) made delay (stopped raised)
one_post post left made delay raised last = (
  omega arith,
  omega arith,
  (λ i h. absurd (omega (arith, h))),
  (λ h.
      let none_left = last (subst (λ n. IsTransient (post n)) (add_zero made) h) in
      omega (arith, none_left)),
  omega arith,
)

IsBounded-suc :
    (post : ℕ → Posted) (left made delay : ℕ) (r : Reported)
    → IsTransient (post made)
    → IsBounded post (suc left) (made + 1) (delay * 2) r
    → IsBounded post (suc (suc left)) made delay (retry (suc left) delay r)
IsBounded-suc post left made delay r transient (some_post, most, before, last, wait) = (
  omega arith,
  omega (arith, most),
  from,
  (λ h. ap suc (last (subst (λ n. IsTransient (post n)) (later made r.posts some_post) h))),
  step,
)
  where
    from : (i : ℕ) → i + 1 < suc r.posts → IsTransient (post (made + i))
    from zero h = subst (λ n. IsTransient (post n)) (sym (add_zero made)) transient
    from (suc i) h =
        subst (λ n. IsTransient (post n)) (omega (arith, h)) (before i (omega (arith, h)))

    step : delay + waited r.delays + delay ≡ delay * 2 ^ (suc r.posts - 1)
    step =
        let shift : suc r.posts - 1 ≡ suc (r.posts - 1) = omega (arith, some_post) in
        rw (shift, pow-suc 2 (r.posts - 1))
          (double delay (waited r.delays) (2 ^ (r.posts - 1)) wait)

module _ (post : ℕ → Posted) (made delay : ℕ) (rest : Reported) where
  -- what is asked of the posts after this one, where any are left
  abbrev Rest : ℕ → Type 0
  Rest left = (n : ℕ) → left ≡ suc n → IsBounded post left (made + 1) (delay * 2) rest

  IsBounded-retry :
      (left : ℕ)
      → IsTransient (post made)
      → Rest left
      → IsBounded post (suc left) made delay (retry left delay rest)
  IsBounded-retry zero transient next = one_post post zero made delay false (λ h. refl)
  IsBounded-retry (suc left) transient next =
      IsBounded-suc post left made delay rest transient (next left refl)

  final :
      (code : ℕ)
      → (code == 204 || one_of usage_non_retryable_status_codes code) ≡ true
      → 500 ≤ code
      → ⊥
  final code h large = ground (arith, h, large)

  IsBounded-after_post :
      (left : ℕ) (p : Posted)
      → post made ≡ p
      → Rest left
      → IsBounded post (suc left) made delay (after_post p left delay rest)
  IsBounded-after_post left (responded code) e next =
      elim (Bool-cases (code == 204 || one_of usage_non_retryable_status_codes code)) [
        | inl stop ↦ rw stop (
            one_post post left made delay false
              (λ h. absurd (final code stop (subst IsTransient e h))))
        | inr go ↦ rw go (elim (Bool-cases (leb 500 code)) [
          | inl large ↦
              rw large
                (IsBounded-retry left (subst IsTransient (sym e) (leb→le 500 code large)) next)
          | inr small ↦ rw small (
              one_post post left made delay false
                (λ h. absurd (ground (arith, small, subst IsTransient e h))))
        ])
      ]
  IsBounded-after_post left unreachable e next =
      IsBounded-retry left (subst IsTransient (sym e) tt) next
  IsBounded-after_post left post_raised e next =
      one_post post left made delay true (λ h. elim (subst IsTransient e h) [ ])

attempts-IsBounded :
    (post : ℕ → UsagePayload → Posted) (payload : UsagePayload) (left made delay : ℕ)
    → IsBounded
        (λ n. post n payload)
        (suc left)
        made
        delay
        (attempts post payload (suc left) made delay)
attempts-IsBounded post payload zero made delay =
    IsBounded-after_post (λ n. post n payload) made delay _ zero (post made payload) refl
      (λ n e. absurd (omega (arith, e)))
attempts-IsBounded post payload (suc left) made delay =
    IsBounded-after_post (λ n. post n payload) made delay _ (suc left) (post made payload) refl
      (λ n e. attempts-IsBounded post payload left (made + 1) (delay * 2))

-- With a base URL and one retry or more, at least one post and at most `max_retries` are made; each
-- but the last timed out, met a network error or got a status from 500 on, and the last did only where
-- it was the `max_retries`th; and the waits between them sum to 2^(posts - 1) - 1 quarters of a second.
pub report_platform_usage-IsBounded :
    (base_url : String) (max_retries : ℕ) (post : ℕ → UsagePayload → Posted)
    (correlation_id outcome : String) (usage : Option CompletionUsage)
    (error_class : Option ErrorClass)
    → str_eq base_url "" ≡ false
    → 1 ≤ max_retries
    → IsBounded
        (λ n. post n (usage_payload correlation_id outcome usage error_class))
        max_retries
        0
        1
        (report_platform_usage
          (some base_url)
          max_retries
          post
          correlation_id
          outcome
          usage
          error_class)
unfolding report_platform_usage
report_platform_usage-IsBounded base_url zero post correlation_id outcome usage error_class url
      some_retry =
    absurd (omega (arith, some_retry))
report_platform_usage-IsBounded base_url (suc left) post correlation_id outcome usage error_class
      url some_retry =
    rw url
      (attempts-IsBounded post (usage_payload correlation_id outcome usage error_class) left 0 1)
