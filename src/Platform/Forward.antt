-- ===== src/Platform/Forward.antt =====
-- What the answers of the platform turn into.
use mozilla_ai.Common.{
  ℕ, String, ◌≡◌, refl, ◌≢◌, ◌⊎◌, inl, inr, Bool, true, false, Option, none, some, List, [], ◌∷◌,
  arith, ◌==◌, if◌then◌else◌, Bool-cases, IsIn, str_eq, str_eq_iff, string_eq, or_right,
}
use mozilla_ai.Platform.{HttpException}
use mozilla_ai.Platform.Resolve.{
  Response, Request, Posted, unavailable, post_raised, response, Resolved, resolved, rejected,
  fails, not_ok, on_response, or_fails, resolve_platform_credentials, resolve_platform_web_search,
  if_given, unavailable_answer, credentials_request, web_search_request, as_object,
}
use mozilla_ai.Platform.McpServers.{resolve_platform_mcp_servers, mcp_servers_request, servers_of}
use mozilla_ai.Platform.Errors.{one_of}
use mozilla_ai.Platform.Payload.{Json, ◌>>=◌, Conversions, parse_resolve_payload}

abbrev pub forwarded_statuses : List ℕ
forwarded_statuses = 401 ∷ 402 ∷ 403 ∷ 404 ∷ 429 ∷ []

-- the response's own status, with its `Retry-After` on a 429 where that is not empty
abbrev pub Forwards : Response → HttpException → Type 0
Forwards r e =
    (e.status_code ≡ r.status_code)
    × ((e.retry_after ≡ none) ⊎ ((r.status_code ≡ 429) × (e.retry_after ≡ r.retry_after)))
    × ((s : String)
        → r.status_code ≡ 429
        → r.retry_after ≡ some s
        → s ≢ ""
        → e.retry_after ≡ some s)

-- an answer of the gateway's own, a 502
abbrev pub IsUnavailable : HttpException → Type 0
IsUnavailable e = e ≡ unavailable_answer

-- An HTTPException is for a post that did not get through, or for a response that is no 200.
abbrev pub RejectedFor : Posted → HttpException → Type 0
RejectedFor unavailable e = IsUnavailable e
RejectedFor post_raised e = ⊥
RejectedFor (response r) e =
    (r.status_code ≢ 200)
    × ((IsIn r.status_code forwarded_statuses × Forwards r e)
        ⊎ ((IsIn r.status_code forwarded_statuses → ⊥) × IsUnavailable e))

abbrev pub Answers : {A : Type 0} → Posted → Resolved A → Type 0
Answers posted (resolved a) = Unit
Answers posted fails = Unit
Answers posted (rejected e) = RejectedFor posted e

if_given-cases : (h : Option String) → (if_given h ≡ none) ⊎ (if_given h ≡ h)
if_given-cases none = inl refl
if_given-cases (some s) = elim (Bool-cases (str_eq s "")) [
  | inl e ↦ inl (rw e refl)
  | inr e ↦ inr (rw e refl)
]

if_given-some : (s : String) → s ≢ "" → if_given (some s) ≡ some s
if_given-some s h = ground (arith, str_eq_iff s "")

one_of-IsIn : (ns : List ℕ) (n : ℕ) → one_of ns n ≡ true → IsIn n ns
one_of-IsIn [] n h = cc
one_of-IsIn (m ∷ ns) n h = elim (Bool-cases (n == m)) [
  | inl e ↦ inl (ground (arith, e))
  | inr e ↦ inr (one_of-IsIn ns n (or_right (n == m) _ h e))
]

IsIn-one_of : (ns : List ℕ) (n : ℕ) → IsIn n ns → one_of ns n ≡ true
IsIn-one_of [] n h = elim h [ ]
IsIn-one_of (m ∷ ns) n (inl e) = ground (arith, e)
IsIn-one_of (m ∷ ns) n (inr h) = let rest = IsIn-one_of ns n h in ground (arith, rest)

abbrev passed_on : ℕ → Option String → Option String
passed_on n h = if n == 429 then if_given h else none

passed_on-cases :
    (n : ℕ) (h : Option String) → (passed_on n h ≡ none) ⊎ ((n ≡ 429) × (passed_on n h ≡ h))
passed_on-cases n h = elim (Bool-cases (n == 429)) [
  | inr e ↦ inl (rw e refl)
  | inl e ↦ rw e (elim (if_given-cases h) [
    | inl none_given ↦ inl none_given
    | inr given ↦ inr (ground (arith, e), given)
  ])
]

passed_on-some :
    (n : ℕ) (h : Option String) (s : String)
    → n ≡ 429
    → h ≡ some s
    → s ≢ ""
    → passed_on n h ≡ some s
passed_on-some n h s e eh not_empty = rw (e, eh) (if_given-some s not_empty)

not_ok-RejectedFor :
    (fallback : String) (r : Response)
    → r.status_code ≢ 200
    → RejectedFor (response r) (not_ok fallback r)
not_ok-RejectedFor fallback r bad = elim (Bool-cases (one_of forwarded_statuses r.status_code)) [
  | inl e ↦ rw e (
    bad,
    inl (
      one_of-IsIn forwarded_statuses r.status_code e,
      (
        refl,
        passed_on-cases r.status_code r.retry_after,
        passed_on-some r.status_code r.retry_after,
      ),
    ),
  )
  | inr e ↦
      rw e (bad, inr ((λ h. let yes = IsIn-one_of forwarded_statuses r.status_code h in cc), refl))
]

module _ {A : Type 0} where
  or_fails-Answers : (posted : Posted) (o : Option A) → Answers posted (or_fails o)
  or_fails-Answers posted none = tt
  or_fails-Answers posted (some a) = tt

  on_response-Answers :
      (fallback : String) (parse : Json → Option A) (posted : Posted)
      → Answers posted (on_response fallback parse posted)
  on_response-Answers fallback parse unavailable = refl
  on_response-Answers fallback parse post_raised = tt
  on_response-Answers fallback parse (response r) = elim (Bool-cases (r.status_code == 200)) [
    | inl e ↦ rw e (or_fails-Answers (response r) (r.json >>= parse))
    | inr e ↦ rw e (not_ok-RejectedFor fallback r (ground (arith, e)))
  ]

-- With a base URL that is not empty, each of the three questions to the platform that ends with an
-- HTTPException does so because its post did not get through or got another status than 200: a 401,
-- 402, 403, 404 or 429 is forwarded, a 429 with its `Retry-After` where that is not empty, and
-- everything else is a 502.
pub resolve_platform-Answers :
    (python : Conversions) (is_safe : String → Bool → Bool) (post : Request → Posted)
    (base_url user_token selector : String) (mcp_server_ids : List String)
    → str_eq base_url "" ≡ false
    → Answers
        (post (credentials_request base_url user_token selector))
        (resolve_platform_credentials python post (some base_url) user_token selector)
      × Answers
          (post (mcp_servers_request base_url user_token mcp_server_ids))
          (resolve_platform_mcp_servers is_safe post (some base_url) user_token mcp_server_ids)
      × Answers
          (post (web_search_request base_url user_token))
          (resolve_platform_web_search post (some base_url) user_token)
unfolding resolve_platform_credentials resolve_platform_mcp_servers resolve_platform_web_search
resolve_platform-Answers python is_safe post base_url user_token selector mcp_server_ids e = rw e (
  on_response-Answers _ (parse_resolve_payload python)
      (post (credentials_request base_url user_token selector)),
  on_response-Answers _ (servers_of is_safe)
      (post (mcp_servers_request base_url user_token mcp_server_ids)),
  on_response-Answers _ as_object (post (web_search_request base_url user_token)),
)
