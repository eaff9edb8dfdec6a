-- ===== src/Hardening/Ssrf/Redirects.antt =====
-- packages/hardening/src/ssrf.ts, safeFetchFollowingRedirects. A fetch by safeFetch and the parser of URLs are
-- parameters.
use square.Base.{
  ℕ, zero, suc, Bool, true, false, not, ◌&&◌, ◌||◌, Option, none, some, get_or, List, [], ◌∷◌, Text,
  codes, text_beq, nat_beq, any, filter, if◌then◌else◌, to_lower_case,
}
use square.Hardening.Ssrf.{SsrfRejectionCode, invalid_url, too_many_redirects, body_not_replayable}

-- A body that can be sent again, as `isReplayableBody` tells, or once.
pub data Body : Type 0 where
  no_body replayable read_once : Body

-- `method` is GET where none is given.
pub record FetchInit : Type 0 where
  pub method : Text
  pub headers : List (Text × Text)
  pub body : Body

pub record Answer : Type 0 where
  pub status : ℕ
  pub location : Option Text

-- `safe_fetch`, none where it throws, the origin of a URL, and a location read against the URL that it came from.
pub record Web : Type 0 where
  pub safe_fetch : Text → FetchInit → Option Answer
  pub origin : Text → Text
  pub resolve : Text → Text → Option Text

abbrev pub is_redirect : ℕ → Bool
is_redirect status = any (λ s. nat_beq s status) (301 ∷ 302 ∷ 303 ∷ 307 ∷ 308 ∷ [])

abbrev is_among : List Text → Text → Bool
is_among names name = any (λ n. text_beq n (to_lower_case name)) names

abbrev pub is_of_body : Text → Bool
is_of_body =
    is_among (codes "content-type" ∷ codes "content-length" ∷ codes "content-encoding" ∷ [])

abbrev pub is_credential : Text → Bool
is_credential = is_among (codes "authorization" ∷ codes "proxy-authorization" ∷ codes "cookie" ∷ [])

-- The method's letters in upper case are those of POST.
abbrev is_post : Text → Bool
is_post method = text_beq (to_lower_case method) (codes "post")

abbrev pub drops_body : FetchInit → ℕ → Bool
drops_body init status =
    nat_beq status 303 || (nat_beq status 301 || nat_beq status 302) && is_post init.method

unfoldable pub kept_headers : Bool → Bool → List (Text × Text) → List (Text × Text)
kept_headers drop_body cross_origin headers =
    filter (λ h. not (drop_body && is_of_body h.0) && not (cross_origin && is_credential h.0))
      headers

abbrev pub is_read_once : Body → Bool
is_read_once read_once = true
is_read_once _ = false

pub data Outcome : Type 0 where
  answered : Answer → Outcome
  fetch_threw : Outcome
  refused : SsrfRejectionCode → Outcome

-- After a fetch: the end, or the next one.
pub data Next : Type 0 where
  stopped : Outcome → Next
  next : Text → FetchInit → Next

unfoldable pub redirected_init : Web → FetchInit → ℕ → Text → Text → Next
redirected_init w init status from_url to_url =
    let headers =
      kept_headers (drops_body init status) (not (text_beq (w.origin from_url) (w.origin to_url)))
        init.headers in
    if drops_body init status
    then next to_url (record { method = codes "GET"; headers = headers; body = no_body })
    else if is_read_once init.body
    then stopped (refused body_not_replayable)
    else next to_url (record init { headers = headers })

unfoldable pub redirect_to : Web → FetchInit → ℕ → Text → Option Text → Next
redirect_to w init status from_url none = stopped (refused invalid_url)
redirect_to w init status from_url (some to_url) = redirected_init w init status from_url to_url

-- An answer with its `location`, with `left` redirects left.
unfoldable pub answer_next : Web → ℕ → Text → FetchInit → Answer → Option Text → Next
answer_next w left url init a none = stopped (answered a)
answer_next w left url init a (some location) =
    if not (is_redirect a.status)
    then stopped (answered a)
    else if nat_beq left 0
    then stopped (refused too_many_redirects)
    else redirect_to w init a.status url (w.resolve location url)

unfoldable pub next_of : Web → ℕ → Text → FetchInit → Option Answer → Next
next_of w left url init none = stopped fetch_threw
next_of w left url init (some a) = answer_next w left url init a a.location

-- The requests in their order, and what becomes of them.
pub record Followed : Type 0 where
  pub requests : List (Text × FetchInit)
  pub outcome : Outcome

unfoldable pub follow_next : Text → FetchInit → (Text → FetchInit → Followed) → Next → Followed
follow_next url init go (stopped outcome) = record {
  requests = (url, init) ∷ [];
  outcome = outcome;
}
follow_next url init go (next to_url to_init) =
    let f = go to_url to_init in record f { requests = (url, init) ∷ f.requests }

unfoldable pub give_up : Text → FetchInit → Followed
give_up url init = record { requests = []; outcome = refused too_many_redirects }

-- The loop, from a hop on.
unfoldable pub follow_from : Web → ℕ → Text → FetchInit → Followed
unfolding give_up
follow_from w zero url init =
    follow_next url init give_up (next_of w 0 url init (w.safe_fetch url init))
follow_from w (suc left) url init =
    follow_next url init (follow_from w left)
      (next_of w (suc left) url init (w.safe_fetch url init))

-- `safeFetchFollowingRedirects`.
unfoldable pub safe_fetch_following_redirects : Web → Option ℕ → Text → FetchInit → Followed
safe_fetch_following_redirects w max_redirects url init =
    follow_from w (get_or max_redirects 5) url init
