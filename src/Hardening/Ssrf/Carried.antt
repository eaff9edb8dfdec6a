-- ===== src/Hardening/Ssrf/Carried.antt =====
-- packages/hardening/src/ssrf.ts, safeFetchFollowingRedirects: what the requests carry.
use square.Base.{
  ℕ, zero, suc, ◌+◌, ◌≤◌, ◌≡◌, refl, sym, ◌∙◌, inl, inr, ◌⊎◌, Bool, true, false, not, ◌&&◌, Option,
  none, some, get_or, List, [], ◌∷◌, Text, text_beq, text_beq_iff, nat_beq, All, Bool-cases, length,
  arith,
}
use square.Hardening.Ssrf.Redirects.{
  FetchInit, Answer, Web, is_redirect, is_of_body, is_credential, is_read_once, drops_body,
  kept_headers, Next, stopped, next, redirected_init, redirect_to, answer_next, next_of, Followed,
  follow_next, give_up, follow_from, safe_fetch_following_redirects,
}

abbrev pub HasNoCredential : List (Text × Text) → Type 0
HasNoCredential headers = All (λ h. is_credential h.0 ≡ false) headers

-- A request is to the origin of the first one, or has no header with credentials.
abbrev pub IsCarried : Web → Text → Text × FetchInit → Type 0
IsCarried w first request =
    (w.origin request.0 ≡ w.origin first) ⊎ HasNoCredential request.1.headers

module _ (P : Text × Text → Type 0) where
  kept_headers-All :
      (drop_body cross : Bool) (headers : List (Text × Text))
      → All P headers
      → All P (kept_headers drop_body cross headers)
  unfolding kept_headers
  kept_headers-All drop_body cross [] h = tt
  kept_headers-All drop_body cross (a ∷ headers) (p, h) =
      elim (Bool-cases (not (drop_body && is_of_body a.0) && not (cross && is_credential a.0))) [
        | inl keep ↦ rw keep (p, kept_headers-All drop_body cross headers h)
        | inr leave ↦ rw leave (kept_headers-All drop_body cross headers h)
      ]

no_credential : (b c : Bool) → (b && not c) ≡ true → c ≡ false
no_credential true false h = refl
no_credential true true h = cc
no_credential false c h = cc

kept_headers-HasNoCredential :
    (drop_body : Bool) (headers : List (Text × Text))
    → HasNoCredential (kept_headers drop_body true headers)
unfolding kept_headers
kept_headers-HasNoCredential drop_body [] = tt
kept_headers-HasNoCredential drop_body (a ∷ headers) =
    elim (Bool-cases (not (drop_body && is_of_body a.0) && not (is_credential a.0))) [
      | inl keep ↦ rw keep (
        no_credential (not (drop_body && is_of_body a.0)) (is_credential a.0) keep,
        kept_headers-HasNoCredential drop_body headers,
      )
      | inr leave ↦ rw leave (kept_headers-HasNoCredential drop_body headers)
    ]

module _ (w : Web) (first : Text) where
  -- The headers that go on to the next URL are such that it is carried.
  carried_on :
      (drop_body : Bool) (from_url to_url : Text) (headers : List (Text × Text))
      → (w.origin from_url ≡ w.origin first) ⊎ HasNoCredential headers
      → (w.origin to_url ≡ w.origin first)
        ⊎ HasNoCredential
            (kept_headers drop_body (not (text_beq (w.origin from_url) (w.origin to_url))) headers)
  carried_on drop_body from_url to_url headers (inr clean) = inr (
      kept_headers-All (λ h. is_credential h.0 ≡ false) drop_body
        (not (text_beq (w.origin from_url) (w.origin to_url))) headers clean)
  carried_on drop_body from_url to_url headers (inl home) =
      elim (Bool-cases (text_beq (w.origin from_url) (w.origin to_url))) [
        | inl same ↦ inl (sym ((text_beq_iff (w.origin from_url) (w.origin to_url)).0 same) ∙ home)
        | inr other ↦ inr (rw other (kept_headers-HasNoCredential drop_body headers))
      ]

  NextIsCarried : Next → Type 0
  NextIsCarried (stopped outcome) = Unit
  NextIsCarried (next url init) = IsCarried w first (url, init)

  redirected_init-IsCarried :
      (init : FetchInit) (status : ℕ) (from_url to_url : Text)
      → IsCarried w first (from_url, init)
      → NextIsCarried (redirected_init w init status from_url to_url)
  unfolding redirected_init NextIsCarried
  redirected_init-IsCarried init status from_url to_url here =
      elim (Bool-cases (drops_body init status)) [
        | inl drops ↦ rw drops (carried_on true from_url to_url init.headers here)
        | inr keeps ↦ elim (Bool-cases (is_read_once init.body)) [
          | inl once ↦ rw (keeps, once) tt
          | inr again ↦ rw (keeps, again) (carried_on false from_url to_url init.headers here)
        ]
      ]

  redirect_to-IsCarried :
      (init : FetchInit) (status : ℕ) (from_url : Text) (target : Option Text)
      → IsCarried w first (from_url, init)
      → NextIsCarried (redirect_to w init status from_url target)
  unfolding redirect_to NextIsCarried
  redirect_to-IsCarried init status from_url none here = tt
  redirect_to-IsCarried init status from_url (some to_url) here =
      redirected_init-IsCarried init status from_url to_url here

  answer_next-IsCarried :
      (left : ℕ) (url : Text) (init : FetchInit) (a : Answer) (location : Option Text)
      → IsCarried w first (url, init)
      → NextIsCarried (answer_next w left url init a location)
  unfolding answer_next NextIsCarried
  answer_next-IsCarried left url init a none here = tt
  answer_next-IsCarried left url init a (some location) here =
      elim (Bool-cases (is_redirect a.status)) [
        | inr final ↦ rw final tt
        | inl moved ↦ elim (Bool-cases (nat_beq left 0)) [
          | inl last ↦ rw (moved, last) tt
          | inr more ↦
              rw (moved, more)
                (redirect_to-IsCarried init a.status url (w.resolve location url) here)
        ]
      ]

  next_of-IsCarried :
      (left : ℕ) (url : Text) (init : FetchInit) (answer : Option Answer)
      → IsCarried w first (url, init)
      → NextIsCarried (next_of w left url init answer)
  unfolding next_of NextIsCarried
  next_of-IsCarried left url init none here = tt
  next_of-IsCarried left url init (some a) here =
      answer_next-IsCarried left url init a a.location here

  IsGood : ℕ → Followed → Type 0
  IsGood most f = All (IsCarried w first) f.requests × (length f.requests ≤ most)

  follow_next-IsGood :
      (most : ℕ) (url : Text) (init : FetchInit) (go : Text → FetchInit → Followed)
      → ((u : Text) (i : FetchInit) → IsCarried w first (u, i) → IsGood most (go u i))
      → (n : Next) → IsCarried w first (url, init)
      → NextIsCarried n
      → IsGood (suc most) (follow_next url init go n)
  unfolding follow_next NextIsCarried IsGood
  follow_next-IsGood most url init go good (stopped outcome) here there = ((here, tt), omega arith)
  follow_next-IsGood most url init go good (next u i) here there =
      ((here, (good u i there).0), omega (arith, (good u i there).1))

  give_up-IsGood : (u : Text) (i : FetchInit) → IsCarried w first (u, i) → IsGood 0 (give_up u i)
  unfolding give_up IsGood
  give_up-IsGood u i here = (tt, omega arith)

  follow_from-IsGood :
      (left : ℕ) (url : Text) (init : FetchInit)
      → IsCarried w first (url, init)
      → IsGood (suc left) (follow_from w left url init)
  unfolding follow_from
  follow_from-IsGood zero url init here =
      follow_next-IsGood 0 url init give_up give_up-IsGood
        (next_of w 0 url init (w.safe_fetch url init)) here
        (next_of-IsCarried 0 url init (w.safe_fetch url init) here)
  follow_from-IsGood (suc left) url init here =
      follow_next-IsGood (suc left) url init (follow_from w left) (follow_from-IsGood left)
        (next_of w (suc left) url init (w.safe_fetch url init)) here
        (next_of-IsCarried (suc left) url init (w.safe_fetch url init) here)

-- A fetch that follows redirects makes one request and at most one more for each redirect allowed, and
-- each request to another origin than the first URL's carries no header with credentials.
pub safe_fetch_following_redirects-IsCarried :
    (w : Web) (max_redirects : Option ℕ) (url : Text) (init : FetchInit)
    → All (IsCarried w url) (safe_fetch_following_redirects w max_redirects url init).requests
      × (length (safe_fetch_following_redirects w max_redirects url init).requests
          ≤ get_or max_redirects 5 + 1)
unfolding safe_fetch_following_redirects IsGood
safe_fetch_following_redirects-IsCarried w max_redirects url init = (good.0, omega (arith, good.1))
  where
    good :
        IsGood w url
          (suc (get_or max_redirects 5))
          (follow_from w (get_or max_redirects 5) url init)
    good = follow_from-IsGood w url (get_or max_redirects 5) url init (inl refl)
