-- ===== src/Hardening/Idempotency.antt =====
-- packages/hardening/src/idempotency.ts: the store in memory, and the replay of responses. A body is
-- a text, a request hash is given, and the requests for one id follow each other, as the code makes
-- them wait. The clock is read for the lookup and again for the write.
pub mod Replay
pub mod Unkept
use square.Base.{
  nat_beq, any, ℕ, ◌+◌, Bool, true, false, not, ◌&&◌, ◌||◌, Option, none, some, List, [], ◌∷◌, ◌++◌,
  Text, text_eq, text_beq, codes, decimal, length, leb, ltb, nat_beq, get_or, if◌then◌else◌,
}
use square.Base.JsMap
use square.Base.JsMap.{JsMap}

pub record HandlerResponse : Type 0 where
  pub status : ℕ
  pub body : Text
  pub transient : Bool

-- `TRANSIENT_REJECTION_STATUSES` of packages/hardening/src/transient.ts.
abbrev pub transient_rejection_statuses : List ℕ
transient_rejection_statuses = 408 ∷ 425 ∷ 429 ∷ []

unfoldable pub default_should_store : HandlerResponse → Bool
default_should_store r =
    ltb r.status 500 && not (any (λ s. nat_beq s r.status) transient_rejection_statuses)

pub record StoredResponse : Type 0 where
  pub request_hash : Text
  pub status : ℕ
  pub body : Text
  pub expires_at : ℕ

pub data PutIfAbsentResult : Type 0 where
  stored : PutIfAbsentResult
  exists : StoredResponse → PutIfAbsentResult

abbrev pub Entries : Type 0
Entries = JsMap Text StoredResponse

unfoldable pub entry_id : Text → Text → Text
entry_id scope key = decimal (length scope) ++ (b':' ∷ (scope ++ (b':' ∷ key)))

-- An entry that has expired is dropped when it is looked up.
unfoldable pub live : Entries → Text → ℕ → Option StoredResponse × Entries
live entries id now = elim (JsMap.get id entries) [
  | none ↦ (none, entries)
  | some entry ↦
      if leb entry.expires_at now then (none, JsMap.delete id entries) else (some entry, entries)
]

abbrev pub entry_of : Text → HandlerResponse → ℕ → StoredResponse
entry_of request_hash r expires_at = record {
  request_hash = request_hash;
  status = r.status;
  body = r.body;
  expires_at = expires_at;
}

unfoldable pub put_if_absent :
    Entries → Text → Text → HandlerResponse → ℕ → ℕ → PutIfAbsentResult × Entries
put_if_absent entries id request_hash r ttl_ms now =
    let (existing, entries') = live entries id now in
    elim existing [
      | some entry ↦ (exists entry, entries')
      | none ↦ (stored, JsMap.set id (entry_of request_hash r (now + ttl_ms)) entries')
    ]

pub record IdempotencyRequest : Type 0 where
  pub scope : Text
  pub key : Text
  pub request_hash : Text

pub data IdempotentOutcome : Type 0 where
  from_handler from_replay : ℕ → Text → IdempotentOutcome
  conflict threw : IdempotentOutcome

unfoldable pub outcome_from_stored : StoredResponse → Text → IdempotentOutcome
outcome_from_stored entry request_hash =
    if not (text_beq entry.request_hash request_hash)
    then conflict
    else from_replay entry.status entry.body

abbrev pub default_ttl_ms : ℕ
default_ttl_ms = 86400000

-- What the code is set up with: the test of what is kept, and the time to live.
pub record WithIdempotency : Type 0 where
  pub ttl_ms : Option ℕ
  pub should_store : HandlerResponse → Bool

-- One request: the answer of the handler, which throws where there is none, and the two times.
pub record Execution : Type 0 where
  pub request : IdempotencyRequest
  pub response : Option HandlerResponse
  pub now : ℕ
  pub later : ℕ

pub record Executed : Type 0 where
  pub outcome : IdempotentOutcome
  pub handled : Bool
  pub entries : Entries

abbrev pub executed : IdempotentOutcome → Bool → Entries → Executed
executed outcome handled entries = record {
  outcome = outcome;
  handled = handled;
  entries = entries;
}

after_put : IdempotencyRequest → HandlerResponse → PutIfAbsentResult → IdempotentOutcome
after_put q r stored = from_handler r.status r.body
after_put q r (exists entry) = outcome_from_stored entry q.request_hash

handle : WithIdempotency → Execution → Entries → Executed
unfolding after_put
handle w x entries = elim x.response [
  | none ↦ executed threw true entries
  | some r ↦
      if r.transient || not (w.should_store r)
      then executed (from_handler r.status r.body) true entries
      else let (put, entries') =
          put_if_absent entries (entry_id x.request.scope x.request.key) x.request.request_hash r
            (get_or w.ttl_ms default_ttl_ms) x.later in
        executed (after_put x.request r put) true entries'
]

unfoldable pub execute : WithIdempotency → Execution → Entries → Executed
unfolding handle
execute w x entries =
    let (existing, entries') = live entries (entry_id x.request.scope x.request.key) x.now in
    elim existing [
      | some entry ↦ executed (outcome_from_stored entry x.request.request_hash) false entries'
      | none ↦ handle w x entries'
    ]
