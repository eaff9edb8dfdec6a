-- ===== src/Hardening/Idempotency/Replay.antt =====
-- A response that was stored is replayed (packages/hardening/src/idempotency.ts).
use square.Base.{
  ℕ, ◌+◌, ◌<◌, ◌≡◌, inl, inr, true, false, none, some, List, [], ◌∷◌, Text, text_eq, text_beq,
  text_beq_iff, get_or, if◌then◌else◌, arith, Option-cases, Bool-cases, All, ◌==◌, ap, ◌∙◌,
}
use square.Base.JsMap
use square.Base.JsMap.{get-set, get-delete, get_self}
use square.Hardening.Idempotency.{
  HandlerResponse, StoredResponse, Entries, live, entry_of, put_if_absent, entry_id, from_replay,
  from_handler, conflict, outcome_from_stored, WithIdempotency, Execution, executed, handle,
  execute, default_ttl_ms, after_put, stored,
}

abbrev pub id_of : Execution → Text
id_of x = entry_id x.request.scope x.request.key

unfoldable pub execute_all : WithIdempotency → List Execution → Entries → Entries
execute_all w [] entries = entries
execute_all w (x ∷ xs) entries = execute_all w xs (execute w x entries).entries

-- The clock's answers for an execution come before a time.
abbrev pub IsBefore : ℕ → Execution → Type 0
IsBefore end x = (x.now < end) × (x.later < end)

module _ (entries : Entries) (id : Text) (e : StoredResponse)
    (found : JsMap.get id entries ≡ some e) where
  live-found : (now : ℕ) → now < e.expires_at → live entries id now ≡ (some e, entries)
  unfolding live
  live-found now fresh = ground arith

  live-keeps :
      (other : Text) (now : ℕ)
      → now < e.expires_at
      → JsMap.get id (live entries other now).1 ≡ some e
  unfolding live
  live-keeps other now fresh = ground (arith, get-delete other id entries, text_beq_iff other id)

  put_if_absent-keeps :
      (other hash : Text) (r : HandlerResponse) (ttl now : ℕ)
      → now < e.expires_at
      → JsMap.get id (put_if_absent entries other hash r ttl now).1 ≡ some e
  unfolding put_if_absent
  put_if_absent-keeps other hash r ttl now fresh = elim (Bool-cases (other == id)) [
    | inl same ↦ ground (arith, live-found now fresh, text_beq_iff other id)
    | inr different ↦ ground (
      arith,
      live-keeps other now fresh,
      get-set other id (entry_of hash r (now + ttl)) (live entries other now).1,
    )
  ]

  handle-keeps :
      (w : WithIdempotency) (x : Execution)
      → x.later < e.expires_at
      → JsMap.get id (handle w x entries).entries ≡ some e
  unfolding handle
  handle-keeps w x fresh = elim (Option-cases x.response) [
    | inl thrown ↦ ground (arith, found)
    | inr (r, answered) ↦ ground (
      arith,
      found,
      put_if_absent-keeps (id_of x) x.request.request_hash r (get_or w.ttl_ms default_ttl_ms)
          x.later fresh,
    )
  ]

execute-keeps :
    (w : WithIdempotency) (x : Execution) (entries : Entries) (id : Text) (e : StoredResponse)
    → JsMap.get id entries ≡ some e
    → IsBefore e.expires_at x
    → JsMap.get id (execute w x entries).entries ≡ some e
unfolding execute
execute-keeps w x entries id e found (fresh, fresh_later) =
    let kept = live-keeps entries id e found (id_of x) x.now fresh in
    ground (arith, kept, handle-keeps (live entries (id_of x) x.now).1 id e kept w x fresh_later)

execute_all-keeps :
    (w : WithIdempotency) (xs : List Execution) (entries : Entries) (id : Text) (e : StoredResponse)
    → JsMap.get id entries ≡ some e
    → All (IsBefore e.expires_at) xs
    → JsMap.get id (execute_all w xs entries) ≡ some e
unfolding execute_all
execute_all-keeps w [] entries id e found before = found
execute_all-keeps w (x ∷ xs) entries id e found (first, rest) =
    execute_all-keeps w xs (execute w x entries).entries id e
      (execute-keeps w x entries id e found first) rest

-- The end of the life of what an execution stores.
abbrev pub end_of : WithIdempotency → Execution → ℕ
end_of w x = x.later + get_or w.ttl_ms default_ttl_ms

pub live-absent :
    (entries : Entries) (id : Text) (now : ℕ)
    → JsMap.get id entries ≡ none
    → live entries id now ≡ (none, entries)
unfolding live
live-absent entries id now absent = ground arith

put_if_absent-stores :
    (entries : Entries) (id hash : Text) (r : HandlerResponse) (ttl now : ℕ)
    → JsMap.get id entries ≡ none
    → put_if_absent entries id hash r ttl now
      ≡ (stored, JsMap.set id (entry_of hash r (now + ttl)) entries)
unfolding put_if_absent
put_if_absent-stores entries id hash r ttl now absent =
    ground (arith, live-absent entries id now absent)

handle-stores :
    (w : WithIdempotency) (x : Execution) (entries : Entries) (r : HandlerResponse)
    → JsMap.get (id_of x) entries ≡ none
    → x.response ≡ some r
    → r.transient ≡ false
    → w.should_store r ≡ true
    → handle w x entries
      ≡ executed
          (from_handler r.status r.body)
          true
          (JsMap.set (id_of x) (entry_of x.request.request_hash r (end_of w x)) entries)
unfolding handle after_put
handle-stores w x entries r absent answered lasting kept = ground (
  arith,
  put_if_absent-stores entries (id_of x) x.request.request_hash r (get_or w.ttl_ms default_ttl_ms)
      x.later absent,
)

execute-stores :
    (w : WithIdempotency) (x : Execution) (entries : Entries) (r : HandlerResponse)
    → JsMap.get (id_of x) entries ≡ none
    → x.response ≡ some r
    → r.transient ≡ false
    → w.should_store r ≡ true
    → execute w x entries
      ≡ executed
          (from_handler r.status r.body)
          true
          (JsMap.set (id_of x) (entry_of x.request.request_hash r (end_of w x)) entries)
unfolding execute
execute-stores w x entries r absent answered lasting kept = ground (
  arith,
  live-absent entries (id_of x) x.now absent,
  handle-stores w x entries r absent answered lasting kept,
)

execute-found :
    (w : WithIdempotency) (y : Execution) (entries : Entries) (e : StoredResponse)
    → JsMap.get (id_of y) entries ≡ some e
    → y.now < e.expires_at
    → ((execute w y entries).handled ≡ false)
      × ((execute w y entries).outcome ≡ outcome_from_stored e y.request.request_hash)
unfolding execute
execute-found w y entries e found fresh = (
  ground (arith, live-found entries (id_of y) e found y.now fresh),
  ground (arith, live-found entries (id_of y) e found y.now fresh),
)

-- A response that is kept is what its first request gets, and until its life ends every later request
-- for the same scope and key gets it again, without another call of the handler, whatever requests come
-- in between; a request with another hash gets the conflict.
pub execute-replays :
    (w : WithIdempotency) (x y : Execution) (between : List Execution) (entries : Entries)
    (r : HandlerResponse)
    → JsMap.get (id_of x) entries ≡ none
    → x.response ≡ some r
    → r.transient ≡ false
    → w.should_store r ≡ true
    → All (IsBefore (end_of w x)) between
    → id_of y ≡ id_of x
    → y.now < end_of w x
    → let again = execute w y (execute_all w between (execute w x entries).entries) in
      ((execute w x entries).outcome ≡ from_handler r.status r.body)
      × (again.handled ≡ false)
      × (again.outcome ≡ (
          if text_beq x.request.request_hash y.request.request_hash
          then from_replay r.status r.body
          else conflict))
unfolding outcome_from_stored
execute-replays w x y between entries r absent answered lasting kept before same fresh =
    let e = entry_of x.request.request_hash r (end_of w x) in
    let run = execute-stores w x entries r absent answered lasting kept in
    let there : JsMap.get (id_of x) (execute w x entries).entries ≡ some e =
      ap (λ t. JsMap.get (id_of x) t.entries) run ∙ get_self (id_of x) e entries in
    let found =
      execute_all-keeps w between (execute w x entries).entries (id_of x) e there before in
    let rest = execute_all w between (execute w x entries).entries in
    let (unhandled, replayed) =
      execute-found w y rest e (ap (λ i. JsMap.get i rest) same ∙ found) fresh in
    (ap (λ t. t.outcome) run, unhandled, ground (arith, replayed))
