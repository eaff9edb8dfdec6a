-- ===== src/Hardening/Idempotency/Unkept.antt =====
-- A response that is not kept leaves no trace (packages/hardening/src/idempotency.ts).
use square.Base.{
  ◌≡◌, inl, inr, true, not, ◌||◌, Option, none, some, text_eq, arith, Option-cases, ap, sym, subst,
  ◌∙◌,
}
use square.Base.JsMap
use square.Hardening.Idempotency.{
  HandlerResponse, Entries, WithIdempotency, Execution, handle, execute,
}
use square.Hardening.Idempotency.Replay.{id_of, live-absent}

-- The handler throws, or its answer is transient or not to be kept.
abbrev pub IsUnkept : WithIdempotency → Option HandlerResponse → Type 0
IsUnkept w none = Unit
IsUnkept w (some r) = (r.transient || not (w.should_store r)) ≡ true

handle-unkept :
    (w : WithIdempotency) (x : Execution) (entries : Entries)
    → IsUnkept w x.response
    → (handle w x entries).entries ≡ entries
unfolding handle
handle-unkept w x entries unkept = elim (Option-cases x.response) [
  | inl thrown ↦ ground arith
  | inr (r, answered) ↦ let last = subst (IsUnkept w) answered unkept in ground (arith, last)
]

handle-handled :
    (w : WithIdempotency) (x : Execution) (entries : Entries) → (handle w x entries).handled ≡ true
unfolding handle
handle-handled w x entries = ground arith

-- Where nothing is stored for a request, its handler is called, and when it throws, or its answer is
-- transient or not to be kept, nothing is stored: the next request for the same scope and key calls
-- its handler too.
pub execute-unkept :
    (w : WithIdempotency) (x y : Execution) (entries : Entries)
    → JsMap.get (id_of x) entries ≡ none
    → IsUnkept w x.response
    → id_of y ≡ id_of x
    → ((execute w x entries).entries ≡ entries)
      × ((execute w x entries).handled ≡ true)
      × ((execute w y (execute w x entries).entries).handled ≡ true)
unfolding execute
execute-unkept w x y entries absent unkept same =
    let first : (execute w x entries).entries ≡ entries =
      ground
        (arith, live-absent entries (id_of x) x.now absent, handle-unkept w x entries unkept) in
    (
      first,
      ground (arith, live-absent entries (id_of x) x.now absent, handle-handled w x entries),
      subst (λ t. (execute w y t).handled ≡ true) (sym first)
          (ground (
            arith,
            live-absent entries (id_of y) y.now (ap (λ i. JsMap.get i entries) same ∙ absent),
            handle-handled w y entries,
          )),
    )
