-- ===== src/Indexer/Sync/Fetched.antt =====
-- services/indexer/src/sync.ts and packages/core/src/events.ts: the events of the blocks that a round fetched.
use square.Base.{
  ℕ, ◌+◌, ◌≤◌, ◌<◌, ◌⊎◌, zero, suc, ◌≡◌, refl, sym, subst, inl, inr, some, List, [], ◌∷◌, arith,
  get_or, All, All-append, Exists, Text, filter, Bool, Bool-cases,
}
use square.Base.Sort.{IsSorted, sort-IsSorted, sort-All}
use square.Indexer.State.{Address}
use square.Indexer.Rows.{Logged, block_of}
use square.Indexer.Decode.{Log, same_address, precedes, decode_for, decode_all, decode_square_logs}
use square.Indexer.Sync.Range.{blocks_logs}

-- Each event that viem parses carries the block of one of the logs.
abbrev pub IsParser : (Text → List Log → List Logged) → Type 0
IsParser parse =
    (contract : Text) (ls : List Log)
    → All (λ e. Exists (λ l. block_of e ≡ get_or l.block_number 0) ls) (parse contract ls)

-- The logs of a block name it.
abbrev pub IsChain : (ℕ → List Log) → Type 0
IsChain chain = (block : ℕ) → All (λ l. l.block_number ≡ some block) (chain block)

abbrev Within : ℕ → ℕ → ℕ → Type 0
Within from end block = (from ≤ block) × (block < end)

abbrev pub EventsWithin : ℕ → ℕ → List Logged → Type 0
EventsWithin from end = All (λ e. (from ≤ block_of e) × (block_of e < end))

abbrev LogsWithin : ℕ → ℕ → List Log → Type 0
LogsWithin from end = All (λ l. Within from end (get_or l.block_number 0))

module _ {A : Type 0} (P Q : A → Type 0) where
  pub All-imp : ((a : A) → P a → Q a) → (xs : List A) → All P xs → All Q xs
  All-imp f [] h = tt
  All-imp f (x ∷ xs) (p, h) = (f x p, All-imp f xs h)

module _ {A : Type 0} (P : A → Type 0) where
  All-filter : (test : A → Bool) (xs : List A) → All P xs → All P (filter test xs)
  All-filter test [] h = tt
  All-filter test (x ∷ xs) (p, h) = elim (Bool-cases (test x)) [
    | inl b ↦ rw (b) (p, All-filter test xs h)
    | inr b ↦ rw (b) (All-filter test xs h)
  ]

All-Exists :
    {A : Type 0} (from end block : ℕ) (number : A → ℕ) (xs : List A)
    → All (λ a. Within from end (number a)) xs
    → Exists (λ a. block ≡ number a) xs
    → Within from end block
All-Exists from end block number [] h none_of = elim none_of [ ]
All-Exists from end block number (x ∷ xs) (w, h) (inl same) = subst (Within from end) (sym same) w
All-Exists from end block number (x ∷ xs) (w, h) (inr later) =
    All-Exists from end block number xs h later

blocks_logs_within :
    (chain : ℕ → List Log) (from n low end : ℕ)
    → IsChain chain
    → low ≤ from
    → from + n ≤ end
    → LogsWithin low end (blocks_logs chain from n)
unfolding blocks_logs
blocks_logs_within chain from zero low end named h k = tt
blocks_logs_within chain from (suc n) low end named h k =
    All-append (λ l. Within low end (get_or l.block_number 0)) (chain from) _
      (All-imp (λ l. l.block_number ≡ some from) (λ l. Within low end (get_or l.block_number 0))
        (λ l at. ground arith) (chain from) (named from))
      (blocks_logs_within chain (from + 1) n low end named (omega arith) (omega arith))

List-cases : {A : Type 0} (xs : List A) → (xs ≡ []) ⊎ ((x : A) × (ys : List A) × (xs ≡ x ∷ ys))
List-cases [] = inl refl
List-cases (x ∷ ys) = inr (x, ys, refl)

parsed_within :
    (parse : Text → List Log → List Logged) (contract : Text) (ls : List Log) (from end : ℕ)
    → IsParser parse
    → LogsWithin from end ls
    → EventsWithin from end (parse contract ls)
parsed_within parse contract ls from end parses h =
    All-imp (λ e. Exists (λ l. block_of e ≡ get_or l.block_number 0) ls)
      (λ e. Within from end (block_of e))
      (λ e found. All-Exists from end (block_of e) (λ l. get_or l.block_number 0) ls h found)
      (parse contract ls) (parses contract ls)

decode_for_within :
    (parse : Text → List Log → List Logged) (contract : Text) (address : Address) (ls : List Log)
    (from end : ℕ)
    → IsParser parse
    → LogsWithin from end ls
    → EventsWithin from end (decode_for parse contract address ls)
unfolding decode_for
decode_for_within parse contract address ls from end parses h =
    elim (List-cases (filter (λ l. same_address l.address address) ls)) [
      | inl none_own ↦ rw (none_own, decode_for) tt
      | inr (l, own, found) ↦
          rw (found, decode_for)
            (parsed_within parse contract (l ∷ own) from end parses (
              subst (LogsWithin from end) found (
                All-filter (λ k. Within from end (get_or k.block_number 0))
                  (λ k. same_address k.address address) ls h)))
    ]

decode_all_within :
    (parse : Text → List Log → List Logged) (contracts : List (Text × Address)) (ls : List Log)
    (from end : ℕ)
    → IsParser parse
    → LogsWithin from end ls
    → EventsWithin from end (decode_all parse contracts ls)
unfolding decode_all
decode_all_within parse [] ls from end parses h = tt
decode_all_within parse ((contract, address) ∷ contracts) ls from end parses h =
    All-append _ (decode_for parse contract address ls) _
      (decode_for_within parse contract address ls from end parses h)
      (decode_all_within parse contracts ls from end parses h)

-- The decoded events of a run of blocks are of these blocks.
pub decode_square_logs_within :
    (parse : Text → List Log → List Logged) (contracts : List (Text × Address))
    (chain : ℕ → List Log) (from n end : ℕ)
    → IsParser parse
    → IsChain chain
    → from + n ≤ end
    → EventsWithin from end (decode_square_logs parse contracts (blocks_logs chain from n))
unfolding decode_square_logs
decode_square_logs_within parse contracts chain from n end parses named h =
    sort-All precedes (λ e. Within from end (block_of e)) _
      (decode_all_within parse contracts (blocks_logs chain from n) from end parses
        (blocks_logs_within chain from n from end named (omega arith) h))

-- They are in order.
pub decode_square_logs-IsSorted :
    (parse : Text → List Log → List Logged) (contracts : List (Text × Address)) (ls : List Log)
    → IsSorted precedes (decode_square_logs parse contracts ls)
unfolding decode_square_logs
decode_square_logs-IsSorted parse contracts ls =
    sort-IsSorted precedes (λ x y h. ground arith) (λ x y z h k. ground arith)
      (decode_all parse contracts ls)
