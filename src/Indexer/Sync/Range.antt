-- ===== src/Indexer/Sync/Range.antt =====
-- services/indexer/src/sync.ts: what `logsInRange` fetches, and how the rounds advance.
use square.Base.{
  ℕ, ◌+◌, ◌-◌, ◌/◌, ◌≤◌, ◌<◌, zero, suc, ◌≡◌, ◌≢◌, refl, ap, sym, subst, ◌∙◌, ◌⊎◌, inl, inr, true,
  false, List, [], ◌∷◌, ◌++◌, arith, leb, Bool-cases,
}
use square.Indexer.Decode.{Log}
use square.Indexer.Sync.{Answer, logs, too_large, failed, both, logs_in_range}

-- The logs of so many blocks of the chain, from one on.
unfoldable pub blocks_logs : (ℕ → List Log) → ℕ → ℕ → List Log
blocks_logs chain from zero = []
blocks_logs chain from (suc n) = chain from ++ blocks_logs chain (from + 1) n

-- The node refuses a range as too large, or answers its logs.
abbrev pub IsHonest : (ℕ → List Log) → (ℕ → ℕ → Answer) → Type 0
IsHonest chain ask =
    (from to : ℕ)
    → from ≤ to
    → (ask from to ≡ too_large) ⊎ (ask from to ≡ logs (blocks_logs chain from (to - from + 1)))

append_assoc : {A : Type 0} (xs ys zs : List A) → (xs ++ ys) ++ zs ≡ xs ++ (ys ++ zs)
append_assoc [] ys zs = refl
append_assoc (x ∷ xs) ys zs = ap (λ t. x ∷ t) (append_assoc xs ys zs)

same_count :
    (chain : ℕ → List Log) (from m n : ℕ)
    → m ≡ n
    → blocks_logs chain from m ≡ blocks_logs chain from n
same_count chain from m n same = ap (λ j. blocks_logs chain from j) same

blocks_logs-add :
    (chain : ℕ → List Log) (from middle m n k : ℕ)
    → k ≡ m + n
    → middle ≡ from + m
    → blocks_logs chain from k ≡ blocks_logs chain from m ++ blocks_logs chain middle n
unfolding blocks_logs
blocks_logs-add chain from middle zero n k sum at =
    same_count chain from k n (omega (arith, sum))
    ∙ ap (λ f. blocks_logs chain f n) (omega (arith, at))
blocks_logs-add chain from middle (suc m) n k sum at =
    same_count chain from k (suc (m + n)) (omega (arith, sum))
    ∙ ap (λ t. chain from ++ t)
        (blocks_logs-add chain (from + 1) middle m n (m + n) refl (omega (arith, at)))
    ∙ sym (append_assoc (chain from) (blocks_logs chain (from + 1) m) _)

answered_whole :
    (ask : ℕ → ℕ → Answer) (fuel from to : ℕ) (found : List Log)
    → ask from to ≡ logs found
    → logs_in_range ask (suc fuel) from to ≡ logs found
unfolding logs_in_range
answered_whole ask fuel from to found answered = ground arith

fetched_halves :
    (ask : ℕ → ℕ → Answer) (fuel from to : ℕ) {xs ys : List Log}
    → ask from to ≡ too_large
    → leb to from ≡ false
    → logs_in_range ask fuel from (from + (to - from) / 2) ≡ logs xs
    → logs_in_range ask fuel (from + (to - from) / 2 + 1) to ≡ logs ys
    → logs_in_range ask (suc fuel) from to ≡ logs (xs ++ ys)
unfolding logs_in_range both
fetched_halves ask fuel from to refused wide head tail =
    rw (refused, wide, head, tail, logs_in_range) refl

-- Halving a range as often as the node asks for it fetches the logs of exactly its blocks, once each and in
-- the chain's order, when the node refuses a range as too large or answers it and refuses no single block.
pub logs_in_range_lem :
    (chain : ℕ → List Log) (ask : ℕ → ℕ → Answer) (fuel from to : ℕ)
    → IsHonest chain ask
    → ((block : ℕ) → ask block block ≢ too_large)
    → from ≤ to
    → to - from < fuel
    → logs_in_range ask fuel from to ≡ logs (blocks_logs chain from (to - from + 1))
logs_in_range_lem chain ask zero from to honest single h enough = absurd (omega arith)
logs_in_range_lem chain ask (suc fuel) from to honest single h enough = elim (honest from to h) [
  | inr answered ↦ answered_whole ask fuel from to _ answered
  | inl refused ↦ elim (Bool-cases (leb to from)) [
    | inl one ↦ absurd (single from (subst (λ t. ask from t ≡ too_large) (ground arith) refused))
    | inr wide ↦
        fetched_halves ask fuel from to refused wide
          (logs_in_range_lem chain ask fuel from (from + (to - from) / 2) honest single
            (omega arith) (ground arith))
          (logs_in_range_lem chain ask fuel (from + (to - from) / 2 + 1) to honest single
            (ground arith) (ground arith))
        ∙ ap logs (sym (blocks_logs-add chain from _ _ _ _ (ground arith) (ground arith)))
  ]
]

-- Whether an answer is the logs of the range, or an error.
pub data Fetched (a : Answer) (found : List Log) : Type 0 where
  whole : a ≡ logs found → Fetched a found
  refused : a ≡ too_large → Fetched a found
  broken : a ≡ failed → Fetched a found

both-Fetched :
    {xs ys found : List Log} (a b : Answer)
    → xs ++ ys ≡ found
    → Fetched a xs
    → Fetched b ys
    → Fetched (both a b) found
unfolding both
both-Fetched a b joined (refused e) f = rw (e) (refused refl)
both-Fetched a b joined (broken e) f = rw (e) (broken refl)
both-Fetched a b joined (whole e) (refused f) = rw (e, f) (refused refl)
both-Fetched a b joined (whole e) (broken f) = rw (e, f) (broken refl)
both-Fetched a b joined (whole e) (whole f) = rw (e, f) (whole (ap logs joined))

fetched_split :
    (ask : ℕ → ℕ → Answer) (fuel from to : ℕ)
    → ask from to ≡ too_large
    → leb to from ≡ false
    → logs_in_range ask (suc fuel) from to
      ≡ both
          (logs_in_range ask fuel from (from + (to - from) / 2))
          (logs_in_range ask fuel (from + (to - from) / 2 + 1) to)
unfolding logs_in_range
fetched_split ask fuel from to large wide = rw (large, wide, logs_in_range) refl

refused_one :
    (ask : ℕ → ℕ → Answer) (fuel from to : ℕ)
    → ask from to ≡ too_large
    → leb to from ≡ true
    → logs_in_range ask (suc fuel) from to ≡ too_large
unfolding logs_in_range
refused_one ask fuel from to large one = rw (large, one, logs_in_range) refl

out_of_fuel : (ask : ℕ → ℕ → Answer) (from to : ℕ) → logs_in_range ask zero from to ≡ failed
unfolding logs_in_range
out_of_fuel ask from to = refl

-- What is fetched from a node that may refuse any range is an error, or the logs of the range.
pub logs_in_range-cases :
    (chain : ℕ → List Log) (ask : ℕ → ℕ → Answer) (fuel from to : ℕ)
    → IsHonest chain ask
    → from ≤ to
    → Fetched (logs_in_range ask fuel from to) (blocks_logs chain from (to - from + 1))
logs_in_range-cases chain ask zero from to honest h = broken (out_of_fuel ask from to)
logs_in_range-cases chain ask (suc fuel) from to honest h = elim (honest from to h) [
  | inr answered ↦ whole (answered_whole ask fuel from to _ answered)
  | inl large ↦ elim (Bool-cases (leb to from)) [
    | inl one ↦ refused (refused_one ask fuel from to large one)
    | inr wide ↦
        subst (λ a. Fetched a (blocks_logs chain from (to - from + 1)))
          (sym (fetched_split ask fuel from to large wide))
          (both-Fetched _ _ (sym (blocks_logs-add chain from _ _ _ _ (ground arith) (ground arith)))
            (logs_in_range-cases chain ask fuel from (from + (to - from) / 2) honest (omega arith))
            (logs_in_range-cases chain ask fuel (from + (to - from) / 2 + 1) to honest
              (ground arith)))
  ]
]
