-- ===== src/Indexer/Decode.antt =====
-- packages/core/src/events.ts: the logs of the deployment's contracts, decoded and put in order. The
-- decoding of a contract's logs by its interface is viem's `parseEventLogs`, a parameter.
use square.Base.{
  ℕ, Bool, ◌&&◌, ◌||◌, Option, List, [], ◌∷◌, ◌++◌, Text, text_beq, to_lower_case, filter, ltb,
  nat_beq,
}
use square.Base.Sort.{sort}
use square.Indexer.State.{Address}
use square.Indexer.Rows.{Logged, block_of, index_of}

-- A log of the chain. `payload` stands for its topics and its data, which only `parseEventLogs` reads.
pub record Log : Type 0 where
  pub address : Address
  pub block_number : Option ℕ
  pub log_index : Option ℕ
  pub payload : Text

abbrev pub same_address : Address → Address → Bool
same_address a b = text_beq (to_lower_case a) (to_lower_case b)

-- Which of two events comes first.
abbrev pub precedes : Logged → Logged → Bool
precedes a b =
    ltb (block_of a) (block_of b)
    || nat_beq (block_of a) (block_of b) && ltb (index_of a) (index_of b)

unfoldable pub decode_for :
    (Text → List Log → List Logged) → Text → Address → List Log → List Logged
decode_for parse contract address logs = elim (filter (λ l. same_address l.address address) logs) [
  | [] ↦ []
  | l ∷ ls ↦ parse contract (l ∷ ls)
]

unfoldable pub decode_all :
    (Text → List Log → List Logged) → List (Text × Address) → List Log → List Logged
decode_all parse [] logs = []
decode_all parse ((contract, address) ∷ contracts) logs =
    decode_for parse contract address logs ++ decode_all parse contracts logs

unfoldable pub decode_square_logs :
    (Text → List Log → List Logged) → List (Text × Address) → List Log → List Logged
decode_square_logs parse contracts logs = sort precedes (decode_all parse contracts logs)
