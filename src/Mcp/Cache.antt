-- ===== src/Mcp/Cache.antt =====
-- packages/mcp/src/cache.ts: the cache of tool results. The operations take the key that the code
-- computes by `cacheKey`, and the clock's answer.
pub mod Laws
pub mod Stored
use square.Base.{
  ℕ, ◌+◌, Bool, true, false, Option, none, some, List, [], ◌∷◌, String, string_eq, leb, ltb, get_or,
  length, if◌then◌else◌,
}
use square.Base.JsMap
use square.Base.JsMap.{JsMap}
use square.Base.Lru.{touch, evict}

pub data ToolFailure : Type 0 where
  unreachable timeout unknown_tool tool_error too_large : ToolFailure

-- `structured` is the value that the server sent, as a text.
pub record ToolSuccess : Type 0 where
  pub name : String
  pub duration_ms : ℕ
  pub cached : Bool
  pub text : String
  pub structured : Option String

pub data ToolResult : Type 0 where
  success : ToolSuccess → ToolResult
  failed : String → ℕ → Bool → String → ToolFailure → Bool → ToolResult

pub record Entry : Type 0 where
  pub result : ToolSuccess
  pub expires_at : ℕ

pub record ToolResultCache : Type 0 where
  pub entries : JsMap String Entry
  pub ttl_ms : ℕ
  pub max_entries : ℕ

-- `none` where the constructor throws a RangeError.
unfoldable pub new_cache : Option ℕ → Option ℕ → Option ToolResultCache
new_cache ttl max =
    if ltb (get_or max 256) 1
    then none
    else some (record { entries = []; ttl_ms = get_or ttl 300000; max_entries = get_or max 256 })

unfoldable pub get : ToolResultCache → String → ℕ → Option ToolSuccess × ToolResultCache
get c key now = elim (JsMap.get key c.entries) [
  | none ↦ (none, c)
  | some entry ↦
      if leb entry.expires_at now
      then (none, record c { entries = JsMap.delete key c.entries })
      else (
        some (record (entry.result) { cached = true; duration_ms = 0 }),
        record c { entries = touch key entry c.entries },
      )
]

unfoldable pub set : ToolResultCache → String → ToolResult → ℕ → ToolResultCache
set c key (failed name ms cached text failure retryable) now = c
set c key (success r) now = record c {
  entries = evict c.max_entries (
      touch key (record { result = record r { cached = false }; expires_at = now + c.ttl_ms })
        c.entries);
}

pub clear : ToolResultCache → ToolResultCache
clear c = record c { entries = [] }

pub size : ToolResultCache → ℕ
size c = length c.entries
