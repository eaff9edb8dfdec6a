-- ===== src/Mcp/Tests.antt =====
-- Runs of the cache of tool results (packages/mcp/src/cache.ts).
use square.Base.{◌≡◌, ◌≢◌, refl, false, some, none, List, [], ◌∷◌, String, string_eq, arith, eq_iff}
use square.Base.JsMap
use square.Base.JsMap.{IsKeyed}
use square.Base.Lru.{touch, evict}
use square.Mcp.Cache.{ToolSuccess, success, ToolResultCache, new_cache, get, set}
use square.Mcp.Cache.Laws.{IsBounded, answer_of, CacheCall, set_call, get_call, perform}
use square.Mcp.Cache.Stored.{IsRoomy, get-set_self}

abbrev weather : ToolSuccess
weather = record {
  name = "weather";
  duration_ms = 40;
  cached = false;
  text = "rain";
  structured = none;
}

abbrev two_places_free : ToolResultCache
two_places_free = record { entries = []; ttl_ms = 1000; max_entries = 2 }

two_places_free-IsRoomy : IsRoomy ("k" ∷ "j" ∷ []) two_places_free
unfolding JsMap.get
two_places_free-IsRoomy = record { keyed = tt; within = λ j n. absurd (n refl); room = omega arith }

-- Another key is written and both are read before.
abbrev between : List CacheCall
between = set_call "j" (success weather) 100 ∷ get_call "k" 900 ∷ get_call "j" 1000 ∷ []

get-set_self_example :
    (get (perform (set two_places_free "k" (success weather) 5) between) "k" 1004).0
    ≡ some (answer_of weather)
get-set_self_example =
    get-set_self ("k" ∷ "j" ∷ []) two_places_free "k" weather 5 1004 between two_places_free-IsRoomy
      refl (((λ same. ground (arith, eq_iff "j" "k")), refl), (omega arith, (omega arith, tt)))

abbrev two_places : ToolResultCache
two_places = record {
  entries = ("j", record { result = weather; expires_at = 900 }) ∷ [];
  ttl_ms = 1000;
  max_entries = 2;
}

two_places-IsBounded : IsBounded two_places
unfolding JsMap.get
two_places-IsBounded = record { keyed = (refl, tt); fits = omega arith; some_room = omega arith }

j_not_k : ◌≢◌ {A = String} "j" "k"
j_not_k = ground (arith, eq_iff "j" "k")

still_answered : (get (set two_places "k" (success weather) 5) "j" 100).0 ≡ some (answer_of weather)
unfolding get set JsMap.get JsMap.set JsMap.delete touch evict
still_answered = refl

made :
    new_cache (some 1000) (some 1) ≡ some (record { entries = []; ttl_ms = 1000; max_entries = 1 })
unfolding new_cache
made = refl

abbrev calls : List CacheCall
calls = set_call "a" (success weather) 0 ∷ set_call "b" (success weather) 1 ∷ get_call "b" 2 ∷ []
