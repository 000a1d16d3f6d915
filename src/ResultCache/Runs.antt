-- ===== src/ResultCache/Runs.antt =====
-- Every cache that a process can reach from a new one (src/workspace_guard_mcp/result_cache.py).
use sandboxed_workspace_mcp.Base.{ℕ, ◌≡◌, ◌<◌, refl, subst, Option, ok, Text, [], arith}
use sandboxed_workspace_mcp.ResultCache.{ResultCache, init, put_text, get, accounted}
use sandboxed_workspace_mcp.ResultCache.Methods.{IsValid}
use sandboxed_workspace_mcp.ResultCache.Promises.{put_text-IsValid}
use sandboxed_workspace_mcp.ResultCache.Reads.{get-IsValid}

abbrev pub new_cache : ℕ → ℕ → ℕ → ℕ → ResultCache
new_cache max_entries max_total_bytes max_item_bytes ttl_seconds = record {
  max_entries = max_entries;
  max_total_bytes = max_total_bytes;
  max_item_bytes = max_item_bytes;
  ttl_seconds = ttl_seconds;
  entries = [];
  total_bytes = 0;
}

-- One call with any arguments, at any reading of the clock and with any tokens.
pub data Step (c : ResultCache) : ResultCache → Type 0 where
  puts :
      (content : Text) (owner_scope : Option Text) (now : ℕ) (tokens : ℕ → Text)
      → Step c (put_text content owner_scope now tokens c).1
  gets : (id : Text) (owner_scope : Option Text) (now : ℕ) → Step c (get id owner_scope now c).1

pub data Reach (c : ResultCache) : ResultCache → Type 0 where
  here : Reach c c
  next : {d e : ResultCache} → Reach c d → Step d e → Reach c e

Step-IsValid : {c d : ResultCache} → Step c d → IsValid c → IsValid d
Step-IsValid {c} (puts content owner_scope now tokens) v =
    put_text-IsValid content owner_scope now tokens c v
Step-IsValid {c} (gets id owner_scope now) v = get-IsValid id owner_scope now c v

kept : {c d : ResultCache} → IsValid c → Reach c d → IsValid d
kept v here = v
kept v (next r st) = Step-IsValid st (kept v r)

new_cache-IsValid : (n total item ttl : ℕ) → 0 < n → IsValid (new_cache n total item ttl)
unfolding accounted
new_cache-IsValid n total item ttl h = record {
  sound = record { unique = tt; exact = refl };
  few = omega arith;
  small = omega arith;
  entries = tt;
  room = h;
}

new_cache_of :
    (n total item ttl : ℕ) {c : ResultCache}
    → init n total item ttl ≡ ok c
    → (0 < n) × (new_cache n total item ttl ≡ c)
unfolding init
new_cache_of n total item ttl h = (ground arith, ground arith)

-- Every cache that calls of `put_text` and `get` reach from a newly built one is valid, whatever the
-- clock and the tokens are: no method can lose count of the bytes or exceed a bound.
pub reached-IsValid :
    (n total item ttl : ℕ) (c d : ResultCache)
    → init n total item ttl ≡ ok c
    → Reach c d
    → IsValid d
reached-IsValid n total item ttl c d built reach =
    let (room, same) = new_cache_of n total item ttl built in
    kept (subst IsValid same (new_cache-IsValid n total item ttl room)) reach
