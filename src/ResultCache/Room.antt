-- ===== src/ResultCache/Room.antt =====
-- The eviction loop of `put_text` (src/workspace_guard_mcp/result_cache.py).
use sandboxed_workspace_mcp.Base.{
  ℕ, zero, suc, ◌<◌, ◌≤◌, ◌≡◌, refl, ap, ◌∙◌, subst, true, false, some, Text, [], ◌∷◌, ◌++◌, arith,
  length, if◌then◌else◌, Bool-cases, inl, inr,
}
use sandboxed_workspace_mcp.Dict.{Dict}
use sandboxed_workspace_mcp.Dict.Unique.{Unique}
use sandboxed_workspace_mcp.ResultCache.{
  CacheEntry, ResultCache, evict_lru, is_full, make_room, accounted,
}
use sandboxed_workspace_mcp.ResultCache.Removal.{with_entries, remove-eq, erase_head}

evict_lru-eq :
    (k : Text) (e : CacheEntry) (d : Dict CacheEntry) (c : ResultCache)
    → Unique ((k, e) ∷ d)
    → evict_lru (with_entries ((k, e) ∷ d) c) ≡ with_entries d c
unfolding evict_lru
evict_lru-eq k e d c u =
    remove-eq k (with_entries ((k, e) ∷ d) c) (record { unique = u; exact = refl })
    ∙ ap (λ r. with_entries r c) (erase_head k e d u.0)

-- The entries that are left: the oldest go first, until there is room.
unfoldable pub shrink : ℕ → ResultCache → Dict CacheEntry → Dict CacheEntry
shrink size c [] = []
shrink size c (p ∷ d) =
    let rest = shrink size c d in if is_full size (with_entries (p ∷ d) c) then rest else p ∷ d

module _ (size : ℕ) (c : ResultCache) (room : 0 < c.max_entries)
    (fits : size ≤ c.max_total_bytes) where
  empty_fits : is_full size (with_entries [] c) ≡ false
  unfolding is_full accounted
  empty_fits = ground arith

  -- With more rounds than entries the loop ends.
  pub make_room-eq :
      (fuel : ℕ) (d : Dict CacheEntry)
      → Unique d
      → length d < fuel
      → make_room fuel size (with_entries d c) ≡ some (with_entries (shrink size c d) c)
  unfolding make_room shrink
  make_room-eq zero d u h = elim h [ ]
  make_room-eq (suc fuel) [] u h = rw empty_fits
  make_room-eq (suc fuel) ((k, e) ∷ d) u h =
      elim (Bool-cases (is_full size (with_entries ((k, e) ∷ d) c))) [
        | inl full ↦ rw full (rw (evict_lru-eq k e d c u) (make_room-eq fuel d u.1 (omega arith)))
        | inr done ↦ rw done
      ]

  -- There is room for the new entry among those that are left.
  pub shrink_fits : (d : Dict CacheEntry) → is_full size (with_entries (shrink size c d) c) ≡ false
  unfolding shrink
  shrink_fits [] = empty_fits
  shrink_fits (p ∷ d) = elim (Bool-cases (is_full size (with_entries (p ∷ d) c))) [
    | inl full ↦ rw full (shrink_fits d)
    | inr done ↦ rw done done
  ]

-- What is left is the newest part, and one entry more would not have fitted.
pub record IsNewest (size : ℕ) (c : ResultCache) (d kept : Dict CacheEntry) : Type 0 where
  pub evicted : Dict CacheEntry
  pub split : d ≡ evicted ++ kept
  pub needed :
      (older : Dict CacheEntry) (last : Text × CacheEntry)
      → evicted ≡ older ++ last ∷ []
      → is_full size (with_entries (last ∷ kept) c) ≡ true

no_last :
    {P : Type 0} (older : Dict CacheEntry) (last : Text × CacheEntry) → [] ≡ older ++ last ∷ [] → P
no_last [] last e = cc
no_last (q ∷ older) last e = cc

IsNewest-cons :
    (size : ℕ) (c : ResultCache) (p : Text × CacheEntry) (d kept : Dict CacheEntry)
    → is_full size (with_entries (p ∷ d) c) ≡ true
    → IsNewest size c d kept
    → IsNewest size c (p ∷ d) kept
IsNewest-cons size c p d kept full h = record {
  evicted = p ∷ h.evicted;
  split = ap (λ r. p ∷ r) h.split;
  needed = λ older last e. last_needed older last e;
}
  where
    last_needed :
        (older : Dict CacheEntry) (last : Text × CacheEntry)
        → p ∷ h.evicted ≡ older ++ last ∷ []
        → is_full size (with_entries (last ∷ kept) c) ≡ true
    last_needed [] last e =
        let nothing : h.evicted ≡ [] = cc in
        let here : p ≡ last = cc in
        let whole : d ≡ kept = h.split ∙ ap (λ r. r ++ kept) nothing in
        subst (λ r. is_full size (with_entries (last ∷ r) c) ≡ true) whole
          (subst (λ q. is_full size (with_entries (q ∷ d) c) ≡ true) here full)
    last_needed (q ∷ older) last e = h.needed older last (cc)

pub shrink-IsNewest :
    (size : ℕ) (c : ResultCache) (d : Dict CacheEntry) → IsNewest size c d (shrink size c d)
unfolding shrink
shrink-IsNewest size c [] = record {
  evicted = [];
  split = refl;
  needed = λ older last e. no_last older last e;
}
shrink-IsNewest size c (p ∷ d) = elim (Bool-cases (is_full size (with_entries (p ∷ d) c))) [
  | inl full ↦ rw full (IsNewest-cons size c p d (shrink size c d) full (shrink-IsNewest size c d))
  | inr done ↦
      rw done (record { evicted = []; split = refl; needed = λ older last e. no_last older last e })
]
