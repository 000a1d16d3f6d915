-- ===== src/Dict/Unique.antt =====
-- Dictionaries in which each key stands once, as in every dictionary of Python.
use sandboxed_workspace_mcp.Base.{
  suc, ◌≡◌, refl, ite, none, some, [], ◌∷◌, ◌++◌, arith, Text, Text-discrete, length, if_pos,
  if_neg,
}
use sandboxed_workspace_mcp.Dict.{Dict, lookup, insert, erase, lookup-erase}

module _ {ℓ} {V : Type ℓ} where
  abbrev pub Unique : Dict V → Type ℓ
  Unique [] = Unit
  Unique ((k, v) ∷ d) = (lookup k d ≡ none) × Unique d

  pub erase_absent : (k : Text) (d : Dict V) → lookup k d ≡ none → erase k d ≡ d
  unfolding lookup erase
  erase_absent k [] h = refl
  erase_absent k ((j, v) ∷ d) h = ground (arith, erase_absent k d)

  pub insert_absent :
      (k : Text) (v : V) (d : Dict V) → lookup k d ≡ none → insert k v d ≡ d ++ (k, v) ∷ []
  unfolding lookup insert
  insert_absent k v [] h = refl
  insert_absent k v ((j, w) ∷ d) h = ground (arith, insert_absent k v d)

  pub Unique-erase : (k : Text) (d : Dict V) → Unique d → Unique (erase k d)
  unfolding erase
  Unique-erase k [] u = tt
  Unique-erase k ((j, v) ∷ d) u = elim (Text-discrete j k) [
    | yes p ↦ rw (if_pos _ p) (Unique-erase k d u.1)
    | no p ↦ rw (if_neg _ p) (ground (arith, lookup-erase k j d), Unique-erase k d u.1)
  ]

  pub length-erase :
      (k : Text) (d : Dict V) (v : V)
      → Unique d
      → lookup k d ≡ some v
      → length d ≡ suc (length (erase k d))
  unfolding lookup erase
  length-erase k [] v u h = cc
  length-erase k ((j, w) ∷ d) v u h = ground (arith, length-erase k d v, erase_absent j d)

  pub lookup-append :
      (j k : Text) (v : V) (d : Dict V)
      → lookup j d ≡ none
      → lookup j (d ++ (k, v) ∷ []) ≡ ite (Text-discrete k j) (some v) none
  unfolding lookup
  lookup-append j k v [] h = refl
  lookup-append j k v ((i, w) ∷ d) h = ground (arith, lookup-append j k v d)

  pub lookup-append_some :
      (j k : Text) (v w : V) (d : Dict V)
      → lookup j d ≡ some w
      → lookup j (d ++ (k, v) ∷ []) ≡ some w
  unfolding lookup
  lookup-append_some j k v w [] h = cc
  lookup-append_some j k v w ((i, u) ∷ d) h = ground (arith, lookup-append_some j k v w d)

  pub Unique-append :
      (k : Text) (v : V) (d : Dict V) → lookup k d ≡ none → Unique d → Unique (d ++ (k, v) ∷ [])
  unfolding lookup
  Unique-append k v [] h u = (refl, tt)
  Unique-append k v ((j, w) ∷ d) h u =
      (ground (arith, lookup-append j k v d), Unique-append k v d (ground arith) u.1)
