-- ===== src/AccessPolicy/Blocked.antt =====
-- `AccessPolicy.blocking_pattern` (src/workspace_guard_mcp/access_policy.py): what a rule blocks.
use sandboxed_workspace_mcp.Base.{
  is_nil, ◌≡◌, refl, sym, ap, ◌∙◌, subst, Bool, true, false, false≢true, Option, none, some, Text,
  Text-discrete, if_neg, text, text_in, List, [], ◌∷◌, ◌++◌, if◌then◌else◌, arith, Bool-cases, inl,
  inr,
}
use sandboxed_workspace_mcp.AccessPolicy.{
  Piece, Rule, is_exempt, blocks_part, blocks_ancestor, blocks, first_blocking, blocking_pattern,
  is_some, is_blocked,
}

-- What `PurePosixPath` gives for the two names of the workspace's root.
abbrev pub RootHasNoParts : (Text → List Text) → Type 0
RootHasNoParts parts = (parts [] ≡ []) × (parts (text ".") ≡ [])

-- A part that is no longer the last is exempt from less.
is_exempt-last :
    (rule : Rule) (part : Text) (last : Bool)
    → is_exempt rule part true ≡ false
    → is_exempt rule part last ≡ false
unfolding is_exempt
is_exempt-last rule part true h = h
is_exempt-last rule part false h = ground arith

abbrev Found : Option Text → Type 0
Found o = (p : Text) × (o ≡ some p)

none≢some : (p : Text) → ¬ (Path (Option Text) none (some p))
none≢some p h = cc

answer-Found : (o : Option Text) → is_some o ≡ true → Found o
unfolding is_some
answer-Found none h = absurd (false≢true h)
answer-Found (some p) h = (p, refl)

front_nil : (xs ys : List Text) → xs ++ ys ≡ [] → xs ≡ []
front_nil [] ys h = refl
front_nil (x ∷ xs) ys h = cc

either_kept :
    (flag : Bool) {a b c d : Bool}
    → (a ≡ true → c ≡ true)
    → (b ≡ true → d ≡ true)
    → (if flag then a else b) ≡ true
    → (if flag then c else d) ≡ true
either_kept true f g h = f h
either_kept false f g h = g h

module _ (fullmatch : List Piece → Text → Bool) where
  blocks_part-append :
      (rule : Rule) (path more : List Text)
      → blocks_part fullmatch rule path ≡ true
      → blocks_part fullmatch rule (path ++ more) ≡ true
  unfolding blocks_part
  blocks_part-append rule [] more h = absurd (false≢true h)
  blocks_part-append rule (part ∷ []) more h = elim (Bool-cases (is_exempt rule part true)) [
    | inl exempt ↦ absurd (false≢true (ground (arith, h, exempt)))
    | inr counted ↦ ground (arith, h, is_exempt-last rule part (is_nil more) counted)
  ]
  blocks_part-append rule (part ∷ next ∷ rest) more h =
      ground (arith, h, blocks_part-append rule (next ∷ rest) more)

  blocks_ancestor-append :
      (rule : Rule) (front path more : List Text)
      → blocks_ancestor fullmatch rule front path ≡ true
      → blocks_ancestor fullmatch rule front (path ++ more) ≡ true
  unfolding blocks_ancestor
  blocks_ancestor-append rule front [] more h = absurd (false≢true h)
  blocks_ancestor-append rule front (part ∷ rest) more h =
      ground (arith, h, blocks_ancestor-append rule (front ++ part ∷ []) rest more)

  blocks-append :
      (rule : Rule) (path more : List Text)
      → blocks fullmatch rule path ≡ true
      → blocks fullmatch rule (path ++ more) ≡ true
  unfolding blocks
  blocks-append rule path more =
      either_kept rule.basename_only (blocks_part-append rule path more)
        (blocks_ancestor-append rule [] path more)

  first_blocking-append :
      (rules : List Rule) (path more : List Text)
      → Found (first_blocking fullmatch rules path)
      → Found (first_blocking fullmatch rules (path ++ more))
  unfolding first_blocking
  first_blocking-append [] path more (p, h) = absurd (none≢some p h)
  first_blocking-append (rule ∷ rules) path more (p, h) =
      elim (Bool-cases (blocks fullmatch rule (path ++ more))) [
        | inl hit ↦ rw hit (rule.pattern, refl)
        | inr missed ↦ elim (Bool-cases (blocks fullmatch rule path)) [
          | inl hit ↦ absurd (false≢true (sym missed ∙ blocks-append rule path more hit))
          | inr before ↦ rw missed (first_blocking-append rules path more (p, (rw before at h)))
        ]
      ]

  blocks-nil : (rule : Rule) → blocks fullmatch rule [] ≡ false
  unfolding blocks blocks_part blocks_ancestor
  blocks-nil rule = elim (Bool-cases rule.basename_only) [
    | inl named ↦ ap (λ b. if b then false else false) named
    | inr pathlike ↦ ap (λ b. if b then false else false) pathlike
  ]

  first_blocking-nil : (rules : List Rule) → first_blocking fullmatch rules [] ≡ none
  unfolding first_blocking
  first_blocking-nil [] = refl
  first_blocking-nil (rule ∷ rules) = rw (blocks-nil rule) (first_blocking-nil rules)

module _ (fullmatch : List Piece → Text → Bool) (parts : Text → List Text)
    (root : RootHasNoParts parts) where
  root_parts : (t : Text) → text_in t ([] ∷ text "." ∷ []) ≡ true → parts t ≡ []
  unfolding text_in
  root_parts t h = elim (Text-discrete [] t) [
    | yes e ↦ subst (λ t. parts t ≡ []) e root.0
    | no n ↦ elim (Text-discrete (text ".") t) [
      | yes e ↦ subst (λ t. parts t ≡ []) e root.1
      | no m ↦ absurd (
          false≢true
            (rw (if_neg (Text-discrete [] t) n, if_neg (Text-discrete (text ".") t) m) at h))
    ]
  ]

  inner_blocked :
      (path : Text) (rules : List Rule)
      → is_blocked fullmatch parts rules path ≡ true
      → Found (first_blocking fullmatch rules (parts path))
  unfolding is_blocked blocking_pattern is_some
  inner_blocked path rules h = elim (Bool-cases (text_in path ([] ∷ text "." ∷ []))) [
    | inl at_root ↦ absurd (false≢true (rw at_root at h))
    | inr inner ↦ answer-Found _ (rw inner at h)
  ]

  -- Where the parts of a path extend those of a blocked path, the path is blocked, if the workspace's
  -- root has no parts.
  pub is_blocked-below :
      (rules : List Rule) (path longer : Text) (more : List Text)
      → parts longer ≡ parts path ++ more
      → is_blocked fullmatch parts rules path ≡ true
      → is_blocked fullmatch parts rules longer ≡ true
  unfolding is_blocked blocking_pattern is_some
  is_blocked-below rules path longer more extends h =
      let (p, found) = inner_blocked path rules h in
      elim (Bool-cases (text_in longer ([] ∷ text "." ∷ []))) [
        | inl at_root ↦
            let empty : parts path ≡ [] =
              front_nil (parts path) more (sym extends ∙ root_parts longer at_root) in
            absurd (
              none≢some p (
                sym (first_blocking-nil fullmatch rules)
                ∙ (ap (first_blocking fullmatch rules) (sym empty) ∙ found)))
        | inr inner ↦
            let (q, again) = first_blocking-append fullmatch rules (parts path) more (p, found) in
            rw (inner, extends, again) refl
      ]
