-- ===== src/Store/Sqlite/Inserted.antt =====
-- The rows of an artifact manifest that has been checked can be inserted
-- (src/workspace_guard_mcp/execution_store.py).
use sandboxed_workspace_mcp.Base.{
  ◌≡◌, ◌≢◌, sym, ap, ◌∙◌, subst, true, false, false≢true, ok, text_in, Text, Text-discrete, List,
  [], ◌∷◌, ◌++◌, append-nil, append_assoc, All, arith, if_neg,
}
use sandboxed_workspace_mcp.Store.Memory.{ArtifactRecord, Manifest, check_artifacts}
use sandboxed_workspace_mcp.Store.Sqlite.Rows.{integer_fits}
use sandboxed_workspace_mcp.Store.Sqlite.Tables.{has_artifact, insert_artifacts}
use sandboxed_workspace_mcp.Store.Sqlite.Selected.{AllOf}

-- No row of the table has the identifier of one of the artifacts.
abbrev pub Unused : Manifest → Manifest → Type 0
Unused m rows = All (λ (a : ArtifactRecord). has_artifact a.artifact_id rows ≡ false) m

-- The sizes of the artifacts fit in the column.
abbrev pub Sized : Manifest → Type 0
Sized m = All (λ (a : ArtifactRecord). integer_fits a.size_bytes ≡ true) m

abbrev Named : Text → Manifest → Type 0
Named x = All (λ (a : ArtifactRecord). a.artifact_id ≢ x)

check_step :
    (id : Text) (seen : List Text) (a : ArtifactRecord) (m : Manifest)
    → check_artifacts id seen (a ∷ m) ≡ ok tt
    → (a.execution_id ≡ id)
      × (text_in a.artifact_id seen ≡ false)
      × (check_artifacts id (a.artifact_id ∷ seen) m ≡ ok tt)
unfolding check_artifacts
check_step id seen a m h = (ground arith, ground arith, ground arith)

pub check_artifacts-AllOf :
    (id : Text) (seen : List Text) (m : Manifest) → check_artifacts id seen m ≡ ok tt → AllOf id m
check_artifacts-AllOf id seen [] h = tt
check_artifacts-AllOf id seen (a ∷ m) h =
    let (own, new, rest) = check_step id seen a m h in
    (own, check_artifacts-AllOf id (a.artifact_id ∷ seen) m rest)

text_in-head : (x : Text) (seen : List Text) → text_in x (x ∷ seen) ≡ true
unfolding text_in
text_in-head x seen = ground arith

text_in-tail : (x y : Text) (seen : List Text) → text_in x seen ≡ true → text_in x (y ∷ seen) ≡ true
unfolding text_in
text_in-tail x y seen h = ground (arith, h)

check_artifacts-Named :
    (id x : Text) (seen : List Text) (m : Manifest)
    → text_in x seen ≡ true
    → check_artifacts id seen m ≡ ok tt
    → Named x m
check_artifacts-Named id x seen [] known h = tt
check_artifacts-Named id x seen (a ∷ m) known h =
    let (own, new, rest) = check_step id seen a m h in
    (
      (λ e. false≢true (sym new ∙ subst (λ y. text_in y seen ≡ true) (sym e) known)),
      check_artifacts-Named id x (a.artifact_id ∷ seen) m (text_in-tail x a.artifact_id seen known)
          rest,
    )

has_artifact-append :
    (x : Text) (rows : Manifest) (a : ArtifactRecord)
    → has_artifact x rows ≡ false
    → a.artifact_id ≢ x
    → has_artifact x (rows ++ a ∷ []) ≡ false
unfolding has_artifact
has_artifact-append x [] a h apart = if_neg (Text-discrete a.artifact_id x) apart true false
has_artifact-append x (b ∷ rows) a h apart = ground (arith, has_artifact-append x rows a)

Unused-append :
    (m rows : Manifest) (a : ArtifactRecord)
    → Unused m rows
    → Named a.artifact_id m
    → Unused m (rows ++ a ∷ [])
Unused-append [] rows a u n = tt
Unused-append (b ∷ m) rows a u n = (
  has_artifact-append b.artifact_id rows a u.0 (λ e. n.0 (sym e)),
  Unused-append m rows a u.1 n.1,
)

-- A checked manifest with unused identifiers is inserted, in its order.
pub insert_artifacts-ok :
    (id : Text) (seen : List Text) (m rows : Manifest)
    → check_artifacts id seen m ≡ ok tt
    → Unused m rows
    → Sized m
    → insert_artifacts m rows ≡ ok (rows ++ m)
unfolding insert_artifacts
insert_artifacts-ok id seen [] rows h u z = ap ok (sym (append-nil rows))
insert_artifacts-ok id seen (a ∷ m) rows h u z =
    let (own, new, rest) = check_step id seen a m h in
    let apart =
      check_artifacts-Named id a.artifact_id (a.artifact_id ∷ seen) m
        (text_in-head a.artifact_id seen) rest in
    rw (z.0, u.0)
      (insert_artifacts-ok id (a.artifact_id ∷ seen) m (rows ++ a ∷ []) rest
          (Unused-append m rows a u.1 apart) z.1
        ∙ ap ok (append_assoc rows (a ∷ []) m))
