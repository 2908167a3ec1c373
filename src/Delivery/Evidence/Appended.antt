-- ===== src/Delivery/Evidence/Appended.antt =====
-- The evidence index only grows: what `append_evidence` has added, and under which ids.
use mathlib.Core.List.{append_assoc, append-nil}
use pane_fleet.Base.{
  ◌+◌, ◌≡◌, ◌∙◌, refl, arith, Bool, true, false, >>-eq-ok, not, List, [], ◌∷◌, ◌++◌, leb, length,
  Text, includes, ok, >>=-ok_cases, guard->>-eq-ok,
}
use pane_fleet.Delivery.Types.{
  Evidence, Run, Platform, evidence_duplicate, evidence_limit_reached, evidence_invalid,
  evidence_content_invalid,
}
use pane_fleet.Delivery.Fields.{
  text, inline, timestamp, valid_timestamp, assert_text, assert_optional_digest,
}
use pane_fleet.Delivery.Evidence.{
  create_evidence, validate_evidence, evidence_ids_of, append_from, append_evidence,
}

-- The entry that the index holds for an evidence as it is given.
pub record IsEntry (p : Platform) (given entry : Evidence) : Type 0 where
  pub id : entry.id ≡ p.to_upper_case (inline given.id)
  pub kind : entry.kind ≡ p.to_lower_case (inline given.kind)
  pub producer : entry.producer ≡ inline given.producer
  pub outcome : entry.outcome ≡ p.to_lower_case (inline given.outcome)
  pub summary : entry.summary ≡ text given.summary
  pub content_ref : entry.content_ref ≡ inline given.content_ref
  pub content_sha256 : entry.content_sha256 ≡ p.to_lower_case (inline given.content_sha256)
  pub created_at : timestamp p given.created_at ≡ ok entry.created_at

-- The entries for all that is given, in order, each under an id that the index does not hold before.
pub data AreEntries (p : Platform) : List Evidence → List Evidence → List Evidence → Type 0 where
  no_entries : {index : List Evidence} → AreEntries p index [] []
  next_entry :
      {index values entries : List Evidence} {value entry : Evidence}
      → IsEntry p value entry
      → includes (evidence_ids_of index) entry.id ≡ false
      → AreEntries p (index ++ entry ∷ []) values entries
      → AreEntries p index (value ∷ values) (entry ∷ entries)

validate_evidence-same :
    (p : Platform) (given entry : Evidence) → validate_evidence p given ≡ ok entry → entry ≡ given
unfolding validate_evidence
validate_evidence-same p given entry h =
    let (_, h1) = guard->>-eq-ok _ evidence_invalid _ h in
    let (_, h2) = >>-eq-ok (assert_text given.producer evidence_invalid true 160) _ h1 in
    let (_, h3) = >>-eq-ok (assert_text given.summary evidence_invalid true 800) _ h2 in
    let (_, h4) = >>-eq-ok (assert_text given.content_ref evidence_invalid false 512) _ h3 in
    let (_, h5) = guard->>-eq-ok _ evidence_content_invalid _ h4 in
    let (_, h6) =
      >>-eq-ok (assert_optional_digest given.content_sha256 evidence_content_invalid) _ h5 in
    let (_, h7) =
      guard->>-eq-ok (valid_timestamp p given.created_at) evidence_invalid (ok given) h6 in
    cc h7

create_evidence-IsEntry :
    (p : Platform) (given entry : Evidence)
    → create_evidence p given ≡ ok entry
    → IsEntry p given entry
unfolding create_evidence
create_evidence-IsEntry p given entry h =
    >>=-ok_cases (timestamp p given.created_at) _ h λ time e1 h1.
      let same = validate_evidence-same p _ entry h1 in
      record {
        id = rw same refl;
        kind = rw same refl;
        producer = rw same refl;
        outcome = rw same refl;
        summary = rw same refl;
        content_ref = rw same refl;
        content_sha256 = rw same refl;
        created_at = rw same e1;
      }

pub not-eq-true : (b : Bool) → not b ≡ true → b ≡ false
not-eq-true b h = ground arith

abbrev pub AppendedFrom :
    Platform → List Evidence → List Text → List Evidence → List Evidence → List Text → Type 0
AppendedFrom p index appended values index' appended' =
    (new : List Evidence) × (index' ≡ index ++ new)
    × (appended' ≡ appended ++ evidence_ids_of new)
    × AreEntries p index values new

append_from-AppendedFrom :
    (p : Platform) (index : List Evidence) (appended : List Text) (values : List Evidence)
    (index' : List Evidence) (appended' : List Text)
    → append_from p index appended values ≡ ok (index', appended')
    → AppendedFrom p index appended values index' appended'
unfolding append_from
append_from-AppendedFrom p index appended [] index' appended' h =
    ([], rw append-nil (cc), rw append-nil (cc), no_entries)
append_from-AppendedFrom p index appended (value ∷ values) index' appended' h =
    >>=-ok_cases (create_evidence p value) _ h λ evidence e1 h1.
      let (fresh, h2) =
        guard->>-eq-ok (not (includes (evidence_ids_of index) evidence.id)) evidence_duplicate _
          h1 in
      let (new, e2, e3, entries) =
        append_from-AppendedFrom p (index ++ evidence ∷ []) (appended ++ evidence.id ∷ []) values
          index' appended' h2 in
      (
        evidence ∷ new,
        e2 ∙ append_assoc index _ new,
        e3 ∙ append_assoc appended _ (evidence_ids_of new),
        next_entry (create_evidence-IsEntry p value evidence e1) (not-eq-true _ fresh) entries,
      )

-- A run with appended evidence differs in its index alone.
pub append_evidence-eq-ok :
    (p : Platform) (run : Run) (values : List Evidence) (indexed : Run) (ids : List Text)
    → append_evidence p run values ≡ ok (indexed, ids)
    → (new : List Evidence) × (indexed ≡ record run { evidence_index = run.evidence_index ++ new })
      × (ids ≡ evidence_ids_of new)
      × AreEntries p run.evidence_index values new
unfolding append_evidence
append_evidence-eq-ok p run values indexed ids h =
    let (room, h1) =
      guard->>-eq-ok (leb (length run.evidence_index + length values) 512) evidence_limit_reached _
        h in
    >>=-ok_cases (append_from p run.evidence_index [] values) _ h1 λ (index, appended) e1 h2.
      let (new, e2, e3, entries) = append_from-AppendedFrom p _ [] values index appended e1 in
      (new, cc (h2, e2), cc (h2, e3), entries)
