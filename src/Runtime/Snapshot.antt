-- ===== src/Runtime/Snapshot.antt =====
-- buildSnapshotEventUpdate of snapshot-events.js, lines 1 to 55, and what a client makes of its events.
use pane_fleet.Base.{
  ℕ, ◌+◌, Bool, true, not, ◌&&◌, Option, none, some, List, [], ◌∷◌, ◌++◌, filter, find, Text, codes,
  text_eq, includes, ltb, leb, if◌then◌else◌, Result, ok, ◌>>=◌, ◌>>◌, guard,
}

-- JSON.stringify of a key or of the removed keys, decimal notation of a sequence, and the length of a
-- text in UTF-8.
pub record Encoder : Type 0 where
  pub stringify : Text → Text
  pub stringify_list : List Text → Text
  pub decimal : ℕ → Text
  pub byte_length : Text → ℕ

pub data SnapshotError : Type 0 where
  key_invalid : SnapshotError

-- One field with its serialized value.
pub record Field : Type 0 where
  pub key : Text
  pub serialized : Text

unfoldable pub forbidden_snapshot_keys : List Text
forbidden_snapshot_keys = codes "__proto__" ∷ codes "constructor" ∷ codes "prototype" ∷ []

-- An own property: JSON.stringify may return undefined, which is `none`.
pub record Property : Type 0 where
  pub key : Text
  pub value : Option Text

unfoldable pub snapshot_fields : List Property → Result SnapshotError (List Field)
snapshot_fields [] = ok []
snapshot_fields (property ∷ properties) =
    let rest = snapshot_fields properties in
    do
      guard (not (includes forbidden_snapshot_keys property.key)) key_invalid
      fields ← rest
      elim property.value [
        | none ↦ ok fields
        | some serialized ↦ ok (record { key = property.key; serialized = serialized } ∷ fields)
      ]

pub record Snapshot : Type 0 where
  pub sequence : ℕ
  pub fields : List Field

abbrev pub max_safe_integer : ℕ
max_safe_integer = 9007199254740991

unfoldable pub next_sequence : Option Snapshot → ℕ
next_sequence none = 1
next_sequence (some previous) =
    if leb 1 previous.sequence && ltb previous.sequence max_safe_integer
    then previous.sequence + 1
    else 1

abbrev pub has_field : Text → Field → Bool
has_field key field = text_eq field.key key

-- previous.fields.get(key) !== serialized
unfoldable pub is_changed : List Field → Field → Bool
is_changed previous field = elim (find (has_field field.key) previous) [
  | none ↦ true
  | some old ↦ not (text_eq old.serialized field.serialized)
]

unfoldable pub changes_of : List Field → List Field → List Field
changes_of previous fields = filter (is_changed previous) fields

unfoldable pub keys_of : List Field → List Text
keys_of [] = []
keys_of (field ∷ fields) = field.key ∷ keys_of fields

unfoldable pub removed_of : List Field → List Field → List Text
removed_of previous fields = filter (λ key. not (includes (keys_of fields) key)) (keys_of previous)

-- [...].join(',') of `key:value` parts
unfoldable pub members : Encoder → List Field → Text
members encoder [] = []
members encoder (field ∷ []) = encoder.stringify field.key ++ codes ":" ++ field.serialized
members encoder (field ∷ next ∷ fields) =
    encoder.stringify field.key
    ++ codes ":"
    ++ field.serialized
    ++ codes ","
    ++ members encoder (next ∷ fields)

unfoldable pub full_payload : Encoder → List Field → Text
full_payload encoder fields = codes "{" ++ members encoder fields ++ codes "}"

unfoldable pub patch_payload : Encoder → ℕ → ℕ → List Field → List Text → Text
patch_payload encoder base sequence changes removed =
    codes "{\"baseSequence\":"
    ++ encoder.decimal base
    ++ codes ",\"sequence\":"
    ++ encoder.decimal sequence
    ++ codes ",\"changes\":{"
    ++ members encoder changes
    ++ codes "},\"removed\":"
    ++ encoder.stringify_list removed
    ++ codes "}"

pub data BroadcastEvent : Type 0 where
  snapshot snapshot_patch : BroadcastEvent

pub record Update : Type 0 where
  pub state : Snapshot
  pub full : Text
  pub broadcast_event : BroadcastEvent
  pub broadcast_payload : Text

-- Lines 29 to 54.
unfoldable pub update_from : Encoder → Option Snapshot → Snapshot → Update
update_from encoder none state = record {
  state = state;
  full = full_payload encoder state.fields;
  broadcast_event = BroadcastEvent.snapshot;
  broadcast_payload = full_payload encoder state.fields;
}
update_from encoder (some previous) state =
    let full = full_payload encoder state.fields in
    let patch =
      patch_payload encoder previous.sequence state.sequence
        (changes_of previous.fields state.fields) (removed_of previous.fields state.fields) in
    if leb 1 previous.sequence
      && leb previous.sequence max_safe_integer
      && ltb (encoder.byte_length patch) (encoder.byte_length full)
    then record {
      state = state;
      full = full;
      broadcast_event = BroadcastEvent.snapshot_patch;
      broadcast_payload = patch;
    }
    else record {
      state = state;
      full = full;
      broadcast_event = BroadcastEvent.snapshot;
      broadcast_payload = full;
    }

unfoldable pub build_snapshot_event_update :
    Encoder → List Property → Option Snapshot → Result SnapshotError Update
build_snapshot_event_update encoder properties previous = do
  fields ← snapshot_fields properties
  ok (update_from encoder previous (record { sequence = next_sequence previous; fields = fields }))
