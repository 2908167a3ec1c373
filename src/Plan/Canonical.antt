-- ===== src/Plan/Canonical.antt =====
-- canonicalJson and canonicalSha256 of delivery-plan.js, lines 502 to 532. A value is a finite tree of
-- JSON data, so the errors on other values and on cycles do not occur.
pub mod Order
use pane_fleet.Base.{
  ℕ, Bool, true, false, ◌||◌, ◌&&◌, List, [], ◌∷◌, ◌++◌, Text, codes, ltb, ◌==◌, if◌then◌else◌,
}
use pane_fleet.Plan.Types.{PlanHost}

mutual
  pub data Json : Type 0 where
    json_null : Json
    json_text : Text → Json
    json_flag : Bool → Json
    json_number : ℕ → Json
    json_array : Items → Json
    json_object : Members → Json

  pub data Items : Type 0 where
    no_items : Items
    item : Json → Items → Items

  pub data Members : Type 0 where
    no_members : Members
    member : Text → Json → Members → Members

pub record Pair : Type 0 where
  pub key : Text
  pub serialized : Text

-- The order of Array.prototype.sort: by UTF-16 units.
unfoldable pub text_leb : Text → Text → Bool
text_leb [] t = true
text_leb (c ∷ s) [] = false
text_leb (c ∷ s) (d ∷ t) = ltb c d || (c == d && text_leb s t)

unfoldable pub insert_pair : Pair → List Pair → List Pair
insert_pair pair [] = pair ∷ []
insert_pair pair (next ∷ pairs) =
    let rest = insert_pair pair pairs in
    if text_leb pair.key next.key then pair ∷ next ∷ pairs else next ∷ rest

unfoldable pub sort_pairs : List Pair → List Pair
sort_pairs [] = []
sort_pairs (pair ∷ pairs) = insert_pair pair (sort_pairs pairs)

-- [...].join(separator)
unfoldable pub join : Text → List Text → Text
join separator [] = []
join separator (part ∷ []) = part
join separator (part ∷ next ∷ parts) = part ++ separator ++ join separator (next ∷ parts)

unfoldable pub pair_text : PlanHost → Pair → Text
pair_text host pair = host.stringify pair.key ++ codes ":" ++ pair.serialized

unfoldable pub pair_texts : PlanHost → List Pair → List Text
pair_texts host [] = []
pair_texts host (pair ∷ pairs) = pair_text host pair ∷ pair_texts host pairs

unfoldable mutual
  pub canonical_serialize : PlanHost → Json → Text
  canonical_serialize host json_null = codes "null"
  canonical_serialize host (json_text s) = host.stringify s
  canonical_serialize host (json_flag b) = if b then codes "true" else codes "false"
  canonical_serialize host (json_number n) = host.decimal n
  canonical_serialize host (json_array items) =
      codes "[" ++ join (codes ",") (serialized_items host items) ++ codes "]"
  canonical_serialize host (json_object members) =
      codes "{"
      ++ join (codes ",") (pair_texts host (sort_pairs (serialized_pairs host members)))
      ++ codes "}"

  pub serialized_items : PlanHost → Items → List Text
  serialized_items host no_items = []
  serialized_items host (item value items) =
      canonical_serialize host value ∷ serialized_items host items

  pub serialized_pairs : PlanHost → Members → List Pair
  serialized_pairs host no_members = []
  serialized_pairs host (member key value members) =
      record { key = key; serialized = canonical_serialize host value }
      ∷ serialized_pairs host members

unfoldable pub canonical_json : PlanHost → Json → Text
canonical_json host value = canonical_serialize host value

unfoldable pub canonical_sha256 : PlanHost → Json → Text
canonical_sha256 host value = host.sha256 (canonical_json host value)

-- Arrays of texts and objects from their members.
unfoldable pub text_items : List Text → Items
text_items [] = no_items
text_items (s ∷ rest) = item (json_text s) (text_items rest)

abbrev pub texts : List Text → Json
texts values = json_array (text_items values)
