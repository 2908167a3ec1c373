-- ===== src/Runtime/Retention.antt =====
-- pruneAgentSampleStore of runtime-retention.js, lines 21 to 64. A store is its `agents` in insertion
-- order. A missing or unreadable time counts as 0.
use pane_fleet.Base.{
  ℕ, ◌+◌, ◌-◌, Bool, true, false, not, ◌&&◌, ◌||◌, Option, none, some, List, [], ◌∷◌, ◌++◌, map,
  filter, length, zero, suc, Text, includes, ltb, ◌==◌, if◌then◌else◌,
}
use mathlib.Core.List.{reverse}

-- Date.parse of a history's updatedAt, and localeCompare.
pub record Clock : Type 0 where
  pub date_parse : Text → Option ℕ
  pub locale_before : Text → Text → Bool

pub record Agent : Type 0 where
  pub session : Text
  pub updated_at : Text

unfoldable pub finite_timestamp : Clock → Text → ℕ
finite_timestamp clock value = elim (clock.date_parse value) [ none ↦ 0 | some time ↦ time ]

pub record Inactive : Type 0 where
  pub session : Text
  pub updated_at_ms : ℕ

unfoldable pub inactive_before : Clock → Inactive → Inactive → Bool
inactive_before clock left right =
    ltb right.updated_at_ms left.updated_at_ms
    || (left.updated_at_ms == right.updated_at_ms && clock.locale_before left.session right.session)

unfoldable pub insert_inactive : Clock → Inactive → List Inactive → List Inactive
insert_inactive clock entry [] = entry ∷ []
insert_inactive clock entry (next ∷ entries) =
    let rest = insert_inactive clock entry entries in
    if inactive_before clock next entry then next ∷ rest else entry ∷ next ∷ entries

unfoldable pub sort_inactive : Clock → List Inactive → List Inactive
sort_inactive clock [] = []
sort_inactive clock (entry ∷ entries) = insert_inactive clock entry (sort_inactive clock entries)

unfoldable pub inactive_of : Clock → List Text → List Agent → List Inactive
inactive_of clock active agents = sort_inactive clock (
    map
      (λ (agent : Agent). record {
        session = agent.session;
        updated_at_ms = finite_timestamp clock agent.updated_at;
      })
      (filter (λ (agent : Agent). not (includes active agent.session)) agents))

-- nowMs - Math.max(0, retentionMs) may be negative: then nothing is older.
unfoldable pub is_expired : ℕ → ℕ → Inactive → Bool
is_expired now retention entry = ltb (entry.updated_at_ms + retention) now

unfoldable pub expired : ℕ → ℕ → List Inactive → List Text
expired now retention inactive =
    map (λ (entry : Inactive). entry.session) (filter (is_expired now retention) inactive)

-- The loop over the reversed list: from the oldest on, until nothing overflows.
unfoldable pub remove_overflow : ℕ → List Inactive → List Text → List Text
remove_overflow zero entries remove = remove
remove_overflow (suc overflow) [] remove = remove
remove_overflow (suc overflow) (entry ∷ entries) remove = elim (includes remove entry.session) [
  | true ↦ remove_overflow (suc overflow) entries remove
  | false ↦ remove_overflow overflow entries (remove ++ entry.session ∷ [])
]

pub record Pruned : Type 0 where
  pub agents : List Agent
  pub changed : Bool
  pub removed_count : ℕ

unfoldable pub sessions_to_remove : Clock → List Agent → List Text → ℕ → ℕ → ℕ → List Text
sessions_to_remove clock agents active now retention max_sessions =
    let inactive = inactive_of clock active agents in
    let remove = expired now retention inactive in
    remove_overflow (length agents - length remove - max_sessions) (reverse inactive) remove

unfoldable pub prune_agent_sample_store : Clock → List Agent → List Text → ℕ → ℕ → ℕ → Pruned
prune_agent_sample_store clock agents active now retention max_sessions =
    let remove = sessions_to_remove clock agents active now retention max_sessions in
    if length remove == 0
    then record { agents = agents; changed = false; removed_count = 0 }
    else record {
      agents = filter (λ (agent : Agent). not (includes remove agent.session)) agents;
      changed = true;
      removed_count = length remove;
    }
