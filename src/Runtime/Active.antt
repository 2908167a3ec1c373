-- ===== src/Runtime/Active.antt =====
-- pruneAgentSampleStore of runtime-retention.js removes no active session.
use mathlib.Core.List.{reverse, reverse-cons}
use pane_fleet.Base.{
  ℕ, ◌≡◌, refl, ap, true, false, not, List, [], ◌∷◌, ◌++◌, map, filter, length, zero, suc, All,
  Text, text_eq, text_eq_sound, includes, ◌==◌, Bool-cases, inl, inr,
}
use pane_fleet.Runtime.Retention.{
  Clock, Agent, Inactive, finite_timestamp, inactive_before, insert_inactive, sort_inactive,
  inactive_of, is_expired, expired, remove_overflow, sessions_to_remove, prune_agent_sample_store,
}

module _ (clock : Clock) (active : List Text) where
  abbrev IsIdle : Text → Type 0
  IsIdle session = includes active session ≡ false

  abbrev AreIdle : List Inactive → Type 0
  AreIdle = All (λ (entry : Inactive). IsIdle entry.session)

  AreIdle-insert :
      (entry : Inactive) (entries : List Inactive)
      → IsIdle entry.session
      → AreIdle entries
      → AreIdle (insert_inactive clock entry entries)
  unfolding insert_inactive
  AreIdle-insert entry [] i a = (i, tt)
  AreIdle-insert entry (next ∷ entries) i a = elim (Bool-cases (inactive_before clock next entry)) [
    | inl e ↦ rw (insert_inactive, e) (a.0, AreIdle-insert entry entries i a.1)
    | inr e ↦ rw (insert_inactive, e) (i, a)
  ]

  AreIdle-sort : (entries : List Inactive) → AreIdle entries → AreIdle (sort_inactive clock entries)
  unfolding sort_inactive
  AreIdle-sort [] a = tt
  AreIdle-sort (entry ∷ entries) a = AreIdle-insert entry _ a.0 (AreIdle-sort entries a.1)

  AreIdle-map :
      (agents : List Agent)
      → AreIdle (
          map
            (λ (agent : Agent). record {
              session = agent.session;
              updated_at_ms = finite_timestamp clock agent.updated_at;
            })
            (filter (λ (agent : Agent). not (includes active agent.session)) agents))
  AreIdle-map [] = tt
  AreIdle-map (agent ∷ agents) = elim (Bool-cases (includes active agent.session)) [
    | inl e ↦ rw e (AreIdle-map agents)
    | inr e ↦ rw e (e, AreIdle-map agents)
  ]

  AreIdle-append : (xs ys : List Inactive) → AreIdle xs → AreIdle ys → AreIdle (xs ++ ys)
  AreIdle-append [] ys a b = b
  AreIdle-append (x ∷ xs) ys a b = (a.0, AreIdle-append xs ys a.1 b)

  AreIdle-reverse : (xs : List Inactive) → AreIdle xs → AreIdle (reverse xs)
  AreIdle-reverse [] a = tt
  AreIdle-reverse (x ∷ xs) a =
      rw (reverse-cons x xs)
        (AreIdle-append (reverse xs) (x ∷ []) (AreIdle-reverse xs a.1) (a.0, tt))

  IsIdle-append : (xs : List Text) (x : Text) → All IsIdle xs → IsIdle x → All IsIdle (xs ++ x ∷ [])
  IsIdle-append [] x a i = (i, tt)
  IsIdle-append (y ∷ xs) x a i = (a.0, IsIdle-append xs x a.1 i)

  expired-IsIdle :
      (now retention : ℕ) (entries : List Inactive)
      → AreIdle entries
      → All IsIdle (expired now retention entries)
  unfolding expired
  expired-IsIdle now retention [] a = tt
  expired-IsIdle now retention (entry ∷ entries) a =
      elim (Bool-cases (is_expired now retention entry)) [
        | inl e ↦ rw e (a.0, expired-IsIdle now retention entries a.1)
        | inr e ↦ rw e (expired-IsIdle now retention entries a.1)
      ]

  overflow-IsIdle :
      (overflow : ℕ) (entries : List Inactive) (remove : List Text)
      → AreIdle entries
      → All IsIdle remove
      → All IsIdle (remove_overflow overflow entries remove)
  unfolding remove_overflow
  overflow-IsIdle zero entries remove a r = r
  overflow-IsIdle (suc n) [] remove a r = r
  overflow-IsIdle (suc n) (entry ∷ entries) remove a r =
      elim (Bool-cases (includes remove entry.session)) [
        | inl e ↦ rw (remove_overflow, e) (overflow-IsIdle (suc n) entries remove a.1 r)
        | inr e ↦
            rw (remove_overflow, e)
              (overflow-IsIdle n entries _ a.1 (IsIdle-append remove entry.session r a.0))
      ]

  not_idle :
      (remove : List Text) (session : Text)
      → All IsIdle remove
      → includes active session ≡ true
      → includes remove session ≡ false
  unfolding includes
  not_idle [] session a h = refl
  not_idle (x ∷ xs) session a h = elim (Bool-cases (text_eq x session)) [
    | inl e ↦ absurd (cc (text_eq_sound x session e, a.0, h))
    | inr e ↦ rw e (not_idle xs session a.1 h)
  ]

  sessions-IsIdle :
      (agents : List Agent) (now retention max_sessions : ℕ)
      → All IsIdle (sessions_to_remove clock agents active now retention max_sessions)
  unfolding sessions_to_remove inactive_of
  sessions-IsIdle agents now retention max_sessions =
      let idle = AreIdle-sort _ (AreIdle-map agents) in
      overflow-IsIdle _ _ _ (AreIdle-reverse _ idle) (expired-IsIdle now retention _ idle)

filter-kept :
    (active remove : List Text) (agents : List Agent)
    → ((session : Text) → includes active session ≡ true → includes remove session ≡ false)
    → filter
        (λ (agent : Agent). includes active agent.session)
        (filter (λ (agent : Agent). not (includes remove agent.session)) agents)
      ≡ filter (λ (agent : Agent). includes active agent.session) agents
filter-kept active remove [] h = refl
filter-kept active remove (agent ∷ agents) h = elim (Bool-cases (includes active agent.session)) [
  | inl e ↦
      rw (e, h agent.session e)
        (rw e (ap (λ rest. agent ∷ rest) (filter-kept active remove agents h)))
  | inr e ↦ elim (Bool-cases (includes remove agent.session)) [
    | inl k ↦ rw (e, k) (filter-kept active remove agents h)
    | inr k ↦ rw (e, k) (rw e (filter-kept active remove agents h))
  ]
]

-- Pruning the agent samples never drops an active session: the agents of active sessions are, in their order, the same before and after it, whatever the limits.
pub prune-keeps_active :
    (clock : Clock) (agents : List Agent) (active : List Text) (now retention max_sessions : ℕ)
    → filter
        (λ (agent : Agent). includes active agent.session)
        (prune_agent_sample_store clock agents active now retention max_sessions).agents
      ≡ filter (λ (agent : Agent). includes active agent.session) agents
unfolding prune_agent_sample_store
prune-keeps_active clock agents active now retention max_sessions =
    elim (Bool-cases
      (length (sessions_to_remove clock agents active now retention max_sessions) == 0)) [
        | inl e ↦ rw e refl
        | inr e ↦ rw e (
            filter-kept active _ agents λ session a.
              not_idle clock active _ session
                (sessions-IsIdle clock active agents now retention max_sessions) a)
      ]
