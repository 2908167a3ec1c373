-- ===== src/Recovery/Kept.antt =====
-- What the operations of agent-recovery.js keep.
use pane_fleet.Base.{
  ◌+◌, ◌≡◌, refl, Bool, true, false, not, some, List, [], ◌∷◌, Bool-cases, inl, inr, find, Text,
  text_eq, text_eq_sound, text_eq_self, is_empty, codes, if-eq_cases, ok, or_throw, >>=-ok_cases,
  guard->>-eq-ok,
}
use pane_fleet.Recovery.Slots.{Host, Slot, Entry, state_invalid, iso_timestamp}
use pane_fleet.Recovery.Store.{
  Store, SlotInput, is_valid_store, slot_of, put_slot, has_key, is_prototype, update_slot,
  updated_store, valid_input, validate_agent_recovery_store, register_agent_recovery_slot,
  set_agent_recovery_enabled, mark_agent_recovery_attempt, mark_agent_recovery_result,
}

-- One successful operation on the slot of a session.
pub data Change (host : Host) (store : Store) : Text → Store → Type 0 where
  registers :
      {store' : Store} (input : SlotInput) (at : Text)
      → register_agent_recovery_slot host store input at ≡ ok store'
      → Change host store input.session store'
  enables :
      {store' : Store} (session : Text) (enabled : Bool) (at : Text)
      → set_agent_recovery_enabled host store session enabled at ≡ ok store'
      → Change host store session store'
  attempts :
      {store' : Store} (session error at : Text)
      → mark_agent_recovery_attempt host store session error at ≡ ok store'
      → Change host store session store'
  finishes :
      {store' : Store} (session : Text) (succeeded : Bool) (error at : Text)
      → mark_agent_recovery_result host store session succeeded error at ≡ ok store'
      → Change host store session store'

-- The session has a slot behind the operation; or it is the name of the prototype, and the slots are
-- those from before.
pub data IsStored (store : Store) (session : Text) (store' : Store) : Type 0 where
  present : (slot : Slot) → slot_of store' session ≡ some slot → IsStored store session store'
  inherited :
      session ≡ codes "__proto__" → store'.slots ≡ store.slots → IsStored store session store'

pub record Kept (host : Host) (store : Store) (session : Text) (store' : Store) : Type 0 where
  pub was_valid : is_valid_store host store ≡ true
  pub is_valid : is_valid_store host store' ≡ true
  pub revision : store'.revision ≡ store.revision + 1
  pub stored : IsStored store session store'
  pub others :
      (other : Text) → text_eq session other ≡ false → slot_of store' other ≡ slot_of store other

text_eq_other : (a b c : Text) → text_eq a b ≡ true → text_eq b c ≡ false → text_eq a c ≡ false
text_eq_other a b c h k = rw (text_eq_sound a b h) k

find_put-same :
    (session : Text) (slot : Slot) (entries : List Entry)
    → (entry : Entry) × (find (has_key session) (put_slot session slot entries) ≡ some entry)
      × (entry.slot ≡ slot)
unfolding put_slot
find_put-same session slot [] =
    (record { key = session; slot = slot }, rw (text_eq_self session) refl, refl)
find_put-same session slot (e ∷ es) = elim (Bool-cases (has_key session e)) [
  | inl h ↦ (record e { slot = slot }, rw (put_slot, h) (rw h refl), refl)
  | inr h ↦
      let (entry, found, same) = find_put-same session slot es in
      (entry, rw (put_slot, h) (rw h found), same)
]

find_put-other :
    (session other : Text) (slot : Slot) (entries : List Entry)
    → text_eq session other ≡ false
    → find (has_key other) (put_slot session slot entries) ≡ find (has_key other) entries
unfolding put_slot
find_put-other session other slot [] h = rw h refl
find_put-other session other slot (e ∷ es) h = elim (Bool-cases (has_key session e)) [
  | inl k ↦ rw (put_slot, k, text_eq_other e.key session other k h) refl
  | inr k ↦ elim (Bool-cases (has_key other e)) [
    | inl m ↦ rw (put_slot, k, m) refl
    | inr m ↦ rw (put_slot, k, m) (find_put-other session other slot es h)
  ]
]

put-Kept :
    (host : Host) (store : Store) (session : Text) (slot : Slot) (at : Text) (store' : Store)
    → is_valid_store host store ≡ true
    → validate_agent_recovery_store host
        (record (updated_store store at) { slots = put_slot session slot store.slots })
      ≡ ok store'
    → Kept host store session store'
unfolding validate_agent_recovery_store updated_store slot_of
put-Kept host store session slot at store' v h =
    let (valid, h1) = guard->>-eq-ok (is_valid_store host _) state_invalid _ h in
    let same : store'
        ≡ record (updated_store store at) { slots = put_slot session slot store.slots } =
      cc h1 in
    let (entry, found, holds) = find_put-same session slot store.slots in
    record {
      was_valid = v;
      is_valid = rw same valid;
      revision = rw same refl;
      stored = present entry.slot (rw (slot_of, same, found) refl);
      others = λ other d. rw (slot_of, same, find_put-other session other slot store.slots d) refl;
    }

prototype-Kept :
    (host : Host) (store : Store) (session at : Text) (store' : Store)
    → is_valid_store host store ≡ true
    → is_prototype session ≡ true
    → validate_agent_recovery_store host (updated_store store at) ≡ ok store'
    → Kept host store session store'
unfolding validate_agent_recovery_store updated_store slot_of is_prototype
prototype-Kept host store session at store' v named h =
    let (valid, h1) = guard->>-eq-ok (is_valid_store host _) state_invalid _ h in
    let same : store' ≡ updated_store store at = cc h1 in
    record {
      was_valid = v;
      is_valid = rw same valid;
      revision = rw same refl;
      stored = inherited (text_eq_sound session _ named) (rw same refl);
      others = λ other d. rw (slot_of, same) refl;
    }

update-Kept :
    (host : Host) (store : Store) (session at : Text) (accepted : Bool)
    (change : Text → Slot → Slot) (store' : Store)
    → update_slot host store session at accepted change ≡ ok store'
    → Kept host store session store'
unfolding update_slot
update-Kept host store session at accepted change store' h =
    let (valid, h1) = guard->>-eq-ok (is_valid_store host store) state_invalid _ h in
    let (timed, h2) = guard->>-eq-ok (not (is_empty (iso_timestamp host at))) state_invalid _ h1 in
    let (accept, h3) = guard->>-eq-ok accepted state_invalid _ h2 in
    if-eq_cases (is_prototype session) h3
      (λ named h4. prototype-Kept host store session _ store' valid named h4)
      λ _ h4. >>=-ok_cases (or_throw (slot_of store session) state_invalid) _ h4 λ existing e5 h5.
        put-Kept host store session (change (iso_timestamp host at) existing) _ store' valid h5

register-Kept :
    (host : Host) (store : Store) (input : SlotInput) (at : Text) (store' : Store)
    → register_agent_recovery_slot host store input at ≡ ok store'
    → Kept host store input.session store'
unfolding register_agent_recovery_slot
register-Kept host store input at store' h =
    let (valid, h1) = guard->>-eq-ok (is_valid_store host store) state_invalid _ h in
    let (accept, h2) =
      guard->>-eq-ok (valid_input (iso_timestamp host at) input) state_invalid _ h1 in
    let (room, h3) = guard->>-eq-ok _ state_invalid _ h2 in
    put-Kept host store input.session _ _ store' valid h3

-- Each successful operation on a session's slot starts from a valid store, returns a valid store whose revision is one higher, holds a slot for the session or, for the session `__proto__`, the same slots as before, and leaves the slot of every other session as it was.
pub Change-Kept :
    (host : Host) (store : Store) (session : Text) (store' : Store)
    → Change host store session store'
    → Kept host store session store'
unfolding set_agent_recovery_enabled mark_agent_recovery_attempt mark_agent_recovery_result
Change-Kept host store _ store' (registers input at h) = register-Kept host store input at store' h
Change-Kept host store session store' (enables _ enabled at h) =
    update-Kept host store session at _ _ store' h
Change-Kept host store session store' (attempts _ error at h) =
    update-Kept host store session at _ _ store' h
Change-Kept host store session store' (finishes _ succeeded error at h) =
    update-Kept host store session at _ _ store' h
