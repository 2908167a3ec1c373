-- ===== src/Commons/Consistent.antt =====
-- What the validation of a store of agent-commons.js guarantees.
use pane_fleet.Base.{
  ◌≤◌, ◌≡◌, refl, sym, ap, ◌∙◌, arith, Bool, true, false, not, ◌&&◌, ◌||◌, ==_iff, leb→le, List, [],
  ◌∷◌, length, Text, text_eq, text_eq_sound, text_eq_self, Bool-cases, ◌⊎◌, inl, inr, includes,
  is_empty, All, ◌==◌, leb, Result, ok, for_each, map_m, >>=-ok_cases, >>-eq-ok, guard->>-eq-ok,
  guard-eq-ok,
}
use pane_fleet.Delivery.Fields.{date_before, max_safe_integer}
use pane_fleet.Commons.Types.{CommonsHost, CommonsError, Message, Operation, CommonsStore}
use pane_fleet.Commons.Validate.{
  distinct, normalized_message, normalized_operation, message_ids, operation_ids, thread_fits,
  supersession_fits, check_message, check_operations, validated_store, check_header,
  validate_agent_commons_store,
}

-- A store whose log counts its revision, whose ids are unique and whose messages hang together.
pub record IsConsistent (store : CommonsStore) : Type 0 where
  pub counted : store.revision ≡ length store.operations
  pub few_messages : length store.messages ≤ 1000
  pub few_operations : length store.operations ≤ 2000
  pub unique_messages : distinct (message_ids store.messages) ≡ true
  pub unique_operations : distinct (operation_ids store.operations) ≡ true
  pub connected :
      All
        (λ m. (thread_fits store.messages m ≡ true) × (supersession_fits store.messages m ≡ true))
        store.messages

list-inj {ℓ} : {E B : Type ℓ} {a b : List B} → ◌≡◌ {A = Result E (List B)} (ok a) (ok b) → a ≡ b
list-inj h = cc h

store-inj : {a b : CommonsStore} → ◌≡◌ {A = Result CommonsError CommonsStore} (ok a) (ok b) → a ≡ b
store-inj h = cc h

length-map_m {ℓ} :
    {E A B : Type ℓ} (f : A → Result E B) (xs : List A) {ys : List B}
    → map_m f xs ≡ ok ys
    → length ys ≡ length xs
length-map_m f [] h = rw (← list-inj h) refl
length-map_m f (x ∷ xs) h =
    >>=-ok_cases (f x) _ h
      λ y _ g. >>=-ok_cases (map_m f xs) _ g λ zs e k. rw (← list-inj k, length-map_m f xs e) refl

All-for_each {ℓ κ} :
    {E A : Type ℓ} {P : A → Type κ} (f : A → Result E (Unit {ℓ}))
    → ((x : A) → f x ≡ ok tt → P x)
    → (xs : List A) → for_each f xs ≡ ok tt
    → All P xs
All-for_each f holds [] h = tt
All-for_each f holds (x ∷ xs) h =
    let (e, g) = >>-eq-ok (f x) _ h in (holds x e, All-for_each f holds xs g)

fresh-first : (a b : Bool) → (not a && b) ≡ true → a ≡ false
fresh-first a b h = ground arith

either : (a b : Bool) → (a ≡ true) ⊎ (b ≡ true) → (a || b) ≡ true
either a b (inl h) = ground arith
either a b (inr h) = ground arith

neither : (a b : Bool) → a ≡ false → b ≡ false → (a || b) ≡ false
neither a b h g = ground arith

both : (a b : Bool) → a ≡ false → b ≡ true → (not a && b) ≡ true
both a b h g = ground arith

clash : {a b : Bool} → a ≡ b → a ≡ false → b ≡ true → ⊥
clash same h e = absurd (cc)

not-again :
    (seen : List Text) (x id : Text)
    → includes seen x ≡ false
    → includes seen id ≡ true
    → text_eq x id ≡ false
not-again seen x id h e = elim (Bool-cases (text_eq x id)) [
  | inl same ↦ absurd (clash (ap (includes seen) (text_eq_sound x id same)) h e)
  | inr apart ↦ apart
]

checked-fits :
    (messages : List Message) (m : Message)
    → check_message messages m ≡ ok tt
    → (thread_fits messages m ≡ true) × (supersession_fits messages m ≡ true)
unfolding check_message
checked-fits messages m h =
    let (t, g) = guard->>-eq-ok (thread_fits messages m) _ _ h in (t, guard-eq-ok _ _ g)

-- No id of the rest was seen before, and so the ids are distinct.
check_operations-distinct :
    (host : CommonsHost) (ids seen : List Text) (at : Text) (operations : List Operation)
    → check_operations host ids seen at operations ≡ ok tt
    → (distinct (operation_ids operations) ≡ true)
      × ((id : Text) → includes seen id ≡ true → includes (operation_ids operations) id ≡ false)
unfolding check_operations distinct operation_ids includes
check_operations-distinct host ids seen at [] h = (refl, λ id e. refl)
check_operations-distinct host ids seen at (o ∷ operations) h =
    let (fresh, g) = guard->>-eq-ok (not (includes seen o.id) && includes ids o.message_id) _ _ h in
    let (_, k) = guard->>-eq-ok (is_empty at || not (date_before host.platform o.at at)) _ _ g in
    let (rest, apart) = check_operations-distinct host ids (o.id ∷ seen) o.at operations k in
    let first : includes seen o.id ≡ false = fresh-first (includes seen o.id) _ fresh in
    let new : includes (operation_ids operations) o.id ≡ false =
      apart o.id (either (text_eq o.id o.id) _ (inl (text_eq_self o.id))) in
    (
      both _ _ new rest,
      λ id e.
          neither _ _ (not-again seen o.id id first e)
            (apart id (either (text_eq o.id id) _ (inr e))),
    )

-- The validation returns a consistent store with the same revision and as many operations.
pub validate-IsConsistent :
    (host : CommonsHost) (value : CommonsStore) {store : CommonsStore}
    → validate_agent_commons_store host value ≡ ok store
    → IsConsistent store
      × (store.revision ≡ value.revision)
      × (length store.operations ≡ length value.operations)
unfolding validate_agent_commons_store check_header validated_store
validate-IsConsistent host value {store} h =
    let (header, h1) = >>-eq-ok (check_header value) _ h in
    let (_, g1) = guard->>-eq-ok (value.version == 1) _ _ header in
    let (_, g2) = guard->>-eq-ok (leb value.revision max_safe_integer) _ _ g1 in
    let (few_m, g3) = guard->>-eq-ok (leb (length value.messages) 1000) _ _ g2 in
    let (few_o, g4) = guard->>-eq-ok (leb (length value.operations) 2000) _ _ g3 in
    let counted = (==_iff value.revision (length value.operations)).0 (guard-eq-ok _ _ g4) in
    >>=-ok_cases (map_m (normalized_message host) value.messages) _ h1 λ messages e1 h2.
      let (unique, h3) = guard->>-eq-ok (distinct (message_ids messages)) _ _ h2 in
      let (each, h4) = >>-eq-ok (for_each (check_message messages) messages) _ h3 in
      >>=-ok_cases (map_m (normalized_operation host) value.operations) _ h4 λ operations e5 h5.
        let (ops, h6) =
          >>-eq-ok (check_operations host (message_ids messages) [] [] operations) _ h5 in
        let (_, h7) = guard->>-eq-ok _ _ (ok (validated_store value messages operations)) h6 in
        let same : validated_store value messages operations ≡ store = store-inj h7 in
        let size_m = length-map_m (normalized_message host) value.messages e1 in
        let size_o = length-map_m (normalized_operation host) value.operations e5 in
        rw (← same) (
          record {
            counted = counted ∙ sym size_o;
            few_messages = rw (size_m) (leb→le _ _ few_m);
            few_operations = rw (size_o) (leb→le _ _ few_o);
            unique_messages = unique;
            unique_operations =
                (check_operations-distinct host (message_ids messages) [] [] operations ops).0;
            connected = All-for_each (check_message messages) (checked-fits messages) messages each;
          },
          refl,
          size_o,
        )
