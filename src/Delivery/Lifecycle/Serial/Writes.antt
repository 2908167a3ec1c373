-- ===== src/Delivery/Lifecycle/Serial/Writes.antt =====
-- How a write to one task keeps the serial order.
use pane_fleet.Base.{
  ℕ, ◌+◌, ◌≡◌, ◌∙◌, Bool, true, false, ◌&&◌, Option, none, some, List, [], ◌∷◌, find, modify, Text,
  text_eq, text_eq_sound, Bool-cases, inl, inr, arith,
}
use pane_fleet.Delivery.Types.{Task, OutboxItem, Run, TaskState, OutboxState}
use pane_fleet.Delivery.Run.{has_step, is_for}
use pane_fleet.Delivery.Mission.{is_pending}
use pane_fleet.Delivery.Validate.{is_verified, is_aborted, sequence_fits}
use pane_fleet.Delivery.Validate.Rows.{Rows, Position}
use pane_fleet.Delivery.Lifecycle.{IsSerial}

-- More tasks may move when more tasks before them are verified.
pub IsSerial-mono :
    (b c : Bool) (ts : List Task) → (b ≡ true → c ≡ true) → IsSerial b ts → IsSerial c ts
IsSerial-mono b c [] h s = tt
IsSerial-mono b c (t ∷ ts) h s = (
  ground (arith, h),
  IsSerial-mono (b && is_verified t) (c && is_verified t) ts (λ e. ground (arith, h)) s.1,
)

-- A write to a task that had left `pending`, and that stays unverified or becomes verified.
pub modify-IsSerial :
    (step : Text) (g : Task → Task) (open_ : Bool) (ts : List Task) (task : Task)
    → find (has_step step) ts ≡ some task
    → is_pending task.state ≡ false
    → is_verified task ≡ false
    → IsSerial open_ ts
    → IsSerial open_ (modify (has_step step) g ts)
modify-IsSerial step g open_ [] task f np nv s = tt
modify-IsSerial step g open_ (t ∷ ts) task f np nv s = elim (Bool-cases (has_step step t)) [
  | inl e ↦ rw e (
    ground (arith, e),
    IsSerial-mono (open_ && is_verified t) (open_ && is_verified (g t)) ts (ground (arith, e)) s.1,
  )
  | inr e ↦
      rw e (s.0, modify-IsSerial step g (open_ && is_verified t) ts task (rw e at f) np nv s.1)
]

-- What is known of the task before the list: if it is verified, so are all before it.
abbrev pub Behind : Bool → Option Task → Type 0
Behind open_ none = open_ ≡ true
Behind open_ (some previous) = is_verified previous ≡ true → open_ ≡ true

abbrev pub is_held : OutboxState → Bool
is_held OutboxState.held = true
is_held _ = false

abbrev state_verified : TaskState → Bool
state_verified TaskState.verified = true
state_verified _ = false

sequence_fits-verified :
    (before now : TaskState) (item : OutboxState)
    → sequence_fits before now item ≡ true
    → is_held item ≡ false
    → state_verified before ≡ true
sequence_fits-verified before now item h n = ground arith

Position-open :
    (value : Run) (previous : Option Task) (task : Task) (item : OutboxItem) (open_ : Bool)
    → is_aborted value.condition ≡ false
    → Position value previous task item
    → is_held item.state ≡ false
    → Behind open_ previous
    → open_ ≡ true
Position-open value none task item open_ live placed n b = b
Position-open value (some previous) task item open_ live placed n b =
    let fits : sequence_fits previous.state task.state item.state ≡ true =
      ground (arith, live, placed.2) in
    b (ground (arith, sequence_fits-verified previous.state task.state item.state fits n))

is_for-same :
    (step : Text) (item : OutboxItem) (task : Task)
    → text_eq item.step_id task.step_id ≡ true
    → is_for step item ≡ has_step step task
is_for-same step item task h = rw (text_eq_sound item.step_id task.step_id h)

-- A write to a task whose outbox item is not held afterwards, in a run that validates.
module _ (value : Run) (live : is_aborted value.condition ≡ false) (step : Text) (g : Task → Task)
    (same : (t : Task) → (g t).step_id ≡ t.step_id)
    (unverified : (t : Task) → is_verified (g t) ≡ false) (task : Task)
    (not_verified : is_verified task ≡ false) (item : OutboxItem)
    (not_held : is_held item.state ≡ false) where
  pub released-IsSerial :
      (index : ℕ) (previous : Option Task) (open_ : Bool) (ts : List Task) (os : List OutboxItem)
      → find (has_step step) ts ≡ some task
      → find (is_for step) os ≡ some item
      → Rows value index previous (modify (has_step step) g ts) os
      → Behind open_ previous
      → IsSerial open_ ts
      → IsSerial open_ (modify (has_step step) g ts)
  released-IsSerial index previous open_ [] os f fo r b s = tt
  released-IsSerial index previous open_ (t ∷ ts) [] f fo r b s =
      elim (Bool-cases (has_step step t)) [
        | inl e ↦ absurd (rw e at r)
        | inr e ↦ absurd (rw e at r)
      ]
  released-IsSerial index previous open_ (t ∷ ts) (o ∷ os) f fo r b s =
      elim (Bool-cases (has_step step t)) [
        | inl e ↦
            let row = rw e at r in
            let here : is_for step o ≡ true =
              is_for-same step o (g t) row.0.same_step ∙ rw (same t) e in
            let found : o ≡ item = ground (arith, here, fo) in
            let opened : open_ ≡ true =
              Position-open value previous (g t) o open_ live row.0.position (rw found not_held)
                b in
            rw e (
              rw opened,
              IsSerial-mono (open_ && is_verified t) (open_ && is_verified (g t)) ts
                  (ground (arith, e, f, not_verified)) s.1,
            )
        | inr e ↦
            let row = rw e at r in
            let elsewhere : is_for step o ≡ false = is_for-same step o t row.0.same_step ∙ e in
            rw e (
              s.0,
              released-IsSerial (index + 1) (some t) (open_ && is_verified t) ts os (rw e at f)
                  (rw elsewhere at fo) row.1 (ground (arith, s.0)) s.1,
            )
      ]
