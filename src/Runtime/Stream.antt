-- ===== src/Runtime/Stream.antt =====
-- writeSnapshotEvent of snapshot-events.js, lines 57 to 77. The response's `sent` is its entry in the
-- WeakMap of sequences.
use pane_fleet.Base.{
  ℕ, ◌≡◌, refl, Bool, true, false, ◌&&◌, ◌||◌, Option, none, some, List, [], ◌∷◌, ◌++◌, Text, codes,
  leb, ◌==◌, if◌then◌else◌, if-intro, &&-eq-true, Bool-cases, inl, inr, ==_iff,
}
use pane_fleet.Runtime.Snapshot.{max_safe_integer}

pub record Response : Type 0 where
  pub destroyed : Bool
  pub writable_ended : Bool
  pub writable_need_drain : Bool
  pub written : List Text
  pub sent : Option ℕ

-- Node's side of a write: whether it throws, whether the buffer then needs to drain, and the decimal
-- notation of a sequence.
pub record Socket : Type 0 where
  pub throws : Text → Bool
  pub fills : Text → Bool
  pub decimal : ℕ → Text

unfoldable pub is_sequenced : Option ℕ → Bool
is_sequenced none = false
is_sequenced (some sequence) = leb 1 sequence && leb sequence max_safe_integer

unfoldable pub was_sent : Option ℕ → Option ℕ → Bool
was_sent (some last) (some sequence) = last == sequence
was_sent _ _ = false

-- res.destroy()
unfoldable pub destroy : Response → Response
destroy res = record res { destroyed = true }

unfoldable pub frame_id : Socket → Option ℕ → Text
frame_id socket none = []
frame_id socket (some sequence) =
    if is_sequenced (some sequence)
    then codes "id: " ++ socket.decimal sequence ++ codes "\n"
    else []

unfoldable pub frame_of : Socket → Text → Text → Option ℕ → Text
frame_of socket event payload sequence =
    frame_id socket sequence
    ++ codes "event: "
    ++ event
    ++ codes "\ndata: "
    ++ payload
    ++ codes "\n\n"

-- The try block.
unfoldable pub write_frame : Socket → Response → Text → Option ℕ → Bool × Response
write_frame socket res frame sequence = if socket.throws frame then (false, destroy res) else (
  true,
  record res {
    written = res.written ++ frame ∷ [];
    writable_need_drain = socket.fills frame;
    sent = if is_sequenced sequence then sequence else res.sent;
  },
)

unfoldable pub write_snapshot_event : Socket → Response → Text → Text → Option ℕ → Bool × Response
write_snapshot_event socket res event payload sequence =
    if res.destroyed || res.writable_ended
    then (false, res)
    else if is_sequenced sequence && was_sent res.sent sequence
    then (true, res)
    else if res.writable_need_drain
    then (false, destroy res)
    else write_frame socket res (frame_of socket event payload sequence) sequence

-- A later call with the same sequence changes nothing.
record IsSettled (socket : Socket) (sequence : ℕ) (out : Bool × Response) : Type 0 where
  same :
      (event payload : Text)
      → (write_snapshot_event socket out.1 event payload (some sequence)).1 ≡ out.1

module _ (socket : Socket) (sequence : ℕ) (sequenced : is_sequenced (some sequence) ≡ true) where
  closed-IsSettled :
      (answer : Bool) (res : Response)
      → (res.destroyed || res.writable_ended) ≡ true
      → IsSettled socket sequence (answer, res)
  unfolding write_snapshot_event
  closed-IsSettled answer res e = record { same = λ event payload. rw e refl }

  sent-IsSettled :
      (answer : Bool) (res : Response)
      → was_sent res.sent (some sequence) ≡ true
      → IsSettled socket sequence (answer, res)
  unfolding write_snapshot_event
  sent-IsSettled answer res e = elim (Bool-cases (res.destroyed || res.writable_ended)) [
    | inl c ↦ closed-IsSettled answer res c
    | inr c ↦ record { same = λ event payload. rw (c, sequenced, e) refl }
  ]

  frame-IsSettled :
      (res : Response) (frame : Text)
      → IsSettled socket sequence (write_frame socket res frame (some sequence))
  unfolding write_frame destroy was_sent
  frame-IsSettled res frame =
      if-intro (IsSettled socket sequence) (socket.throws frame)
        (λ _. closed-IsSettled false _ refl)
        (λ _. sent-IsSettled true _ (rw sequenced ((==_iff sequence sequence).1 refl)))

  event-IsSettled :
      (res : Response) (event payload : Text)
      → IsSettled socket sequence (write_snapshot_event socket res event payload (some sequence))
  unfolding write_snapshot_event destroy
  event-IsSettled res event payload =
      if-intro (IsSettled socket sequence) (res.destroyed || res.writable_ended)
        (λ c. closed-IsSettled false res c)
        (λ c.
          if-intro (IsSettled socket sequence)
            (is_sequenced (some sequence) && was_sent res.sent (some sequence))
            (λ e. sent-IsSettled true res (&&-eq-true _ _ e).1)
            (λ e.
              if-intro (IsSettled socket sequence) res.writable_need_drain
                (λ d. closed-IsSettled false _ refl) (λ d. frame-IsSettled res _)))

-- After writeSnapshotEvent has been called with a valid sequence, a second call with the same sequence changes nothing, whatever the first did: it writes no frame again and destroys no open response.
pub write-settles :
    (socket : Socket) (res : Response) (sequence : ℕ) (event payload event' payload' : Text)
    → is_sequenced (some sequence) ≡ true
    → (write_snapshot_event socket
        (write_snapshot_event socket res event payload (some sequence)).1
        event'
        payload'
        (some sequence)).1
      ≡ (write_snapshot_event socket res event payload (some sequence)).1
write-settles socket res sequence event payload event' payload' sequenced =
    (event-IsSettled socket sequence sequenced res event payload).same event' payload'
