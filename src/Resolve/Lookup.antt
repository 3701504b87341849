-- ===== src/Resolve/Lookup.antt =====
-- The lookups of romemul/sidetnfs_resolve.c over the history of a slot: which answer is taken, and
-- when a wait ends.
use side_tnfs_firmware.Prelude.{
  ℕ, zero, suc, ◌+◌, ◌*◌, ◌%◌, ◌≤◌, ◌<◌, ◌^◌, ◌≡◌, ◌≢◌, ◌⊎◌, inl, inr, refl, subst, ap, ◌∙◌, true,
  false, Bool-cases, Option, none, some, List, [], ◌∷◌, leb, ◌==◌, arith, if◌then◌else◌,
}
use side_tnfs_firmware.Resolve.{
  Resolve, ResolveState, idle, pending, done, failed, is_pending, reset, begin, accepts, complete,
  tick,
}

-- What happens to the state of a slot.
pub data Event : Type 0 where
  reset_event : ℕ → Event
  begin_event : ℕ → Event
  answer_event : ℕ → Option ℕ → Event
  tick_event : ℕ → ℕ → Event

unfoldable pub step : Event → Resolve → Resolve
step (reset_event slot) r = reset r slot
step (begin_event id) r = begin r id
step (answer_event id answer) r = complete r id answer
step (tick_event ms timeout) r = tick r ms timeout

-- The state after a history, whose newest event comes first.
unfoldable pub after : Resolve → List Event → Resolve
after r [] = r
after r (e ∷ history) = step e (after r history)

-- The lookup of `id` was begun, and since then nothing but waiting and answers to others came.
pub data Waits (id : ℕ) : List Event → Type 0 where
  begun : {h : List Event} → Waits id (begin_event id ∷ h)
  waited : {ms timeout : ℕ} {h : List Event} → Waits id h → Waits id (tick_event ms timeout ∷ h)
  ignored :
      {other : ℕ} {answer : Option ℕ} {h : List Event}
      → other ≢ id
      → Waits id h
      → Waits id (answer_event other answer ∷ h)

-- `addr` is the answer to the lookup that was begun last.
pub data Answered (addr : ℕ) : List Event → Type 0 where
  taken : {id : ℕ} {h : List Event} → Waits id h → Answered addr (answer_event id (some addr) ∷ h)
  still_waited :
      {ms timeout : ℕ} {h : List Event}
      → Answered addr h
      → Answered addr (tick_event ms timeout ∷ h)
  late :
      {id : ℕ} {answer : Option ℕ} {h : List Event}
      → Answered addr h
      → Answered addr (answer_event id answer ∷ h)

-- What a state says of its history.
unfoldable Justified : ResolveState → Resolve → List Event → Type 0
Justified idle r h = Unit
Justified pending r h = Waits r.request_id h
Justified done r h = Answered r.addr h
Justified failed r h = Unit

abbrev lookup : ResolveState → ℕ → ℕ → ℕ → ℕ → Resolve
lookup s a e id slot = record { state = s; addr = a; elapsed_ms = e; request_id = id; slot = slot }

unfoldable IsJustified : Resolve → List Event → Type 0
IsJustified r h = Justified r.state r h

justify_answer :
    (id : ℕ) (answer : Option ℕ) (s : ResolveState) (a e i slot : ℕ) (h : List Event)
    → IsJustified (lookup s a e i slot) h
    → IsJustified (complete (lookup s a e i slot) id answer) (answer_event id answer ∷ h)
unfolding complete accepts is_pending Justified IsJustified
justify_answer id answer idle a e i slot h j = tt
justify_answer id answer done a e i slot h j = late j
justify_answer id answer failed a e i slot h j = tt
justify_answer id none pending a e i slot h j = elim (Bool-cases (i == id)) [
  | inl same ↦ rw same tt
  | inr differs ↦ rw differs (ignored (λ o. ground (arith, o)) j)
]
justify_answer id (some addr) pending a e i slot h j = elim (Bool-cases (i == id)) [
  | inl same ↦ rw same (taken (subst (λ k. Waits k h) (ground arith) j))
  | inr differs ↦ rw differs (ignored (λ o. ground (arith, o)) j)
]

justify_tick :
    (ms timeout : ℕ) (s : ResolveState) (a e i slot : ℕ) (h : List Event)
    → IsJustified (lookup s a e i slot) h
    → IsJustified (tick (lookup s a e i slot) ms timeout) (tick_event ms timeout ∷ h)
unfolding tick is_pending Justified IsJustified
justify_tick ms timeout idle a e i slot h j = tt
justify_tick ms timeout done a e i slot h j = still_waited j
justify_tick ms timeout failed a e i slot h j = tt
justify_tick ms timeout pending a e i slot h j =
    elim (Bool-cases (leb timeout ((e + ms) % 2 ^ 32))) [
      | inl over ↦ rw over tt
      | inr within ↦ rw within (waited j)
    ]

justify_step :
    (e : Event) (r : Resolve) (h : List Event) → IsJustified r h → IsJustified (step e r) (e ∷ h)
unfolding step reset begin Justified IsJustified
justify_step (reset_event slot) r h j = tt
justify_step (begin_event id) r h j = begun
justify_step (answer_event id answer) r h j =
    justify_answer id answer r.state r.addr r.elapsed_ms r.request_id r.slot h j
justify_step (tick_event ms timeout) r h j =
    justify_tick ms timeout r.state r.addr r.elapsed_ms r.request_id r.slot h j

justify :
    (slot : ℕ) (r : Resolve) (history : List Event)
    → IsJustified (after (reset r slot) history) history
unfolding after reset Justified IsJustified
justify slot r [] = tt
justify slot r (e ∷ history) =
    justify_step e (after (reset r slot) history) history (justify slot r history)

-- After any history of a slot, if the lookup is done then its address is the answer to the lookup
-- that was begun last, and no answer to an earlier lookup.
pub done-Answered :
    (slot : ℕ) (r : Resolve) (history : List Event)
    → (after (reset r slot) history).state ≡ done
    → Answered (after (reset r slot) history).addr history
unfolding IsJustified Justified
done-Answered slot r history e =
    subst (λ s. Justified s (after (reset r slot) history) history) e (justify slot r history)

-- The poll loop waits `n` times.
unfoldable pub poll : ℕ → ℕ → ℕ → Resolve → Resolve
poll zero ms timeout r = r
poll (suc n) ms timeout r = tick (poll n ms timeout r) ms timeout

abbrev waiting : Resolve → ℕ → ℕ → Resolve
waiting r id e = record (begin r id) { elapsed_ms = e }

-- Adding a wait to an elapsed time that the timeout bounds.
tick-waiting :
    (ms timeout id e : ℕ) (r : Resolve)
    → e + ms < 2 ^ 32
    → tick (waiting r id e) ms timeout
      ≡ record (waiting r id (e + ms)) { state = if leb timeout (e + ms) then failed else pending }
unfolding tick begin is_pending
tick-waiting ms timeout id e r h =
    let small : (e + ms) % 2 ^ 32 ≡ e + ms = omega arith in rw small refl

tick_failed : (ms timeout : ℕ) (r : Resolve) → r.state ≡ failed → (tick r ms timeout).state ≡ failed
unfolding tick is_pending
tick_failed ms timeout r h = rw h refl

begin-waiting : (r : Resolve) (id : ℕ) → begin r id ≡ waiting r id 0
unfolding begin
begin-waiting r id = refl

step_product : (n ms : ℕ) → suc n * ms ≡ n * ms + ms
step_product n ms = omega arith

poll_waits :
    (n ms timeout id : ℕ) (r : Resolve)
    → timeout + ms < 2 ^ 32
    → (n ≡ 0) ⊎ (n * ms < timeout)
    → poll n ms timeout (begin r id) ≡ waiting r id (n * ms)
unfolding poll begin
poll_waits zero ms timeout id r h k =
    let e : 0 ≡ 0 * ms = omega arith in begin-waiting r id ∙ ap (λ z. waiting r id z) e
poll_waits (suc n) ms timeout id r h (inl z) = absurd (omega arith)
poll_waits (suc n) ms timeout id r h (inr k) =
    let before : n * ms < timeout = omega (arith, step_product n ms) in
    let within : leb timeout (n * ms + ms) ≡ false = ground (arith, step_product n ms) in
    rw
      (
        poll_waits n ms timeout id r h (inr before),
        tick-waiting ms timeout id (n * ms) r (omega arith),
        within,
        step_product n ms,
      )
      refl

poll_fails :
    (n ms timeout id : ℕ) (r : Resolve)
    → timeout + ms < 2 ^ 32
    → timeout ≤ suc n * ms
    → (poll (suc n) ms timeout (begin r id)).state ≡ failed
unfolding poll begin
poll_fails zero ms timeout id r h k =
    let over : leb timeout (0 + ms) ≡ true = ground (arith, step_product 0 ms) in
    rw (begin-waiting r id, tick-waiting ms timeout id 0 r (omega arith), over) refl
poll_fails (suc n) ms timeout id r h k = elim (Bool-cases (leb timeout (suc n * ms))) [
  | inr within ↦
      let over : leb timeout (suc n * ms + ms) ≡ true = ground (arith, step_product (suc n) ms) in
      rw
        (
          poll_waits (suc n) ms timeout id r h (inr (ground arith)),
          tick-waiting ms timeout id (suc n * ms) r (ground arith),
          over,
        )
        refl
  | inl over ↦ tick_failed ms timeout _ (poll_fails n ms timeout id r h (ground arith))
]

-- A lookup that is polled every `ms` milliseconds and gets no answer is pending while the waits add
-- up to less than the timeout and failed from then on, if the timeout and a wait fit in 32 bits.
pub poll_times_out :
    (n ms timeout id : ℕ) (r : Resolve)
    → timeout + ms < 2 ^ 32
    → (poll (suc n) ms timeout (begin r id)).state
      ≡ (if leb timeout (suc n * ms) then failed else pending)
unfolding begin
poll_times_out n ms timeout id r h = elim (Bool-cases (leb timeout (suc n * ms))) [
  | inl over ↦ rw over (poll_fails n ms timeout id r h (ground arith))
  | inr within ↦ rw (within, poll_waits (suc n) ms timeout id r h (inr (ground arith))) refl
]
