-- ===== src/Monitor/Buffer/Laws.antt =====
-- The events of a buffer are those that have been written into it (monitor.c).
use mathlib.Core.Path.{fun_ext}
use mmdd_pro.Common.{
  Text, ℕ, zero, suc, ◌+◌, ◌<◌, ◌≡◌, refl, sym, ap, ◌∙◌, Bool, true, false, List, [], ◌∷◌, ◌++◌,
  map, Option, none, some, arith, if◌then◌else◌, ◌==◌, length, drop, ltb, All,
}
use mmdd_pro.Pipeline.State.{World}
use mmdd_pro.Config.{Outcome, fault, exits, fails, ok}
use mmdd_pro.Config.Groups.{GroupInfo}
use mmdd_pro.Monitor.{
  Disk, Event, Watcher, and_then, handle_event, handle_events, monitor_start, monitor_handle,
}
use mmdd_pro.Monitor.Buffer.{
  event_size, word_at, event_of, Round, other_type, Next, after_event, handle_buffer,
  monitor_rounds,
}
use mmdd_pro.Monitor.Buffer.Encoding.{
  Written, encode, encode_all, IsWritten, event_written, event_of-encode, drop-encode, fits_encode,
}

module _ (D : Disk) (gid : ℕ) (G : GroupInfo) (fuel : ℕ) where
  -- The loop over events, with the tests of the run signal behind them.
  unfoldable handle_until :
      (ℕ → Bool) → ℕ → List Event → Watcher → Option (Outcome (Bool × Watcher))
  handle_until stopped k [] s = some (ok (false, s))
  handle_until stopped k (e ∷ es) s = and_then (handle_event D gid G fuel e s) λ s'.
      let n = handle_until stopped (suc k) es in after_event D gid G fuel stopped k e s s' n n n

  step :
      (stopped : ℕ → Bool) (rounds k : ℕ) (bytes : List ℕ) (e : Event) (s : Watcher)
      → (length bytes == 0) ≡ false
      → ltb (length bytes) (event_size + word_at 12 bytes) ≡ false
      → event_of bytes ≡ some e
      → handle_buffer D gid G fuel stopped (suc rounds) k bytes s
        ≡ and_then (handle_event D gid G fuel e s) λ s'.
          let n =
            handle_buffer D gid G fuel stopped rounds
              (suc k)
              (drop (event_size + word_at 12 bytes) bytes) in
          after_event D gid G fuel stopped k e s s' n n n
  unfolding handle_buffer
  step stopped rounds k bytes e s some_left fits there =
      rw (some_left, fits, there, handle_buffer) refl

  handle_buffer-encode :
      (stopped : ℕ → Bool) (rounds k : ℕ) (es : List Written) (s : Watcher)
      → All IsWritten es
      → length es < rounds
      → handle_buffer D gid G fuel stopped rounds k (encode_all es) s
        ≡ handle_until stopped k (map event_written es) s
  unfolding handle_buffer handle_until
  handle_buffer-encode stopped zero k es s h lt = absurd (omega (arith, lt))
  handle_buffer-encode stopped (suc rounds) k [] s h lt = refl
  handle_buffer-encode stopped (suc rounds) k (e ∷ es) s (fits, h) lt =
      let bytes = encode e (encode_all es) in
      step stopped rounds k bytes (event_written e) s (ground arith)
        (fits_encode e (encode_all es) fits) (event_of-encode e (encode_all es) fits)
      ∙ ap
          (λ (next : Watcher → Option (Outcome (Bool × Watcher))).
            and_then (handle_event D gid G fuel (event_written e) s)
              λ s'. after_event D gid G fuel stopped k (event_written e) s s' next next next)
          (ap (λ b. handle_buffer D gid G fuel stopped rounds (suc k) b)
              (drop-encode e (encode_all es) fits)
            ∙ fun_ext
                (λ s'. handle_buffer-encode stopped rounds (suc k) es s' h (omega (arith, lt))))

  and_then-ok :
      (m : Option (Outcome Watcher)) (f g : Watcher → Option (Outcome (Bool × Watcher)))
      → ((s : Watcher) → f s ≡ g s)
      → and_then m f ≡ and_then m g
  and_then-ok m f g h = ap (and_then m) (fun_ext h)

  and_then_assoc {κ} :
      {T : Type κ} {U : Type κ} (m : Option (Outcome Watcher)) (f : Watcher → Option (Outcome T))
      (g : T → Option (Outcome U))
      → and_then (and_then m f) g ≡ and_then m (λ s. and_then (f s) g)
  and_then_assoc none f g = refl
  and_then_assoc (some fault) f g = refl
  and_then_assoc (some exits) f g = refl
  and_then_assoc (some fails) f g = refl
  and_then_assoc (some (ok s)) f g = refl

  goes_on :
      (k : ℕ) (e : Event) (s s' : Watcher) (n : Next D gid G fuel)
      → after_event D gid G fuel (λ i. false) k e s s' n n n ≡ n s'
  goes_on k e s s' n = go e.name
    where
      same : (b : Bool) → (if b then n s' else n s') ≡ n s'
      same true = refl
      same false = refl

      go :
          (name : Option Text)
          → (elim name as (λ _. Option (Outcome (Bool × Watcher))) [
            | none ↦ n s'
            | some name ↦ if other_type D gid G fuel e name s then n s' else n s'
          ])
            ≡ n s'
      go none = refl
      go (some name) = same (other_type D gid G fuel e name s)

  handle_until-never :
      (k : ℕ) (es : List Event) (s : Watcher)
      → handle_until (λ i. false) k es s
        ≡ and_then (handle_events D gid G fuel es s) (λ s'. some (ok (false, s')))
  unfolding handle_until handle_events
  handle_until-never k [] s = refl
  handle_until-never k (e ∷ es) s =
      and_then-ok (handle_event D gid G fuel e s) _ _ (λ s'.
        goes_on k e s s' (handle_until (λ i. false) (suc k) es) ∙ handle_until-never (suc k) es s')
      ∙ sym (and_then_assoc (handle_event D gid G fuel e s) _ _)

  handle_events-append :
      (es fs : List Event) (s : Watcher)
      → handle_events D gid G fuel (es ++ fs) s
        ≡ and_then (handle_events D gid G fuel es s) (handle_events D gid G fuel fs)
  unfolding handle_events
  handle_events-append [] fs s = refl
  handle_events-append (e ∷ es) fs s =
      ap (and_then (handle_event D gid G fuel e s)) (fun_ext (λ s'. handle_events-append es fs s'))
      ∙ sym (and_then_assoc (handle_event D gid G fuel e s) _ _)

  -- A round of a thread that is not told to stop: nothing is read, or these events.
  abbrev pub round_of : Option (List Written) → Round
  round_of none = record { running = true; stopped = λ k. false; bytes = none }
  round_of (some es) = record { running = true; stopped = λ k. false; bytes = some (encode_all es) }

  abbrev pub events_of : List (Option (List Written)) → List Event
  events_of [] = []
  events_of (none ∷ reads) = events_of reads
  events_of (some es ∷ reads) = map event_written es ++ events_of reads

  -- Every event is well formed, and no read has more of them than there is fuel for.
  abbrev pub AreWritten : ℕ → Option (List Written) → Type 0
  AreWritten rounds none = Unit {0}
  AreWritten rounds (some es) = All IsWritten es × (length es < rounds)

  -- The loop is left here: the test of the run signal fails.
  abbrev pub IsEnd : List Round → Type 0
  IsEnd [] = Unit
  IsEnd (r ∷ later) = r.running ≡ false

  monitor_rounds-end :
      (rounds : ℕ) (later : List Round) (s : Watcher)
      → IsEnd later
      → monitor_rounds D gid G fuel rounds later s ≡ some (ok s)
  unfolding monitor_rounds
  monitor_rounds-end rounds [] s h = refl
  monitor_rounds-end rounds (r ∷ later) s h = rw (h, monitor_rounds) refl

  monitor_rounds-events :
      (rounds : ℕ) (reads : List (Option (List Written))) (later : List Round) (s : Watcher)
      → All (AreWritten rounds) reads
      → IsEnd later
      → monitor_rounds D gid G fuel rounds (map round_of reads ++ later) s
        ≡ handle_events D gid G fuel (events_of reads) s
  unfolding monitor_rounds handle_events
  monitor_rounds-events rounds [] later s h end = monitor_rounds-end rounds later s end
  monitor_rounds-events rounds (none ∷ reads) later s (_, h) end =
      monitor_rounds-events rounds reads later s h end
  monitor_rounds-events rounds (some es ∷ reads) later s ((fits, lt), h) end =
      let events = map event_written es in
      let handled = handle_events D gid G fuel events s in
      ap
        (λ (m : Option (Outcome (Bool × Watcher))). and_then m λ (left, s').
          if left
          then some (ok s')
          else monitor_rounds D gid G fuel rounds (map round_of reads ++ later) s')
        (handle_buffer-encode (λ k. false) rounds 0 es s fits lt ∙ handle_until-never 0 events s)
      ∙ and_then_assoc handled (λ s'. some (ok (false, s'))) _
      ∙ ap (and_then handled) (fun_ext (λ s'. monitor_rounds-events rounds reads later s' h end))
      ∙ sym (handle_events-append events (events_of reads) s)

  -- The kernel's events come in reads, some of which bring none or fail, and each of which has fewer
  -- events than there are rounds; the run signal lets the thread go on until they have been handled, and
  -- may stop it at the test in front of any later read. However the events are spread over the reads,
  -- the loops of monitor_handle over the bytes find exactly these events in their order, and do
  -- with them what the model of monitor_handle on events does.
  pub monitor_rounds-encode :
      (rounds : ℕ) (reads : List (Option (List Written))) (later : List Round) (w : World)
      → All (AreWritten rounds) reads
      → IsEnd later
      → and_then
          (monitor_start D gid G fuel w)
          (monitor_rounds D gid G fuel rounds (map round_of reads ++ later))
        ≡ monitor_handle D gid G fuel (events_of reads) w
  unfolding monitor_handle
  monitor_rounds-encode rounds reads later w h end =
      ap (and_then (monitor_start D gid G fuel w))
        (fun_ext (λ s. monitor_rounds-events rounds reads later s h end))
