-- ===== src/Layer3/EventStream/Order.antt =====
-- What becomes of the events that are accepted (layer3/event_stream.go).
use mathlib.Core.Path.{subst}
use aizo.Prelude.{
  ℕ, zero, suc, ◌≤◌, ◌≡◌, refl, sym, ap, ◌∙◌, String, List, [], ◌∷◌, ◌++◌, length, length-append,
  append_assoc, append-nil, is_some, if◌then◌else◌, arith,
}
use aizo.Layer3.EventStream.{
  Event, EventStream, completed, publish, subscribe, unsubscribe, send, send_all,
  notify_subscribers, process, receive, channels_of,
}

-- A call, or a round of the loop of `processBuffer`.
pub data Step (D : Type 0) : Type 0 where
  publishing : Event D → String → ℕ → Step D
  processing : Step D
  subscribing : String → Step D
  unsubscribing : String → ℕ → Step D
  receiving : ℕ → Step D

module _ {D : Type 0} where
  unfoldable pub step : EventStream D → Step D → EventStream D
  step s (publishing e id now) = (publish s e id now).0
  step s processing = process s
  step s (subscribing entity) = (subscribe s entity).0
  step s (unsubscribing entity ch) = unsubscribe s entity ch
  step s (receiving ch) = (receive s ch).0

  unfoldable pub run : EventStream D → List (Step D) → EventStream D
  run s [] = s
  run s (t ∷ ts) = run (step s t) ts

  -- The event that a step accepts: one that Publish returned no error for.
  unfoldable pub accepted_by : EventStream D → Step D → List (Event D)
  accepted_by s (publishing e id now) =
      if is_some (publish s e id now).1 then [] else completed e id now ∷ []
  accepted_by s _ = []

  unfoldable pub accepted : EventStream D → List (Step D) → List (Event D)
  accepted s [] = []
  accepted s (t ∷ ts) = accepted_by s t ++ accepted (step s t) ts

  -- What delivery to subscribers leaves alone.
  abbrev Kept : EventStream D → EventStream D → Type 0
  Kept s s' = (s'.buffer ≡ s.buffer) × (s'.events ≡ s.events) × (s'.buffer_size ≡ s.buffer_size)

  send-Kept : (e : Event D) (ch : ℕ) (s : EventStream D) → Kept s (send e ch s)
  unfolding send
  send-Kept e ch s = ground arith

  send_all-Kept : (e : Event D) (chs : List ℕ) (s : EventStream D) → Kept s (send_all e chs s)
  unfolding send_all
  send_all-Kept e [] s = ground arith
  send_all-Kept e (ch ∷ chs) s = ground (arith, send_all-Kept e chs (send e ch s), send-Kept e ch s)

  notify_subscribers-Kept : (s : EventStream D) (e : Event D) → Kept s (notify_subscribers s e)
  unfolding notify_subscribers
  notify_subscribers-Kept s e =
      let (b, v, n) = send_all-Kept e (channels_of s e.entity_id) s in
      let (b', v', n') =
        send_all-Kept e (channels_of s "*") (send_all e (channels_of s e.entity_id) s) in
      (b' ∙ b, v' ∙ v, n' ∙ n)

  pub process-empty : (s : EventStream D) → s.buffer ≡ [] → process s ≡ s
  unfolding process
  process-empty s e = rw e refl

  pub process-cons :
      (s : EventStream D) (x : Event D) (b : List (Event D))
      → s.buffer ≡ x ∷ b
      → process s ≡ notify_subscribers (record s { buffer = b; events = s.events ++ (x ∷ []) }) x
  unfolding process
  process-cons s x b e = ground arith

  process-next :
      (s : EventStream D) (x : Event D) (b : List (Event D))
      → s.buffer ≡ x ∷ b
      → ((process s).buffer ≡ b)
        × ((process s).events ≡ s.events ++ (x ∷ []))
        × ((process s).buffer_size ≡ s.buffer_size)
  unfolding process
  process-next s x b e =
      ground
        (arith, notify_subscribers-Kept (record s { buffer = b; events = s.events ++ (x ∷ []) }) x)

  processed :
      (s : EventStream D)
      → length s.buffer ≤ s.buffer_size
      → ((process s).events ++ (process s).buffer ≡ (s.events ++ s.buffer) ++ [])
        × (length (process s).buffer ≤ (process s).buffer_size)
  processed s h = after s.buffer refl
    where
      after :
          (b : List (Event D))
          → s.buffer ≡ b
          → ((process s).events ++ (process s).buffer ≡ (s.events ++ s.buffer) ++ [])
            × (length (process s).buffer ≤ (process s).buffer_size)
      after [] e =
          subst
            (λ r.
              (r.events ++ r.buffer ≡ (s.events ++ s.buffer) ++ [])
              × (length r.buffer ≤ r.buffer_size))
            (sym (process-empty s e)) (sym (append-nil (s.events ++ s.buffer)), h)
      after (x ∷ b) e =
          let (pb, pe, ps) = process-next s x b e in
          (
            ground (
              arith,
              pb,
              pe,
              e,
              append_assoc s.events (x ∷ []) b,
              append-nil (s.events ++ s.buffer),
            ),
            ground (arith, pb, ps, ap length e),
          )

  -- A step moves events from the buffer to the storage, and appends what it accepts.
  step-order :
      (s : EventStream D) (t : Step D)
      → length s.buffer ≤ s.buffer_size
      → ((step s t).events ++ (step s t).buffer ≡ (s.events ++ s.buffer) ++ accepted_by s t)
        × (length (step s t).buffer ≤ (step s t).buffer_size)
  unfolding step accepted_by publish subscribe unsubscribe receive
  step-order s (publishing e id now) h = ground (
    arith,
    append_assoc s.events s.buffer (completed e id now ∷ []),
    append-nil (s.events ++ s.buffer),
    length-append s.buffer (completed e id now ∷ []),
  )
  step-order s processing h = processed s h
  step-order s (subscribing entity) h = (sym (append-nil (s.events ++ s.buffer)), h)
  step-order s (unsubscribing entity ch) h = ground (arith, append-nil (s.events ++ s.buffer))
  step-order s (receiving ch) h = ground (arith, append-nil (s.events ++ s.buffer))

  -- The events that Publish accepts are stored in the order in which they were accepted, each once:
  -- what is stored, and then what waits in the buffer, are after any steps what they were, and then
  -- the events accepted since; and the buffer never holds more than its size.
  pub run-order :
      (s : EventStream D) (ts : List (Step D))
      → length s.buffer ≤ s.buffer_size
      → ((run s ts).events ++ (run s ts).buffer ≡ (s.events ++ s.buffer) ++ accepted s ts)
        × (length (run s ts).buffer ≤ (run s ts).buffer_size)
  unfolding run accepted
  run-order s [] h = (sym (append-nil (s.events ++ s.buffer)), h)
  run-order s (t ∷ ts) h =
      let (e, h') = step-order s t h in
      let (e', h'') = run-order (step s t) ts h' in
      (
        e'
            ∙ ap (λ x. x ++ accepted (step s t) ts) e
            ∙ append_assoc (s.events ++ s.buffer) (accepted_by s t) (accepted (step s t) ts),
        h'',
      )

  -- Rounds of the loop, with nothing published in between.
  abbrev pub rounds : ℕ → EventStream D → EventStream D
  rounds zero s = s
  rounds (suc n) s = rounds n (process s)

  -- As many rounds of the loop as there are events in the buffer store all of them, in their order.
  pub rounds-drain :
      (n : ℕ) (s : EventStream D)
      → length s.buffer ≤ n
      → ((rounds n s).buffer ≡ []) × ((rounds n s).events ≡ s.events ++ s.buffer)
  rounds-drain n s h = drain n s s.buffer refl h
    where
      drain :
          (n : ℕ) (s : EventStream D) (b : List (Event D))
          → s.buffer ≡ b
          → length b ≤ n
          → ((rounds n s).buffer ≡ []) × ((rounds n s).events ≡ s.events ++ b)
      drain zero s [] e h = (e, sym (append-nil s.events))
      drain zero s (x ∷ b) e h = absurd (omega (arith, h))
      drain (suc n) s [] e h =
          let (p, q) = drain n s [] e (omega arith) in
          subst (λ r. ((rounds n r).buffer ≡ []) × ((rounds n r).events ≡ s.events ++ []))
            (sym (process-empty s e)) (p, q)
      drain (suc n) s (x ∷ b) e h =
          let (pb, pe, _) = process-next s x b e in
          let (p, q) = drain n (process s) b pb (omega (arith, h)) in
          (p, q ∙ ap (λ y. y ++ b) pe ∙ append_assoc s.events (x ∷ []) b)
