-- ===== src/Layer3/EventStream/Open.antt =====
-- No event is sent on a closed channel (layer3/event_stream.go).
use mathlib.Core.Path.{subst}
use mathlib.Core.List.{Memᴰ}
use mathlib.Core.List.Memᴰ
use aizo.Prelude.{
  ℕ, ◌≡◌, ◌≢◌, ◌⊎◌, inl, inr, refl, sym, ◌∙◌, String, true, false, List, [], ◌∷◌, ◌++◌, get, put,
  get-put, Bool-cases, arith, ◌==◌, nat_eq, string_eq, some_of,
}
use aizo.Layer3.EventStream.{
  Event, EventStream, publish, subscribe, unsubscribe, process, receive, new_event_stream,
  channels_of, without, set_channel,
}
use aizo.Layer3.EventStream.Order.{
  Step, publishing, processing, subscribing, unsubscribing, receiving, step, run, process-empty,
  process-cons,
}
use aizo.Layer3.EventStream.Channels.{
  Unique, Mem-snoc, snoc-Unique, Mem-without, without-Unique, some_of-Mem, IsValid,
  SameSubscribers-IsValid, notify_subscribers-IsValid,
}

module _ {D : Type 0} where
  subscribe-IsValid : (s : EventStream D) (k : String) → IsValid s → IsValid (subscribe s k).0
  unfolding subscribe
  subscribe-IsValid s k v = record {
    made = λ j c m. elim (back j c m) [
      | inl o ↦ omega (arith, v.made j c o)
      | inr (e, _) ↦ omega (arith, e)
    ];
    opened = λ j c m. elim (back j c m) [
      | inl o ↦ ground (arith, v.opened j c o)
      | inr (e, _) ↦ ground arith
    ];
    unique = unique;
    apart = λ i j c a b. elim (back i c a) [
      | inl o ↦ elim (back j c b) [
        | inl o' ↦ v.apart i j c o o'
        | inr (e, _) ↦ absurd (omega (arith, v.made i c o, e))
      ]
      | inr (e, p) ↦ elim (back j c b) [
        | inl o' ↦ absurd (omega (arith, v.made j c o', e))
        | inr (_, q) ↦ p ∙ sym q
      ]
    ];
    calm = v.calm;
  }
    where
      chs : List ℕ
      chs = channels_of s k ++ (s.next ∷ [])

      at_k : (j : String) → (j == k) ≡ true → (channels_of (subscribe s k).0 j ≡ chs) × (j ≡ k)
      at_k j e = (ground (arith, get-put k j chs s.subscribers), ground arith)

      elsewhere :
          (j : String) → (j == k) ≡ false → channels_of (subscribe s k).0 j ≡ channels_of s j
      elsewhere j e = ground (arith, get-put k j chs s.subscribers)

      back :
          (j : String) (c : ℕ)
          → Memᴰ c (channels_of (subscribe s k).0 j)
          → Memᴰ c (channels_of s j) ⊎ ((c ≡ s.next) × (j ≡ k))
      back j c m = elim (Bool-cases (j == k)) [
        | inl e ↦
            let (l, p) = at_k j e in
            elim ((Mem-snoc c s.next (channels_of s k)).0 (subst (λ x. Memᴰ c x) l m)) [
              | inl o ↦ inl (subst (λ x. Memᴰ c (channels_of s x)) (sym p) o)
              | inr q ↦ inr (q, p)
            ]
        | inr e ↦ inl (subst (λ x. Memᴰ c x) (elsewhere j e) m)
      ]

      unique : (j : String) → Unique (channels_of (subscribe s k).0 j)
      unique j = elim (Bool-cases (j == k)) [
        | inl e ↦ subst Unique (sym (at_k j e).0) (
            snoc-Unique s.next (channels_of s k) (v.unique k)
              (λ m. omega (arith, v.made k s.next m)))
        | inr e ↦ subst Unique (sym (elsewhere j e)) (v.unique j)
      ]

  -- The stream after the channel of an entity was taken off and closed.
  abbrev closed_off : EventStream D → String → ℕ → EventStream D
  closed_off s k ch =
      set_channel ch (record (s.channels ch) { closed = true })
        (record s { subscribers = put k (without ch (channels_of s k)) s.subscribers })

  closed_off-IsValid :
      (s : EventStream D) (k : String) (ch : ℕ)
      → Memᴰ ch (channels_of s k)
      → IsValid s
      → IsValid (closed_off s k ch)
  closed_off-IsValid s k ch there v = record {
    made = λ j c m. v.made j c (back j c m).0;
    opened = λ j c m. let (o, ne) = back j c m in ground (arith, v.opened j c o, ne);
    unique = unique;
    apart = λ i j c a b. v.apart i j c (back i c a).0 (back j c b).0;
    calm = v.calm;
  }
    where
      chs : List ℕ
      chs = without ch (channels_of s k)

      at_k : (j : String) → (j == k) ≡ true → (channels_of (closed_off s k ch) j ≡ chs) × (j ≡ k)
      at_k j e = (ground (arith, get-put k j chs s.subscribers), ground arith)

      elsewhere :
          (j : String)
          → (j == k) ≡ false
          → (channels_of (closed_off s k ch) j ≡ channels_of s j) × (j ≢ k)
      elsewhere j e = (ground (arith, get-put k j chs s.subscribers), ground arith)

      back :
          (j : String) (c : ℕ)
          → Memᴰ c (channels_of (closed_off s k ch) j)
          → Memᴰ c (channels_of s j) × (c ≢ ch)
      back j c m = elim (Bool-cases (j == k)) [
        | inl e ↦
            let (l, p) = at_k j e in
            let (o, ne) =
              Mem-without c ch (channels_of s k) (v.unique k) (subst (λ x. Memᴰ c x) l m) in
            (subst (λ x. Memᴰ c (channels_of s x)) (sym p) o, ne)
        | inr e ↦
            let (l, n) = elsewhere j e in
            let o = subst (λ x. Memᴰ c x) l m in
            (o, λ q. n (v.apart j k ch (subst (λ x. Memᴰ x (channels_of s j)) q o) there))
      ]

      unique : (j : String) → Unique (channels_of (closed_off s k ch) j)
      unique j = elim (Bool-cases (j == k)) [
        | inl e ↦ subst Unique (sym (at_k j e).0) (without-Unique ch (channels_of s k) (v.unique k))
        | inr e ↦ subst Unique (sym (elsewhere j e).0) (v.unique j)
      ]

  unsubscribe-IsValid :
      (s : EventStream D) (k : String) (ch : ℕ) → IsValid s → IsValid (unsubscribe s k ch)
  unfolding unsubscribe
  unsubscribe-IsValid s k ch v = elim (Bool-cases (some_of (λ c. c == ch) (channels_of s k))) [
    | inr e ↦ rw e v
    | inl e ↦ rw e (closed_off-IsValid s k ch (some_of-Mem ch (channels_of s k) e) v)
  ]

  receive-IsValid : (s : EventStream D) (ch : ℕ) → IsValid s → IsValid (receive s ch).0
  unfolding receive
  receive-IsValid s ch v =
      SameSubscribers-IsValid s (receive s ch).0
        (record {
          subscribers = ground arith;
          next = ground arith;
          closed = λ n. ground arith;
          panicked = ground arith;
        })
        v

  publish-IsValid :
      (s : EventStream D) (e : Event D) (id : String) (now : ℕ)
      → IsValid s
      → IsValid (publish s e id now).0
  unfolding publish
  publish-IsValid s e id now v =
      SameSubscribers-IsValid s (publish s e id now).0
        (record {
          subscribers = ground arith;
          next = ground arith;
          closed = λ n. ground arith;
          panicked = ground arith;
        })
        v

  taken-IsValid :
      (s : EventStream D) (b es : List (Event D))
      → IsValid s
      → IsValid (record s { buffer = b; events = es })
  taken-IsValid s b es v =
      SameSubscribers-IsValid s (record s { buffer = b; events = es })
        (record { subscribers = refl; next = refl; closed = λ n. refl; panicked = refl }) v

  process-IsValid : (s : EventStream D) → IsValid s → IsValid (process s)
  process-IsValid s v = after s.buffer refl
    where
      after : (b : List (Event D)) → s.buffer ≡ b → IsValid (process s)
      after [] e = subst IsValid (sym (process-empty s e)) v
      after (x ∷ b) e = subst IsValid (sym (process-cons s x b e)) (
          notify_subscribers-IsValid (record s { buffer = b; events = s.events ++ (x ∷ []) }) x
            (taken-IsValid s b (s.events ++ (x ∷ [])) v))

  step-IsValid : (s : EventStream D) (t : Step D) → IsValid s → IsValid (step s t)
  unfolding step
  step-IsValid s (publishing e id now) v = publish-IsValid s e id now v
  step-IsValid s processing v = process-IsValid s v
  step-IsValid s (subscribing k) v = subscribe-IsValid s k v
  step-IsValid s (unsubscribing k ch) v = unsubscribe-IsValid s k ch v
  step-IsValid s (receiving ch) v = receive-IsValid s ch v

  run-IsValid : (s : EventStream D) (ts : List (Step D)) → IsValid s → IsValid (run s ts)
  unfolding run
  run-IsValid s [] v = v
  run-IsValid s (t ∷ ts) v = run-IsValid (step s t) ts (step-IsValid s t v)

  -- In any interleaving of calls, rounds of the loop and receptions on a new stream no event is sent
  -- on a closed channel.
  pub run-new_calm :
      (size : ℕ) (ts : List (Step D)) → (run (new_event_stream size) ts).panicked ≡ false
  unfolding new_event_stream get
  run-new_calm size ts =
      (run-IsValid (new_event_stream size) ts (record {
        made = λ j c m. absurd (Memᴰ.not-nil m);
        opened = λ j c m. refl;
        unique = λ j. tt;
        apart = λ i j c a b. absurd (Memᴰ.not-nil a);
        calm = refl;
      })).calm
