-- ===== src/Layer3/EventStream/Channels.antt =====
-- The channels of the subscribers, and what sending does to them (layer3/event_stream.go).
use mathlib.Core.Path.{subst}
use mathlib.Core.List.{Memᴰ}
use mathlib.Core.List.Memᴰ
use aizo.Prelude.{
  ℕ, ◌<◌, ◌≡◌, ◌≢◌, ◌⊎◌, ◌↔◌, inl, inr, refl, sym, ◌∙◌, String, true, false, List, [], ◌∷◌, ◌++◌,
  Mem-cons, Bool-cases, arith, ◌==◌, nat_eq, string_eq, some_of,
}
use aizo.Layer3.EventStream.{
  Event, EventStream, send, send_all, notify_subscribers, channels_of, without,
}

-- A channel stands once.
abbrev pub Unique : List ℕ → Type 0
Unique [] = Unit
Unique (c ∷ cs) = (¬ Memᴰ c cs) × Unique cs

pub Mem-snoc : (a c : ℕ) (cs : List ℕ) → Memᴰ a (cs ++ (c ∷ [])) ↔ (Memᴰ a cs ⊎ (a ≡ c))
Mem-snoc a c [] = ground (arith, Mem-cons a c [], Memᴰ.not-nil {a = a})
Mem-snoc a c (d ∷ cs) =
    ground (arith, Mem-snoc a c cs, Mem-cons a d cs, Mem-cons a d (cs ++ (c ∷ [])))

pub snoc-Unique : (c : ℕ) (cs : List ℕ) → Unique cs → ¬ Memᴰ c cs → Unique (cs ++ (c ∷ []))
snoc-Unique c [] u n = (λ m. Memᴰ.not-nil m, tt)
snoc-Unique c (d ∷ cs) u n = (
  λ m. elim ((Mem-snoc d c cs).0 m) [ inl h ↦ u.0 h | inr e ↦ n (Memᴰ.head (sym e)) ],
  snoc-Unique c cs u.1 (λ m. n (Memᴰ.tail m)),
)

pub Mem-without :
    (a ch : ℕ) (cs : List ℕ) → Unique cs → Memᴰ a (without ch cs) → Memᴰ a cs × (a ≢ ch)
Mem-without a ch [] u m = absurd (Memᴰ.not-nil m)
Mem-without a ch (c ∷ cs) u m = elim (Bool-cases (c == ch)) [
  | inl e ↦
      let found = subst (λ x. Memᴰ a x) (dropped e) m in
      (Memᴰ.tail found, λ p. u.0 (subst (λ x. Memᴰ x cs) (p ∙ sym (same e)) found))
  | inr e ↦ elim ((Mem-cons a c (without ch cs)).0 (subst (λ x. Memᴰ a x) (kept e) m)) [
    | inl p ↦ (Memᴰ.head p, λ q. differs e (sym p ∙ q))
    | inr t ↦ let (t', ne) = Mem-without a ch cs u.1 t in (Memᴰ.tail t', ne)
  ]
]
  where
    dropped : (c == ch) ≡ true → without ch (c ∷ cs) ≡ cs
    dropped e = ground arith

    kept : (c == ch) ≡ false → without ch (c ∷ cs) ≡ c ∷ without ch cs
    kept e = ground arith

    same : (c == ch) ≡ true → c ≡ ch
    same e = ground arith

    differs : (c == ch) ≡ false → c ≢ ch
    differs e = ground arith

pub without-Unique : (ch : ℕ) (cs : List ℕ) → Unique cs → Unique (without ch cs)
without-Unique ch [] u = tt
without-Unique ch (c ∷ cs) u = elim (Bool-cases (c == ch)) [
  | inl e ↦ rw e u.1
  | inr e ↦ rw e (λ m. u.0 (Mem-without c ch cs u.1 m).0, without-Unique ch cs u.1)
]

pub some_of-Mem : (ch : ℕ) (cs : List ℕ) → some_of (λ c. c == ch) cs ≡ true → Memᴰ ch cs
some_of-Mem ch [] h = cc
some_of-Mem ch (c ∷ cs) h = ground (arith, some_of-Mem ch cs, Mem-cons ch c cs)

module _ {D : Type 0} where
  -- The channels of the subscribers were made, are open, and stand once, under one entity.
  pub record IsValid (s : EventStream D) : Type 0 where
    pub made : (k : String) (ch : ℕ) → Memᴰ ch (channels_of s k) → ch < s.next
    pub opened : (k : String) (ch : ℕ) → Memᴰ ch (channels_of s k) → (s.channels ch).closed ≡ false
    pub unique : (k : String) → Unique (channels_of s k)
    pub apart :
        (j k : String) (ch : ℕ) → Memᴰ ch (channels_of s j) → Memᴰ ch (channels_of s k) → j ≡ k
    pub calm : s.panicked ≡ false

  -- What a step that does not touch the subscriptions keeps.
  pub record SameSubscribers (s s' : EventStream D) : Type 0 where
    pub subscribers : s'.subscribers ≡ s.subscribers
    pub next : s'.next ≡ s.next
    pub closed : (ch : ℕ) → (s'.channels ch).closed ≡ (s.channels ch).closed
    pub panicked : s'.panicked ≡ s.panicked

  pub SameSubscribers-IsValid :
      (s s' : EventStream D) → SameSubscribers s s' → IsValid s → IsValid s'
  SameSubscribers-IsValid s s' k v = record {
    made = λ j ch m. ground (arith, k.next, v.made j ch (back j ch m));
    opened = λ j ch m. k.closed ch ∙ v.opened j ch (back j ch m);
    unique = λ j. subst Unique (same j) (v.unique j);
    apart = λ i j ch a b. v.apart i j ch (back i ch a) (back j ch b);
    calm = k.panicked ∙ v.calm;
  }
    where
      same : (j : String) → channels_of s j ≡ channels_of s' j
      same j = ground (arith, k.subscribers)

      back : (j : String) (ch : ℕ) → Memᴰ ch (channels_of s' j) → Memᴰ ch (channels_of s j)
      back j ch m = subst (λ x. Memᴰ ch x) (sym (same j)) m

  send-SameSubscribers :
      (e : Event D) (ch : ℕ) (s : EventStream D)
      → (s.channels ch).closed ≡ false
      → SameSubscribers s (send e ch s)
  unfolding send
  send-SameSubscribers e ch s o = record {
    subscribers = ground arith;
    next = ground arith;
    closed = λ n. ground arith;
    panicked = ground arith;
  }

  send_all-IsValid :
      (e : Event D) (k : String) (chs : List ℕ) (s : EventStream D)
      → ((ch : ℕ) → Memᴰ ch chs → Memᴰ ch (channels_of s k))
      → IsValid s
      → IsValid (send_all e chs s)
        × ((j : String) → channels_of (send_all e chs s) j ≡ channels_of s j)
  unfolding send_all
  send_all-IsValid e k [] s sub v = (v, λ j. refl)
  send_all-IsValid e k (ch ∷ chs) s sub v =
      let kept = send-SameSubscribers e ch s (v.opened k ch (sub ch (Memᴰ.head refl))) in
      let lists : (j : String) → channels_of (send e ch s) j ≡ channels_of s j =
        λ j. ground (arith, kept.subscribers) in
      let (v', same) =
        send_all-IsValid e k chs (send e ch s)
          (λ c m. subst (λ x. Memᴰ c x) (sym (lists k)) (sub c (Memᴰ.tail m)))
          (SameSubscribers-IsValid s (send e ch s) kept v) in
      (v', λ j. same j ∙ lists j)

  pub notify_subscribers-IsValid :
      (s : EventStream D) (e : Event D) → IsValid s → IsValid (notify_subscribers s e)
  unfolding notify_subscribers
  notify_subscribers-IsValid s e v =
      let (v', same) = send_all-IsValid e e.entity_id (channels_of s e.entity_id) s (λ c m. m) v in
      (send_all-IsValid e "*" (channels_of s "*") (send_all e (channels_of s e.entity_id) s)
        (λ c m. subst (λ x. Memᴰ c x) (sym (same "*")) m) v').0
