-- ===== src/Layer4/StateHistory/Travel.antt =====
-- Which snapshot `GetStateAtTime` (layer4/state_history.go) answers with.
use mathlib.Core.List.{Memᴰ}
use aizo.Prelude.{
  ℕ, ◌-◌, ◌≤◌, ◌<◌, ◌≡◌, ◌⊎◌, inl, inr, refl, ◌∙◌, none, some, List, [], ◌∷◌, values, leb, ltb, All,
  arith, Bool-cases, string_eq,
}
use aizo.Layer4.StateStore.{Database}
use aizo.Layer4.StateHistory.{
  Snapshot, StateHistory, ok, err, no_snapshot_before, closest, get_state_at_time,
}

module _ (J : Type 0) (database : Database J) where
  -- The snapshot is one of those up to the time, and none of those up to the time is later.
  pub record Latest (t : ℕ) (ss : List (Snapshot J database)) (s : Snapshot J database)
      : Type 0 where
    pub member : Memᴰ s ss
    pub in_time : s.timestamp ≤ t
    pub latest : All (λ r. (t < r.timestamp) ⊎ (r.timestamp ≤ s.timestamp)) ss

  -- What the loop ends with, from the best snapshot `b` on: that one, or a later one.
  abbrev Improves : ℕ → Snapshot J database → List (Snapshot J database) → Type 0
  Improves t b ss =
      ((closest J database t (some (b, t - b.timestamp)) ss ≡ some (b, t - b.timestamp))
        × All (λ r. (t < r.timestamp) ⊎ (r.timestamp ≤ b.timestamp)) ss)
      ⊎ ((s : Snapshot J database) × Latest t ss s
          × (b.timestamp < s.timestamp)
          × (closest J database t (some (b, t - b.timestamp)) ss ≡ some (s, t - s.timestamp)))

  -- A snapshot that the loop passes over is after the time, or no later than the best one.
  Improves-skip :
      (t : ℕ) (b r : Snapshot J database) (rs : List (Snapshot J database))
      → closest J database t (some (b, t - b.timestamp)) (r ∷ rs)
        ≡ closest J database t (some (b, t - b.timestamp)) rs
      → (t < r.timestamp) ⊎ (r.timestamp ≤ b.timestamp)
      → Improves t b rs
      → Improves t b (r ∷ rs)
  Improves-skip t b r rs e old c = elim c [
    | inl (f, all) ↦ inl (e ∙ f, (old, all))
    | inr (s, l, lt, f) ↦ inr (
      s,
      record {
        member = Memᴰ.tail l.member;
        in_time = l.in_time;
        latest = (ground arith, l.latest);
      },
      lt,
      e ∙ f,
    )
  ]

  closest-Improves :
      (t : ℕ) (b : Snapshot J database) (ss : List (Snapshot J database))
      → b.timestamp ≤ t
      → Improves t b ss
  unfolding closest
  closest-Improves t b [] h = inl (refl, tt)
  closest-Improves t b (r ∷ rs) h = elim (Bool-cases (leb r.timestamp t)) [
    | inl in_time ↦ elim (Bool-cases (ltb (t - r.timestamp) (t - b.timestamp))) [
      | inl near ↦ elim (closest-Improves t r rs (ground arith)) [
        | inl (e, all) ↦ inr (
          r,
          record { member = Memᴰ.head refl; in_time = ground arith; latest = (ground arith, all) },
          ground arith,
          ground arith,
        )
        | inr (s, l, lt, e) ↦ inr (
          s,
          record {
            member = Memᴰ.tail l.member;
            in_time = l.in_time;
            latest = (ground arith, l.latest);
          },
          ground arith,
          ground arith,
        )
      ]
      | inr far ↦ Improves-skip t b r rs (ground arith) (ground arith) (closest-Improves t b rs h)
    ]
    | inr late ↦ Improves-skip t b r rs (ground arith) (ground arith) (closest-Improves t b rs h)
  ]

  closest-none :
      (t : ℕ) (ss : List (Snapshot J database))
      → ((closest J database t none ss ≡ none) × All (λ r. t < r.timestamp) ss)
        ⊎ ((s : Snapshot J database) × Latest t ss s
            × (closest J database t none ss ≡ some (s, t - s.timestamp)))
  unfolding closest
  closest-none t [] = inl (refl, tt)
  closest-none t (r ∷ rs) = elim (Bool-cases (leb r.timestamp t)) [
    | inl in_time ↦ elim (closest-Improves t r rs (ground arith)) [
      | inl (e, all) ↦ inr (
        r,
        record { member = Memᴰ.head refl; in_time = ground arith; latest = (ground arith, all) },
        ground arith,
      )
      | inr (s, l, lt, e) ↦ inr (
        s,
        record {
          member = Memᴰ.tail l.member;
          in_time = l.in_time;
          latest = (ground arith, l.latest);
        },
        ground arith,
      )
    ]
    | inr late ↦ elim (closest-none t rs) [
      | inl (e, all) ↦ inl (ground arith, (ground arith, all))
      | inr (s, l, e) ↦ inr (
        s,
        record {
          member = Memᴰ.tail l.member;
          in_time = l.in_time;
          latest = (ground arith, l.latest);
        },
        ground arith,
      )
    ]
  ]

  -- `GetStateAtTime` answers the state of a snapshot that is not after the time and than which no
  -- other such snapshot is later; it is an error exactly when all snapshots are after the time.
  pub get_state_at_time-Latest :
      (h : StateHistory J database) (t : ℕ)
      → ((get_state_at_time J database h t ≡ err (no_snapshot_before t))
          × All (λ r. t < r.timestamp) (values h.snapshots))
        ⊎ ((s : Snapshot J database) × Latest t (values h.snapshots) s
            × (get_state_at_time J database h t ≡ ok s.state))
  unfolding get_state_at_time
  get_state_at_time-Latest h t = elim (closest-none t (values h.snapshots)) [
    | inl (e, all) ↦ inl (ground arith, all)
    | inr (s, l, e) ↦ inr (s, l, ground arith)
  ]
