-- ===== src/Layer6/Proposals/Phases.antt =====
-- What each status of a proposal (layer6/manager.go) says of its goroutines, and how often an id
-- stands among them.
use aizo.Prelude.{
  ℕ, ◌+◌, ◌-◌, ◌≤◌, ◌≡◌, refl, String, Bool, true, false, List, [], ◌∷◌, if◌then◌else◌, ◌==◌,
  string_eq, remove_first, arith,
}
use aizo.Layer6.Rule.{ProposalStatus, pending, approved, rejected, executing, completed, failed}
use aizo.Layer6.Proposals.{among, is_pending}

unfoldable pub count : String → List String → ℕ
count id [] = 0
count id (x ∷ xs) = if x == id then count id xs + 1 else count id xs

pub count-remove_first :
    (id j : String) (xs : List String)
    → count id (remove_first (λ x. x) j xs) ≡ (if j == id then count id xs - 1 else count id xs)
unfolding count remove_first
count-remove_first id j [] = ground arith
count-remove_first id j (x ∷ xs) = ground (arith, count-remove_first id j xs)

pub count-among : (id : String) (xs : List String) → among id xs ≡ true → 1 ≤ count id xs
unfolding count
count-among id [] h = ground arith
count-among id (x ∷ xs) h = ground (arith, count-among id xs)

-- How many goroutines of a proposal wait and run, and how often it was executed, by its status.
abbrev pub Phase : ProposalStatus → ℕ → ℕ → ℕ → Type 0
Phase pending w r c = (w ≡ 0) × (r ≡ 0) × (c ≡ 0)
Phase approved w r c = (w ≤ 1) × (r ≡ 0) × (c ≡ 0)
Phase rejected w r c = (w ≡ 0) × (r ≡ 0) × (c ≡ 0)
Phase executing w r c = (w ≡ 0) × (r ≡ 1) × (c ≡ 1)
Phase completed w r c = (w ≡ 0) × (r ≡ 0) × (c ≡ 1)
Phase failed w r c = (w ≡ 0) × (r ≡ 0) × (c ≡ 1)

pub Phase-pending :
    (s : ProposalStatus) (w r c : ℕ)
    → is_pending s ≡ true
    → Phase s w r c
    → (w ≡ 0) × (r ≡ 0) × (c ≡ 0)
Phase-pending pending w r c e h = h
Phase-pending approved w r c e h = absurd (ground arith)
Phase-pending rejected w r c e h = absurd (ground arith)
Phase-pending executing w r c e h = absurd (ground arith)
Phase-pending completed w r c e h = absurd (ground arith)
Phase-pending failed w r c e h = absurd (ground arith)

-- Only an approved proposal has a goroutine that waits.
pub Phase-waiting :
    (s : ProposalStatus) (w r c : ℕ)
    → Phase s w r c
    → 1 ≤ w
    → (s ≡ approved) × (w ≡ 1) × (r ≡ 0) × (c ≡ 0)
Phase-waiting pending w r c h l = absurd (omega (arith, h))
Phase-waiting approved w r c h l = (refl, omega (arith, h), h.1, h.2)
Phase-waiting rejected w r c h l = absurd (omega (arith, h))
Phase-waiting executing w r c h l = absurd (omega (arith, h))
Phase-waiting completed w r c h l = absurd (omega (arith, h))
Phase-waiting failed w r c h l = absurd (omega (arith, h))

pub Phase-running :
    (s : ProposalStatus) (w r c : ℕ) → Phase s w r c → 1 ≤ r → (w ≡ 0) × (r ≡ 1) × (c ≡ 1)
Phase-running pending w r c h l = absurd (omega (arith, h))
Phase-running approved w r c h l = absurd (omega (arith, h))
Phase-running rejected w r c h l = absurd (omega (arith, h))
Phase-running executing w r c h l = h
Phase-running completed w r c h l = absurd (omega (arith, h))
Phase-running failed w r c h l = absurd (omega (arith, h))

pub Phase-ended :
    (ok : Bool) (w r c : ℕ) → w ≡ 0 → r ≡ 0 → c ≡ 1 → Phase (if ok then completed else failed) w r c
Phase-ended true w r c a b d = (a, b, d)
Phase-ended false w r c a b d = (a, b, d)
