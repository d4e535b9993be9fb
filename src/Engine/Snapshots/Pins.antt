-- ===== src/Engine/Snapshots/Pins.antt =====
-- The pins count the guards that are alive.
use hat_p.Prelude.Ascending.{lookup_before, Ascending, insert-Ascending, remove-Ascending}
use hat_p.Prelude.{
  lt_or_le, ℕ, ◌+◌, ◌-◌, ◌≤◌, ◌<◌, ◌≡◌, sym, subst, ◌≢◌, inl, inr, none, some, List, [], ◌∷◌, arith,
  ◌==◌, if◌then◌else◌, Bool-cases, Option-cases, nat_ord,
}
use hat_p.Prelude.Map.{Map, lookup, insert, remove, lookup-insert, lookup-remove}
use hat_p.Engine.Memtable.{usize_max}
use hat_p.Engine.Snapshots.{add_pin, drop_pin, min_pinned}

-- How many guards hold `ts`.
abbrev pub count : ℕ → List ℕ → ℕ
count ts [] = 0
count ts (g ∷ guards) = (if ts == g then 1 else 0) + count ts guards

-- One guard of `ts` is dropped.
unfoldable pub drop_one : ℕ → List ℕ → List ℕ
drop_one ts [] = []
drop_one ts (g ∷ guards) = let rest = drop_one ts guards in if ts == g then guards else g ∷ rest

pub count-drop_one :
    (ts j : ℕ) (guards : List ℕ)
    → count j (drop_one ts guards) ≡ count j guards - (if j == ts then 1 else 0)
unfolding drop_one
count-drop_one ts j [] = ground arith
count-drop_one ts j (g ∷ guards) = ground (arith, count-drop_one ts j guards)

-- The number that the pins hold for `ts`.
abbrev pub pins_of : ℕ → Map ℕ ℕ → ℕ
pins_of ts pins = elim (lookup ts pins) [ none ↦ 0 | some n ↦ n ]

-- Each guard is counted, and an entry counts at least one.
pub record IsCounted (pins : Map ℕ ℕ) (guards : List ℕ) : Type 0 where
  pub ascend : Ascending pins
  pub exact : (ts : ℕ) → pins_of ts pins ≡ count ts guards
  pub positive : (ts : ℕ) → lookup ts pins ≢ some 0

lookup_pin :
    (k j v : ℕ) (pins : Map ℕ ℕ)
    → lookup j (insert k v pins) ≡ (if j == k then some v else lookup j pins)
lookup_pin k j v pins = ground (arith, lookup-insert {0, 0} k j v pins)

lookup_unpinned :
    (k j : ℕ) (pins : Map ℕ ℕ) → lookup j (remove k pins) ≡ (if j == k then none else lookup j pins)
lookup_unpinned k j pins = ground (arith, lookup-remove {0, 0} k j pins)

add_pin-insert : (ts : ℕ) (pins : Map ℕ ℕ) → add_pin ts pins ≡ insert ts (pins_of ts pins + 1) pins
unfolding add_pin
add_pin-insert ts pins = elim (Option-cases (lookup ts pins)) [
  | inl e ↦ ground arith
  | inr (n, e) ↦ ground arith
]

pub add_pin-IsCounted :
    (ts : ℕ) (pins : Map ℕ ℕ) (guards : List ℕ)
    → IsCounted pins guards
    → IsCounted (add_pin ts pins) (ts ∷ guards)
add_pin-IsCounted ts pins guards h =
    subst (λ p. IsCounted p (ts ∷ guards)) (sym (add_pin-insert ts pins))
      (record {
        ascend = insert-Ascending ts (pins_of ts pins + 1) pins h.ascend;
        exact =
            λ j. ground (arith, lookup_pin ts j (pins_of ts pins + 1) pins, h.exact j, h.exact ts);
        positive = λ j e. ground (arith, lookup_pin ts j (pins_of ts pins + 1) pins, h.positive j);
      })

-- A guard that is alive has an entry.
drop_pin-cases :
    (ts n : ℕ) (pins : Map ℕ ℕ)
    → lookup ts pins ≡ some n
    → drop_pin ts pins ≡ (if n - 1 == 0 then remove ts pins else insert ts (n - 1) pins)
unfolding drop_pin
drop_pin-cases ts n pins e = ground arith

pub drop_pin-IsCounted :
    (ts : ℕ) (pins : Map ℕ ℕ) (guards : List ℕ)
    → IsCounted pins guards
    → 0 < count ts guards
    → IsCounted (drop_pin ts pins) (drop_one ts guards)
drop_pin-IsCounted ts pins guards h live = elim (Option-cases (lookup ts pins)) [
  | inl e ↦ absurd (ground (arith, h.exact ts))
  | inr (n, e) ↦
      subst (λ p. IsCounted p (drop_one ts guards)) (sym (drop_pin-cases ts n pins e))
        (elim (Bool-cases (n - 1 == 0)) [
          | inl last ↦
              subst
                (λ b.
                  IsCounted (if b then remove ts pins else insert ts (n - 1) pins)
                    (drop_one ts guards))
                (sym last)
                (record {
                  ascend = remove-Ascending ts pins h.ascend;
                  exact = λ j. ground (
                    arith,
                    lookup_unpinned ts j pins,
                    count-drop_one ts j guards,
                    h.exact j,
                    h.exact ts,
                    e,
                    last,
                  );
                  positive = λ j d. ground (arith, lookup_unpinned ts j pins, h.positive j);
                })
          | inr more ↦
              subst
                (λ b.
                  IsCounted (if b then remove ts pins else insert ts (n - 1) pins)
                    (drop_one ts guards))
                (sym more)
                (record {
                  ascend = insert-Ascending ts (n - 1) pins h.ascend;
                  exact = λ j. ground (
                    arith,
                    lookup_pin ts j (n - 1) pins,
                    count-drop_one ts j guards,
                    h.exact j,
                    h.exact ts,
                    e,
                    more,
                  );
                  positive = λ j d. ground (arith, lookup_pin ts j (n - 1) pins, h.positive j);
                })
        ])
]

min_pinned-le :
    (ts n : ℕ) (pins : Map ℕ ℕ) → Ascending pins → lookup ts pins ≡ some n → min_pinned pins ≤ ts
unfolding min_pinned lookup
min_pinned-le ts n [] a e = absurd (cc)
min_pinned-le ts n ((k, v) ∷ pins) (above, a) e = elim (lt_or_le ts k) [
  | inl before ↦ absurd (ground (arith, lookup_before ts k v pins above))
  | inr after ↦ after
]

pub min_pinned-ge :
    (low : ℕ) (pins : Map ℕ ℕ) (guards : List ℕ)
    → IsCounted pins guards
    → low ≤ usize_max
    → ((ts : ℕ) → 0 < count ts guards → low ≤ ts)
    → low ≤ min_pinned pins
unfolding min_pinned lookup
min_pinned-ge low [] guards h top all = top
min_pinned-ge low ((k, v) ∷ pins) guards h top all = all k (ground (arith, h.exact k, h.positive k))

-- The smallest pin is at or below each guard.
pub min_pinned-guards :
    (ts : ℕ) (pins : Map ℕ ℕ) (guards : List ℕ)
    → IsCounted pins guards
    → 0 < count ts guards
    → min_pinned pins ≤ ts
min_pinned-guards ts pins guards h live = elim (Option-cases (lookup ts pins)) [
  | inl e ↦ absurd (ground (arith, h.exact ts))
  | inr (n, e) ↦ min_pinned-le ts n pins h.ascend e
]
