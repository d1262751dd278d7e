-- ===== src/Chord/Fingers.antt =====
-- The intervals of the finger table of chord.c: they go once round the ring.
use corestack_peky.Common.{
  ℕ, zero, suc, ◌+◌, ◌-◌, ◌%◌, ◌^◌, ◌<◌, ◌≤◌, ◌≡◌, ◌≢◌, ◌↔◌, ◌∙◌, sym, arith, dec_lt,
}
use corestack_peky.Chord.Ring.{m_bits, keyspace, finger_start, finger_interval_end}

-- How far `b` lies behind `a`, going clockwise.
abbrev pub clockwise : ℕ → ℕ → ℕ
clockwise a b = (b + keyspace - a) % keyspace

-- `key` lies in the interval [start, end) of the finger.
abbrev pub InFinger : ℕ → ℕ → ℕ → Type 0
InFinger node_id finger key =
    clockwise (finger_start node_id finger) key
    < clockwise (finger_start node_id finger) (finger_interval_end node_id finger)

-- The starts and ends of the three fingers, in keys.
fingers_lem :
    (n : ℕ)
    → (finger_start n 1 ≡ (n + 1) % 8)
      × (finger_interval_end n 1 ≡ (n + 2) % 8)
      × (finger_start n 2 ≡ (n + 2) % 8)
      × (finger_interval_end n 2 ≡ (n + 4) % 8)
      × (finger_start n 3 ≡ (n + 4) % 8)
      × (finger_interval_end n 3 ≡ n % 8)
unfolding finger_start finger_interval_end
fingers_lem n = (omega arith, omega arith, omega arith, omega arith, omega arith, omega arith)

-- The first finger starts one behind the node, each finger starts where the one before it ends, and
-- the last ends at the node: the intervals go once round the ring. All bounds are keys.
pub fingers_chain :
    (n finger : ℕ)
    → 1 ≤ finger
    → finger ≤ m_bits
    → (finger_start n 1 ≡ (n + 1) % keyspace)
      × (finger < m_bits → finger_interval_end n finger ≡ finger_start n (finger + 1))
      × (finger_interval_end n m_bits ≡ n % keyspace)
      × (finger_start n finger < keyspace)
      × (finger_interval_end n finger < keyspace)
fingers_chain n zero lo hi = absurd (omega arith)
fingers_chain n (suc zero) lo hi = let f = fingers_lem n in omega arith
fingers_chain n (suc (suc zero)) lo hi = let f = fingers_lem n in omega arith
fingers_chain n (suc (suc (suc zero))) lo hi = let f = fingers_lem n in omega arith
fingers_chain n (suc (suc (suc (suc k)))) lo hi = absurd (omega arith)

-- How far behind the node the keys of each finger lie.
reach-InFinger :
    (n key finger : ℕ)
    → key < keyspace
    → 1 ≤ finger
    → finger ≤ m_bits
    → let d = clockwise (n % keyspace) key in
      InFinger n finger key ↔ ((2 ^ (finger - 1) ≤ d) × (d < 2 ^ finger))
reach-InFinger n key zero lt lo hi = absurd (omega arith)
reach-InFinger n key (suc zero) lt lo hi =
    let f = fingers_lem n in (λ h. omega arith, λ h. omega arith)
reach-InFinger n key (suc (suc zero)) lt lo hi =
    let f = fingers_lem n in (λ h. omega arith, λ h. omega arith)
reach-InFinger n key (suc (suc (suc zero))) lt lo hi =
    let f = fingers_lem n in (λ h. omega arith, λ h. omega arith)
reach-InFinger n key (suc (suc (suc (suc k)))) lt lo hi = absurd (omega arith)

octave :
    (d f : ℕ)
    → 1 ≤ f
    → f ≤ m_bits
    → (2 ^ (f - 1) ≤ d) × (d < 2 ^ f)
    → (d < 2 → f ≡ 1) × (2 ≤ d → d < 4 → f ≡ 2) × (4 ≤ d → f ≡ 3)
octave d zero lo hi h = absurd (omega arith)
octave d (suc zero) lo hi h = omega arith
octave d (suc (suc zero)) lo hi h = omega arith
octave d (suc (suc (suc zero))) lo hi h = omega arith
octave d (suc (suc (suc (suc k)))) lo hi h = absurd (omega arith)

-- The intervals from 2^(f-1) up to 2^f do not overlap.
one_octave :
    (d f g : ℕ)
    → 1 ≤ f
    → f ≤ m_bits
    → 1 ≤ g
    → g ≤ m_bits
    → (2 ^ (f - 1) ≤ d) × (d < 2 ^ f)
    → (2 ^ (g - 1) ≤ d) × (d < 2 ^ g)
    → g ≡ f
one_octave d f g f1 f3 g1 g3 hf hg =
    let (one, two, three) = octave d f f1 f3 hf in
    let (one', two', three') = octave d g g1 g3 hg in
    elim (dec_lt d 2) [
      | yes a ↦ one' a ∙ sym (one a)
      | no b ↦ elim (dec_lt d 4) [
        | yes a ↦ two' (omega arith) a ∙ sym (two (omega arith) a)
        | no c ↦ three' (omega arith) ∙ sym (three (omega arith))
      ]
    ]

-- Every key but the node's own lies in the interval of exactly one finger.
pub fingers_cover :
    (n key : ℕ)
    → key < keyspace
    → key ≢ n % keyspace
    → (finger : ℕ) × (1 ≤ finger)
      × (finger ≤ m_bits)
      × InFinger n finger key
      × ((other : ℕ) → 1 ≤ other → other ≤ m_bits → InFinger n other key → other ≡ finger)
fingers_cover n key lt ne =
    let d = clockwise (n % keyspace) key in
    let away : 1 ≤ d = omega arith in
    let one = λ (f : ℕ) (lo : 1 ≤ f) (hi : f ≤ m_bits) (h : (2 ^ (f - 1) ≤ d) × (d < 2 ^ f)).
      λ (g : ℕ) (glo : 1 ≤ g) (ghi : g ≤ m_bits) (gh : InFinger n g key).
        one_octave d f g lo hi glo ghi h ((reach-InFinger n key g lt glo ghi).0 gh) in
    elim (dec_lt d 2) [
      | yes a ↦ (
        1,
        omega arith,
        omega arith,
        (reach-InFinger n key 1 lt (omega arith) (omega arith)).1 (omega arith),
        one 1 (omega arith) (omega arith) (omega arith),
      )
      | no b ↦ elim (dec_lt d 4) [
        | yes a ↦ (
          2,
          omega arith,
          omega arith,
          (reach-InFinger n key 2 lt (omega arith) (omega arith)).1 (omega arith),
          one 2 (omega arith) (omega arith) (omega arith),
        )
        | no c ↦ (
          3,
          omega arith,
          omega arith,
          (reach-InFinger n key 3 lt (omega arith) (omega arith)).1 (omega arith),
          one 3 (omega arith) (omega arith) (omega arith),
        )
      ]
    ]
