-- ===== src/Chord/Tests.antt =====
-- The ring of the README: the peers 0, 1, 3 and 6, seen from node 6.
use corestack_peky.Common.{ℕ, zero, suc, ◌+◌, ◌<◌, ◌≤◌, ◌≡◌, refl, arith}
use corestack_peky.Chord.Ring.{
  ChordPeer, ChordNode, m_bits, keyspace, finger_start, finger_interval_end, find_successor_linear,
  calculate_fingertable_known_nodes, scan_peers,
}
use corestack_peky.Chord.Fingers.{InFinger, fingers_cover}
use corestack_peky.Chord.Successor.{
  Ascending, IsSuccessor, calculate_fingertable_known_nodes-IsSuccessor,
}

abbrev ring : ℕ → ChordPeer
ring zero = record { id = 0 }
ring (suc zero) = record { id = 1 }
ring (suc (suc zero)) = record { id = 3 }
ring (suc (suc (suc i))) = record { id = 6 }

abbrev ring_id : ℕ → ℕ
ring_id i = (ring i).id

ring-keys : (i : ℕ) → (ring i).id < keyspace
ring-keys zero = omega arith
ring-keys (suc zero) = omega arith
ring-keys (suc (suc zero)) = omega arith
ring-keys (suc (suc (suc i))) = omega arith

ring-order : (i j : ℕ) → i ≤ j → (ring i).id ≤ (ring j).id
ring-order zero j h = omega arith
ring-order (suc zero) zero h = absurd (omega arith)
ring-order (suc zero) (suc zero) h = omega arith
ring-order (suc zero) (suc (suc zero)) h = omega arith
ring-order (suc zero) (suc (suc (suc j))) h = omega arith
ring-order (suc (suc zero)) zero h = absurd (omega arith)
ring-order (suc (suc zero)) (suc zero) h = absurd (omega arith)
ring-order (suc (suc zero)) (suc (suc zero)) h = omega arith
ring-order (suc (suc zero)) (suc (suc (suc j))) h = omega arith
ring-order (suc (suc (suc i))) zero h = absurd (omega arith)
ring-order (suc (suc (suc i))) (suc zero) h = absurd (omega arith)
ring-order (suc (suc (suc i))) (suc (suc zero)) h = absurd (omega arith)
ring-order (suc (suc (suc i))) (suc (suc (suc j))) h = omega arith

ring-Ascending : Ascending ring 4
ring-Ascending = record { keys = λ i lt. ring-keys i; order = λ i j le lt. ring-order i j le }

abbrev node : ChordNode
node = record {
  id = 6;
  predecessor = record { id = 3 };
  successor = record { id = 0 };
  fingers = λ i. record { start = 0; end = 0; successor = record { id = 0 } };
}

-- The table of the README: fingers at 7, 0 and 2, with the successors 0, 0 and 3.
readme_table :
    let t = (calculate_fingertable_known_nodes node ring 4).fingers in
    ((t 0).start ≡ 7)
    × ((t 0).successor.id ≡ 0)
    × ((t 1).start ≡ 0)
    × ((t 1).successor.id ≡ 0)
    × ((t 2).start ≡ 2)
    × ((t 2).end ≡ 6)
    × ((t 2).successor.id ≡ 3)
unfolding calculate_fingertable_known_nodes find_successor_linear scan_peers finger_start
    finger_interval_end
readme_table = (refl, refl, refl, refl, refl, refl, refl)

fingers_cover_example :
    (finger : ℕ) × (1 ≤ finger)
    × (finger ≤ m_bits)
    × InFinger 6 finger 5
    × ((other : ℕ) → 1 ≤ other → other ≤ m_bits → InFinger 6 other 5 → other ≡ finger)
fingers_cover_example = fingers_cover 6 5 (omega arith) (omega arith)

calculate_fingertable_known_nodes-IsSuccessor_example :
    let f = (calculate_fingertable_known_nodes node ring 4).fingers 2 in
    (f.start ≡ finger_start 6 (2 + 1))
    × (f.end ≡ finger_interval_end 6 (2 + 1))
    × IsSuccessor f.start ring 4 f.successor
calculate_fingertable_known_nodes-IsSuccessor_example =
    calculate_fingertable_known_nodes-IsSuccessor node ring 4 2 ring-Ascending (omega arith)
      (omega arith)
