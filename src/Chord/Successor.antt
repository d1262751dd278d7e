-- ===== src/Chord/Successor.antt =====
-- `find_successor_linear` of chord.c against the ring: the closest live peer, going clockwise.
use corestack_peky.Common.{
  ℕ, zero, suc, ◌+◌, ◌<◌, ◌≤◌, ◌≡◌, inl, inr, refl, true, false, arith, ◌==◌, ltb, leb, leb→le,
  Bool-cases, ℕ_discrete, dec_lt,
}
use corestack_peky.Chord.Ring.{
  keyspace, m_bits, ChordPeer, ChordNode, finger_start, finger_interval_end, scan_peers,
  find_successor_linear, calculate_fingertable_known_nodes,
}
use corestack_peky.Chord.Fingers.{clockwise, fingers_chain}

-- Peers by ascending identifier, all of them keys.
pub record Ascending (peers : ℕ → ChordPeer) (n : ℕ) : Type 0 where
  pub keys : (i : ℕ) → i < n → (peers i).id < keyspace
  pub order : (i j : ℕ) → i ≤ j → j < n → (peers i).id ≤ (peers j).id

-- `p` is one of the peers, and none is closer behind `key`.
pub record IsSuccessor (key : ℕ) (peers : ℕ → ChordPeer) (n : ℕ) (p : ChordPeer) : Type 0 where
  pub index : ℕ
  pub live : index < n
  pub is_peer : p ≡ peers index
  pub closest : (j : ℕ) → j < n → clockwise key p.id ≤ clockwise key (peers j).id

scan_peers-IsSuccessor :
    (key : ℕ) (peers : ℕ → ChordPeer) (n count i : ℕ)
    → Ascending peers count
    → key < keyspace
    → 0 < count
    → i + n ≡ count
    → ((j : ℕ) → j < i → (peers j).id < key)
    → IsSuccessor key peers count (scan_peers key peers n i)
unfolding scan_peers
scan_peers-IsSuccessor key peers zero count i asc kk some' e below = record {
  index = 0;
  live = some';
  is_peer = refl;
  closest = λ j lt. omega (
    arith,
    asc.order 0 j (omega arith) lt,
    asc.keys j lt,
    asc.keys 0 some',
    below j (omega arith),
    below 0 (omega arith),
  );
}
scan_peers-IsSuccessor key peers (suc n) count i asc kk some' e below =
    elim (Bool-cases (leb key (peers i).id)) [
      | inl hit ↦ rw hit (record {
        index = i;
        live = omega arith;
        is_peer = refl;
        closest = λ j lt. elim (dec_lt j i) [
          | yes before ↦
              omega (arith, leb→le _ _ hit, asc.keys i (omega arith), asc.keys j lt, below j before)
          | no after ↦ omega (
            arith,
            leb→le _ _ hit,
            asc.keys i (omega arith),
            asc.keys j lt,
            asc.order i j (omega arith) lt,
          )
        ];
      })
      | inr miss ↦ rw miss (
          scan_peers-IsSuccessor key peers n count (i + 1) asc kk some' (omega arith) (λ j lt.
            elim (ℕ_discrete j i) [
              | yes at ↦ rw at (ground arith)
              | no ne ↦ below j (omega arith)
            ]))
    ]

-- With the peers sorted by identifier, `find_successor_linear` returns the live peer that is closest
-- behind the key, going clockwise round the ring.
pub find_successor_linear-IsSuccessor :
    (key : ℕ) (peers : ℕ → ChordPeer) (count : ℕ)
    → Ascending peers count
    → key < keyspace
    → 0 < count
    → IsSuccessor key peers count (find_successor_linear key peers count)
unfolding find_successor_linear
find_successor_linear-IsSuccessor key peers count asc kk live =
    scan_peers-IsSuccessor key peers count count 0 asc kk live (omega arith)
      (λ j lt. absurd (omega arith))

-- Every finger of a table that is filled from sorted live peers points to the closest of them behind
-- the finger's start.
pub calculate_fingertable_known_nodes-IsSuccessor :
    (node : ChordNode) (peers : ℕ → ChordPeer) (count i : ℕ)
    → Ascending peers count
    → 0 < count
    → i < m_bits
    → let f = (calculate_fingertable_known_nodes node peers count).fingers i in
      (f.start ≡ finger_start node.id (i + 1))
      × (f.end ≡ finger_interval_end node.id (i + 1))
      × IsSuccessor f.start peers count f.successor
unfolding calculate_fingertable_known_nodes
calculate_fingertable_known_nodes-IsSuccessor node peers count i asc live lt =
    let set : (count == 0) ≡ false = ground arith in
    let inside : ltb i m_bits ≡ true = ground arith in
    let (_, _, _, key, _) = fingers_chain node.id (i + 1) (omega arith) (omega arith) in
    rw (set, inside) (refl, refl, find_successor_linear-IsSuccessor _ peers count asc key live)
