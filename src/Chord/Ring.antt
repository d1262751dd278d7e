-- ===== src/Chord/Ring.antt =====
-- Chord identifiers, peers and finger tables, and the functions of chord.c that fill a table.
use corestack_peky.Common.{ℕ, zero, suc, ◌+◌, ◌-◌, ◌%◌, ◌^◌, ◌||◌, ltb, leb, ◌==◌, if◌then◌else◌}

abbrev pub m_bits : ℕ
m_bits = 3

-- 1u << M_BITS
abbrev pub keyspace : ℕ
keyspace = 8

pub record ChordPeer : Type 0 where
  pub id : ℕ

pub record FingerEntry : Type 0 where
  pub start : ℕ
  pub end : ℕ
  pub successor : ChordPeer

pub record ChordNode : Type 0 where
  pub id : ℕ
  pub predecessor : ChordPeer
  pub successor : ChordPeer
  pub fingers : ℕ → FingerEntry

-- UINT8_MAX for an entry out of range
unfoldable pub finger_start : ℕ → ℕ → ℕ
finger_start node_id finger =
    if ltb finger 1 || ltb m_bits finger
    then 255
    else (node_id + 2 ^ (finger - 1)) % keyspace % 2 ^ 8

unfoldable pub finger_interval_end : ℕ → ℕ → ℕ
finger_interval_end node_id finger =
    if ltb finger 1 || ltb m_bits finger then 255 else (node_id + 2 ^ finger) % keyspace % 2 ^ 8

-- The rounds left of the scan, from index `i`.
unfoldable pub scan_peers : ℕ → (ℕ → ChordPeer) → ℕ → ℕ → ChordPeer
scan_peers key peers zero i = peers 0
scan_peers key peers (suc n) i =
    let rest = scan_peers key peers n (i + 1) in if leb key (peers i).id then peers i else rest

unfoldable pub find_successor_linear : ℕ → (ℕ → ChordPeer) → ℕ → ChordPeer
find_successor_linear key peers peer_count = scan_peers key peers peer_count 0

-- The entries of the array below M_BITS; those behind it do not exist.
abbrev pub fill : (ℕ → FingerEntry) → (ℕ → FingerEntry) → ℕ → FingerEntry
fill entry old i = if ltb i m_bits then entry i else old i

unfoldable pub calculate_fingertable : ChordNode → ChordNode
calculate_fingertable node = record node {
  fingers =
      fill
        (λ i. record {
          start = finger_start node.id (i + 1);
          end = finger_interval_end node.id (i + 1);
          successor = node.successor;
        })
        node.fingers;
}

unfoldable pub calculate_fingertable_known_nodes : ChordNode → (ℕ → ChordPeer) → ℕ → ChordNode
calculate_fingertable_known_nodes node peers peer_count =
    if peer_count == 0 then node else (record node {
      fingers =
          fill
            (λ i. record {
              start = finger_start node.id (i + 1);
              end = finger_interval_end node.id (i + 1);
              successor = find_successor_linear (finger_start node.id (i + 1)) peers peer_count;
            })
            node.fingers;
    })
