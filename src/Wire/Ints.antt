-- ===== src/Wire/Ints.antt =====
-- `int_to_bytes` and `bytes_to_int` of common.c: 64-bit integers as eight big-endian bytes.
use corestack_peky.Common.{
  ℕ, zero, suc, ◌+◌, ◌*◌, ◌/◌, ◌%◌, ◌^◌, ◌<◌, ◌≤◌, ◌≡◌, refl, arith, update, dec_lt, u64, ◌∙◌,
}

abbrev pub int_bytes : ℕ
int_bytes = 8

-- The rounds `i - 1` down to 0 of the loop: `buf[i] = x & 0xFF; x >>= 8`.
unfoldable pub put_bytes : ℕ → ℕ → (ℕ → ℕ) → ℕ → ℕ
put_bytes zero x buf = buf
put_bytes (suc i) x buf = put_bytes i (x / 2 ^ 8) (update buf i (x % 2 ^ 8))

unfoldable pub int_to_bytes : ℕ → (ℕ → ℕ) → ℕ → ℕ
int_to_bytes x buf = put_bytes int_bytes x buf

-- The first `n` rounds: `result = (result << 8) | buf[i]`. The low byte of the shifted result is 0,
-- so the bits of a byte are added to it.
unfoldable pub get_bytes : ℕ → (ℕ → ℕ) → ℕ
get_bytes zero buf = 0
get_bytes (suc n) buf = u64 (get_bytes n buf * 2 ^ 8) + buf n % 2 ^ 8

unfoldable pub bytes_to_int : (ℕ → ℕ) → ℕ
bytes_to_int buf = get_bytes int_bytes buf

-- the integers of `n` bytes
abbrev byte_range : ℕ → ℕ
byte_range zero = 1
byte_range (suc n) = byte_range n * 2 ^ 8

put_bytes-above : (n x : ℕ) (buf : ℕ → ℕ) (i : ℕ) → n ≤ i → put_bytes n x buf i ≡ buf i
unfolding put_bytes
put_bytes-above zero x buf i h = refl
put_bytes-above (suc n) x buf i h =
    put_bytes-above n (x / 2 ^ 8) (update buf n (x % 2 ^ 8)) i (omega arith) ∙ ground arith

put_bytes-fits : (n x : ℕ) (buf : ℕ → ℕ) (i : ℕ) → i < n → put_bytes n x buf i < 2 ^ 8
unfolding put_bytes
put_bytes-fits zero x buf i h = absurd (omega arith)
put_bytes-fits (suc n) x buf i h = elim (dec_lt i n) [
  | yes lt ↦ put_bytes-fits n (x / 2 ^ 8) (update buf n (x % 2 ^ 8)) i lt
  | no ¬lt ↦ grind (arith, put_bytes-above n (x / 2 ^ 8) (update buf n (x % 2 ^ 8)) i)
]

get_bytes-put_bytes :
    (n x : ℕ) (buf : ℕ → ℕ) → x < 2 ^ 64 → x < byte_range n → get_bytes n (put_bytes n x buf) ≡ x
unfolding put_bytes get_bytes
get_bytes-put_bytes zero x buf h lt = omega arith
get_bytes-put_bytes (suc n) x buf h lt =
    let buf' = update buf n (x % 2 ^ 8) in
    let rest = get_bytes-put_bytes n (x / 2 ^ 8) buf' (omega arith) (omega arith) in
    let last = put_bytes-above n (x / 2 ^ 8) buf' n (omega arith) in grind arith

byte_range-small : (n : ℕ) → n < int_bytes → byte_range (suc n) ≤ 2 ^ 64
byte_range-small zero h = omega arith
byte_range-small (suc zero) h = omega arith
byte_range-small (suc (suc zero)) h = omega arith
byte_range-small (suc (suc (suc zero))) h = omega arith
byte_range-small (suc (suc (suc (suc zero)))) h = omega arith
byte_range-small (suc (suc (suc (suc (suc zero))))) h = omega arith
byte_range-small (suc (suc (suc (suc (suc (suc zero)))))) h = omega arith
byte_range-small (suc (suc (suc (suc (suc (suc (suc zero))))))) h = omega arith
byte_range-small (suc (suc (suc (suc (suc (suc (suc (suc n)))))))) h = absurd (omega arith)

get_bytes-fits : (n : ℕ) (buf : ℕ → ℕ) → n ≤ int_bytes → get_bytes n buf < byte_range n
unfolding get_bytes
get_bytes-fits zero buf h = omega arith
get_bytes-fits (suc n) buf h =
    let rest = get_bytes-fits n buf (omega arith) in let small = byte_range-small n h in omega arith

put_bytes-get_bytes :
    (n : ℕ) (buf old : ℕ → ℕ)
    → n ≤ int_bytes
    → ((i : ℕ) → i < int_bytes → buf i < 2 ^ 8)
    → (i : ℕ) → i < n
    → put_bytes n (get_bytes n buf) old i ≡ buf i
unfolding put_bytes get_bytes
put_bytes-get_bytes zero buf old le h i lt = absurd (omega arith)
put_bytes-get_bytes (suc n) buf old le h i lt =
    let g = get_bytes n buf in
    let fits = get_bytes-fits n buf (omega arith) in
    let small = byte_range-small n le in
    let byte = h n le in
    let whole : get_bytes (suc n) buf ≡ g * 2 ^ 8 + buf n = omega arith in
    let quot : get_bytes (suc n) buf / 2 ^ 8 ≡ g = omega (arith, whole) in
    let rem : get_bytes (suc n) buf % 2 ^ 8 ≡ buf n = omega (arith, whole) in
    elim (dec_lt i n) [
      | yes below ↦ grind (
        arith,
        put_bytes-get_bytes n buf (update old n (get_bytes (suc n) buf % 2 ^ 8)) (omega arith) h i
            below,
        quot,
      )
      | no ¬below ↦ grind (
        arith,
        put_bytes-above n (get_bytes (suc n) buf / 2 ^ 8)
            (update old n (get_bytes (suc n) buf % 2 ^ 8)) i,
        rem,
      )
    ]

-- Every 64-bit integer is read back from its bytes, which fit their `unsigned char`.
pub bytes_to_int-int_to_bytes :
    (x : ℕ) (buf : ℕ → ℕ)
    → x < 2 ^ 64
    → (bytes_to_int (int_to_bytes x buf) ≡ x)
      × ((i : ℕ) → i < int_bytes → int_to_bytes x buf i < 2 ^ 8)
unfolding bytes_to_int int_to_bytes
bytes_to_int-int_to_bytes x buf h =
    (get_bytes-put_bytes int_bytes x buf h (omega arith), put_bytes-fits int_bytes x buf)

-- The bytes of an integer that was read are the ones that were read.
pub int_to_bytes-bytes_to_int :
    (old buf : ℕ → ℕ)
    → ((i : ℕ) → i < int_bytes → buf i < 2 ^ 8)
    → (i : ℕ) → i < int_bytes
    → int_to_bytes (bytes_to_int buf) old i ≡ buf i
unfolding bytes_to_int int_to_bytes
int_to_bytes-bytes_to_int old buf h = put_bytes-get_bytes int_bytes buf old (omega arith) h
