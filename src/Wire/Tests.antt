-- ===== src/Wire/Tests.antt =====
-- Runs of the wire helpers.
use corestack_peky.Common.{ℕ, ◌≡◌, refl, arith, [], ◌∷◌, ◌<◌, ◌^◌, false, true, ◌⊎◌}
use corestack_peky.Wire.Ints.{
  int_bytes, int_to_bytes, bytes_to_int, get_bytes, bytes_to_int-int_to_bytes,
}
use corestack_peky.Wire.Sockets.{
  finished, broken, read_loop, read_bytes, send_loop, send_all, read_bytes_lem, ReadOutcome,
}
use corestack_peky.Wire.Pipe.{Pipe, pipe, pipe-IsStream}

abbrev five_ahead : Pipe
five_ahead = record { ahead = 7 ∷ 0 ∷ 255 ∷ 4 ∷ 9 ∷ []; behind = [] }

read_three : (read_bytes pipe true 3 five_ahead).0 ≡ finished (7 ∷ 0 ∷ 255 ∷ [])
unfolding read_bytes read_loop
read_three = refl

read_six : (read_bytes pipe true 6 five_ahead).0 ≡ broken
unfolding read_bytes read_loop
read_six = refl

send_two : (send_all pipe (1 ∷ 2 ∷ []) five_ahead).1.behind ≡ 1 ∷ 2 ∷ []
unfolding send_all send_loop
send_two = refl

read_bytes_lem_example :
    ((true ≡ false) × (read_bytes pipe true 3 five_ahead ≡ (broken, five_ahead)))
    ⊎ ReadOutcome pipe pipe-IsStream [] 3 five_ahead (read_bytes pipe true 3 five_ahead)
read_bytes_lem_example = read_bytes_lem pipe pipe-IsStream true 3 five_ahead

two_bytes : bytes_to_int (λ i. i) ≡ 283686952306183
unfolding bytes_to_int get_bytes
two_bytes = refl

bytes_to_int-int_to_bytes_example :
    (bytes_to_int (int_to_bytes 77770001 (λ i. 0)) ≡ 77770001)
    × ((i : ℕ) → i < int_bytes → int_to_bytes 77770001 (λ i. 0) i < 2 ^ 8)
bytes_to_int-int_to_bytes_example = bytes_to_int-int_to_bytes 77770001 (λ i. 0) (omega arith)
