-- ===== src/Transfer/Faults.antt =====
-- Announced lengths that the server's arrays do not hold.
use corestack_peky.Common.{ℕ, suc, ◌<◌, ◌^◌, ◌≡◌, refl, arith, List, ◌++◌, length, ltb, true}
use corestack_peky.Wire.Sockets.{Socket}
use corestack_peky.Wire.Messages.{IsOpen, receive_int, receive_int-ready, wire_int, wire_field}
use corestack_peky.Wire.Duplex.{field-ready}
use corestack_peky.Transfer.Openssl.{Openssl}
use corestack_peky.Transfer.Server.{
  Disk, Server, crash, ◌>>=◌, handle_filename, handle_message, serve, msg_filename, filename_cap,
}

module _ {S : Type 0} (sock : Socket S) {incoming outgoing : S → List ℕ}
    (conn : IsOpen sock incoming outgoing) (O : Openssl) (disk : Disk) where
  handle_filename_overflow :
      (name rest : List ℕ) (srv : Server S)
      → filename_cap < length name
      → length name < 2 ^ 64
      → incoming srv.net ≡ wire_field name ++ rest
      → (handle_filename sock O disk srv).0 ≡ crash
  unfolding handle_filename ◌>>=◌
  handle_filename_overflow name rest srv long small e =
      let (got_len, got, left) = field-ready sock conn name rest srv.net small e in
      let over : ltb filename_cap (length name) ≡ true = ground arith in
      ground (arith, got_len, got, over)

  -- A file name of more than 4096 bytes from any client, authenticated or not, overruns the server's
  -- array: on a connection that holds, the round that reads it ends in undefined behaviour.
  pub serve_overflow :
      (rounds : ℕ) (name rest : List ℕ) (srv : Server S)
      → filename_cap < length name
      → length name < 2 ^ 64
      → incoming srv.net ≡ wire_int msg_filename ++ (wire_field name ++ rest)
      → (serve sock O disk (suc rounds) srv).0 ≡ crash
  unfolding serve handle_message ◌>>=◌
  serve_overflow rounds name rest srv long small e =
      let got =
        receive_int-ready sock conn msg_filename (wire_field name ++ rest) srv.net (omega arith)
          e in
      let over =
        handle_filename_overflow name rest (record srv { net = (receive_int sock srv.net).1 }) long
          small got.1 in
      rw (serve, got.0, ◌>>=◌, over) refl
