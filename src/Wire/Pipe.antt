-- ===== src/Wire/Pipe.antt =====
-- A socket that moves one byte at a time, for runs.
use corestack_peky.Common.{
  ℕ, ◌≡◌, ◌≢◌, refl, arith, List, [], ◌∷◌, ◌++◌, Option, none, some, length, take, ◌≤◌,
}
use corestack_peky.Wire.Sockets.{Socket, IsStream}
use corestack_peky.Wire.Messages.{IsDuplex, IsOpen}

pub record Pipe : Type 0 where
  pub ahead : List ℕ
  pub behind : List ℕ

abbrev pub pipe_recv : List ℕ → List ℕ → ℕ → Option (List ℕ) × Pipe
pipe_recv [] out n = (none, record { ahead = []; behind = out })
pipe_recv (b ∷ rest) out n = (some (b ∷ []), record { ahead = rest; behind = out })

abbrev pub pipe_send : List ℕ → List ℕ → List ℕ → Option ℕ × Pipe
pipe_send incoming out [] = (none, record { ahead = incoming; behind = out })
pipe_send incoming out (b ∷ rest) = (some 1, record { ahead = incoming; behind = out ++ (b ∷ []) })

abbrev pub pipe : Socket Pipe
pipe = record {
  recv = λ s n. pipe_recv s.ahead s.behind n;
  send = λ s bs. pipe_send s.ahead s.behind bs;
}

pipe_recv-bytes :
    (incoming out : List ℕ) (s' : Pipe) (n : ℕ) (bs : List ℕ)
    → 1 ≤ n
    → pipe_recv incoming out n ≡ (some bs, s')
    → (1 ≤ length bs) × (length bs ≤ n) × (incoming ≡ bs ++ s'.ahead)
pipe_recv-bytes [] out s' n bs h e = grind arith
pipe_recv-bytes (b ∷ rest) out s' n bs h e = grind arith

pipe_send-bytes :
    (incoming out : List ℕ) (s' : Pipe) (bs : List ℕ) (n : ℕ)
    → pipe_send incoming out bs ≡ (some n, s')
    → (1 ≤ n) × (n ≤ length bs) × (s'.behind ≡ out ++ take n bs)
pipe_send-bytes incoming out s' [] n e = grind arith
pipe_send-bytes incoming out s' (b ∷ rest) n e = grind arith

pub pipe-IsStream : IsStream pipe (λ s. s.ahead) (λ s. s.behind)
pipe-IsStream = record {
  recv_bytes = λ s s' n bs h e. pipe_recv-bytes s.ahead s.behind s' n bs h e;
  send_bytes = λ s s' bs n e. pipe_send-bytes s.ahead s.behind s' bs n e;
}

pipe_recv-behind : (incoming out : List ℕ) (n : ℕ) → (pipe_recv incoming out n).1.behind ≡ out
pipe_recv-behind [] out n = refl
pipe_recv-behind (b ∷ rest) out n = refl

pipe_recv-none :
    (incoming out : List ℕ) (n : ℕ)
    → (pipe_recv incoming out n).0 ≡ none
    → (pipe_recv incoming out n).1.ahead ≡ incoming
pipe_recv-none [] out n e = refl
pipe_recv-none (b ∷ rest) out n e = absurd (ground arith)

pipe_send-ahead : (incoming out bs : List ℕ) → (pipe_send incoming out bs).1.ahead ≡ incoming
pipe_send-ahead incoming out [] = refl
pipe_send-ahead incoming out (b ∷ rest) = refl

pipe_recv-ready :
    (incoming out : List ℕ) (n : ℕ) → 1 ≤ length incoming → (pipe_recv incoming out n).0 ≢ none
pipe_recv-ready [] out n h e = absurd (omega arith)
pipe_recv-ready (b ∷ rest) out n h e = ground arith

pipe_send-takes : (incoming out bs : List ℕ) → 1 ≤ length bs → (pipe_send incoming out bs).0 ≢ none
pipe_send-takes incoming out [] h e = absurd (omega arith)
pipe_send-takes incoming out (b ∷ rest) h e = ground arith

pub pipe-IsDuplex : IsDuplex pipe (λ s. s.ahead) (λ s. s.behind)
pipe-IsDuplex = record {
  stream = pipe-IsStream;
  recv_out = λ s n. pipe_recv-behind s.ahead s.behind n;
  recv_none = λ s n e. pipe_recv-none s.ahead s.behind n e;
  send_in = λ s bs. pipe_send-ahead s.ahead s.behind bs;
}

pub pipe-IsOpen : IsOpen pipe (λ s. s.ahead) (λ s. s.behind)
pipe-IsOpen = record {
  duplex = pipe-IsDuplex;
  ready = λ s n h more. pipe_recv-ready s.ahead s.behind n more;
  takes = λ s bs h. pipe_send-takes s.ahead s.behind bs h;
}
