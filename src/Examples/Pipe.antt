-- ===== src/Examples/Pipe.antt =====
-- examples/epoll_pipe.c: a task that writes letters into a pipe, and one that prints what it reads
-- there. The same two functions stand in examples/select_pipe.c.
pub mod Letters
pub mod Program
use Prim.Native.Nat.{bit_and}
use pcaio.Prelude.{
  ℕ, zero, suc, ◌+◌, ◌%◌, ◌≤◌, ◌<◌, ◌≡◌, refl, ap, ap₂, ◌∙◌, ◌≢◌, ◌⊎◌, inl, inr, Bool, true, false,
  Option, none, some, List, [], ◌∷◌, map, arith, ◌==◌, if◌then◌else◌, length, Bool-cases,
}
use pcaio.Modio.{Round, Reply, result, error, gave_up, pending, read, write}

abbrev pub chunk_size : ℕ
chunk_size = 64

-- What the variable `ret` holds behind a call, none if the call has not returned; -1 is none too,
-- one level down.
abbrev pub ret_of : Reply → Option (Option ℕ)
ret_of (result r) = some r
ret_of (error e) = some none
ret_of gave_up = some none
ret_of pending = none

abbrev pub number : Option (Option ℕ) → ℕ
number (some (some n)) = n
number (some none) = 0
number none = 0

-- How a task stands: its function has returned, none for -1, or waits in one of its calls.
pub data Stop : Type 0 where
  returned : Option ℕ → Stop
  unfinished : Stop

-- `if (ret <= 0) break`: none if the loop goes on.
abbrev pub stop_at : Option (Option ℕ) → Option Stop
stop_at none = some unfinished
stop_at (some none) = some (returned none)
stop_at (some (some zero)) = some (returned (some 0))
stop_at (some (some (suc n))) = none

abbrev pub take : ℕ → List ℕ → List ℕ
take zero xs = []
take (suc n) [] = []
take (suc n) (x ∷ xs) = x ∷ take n xs

-- One turn of the loop of `_producer`: the answers to its `read`, what that leaves in the buffer,
-- and the answers to its `write`.
pub record Turn : Type 0 where
  pub input : List Round
  pub bytes : List ℕ
  pub output : List Round

-- `(buff[j] % 26) + (buff[j] & 0x80? 97: 65)`
unfoldable pub encode : ℕ → ℕ
encode b = (b % 26 + (if bit_and b 0x80 == 0 then 65 else 97)) % 256

-- The loop of `_producer`, with `left` rounds to go: the chunks that went into the pipe, and how the
-- task stands; behind the last round it returns 0.
unfoldable pub produce : (left : ℕ) → (iomod rfd fd : ℕ) → List Turn → List (List ℕ) × Stop
unfolding encode
produce zero iomod rfd fd ts = ([], returned (some 0))
produce (suc left) iomod rfd fd [] = ([], unfinished)
produce (suc left) iomod rfd fd (t ∷ ts) =
    let got = ret_of (read iomod rfd t.input).0 in
    let chunk = map encode (take (number got) t.bytes) in
    let put = ret_of (write iomod fd t.output).0 in
    let rest = produce left iomod rfd fd ts in
    elim (stop_at got) [
      | some stop ↦ ([], stop)
      | none ↦ elim (stop_at put) [
        | some stop ↦ ([], stop)
        | none ↦ (take (number put) chunk ∷ rest.0, rest.1)
      ]
    ]

-- What a task has closed at its end.
abbrev pub closed_by : Stop → List ℕ → List ℕ
closed_by (returned r) fds = fds
closed_by unfinished fds = []

-- `_producer`, with the descriptors that it closes; `rfd` is what `open` returns, none for -1.
unfoldable pub producer :
    (iomod : ℕ) → (rfd : Option ℕ) → (fd : ℕ) → List Turn → List (List ℕ) × Stop × List ℕ
unfolding produce
producer iomod none fd ts = ([], returned none, [])
producer iomod (some rfd) fd ts =
    let p = produce 16 iomod rfd fd ts in (p.0, p.1, closed_by p.1 (fd ∷ rfd ∷ []))

-- One turn of the loop of `_consumer`.
pub record Arrival : Type 0 where
  pub input : List Round
  pub bytes : List ℕ

-- What `printf("%.*s\n", ret, buff)` prints of so many bytes, less the end of the line.
abbrev pub before_nul : List ℕ → List ℕ
before_nul [] = []
before_nul (zero ∷ bs) = []
before_nul (suc b ∷ bs) = suc b ∷ before_nul bs

-- The loop of `_consumer`: the lines that it prints, and how the task stands.
unfoldable pub consume : (iomod fd : ℕ) → List Arrival → List (List ℕ) × Stop
consume iomod fd [] = ([], unfinished)
consume iomod fd (a ∷ later) =
    let got = ret_of (read iomod fd a.input).0 in
    let rest = consume iomod fd later in
    elim (stop_at got) [
      | some stop ↦ ([], stop)
      | none ↦ (before_nul (take (number got) a.bytes) ∷ rest.0, rest.1)
    ]

-- `_consumer`, with the descriptors that it closes.
unfoldable pub consumer : (iomod fd : ℕ) → List Arrival → List (List ℕ) × Stop × List ℕ
unfolding consume
consumer iomod fd later = let p = consume iomod fd later in (p.0, p.1, closed_by p.1 (fd ∷ []))
