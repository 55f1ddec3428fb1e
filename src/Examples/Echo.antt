-- ===== src/Examples/Echo.antt =====
-- examples/epoll_echo.c: a task that prints what it reads from the standard input. The same function
-- stands in examples/select_echo.c.
use pcaio.Prelude.{
  ℕ, ◌≡◌, refl, ap, ap₂, ◌∙◌, ◌≢◌, Option, none, some, List, [], ◌∷◌, Ptr, null, Tid, Status,
  length,
}
use pcaio.Task
use pcaio.Task.{System}
use pcaio.Master.{State, Callbacks}
use pcaio.Modio.{read}
use pcaio.Api.Run.{Answers, pcaio_run}
use pcaio.Examples.Modules.{Memory, Given, use_modules}
use pcaio.Examples.Pipe.{
  Arrival, before_nul, take, number, ret_of, Stop, unfinished, returned, stop_at,
}

abbrev workers : ℕ
workers = 1

-- `STDIN_FILENO`.
abbrev stdin : ℕ
stdin = 0

-- `_echoA`, behind its first line: what it prints, and how the task stands.
unfoldable pub echo : (iomod : ℕ) → List Arrival → List (List ℕ) × Stop
echo iomod [] = ([], unfinished)
echo iomod (a ∷ later) =
    let got = ret_of (read iomod stdin a.input).0 in
    let rest = echo iomod later in
    elim (stop_at got) [
      | some stop ↦ ([], stop)
      | none ↦ (before_nul (take (number got) a.bytes) ∷ rest.0, rest.1)
    ]

-- `main`, behind the call of `fcntl`; none while the main loop runs.
unfoldable pub main :
    (sys : System) (func : Ptr)
    → Tid
    → Callbacks Memory
    → Answers
    → List (State Memory → State Memory)
    → Given
    → State Memory
    → Option (Status × State Memory)
main sys func thread cb answers rounds given s =
    let (t, w) = Task.new sys func null 0 [] s.world in
    pcaio_run thread cb answers rounds workers (t ∷ [])
      (use_modules given 4 (record s { world = w }))

-- What comes on the standard input: these texts without NUL, at most one to a call, and then the end
-- of the file.
abbrev Types : (iomod : ℕ) → List (List ℕ) → List Arrival → Type 0
Types iomod cs [] = ⊥
Types iomod [] (a ∷ later) = ret_of (read iomod stdin a.input).0 ≡ some (some 0)
Types iomod (c ∷ cs) (a ∷ later) =
    (ret_of (read iomod stdin a.input).0 ≡ some (some (length c)))
    × (c ≢ [])
    × (take (length c) a.bytes ≡ c)
    × (before_nul c ≡ c)
    × Types iomod cs later

-- The task prints each text as it was typed, in order, and returns 0 at the end of the file.
echoes :
    (iomod : ℕ) (cs : List (List ℕ)) (later : List Arrival)
    → Types iomod cs later
    → echo iomod later ≡ (cs, returned (some 0))
unfolding echo
echoes iomod cs [] h = absurd h
echoes iomod [] (a ∷ later) h = rw (echo, h) refl
echoes iomod ([] ∷ cs) (a ∷ later) h = absurd (h.1 refl)
echoes iomod ((b ∷ c) ∷ cs) (a ∷ later) h =
    rw (echo, h.0, h.0)
      (ap₂ (λ (l : List ℕ) (p : List (List ℕ) × Stop). (l ∷ p.0, p.1)) (ap before_nul h.2 ∙ h.3)
        (echoes iomod cs later h.4))
