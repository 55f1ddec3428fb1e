-- ===== src/Examples/Pipe/Letters.antt =====
-- What goes through the pipe of examples/epoll_pipe.c.
use Prim.Native.Nat.{bit_and}
use pcaio.Prelude.{
  ℕ, zero, suc, ◌≤◌, ◌<◌, ◌≡◌, refl, ap, ap₂, ◌∙◌, ◌≢◌, ◌⊎◌, inl, inr, Option, none, some, List, [],
  ◌∷◌, map, arith, ◌==◌, length, Bool-cases,
}
use pcaio.Modio.{read, write}
use pcaio.Examples.Pipe.{
  chunk_size, ret_of, Stop, returned, stop_at, take, Turn, encode, produce, producer, Arrival,
  before_nul, closed_by, consume, consumer,
}

-- A letter, small or capital.
abbrev pub IsLetter : ℕ → Type 0
IsLetter b = ((65 ≤ b) × (b < 91)) ⊎ ((97 ≤ b) × (b < 123))

abbrev pub AllLetters : List ℕ → Type 0
AllLetters [] = Unit {0}
AllLetters (b ∷ bs) = IsLetter b × AllLetters bs

-- Chunks of letters, none of them empty or longer than the buffer.
abbrev pub AllChunks : List (List ℕ) → Type 0
AllChunks [] = Unit {0}
AllChunks (c ∷ cs) = (c ≢ []) × (length c ≤ chunk_size) × AllLetters c × AllChunks cs

-- The buffer of `_producer` is full of bytes in every turn.
abbrev pub AllFull : List Turn → Type 0
AllFull [] = Unit {0}
AllFull (t ∷ ts) = (length t.bytes ≡ chunk_size) × AllFull ts

-- The pipe gives `_consumer` one chunk at a time, and then the end of the file, since the producer has
-- closed it.
abbrev pub Delivers : (iomod fd : ℕ) → List (List ℕ) → List Arrival → Type 0
Delivers iomod fd cs [] = ⊥
Delivers iomod fd [] (a ∷ later) = ret_of (read iomod fd a.input).0 ≡ some (some 0)
Delivers iomod fd (c ∷ cs) (a ∷ later) =
    (ret_of (read iomod fd a.input).0 ≡ some (some (length c)))
    × (take (length c) a.bytes ≡ c)
    × Delivers iomod fd cs later

encode-IsLetter : (b : ℕ) → IsLetter (encode b)
unfolding encode
encode-IsLetter b = elim (Bool-cases (bit_and b 0x80 == 0)) [
  | inl low ↦ rw low (inl (omega arith, omega arith))
  | inr high ↦ rw high (inr (omega arith, omega arith))
]

map-AllLetters : (bs : List ℕ) → AllLetters (map encode bs)
map-AllLetters [] = tt
map-AllLetters (b ∷ bs) = (encode-IsLetter b, map-AllLetters bs)

take-AllLetters : (n : ℕ) (bs : List ℕ) → AllLetters bs → AllLetters (take n bs)
take-AllLetters zero bs h = tt
take-AllLetters (suc n) [] h = tt
take-AllLetters (suc n) (b ∷ bs) h = (h.0, take-AllLetters n bs h.1)

length-take : (n : ℕ) (bs : List ℕ) → length (take n bs) ≤ length bs
length-take zero bs = omega arith
length-take (suc n) [] = omega arith
length-take (suc n) (b ∷ bs) = omega (arith, length-take n bs)

length-map : (bs : List ℕ) → length (map encode bs) ≡ length bs
length-map [] = refl
length-map (b ∷ bs) = ap suc (length-map bs)

before_nul-letters : (bs : List ℕ) → AllLetters bs → before_nul bs ≡ bs
before_nul-letters [] h = refl
before_nul-letters (zero ∷ bs) h = absurd (let wrong = h.0 in omega arith)
before_nul-letters (suc b ∷ bs) h = ap (λ (l : List ℕ). suc b ∷ l) (before_nul-letters bs h.1)

-- A call stops the loop, or returned a number above 0.
stops_or_goes :
    (a : Option (Option ℕ))
    → ((s : Stop) × (stop_at a ≡ some s)) ⊎ ((n : ℕ) × (a ≡ some (some (suc n))))
stops_or_goes none = inl (_, refl)
stops_or_goes (some none) = inl (_, refl)
stops_or_goes (some (some zero)) = inl (_, refl)
stops_or_goes (some (some (suc n))) = inr (n, refl)

chunk-ok :
    (n m : ℕ) (bs : List ℕ) (cs : List (List ℕ))
    → length bs ≡ chunk_size
    → AllChunks cs
    → AllChunks (take (suc m) (map encode (take (suc n) bs)) ∷ cs)
chunk-ok n m [] cs full h = absurd (omega arith)
chunk-ok n m (b ∷ bs) cs full h = (
  λ e. cc,
  omega (
    arith,
    full,
    length-take m (map encode (take n bs)),
    length-map (take n bs),
    length-take n bs,
  ),
  take-AllLetters (suc m) (map encode (take (suc n) (b ∷ bs)))
      (map-AllLetters (take (suc n) (b ∷ bs))),
  h,
)

-- Chunks within the bounds, and at most so many of them.
abbrev pub Within : ℕ → List (List ℕ) → Type 0
Within left cs = AllChunks cs × (length cs ≤ left)

produce-AllChunks :
    (left iomod rfd fd : ℕ) (ts : List Turn)
    → AllFull ts
    → Within left (produce left iomod rfd fd ts).0
unfolding produce
produce-AllChunks zero iomod rfd fd ts full = (tt, omega arith)
produce-AllChunks (suc left) iomod rfd fd [] full = (tt, omega arith)
produce-AllChunks (suc left) iomod rfd fd (t ∷ ts) full =
    let (rest, few) = produce-AllChunks left iomod rfd fd ts full.1 in
    elim (stops_or_goes (ret_of (read iomod rfd t.input).0)) [
      | inl (s, stopped) ↦ rw (Within, produce, stopped) (tt, omega arith)
      | inr (n, got) ↦ elim (stops_or_goes (ret_of (write iomod fd t.output).0)) [
        | inl (s, stopped) ↦ rw (Within, produce, got, stopped) (tt, omega arith)
        | inr (m, put) ↦
            rw (Within, produce, got, put, got, put)
              (chunk-ok n m t.bytes _ full.0 rest, omega arith)
      ]
    ]

consume-prints :
    (iomod fd : ℕ) (cs : List (List ℕ)) (later : List Arrival)
    → AllChunks cs
    → Delivers iomod fd cs later
    → consume iomod fd later ≡ (cs, returned (some 0))
unfolding consume
consume-prints iomod fd cs [] h d = absurd d
consume-prints iomod fd [] (a ∷ later) h d = rw (consume, d) refl
consume-prints iomod fd ([] ∷ cs) (a ∷ later) h d = absurd (h.0 refl)
consume-prints iomod fd ((b ∷ bs) ∷ cs) (a ∷ later) h d =
    let rest = consume-prints iomod fd cs later h.3 d.2 in
    rw (consume, d.0, d.0)
      (ap₂ (λ (l : List ℕ) (p : List (List ℕ) × Stop). (l ∷ p.0, p.1))
        (ap before_nul d.1 ∙ before_nul-letters (b ∷ bs) h.2) rest)

-- Whatever the system answers to the producer, as long as it fills the buffer with bytes each time
-- that it reads: it puts at most sixteen chunks into the pipe, each of 1 to 64 letters; and when the
-- pipe gives them to the consumer one at a time, and the end of the file behind the last, then the
-- consumer prints exactly these chunks, closes its end of the pipe and returns 0.
pub lines_match :
    (iomod rfd fd end : ℕ) (ts : List Turn) (later : List Arrival)
    → AllFull ts
    → Delivers iomod end (producer iomod (some rfd) fd ts).0 later
    → Within 16 (producer iomod (some rfd) fd ts).0
      × (consumer iomod end later
          ≡ ((producer iomod (some rfd) fd ts).0, returned (some 0), end ∷ []))
unfolding producer consumer
lines_match iomod rfd fd end ts later full d =
    let within = produce-AllChunks 16 iomod rfd fd ts full in
    (
      within,
      ap (λ (p : List (List ℕ) × Stop). (p.0, p.1, closed_by p.1 (end ∷ [])))
          (consume-prints iomod end (produce 16 iomod rfd fd ts).0 later within.0 d),
    )
