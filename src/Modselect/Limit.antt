-- ===== src/Modselect/Limit.antt =====
-- What a tick of pcaio/modselect.c does with the limit of the module: it tells it to `select`, and keeps
-- it.
use pcaio.Prelude.{
  ℕ, ◌≡◌, refl, sym, ap, ◌∙◌, ◌⊎◌, inl, inr, Bool, true, false, Option, none, some, List, [], ◌∷◌,
  ◌/◌, ◌%◌, ◌==◌, Ptr, Status-cases, Bool-cases,
}
use pcaio.RingT
use pcaio.RingT.{Ring}
use pcaio.Master.{TickStatus, pms_idle, pms_panic, pms_again}
use pcaio.Modselect.{
  Select, FdSets, SelectCall, no_fds, Collected, bad_event, out_of_bounds, collected, collect,
  settle_one, settle_all, ask, tick, ready_events,
}
use pcaio.Modselect.Tick.{broken_sets}

settle_one-maxfileno :
    (broken : Bool) (sets : FdSets) (e : Ptr) (s : Select)
    → (settle_one broken sets e s).1.maxfileno ≡ s.maxfileno
unfolding settle_one
settle_one-maxfileno broken sets e s =
    elim (Bool-cases (ready_events broken sets (s.io.fd e) == 0)) [
      | inl idle ↦ rw (settle_one, idle) refl
      | inr ready ↦ rw (settle_one, ready) refl
    ]

settle_all-maxfileno :
    (ret : TickStatus) (broken : Bool) (sets : FdSets) (es : List Ptr) (s : Select)
    → (settle_all ret broken sets es s).1.maxfileno ≡ s.maxfileno
unfolding settle_all
settle_all-maxfileno ret broken sets [] s = refl
settle_all-maxfileno ret broken sets (e ∷ es) s =
    let one = settle_one-maxfileno broken sets e s in
    elim (Status-cases (settle_one broken sets e s).0) [
      | inl goes ↦
          rw (settle_all, goes)
            (settle_all-maxfileno ret broken sets es (settle_one broken sets e s).1 ∙ one)
      | inr stops ↦ rw (settle_all, stops) one
    ]

pub Option-cases : {A : Type 0} (o : Option A) → (o ≡ none) ⊎ ((a : A) × (o ≡ some a))
Option-cases none = inl refl
Option-cases (some a) = inr (a, refl)

ask-maxfileno :
    (select : SelectCall) (timeout_us : ℕ) (es : List Ptr) (sets : FdSets) (s : Select)
    → (ask select timeout_us es sets s).1.maxfileno ≡ s.maxfileno
unfolding ask
ask-maxfileno select timeout_us [] sets s = refl
ask-maxfileno select timeout_us (e ∷ es) sets s =
    elim (Option-cases (select s.maxfileno sets (timeout_us / 1000000) (timeout_us % 1000000))) [
      | inl fails ↦
          rw (ask, fails) (settle_all-maxfileno pms_panic true (broken_sets sets) (e ∷ es) s)
      | inr (sets1, answers) ↦
          rw (ask, answers) (settle_all-maxfileno pms_again false sets1 (e ∷ es) s)
    ]

ask-same :
    (select select' : SelectCall) (timeout_us : ℕ) (es : List Ptr) (sets : FdSets) (s : Select)
    → ((sets : FdSets) (sec usec : ℕ)
        → select s.maxfileno sets sec usec ≡ select' s.maxfileno sets sec usec)
    → ask select timeout_us es sets s ≡ ask select' timeout_us es sets s
unfolding ask
ask-same select select' timeout_us [] sets s same = refl
ask-same select select' timeout_us (e ∷ es) sets s same =
    rw (ask, same sets (timeout_us / 1000000) (timeout_us % 1000000)) refl

-- What the tick makes of its first loop.
abbrev asked : SelectCall → (timeout_us : ℕ) → Select → Collected → Option (TickStatus × Select)
asked select timeout_us s (bad_event r) = some (pms_panic, record s { ring = r })
asked select timeout_us s out_of_bounds = none
asked select timeout_us s (collected es sets r) =
    some (ask select timeout_us es sets (record s { ring = r }))

asked-same :
    (select select' : SelectCall) (timeout_us : ℕ) (s : Select) (c : Collected)
    → ((sets : FdSets) (sec usec : ℕ)
        → select s.maxfileno sets sec usec ≡ select' s.maxfileno sets sec usec)
    → asked select timeout_us s c ≡ asked select' timeout_us s c
asked-same select select' timeout_us s (bad_event r) same = refl
asked-same select select' timeout_us s out_of_bounds same = refl
asked-same select select' timeout_us s (collected es sets r) same =
    ap some (ask-same select select' timeout_us es sets (record s { ring = r }) same)

abbrev limit_of : Option (TickStatus × Select) → ℕ
limit_of none = 0
limit_of (some r) = r.1.maxfileno

asked-maxfileno :
    (select : SelectCall) (timeout_us : ℕ) (s : Select) (c : Collected) (status : TickStatus)
    (v : Select)
    → asked select timeout_us s c ≡ some (status, v)
    → v.maxfileno ≡ s.maxfileno
asked-maxfileno select timeout_us s (bad_event r) status v e = ap limit_of (sym e)
asked-maxfileno select timeout_us s out_of_bounds status v e = cc
asked-maxfileno select timeout_us s (collected es sets r) status v e =
    ap limit_of (sym e) ∙ ask-maxfileno select timeout_us es sets (record s { ring = r })

Collected-cases :
    (c : Collected)
    → ((r : Ring) × (c ≡ bad_event r))
      ⊎ ((c ≡ out_of_bounds)
          ⊎ ((es : List Ptr) × (sets : FdSets) × (r : Ring) × (c ≡ collected es sets r)))
Collected-cases (bad_event r) = inl (r, refl)
Collected-cases out_of_bounds = inr (inl refl)
Collected-cases (collected es sets r) = inr (inr (es, sets, r, refl))

tick-asked :
    (select : SelectCall) (timeout_us : ℕ) (s : Select)
    → RingT.is_empty s.ring ≡ false
    → tick select timeout_us s ≡ asked select timeout_us s (collect s.maxfileno s.io no_fds s.ring)
unfolding tick
tick-asked select timeout_us s some_event =
    elim (Collected-cases (collect s.maxfileno s.io no_fds s.ring)) [
      | inl (r, e) ↦ rw (tick, some_event, e) refl
      | inr (inl e) ↦ rw (tick, some_event, e) refl
      | inr (inr (es, sets, r, e)) ↦ rw (tick, some_event, e) refl
    ]

tick-idle :
    (select : SelectCall) (timeout_us : ℕ) (s : Select)
    → RingT.is_empty s.ring ≡ true
    → tick select timeout_us s ≡ some (pms_idle, s)
unfolding tick
tick-idle select timeout_us s empty = rw (tick, empty) refl

pub tick-same :
    (select select' : SelectCall) (timeout_us : ℕ) (s : Select)
    → ((sets : FdSets) (sec usec : ℕ)
        → select s.maxfileno sets sec usec ≡ select' s.maxfileno sets sec usec)
    → tick select timeout_us s ≡ tick select' timeout_us s
tick-same select select' timeout_us s same = elim (Bool-cases (RingT.is_empty s.ring)) [
  | inl empty ↦ tick-idle select timeout_us s empty ∙ sym (tick-idle select' timeout_us s empty)
  | inr some_event ↦
      tick-asked select timeout_us s some_event
      ∙ asked-same select select' timeout_us s (collect s.maxfileno s.io no_fds s.ring) same
      ∙ sym (tick-asked select' timeout_us s some_event)
]

-- A tick leaves the limit as it is.
pub tick-maxfileno :
    (select : SelectCall) (timeout_us : ℕ) (s : Select) (status : TickStatus) (v : Select)
    → tick select timeout_us s ≡ some (status, v)
    → v.maxfileno ≡ s.maxfileno
tick-maxfileno select timeout_us s status v e = elim (Bool-cases (RingT.is_empty s.ring)) [
  | inl empty ↦ ap limit_of (sym e ∙ tick-idle select timeout_us s empty)
  | inr some_event ↦
      asked-maxfileno select timeout_us s (collect s.maxfileno s.io no_fds s.ring) status v
        (sym (tick-asked select timeout_us s some_event) ∙ e)
]
