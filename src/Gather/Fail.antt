-- ===== src/Gather/Fail.antt =====
-- `pcaio_gatherA` (pcaio/gather.c) when the queue refuses a task of the group.
use pcaio.Prelude.{
  Status-cases, inl, inr, AllNonNull, Apart, ◌+◌, ◌^◌, ◌<◌, ◌≡◌, refl, sym, ap, ◌∙◌, subst, ◌≢◌,
  true, false, List, [], ◌∷◌, ◌++◌, arith, Ptr, null, update, Status, done, failed, length, has,
  has-append, Distinct, Tid,
}
use pcaio.QueueT
use pcaio.QueueT.Fifo.{IsQueue, push-refused, refuses-has}
use pcaio.World.{World, enqueue}
use pcaio.Relax.{self}
use pcaio.Gather.{start, gather}
use pcaio.Gather.Start.{start-one, told_one, ready, start-Started}

-- The loop goes on behind tasks that were accepted.
start-append :
    (g : Ptr) (ts us : List Ptr) (w : World)
    → (start g ts w).0 ≡ done
    → start g (ts ++ us) w ≡ start g us (start g ts w).1
unfolding start
start-append g [] us w e = refl
start-append g (t ∷ ts) us w e = elim (Status-cases (enqueue t (told_one t g w)).0) [
  | inl ok ↦
      let one = start-one g t ts w ok in
      let rest =
        start-append g ts us (enqueue t (told_one t g w)).1
          (ap (λ (r : Status × World). r.0) (sym one) ∙ e) in
      start-one g t (ts ++ us) w ok ∙ rest ∙ ap (λ (r : Status × World). start g us r.1) (sym one)
  | inr bad ↦ absurd (let wrong : failed ≡ done = (rw (bad, start) at e) in cc)
]

-- A task that waits already is refused.
start-refused :
    (g x : Ptr) (later : List Ptr) (w : World) {xs : List Ptr}
    → IsQueue w.taskq xs
    → x ≢ null
    → has x xs ≡ true
    → start g (x ∷ later) w ≡ (failed, told_one x g w)
unfolding start enqueue
start-refused g x later w is n inside =
    let refused = push-refused x w.taskq (refuses-has x is n ∙ inside) in
    let status : (QueueT.push x w.taskq).0 ≡ failed =
      ap (λ (r : Status × QueueT.Queue). r.0) refused in
    rw (start, status)
      (ap (λ (r : Status × QueueT.Queue). (Status.failed, record (told_one x g w) { taskq = r.1 }))
        refused)

gather-failed :
    (g : Ptr) (thread : Tid) (swap : World → Status × World) (ts : List Ptr) (w v : World)
    → start g ts (ready g (self thread w) ts w) ≡ (failed, v)
    → gather g thread 0 swap ts w
      ≡ (failed, record v { gather_mutex = update v.gather_mutex g false })
unfolding gather
gather-failed g thread swap ts w v e =
    let status : (start g ts (ready g (self thread w) ts w)).0 ≡ failed =
      ap (λ (r : Status × World). r.0) e in
    rw status (
      ap
        (λ (r : Status × World).
          (Status.failed, record r.1 { gather_mutex = update r.1.gather_mutex g false }))
        e)

-- What a `pcaio_gatherA` leaves that fails: the tasks `ts` wait, and they and `x` will call the hook
-- of a gather that is gone.
pub record Abandoned (g x : Ptr) (ts xs : List Ptr) (w : World) (out : Status × World)
    : Type 0 where
  pub reported : out.0 ≡ failed
  pub queue : IsQueue out.1.taskq (xs ++ ts)
  pub told : (a : Ptr) → has a (ts ++ (x ∷ [])) ≡ true → out.1.gather a ≡ g
  pub hooked : (a : Ptr) → has a (ts ++ (x ∷ [])) ≡ true → out.1.terminated a ≡ true
  pub destroyed : out.1.gather_mutex g ≡ false
  pub not_held : out.1.flags ≡ w.flags

-- When the queue refuses a task of the group because it waits already, or stands in the group twice,
-- `pcaio_gatherA` fails and destroys the mutex of its gather, but the tasks before it, which are new
-- to the queue, distinct and not NULL, stay queued, and they and the refused task keep the hook and
-- the pointer to that gather, which stood on the stack of the call.
pub gather_abandons :
    (g : Ptr) (thread : Tid) (swap : World → Status × World) (ts : List Ptr) (x : Ptr)
    (later : List Ptr) (w : World) {xs : List Ptr}
    → IsQueue w.taskq xs
    → AllNonNull ts
    → Apart xs ts
    → Distinct ts
    → length xs + length ts < 2 ^ 64
    → x ≢ null
    → has x (xs ++ ts) ≡ true
    → Abandoned g x ts xs w (gather g thread 0 swap (ts ++ (x ∷ later)) w)
gather_abandons g thread swap ts x later w {xs} is n a d room nx inside =
    let all = ts ++ (x ∷ later) in
    let begun = ready g (self thread w) all w in
    let s = start-Started g ts begun is n a d room in
    let w1 = (start g ts begun).1 in
    let stopped =
      start-append g ts (x ∷ later) begun s.accepted
      ∙ start-refused g x later w1 s.queue nx inside in
    subst (Abandoned g x ts xs w)
      (sym (gather-failed g thread swap all w (told_one x g w1) stopped))
      (record {
        reported = refl;
        queue = s.queue;
        told = λ b h. ground (arith, s.told b, has-append b ts (x ∷ []));
        hooked = λ b h. ground (arith, s.hooked b, has-append b ts (x ∷ []));
        destroyed = ground arith;
        not_held = s.same_flags;
      })
