-- ===== src/RingT/Tests.antt =====
-- Runs of the ring on four places, where the indices wrap.
use pcaio.Prelude.{◌^◌, ◌≡◌, refl, false, List, [], ◌∷◌, arith}
use pcaio.RingT.{Ring}
use pcaio.RingT.Refine.{IsRing}
use pcaio.RingT.Run.{Call, put, get, count_used, count_free, run, run_list, ring_refines}

-- Four places of which two are taken, the last and the first.
abbrev wrapped : Ring
wrapped = record {
  head = 3;
  tail = 1;
  mask = 3;
  headx = false;
  tailx = false;
  backend = 7 ∷ 0 ∷ 0 ∷ 5 ∷ [];
}

wrapped-IsRing : IsRing 2 wrapped (5 ∷ 7 ∷ [])
wrapped-IsRing = record {
  width = omega arith;
  masked = refl;
  places = refl;
  head_in = omega arith;
  tail_at = refl;
  room = omega arith;
  holds = (refl, (refl, tt));
}

-- Two pushes, of which the second finds one place left, and three pops.
abbrev calls : List Call
calls = put 9 ∷ count_free ∷ put 11 ∷ get ∷ get ∷ count_used ∷ get ∷ get ∷ []

ring_refines_example : run calls wrapped ≡ run_list (2 ^ 2) calls (5 ∷ 7 ∷ [])
ring_refines_example = ring_refines 2 calls wrapped-IsRing
