-- ===== src/ListT/Tests.antt =====
-- Runs of the list on small states.
use pcaio.Prelude.{List, ◌≡◌, [], ◌∷◌, arith, done}
use pcaio.ListT.{append}
use pcaio.ListT.Refine.{append_again}
use pcaio.ListT.Run.{Call, add, drop, take, run, run_list, Proper, list_refines}
use pcaio.Samples.{list1, list1-IsList, list2, list2-IsList}

append_again_example :
    ((append 5 list1).0 ≡ done)
    × ((append 5 list1).1.next 5 ≡ 5)
    × ((append 5 list1).1.prev 5 ≡ 5)
    × ((append 5 list1).1.count ≡ 2)
append_again_example = append_again list1-IsList

-- The calls append a new element and one that is in the list, delete one in the middle and one that
-- is not there, and take the two that are left.
abbrev calls : List Call
calls = add 9 ∷ add 5 ∷ drop 7 ∷ drop 7 ∷ take 1 ∷ take 1 ∷ take 1 ∷ []

calls-Proper : Proper calls (5 ∷ 7 ∷ [])
calls-Proper = (
  omega arith,
  (λ e. cc),
  (omega arith, (λ e. cc), (omega arith, (omega arith, (omega arith, tt)))),
)

list_refines_example : run calls list2 ≡ run_list calls (5 ∷ 7 ∷ [])
list_refines_example = list_refines calls list2-IsList calls-Proper (omega arith)
