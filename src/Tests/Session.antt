-- ===== src/Tests/Session.antt =====
-- The theorems on a list in use, at a list of pairs with memory for four more.
use skiplist.Base.{ℕ, ◌≡◌, refl, arith, List, [], ◌∷◌}
use skiplist.Store.{Ptr, Store, ok}
use skiplist.Insert.{done}
use skiplist.Session.{entries, IsReady}
use skiplist.Session.Calls.{Call, Answer, run, reference_call, reference_run, IsServed}
use skiplist.Session.Reference.{enter, enter_dup, leave, find}
use skiplist.Session.Refine.{run_lem}
use skiplist.Examples.Pairs.{pairs, pairs-IsOrder, pair_fields, two_pairs, two_pairs-IsList}

abbrev supplied : Store (ℕ × ℕ)
supplied = record two_pairs { supply = 5 ∷ 6 ∷ 7 ∷ 8 ∷ [] }

supplied-IsReady : IsReady supplied (3 ∷ 4 ∷ [])
supplied-IsReady = record {
  list = two_pairs-IsList;
  seed = (omega arith, omega arith);
  none_kept = refl;
  apart = (
    (omega arith, omega arith, omega arith, (omega arith, (omega arith, tt))),
    (
      (omega arith, omega arith, omega arith, (omega arith, (omega arith, tt))),
      (
        (omega arith, omega arith, omega arith, (omega arith, (omega arith, tt))),
        ((omega arith, omega arith, omega arith, (omega arith, (omega arith, tt))), tt),
      ),
    ),
  );
  distinct = (
    (omega arith, (omega arith, (omega arith, tt))),
    ((omega arith, (omega arith, tt)), ((omega arith, tt), (tt, tt))),
  );
}

supplied-IsServed : IsServed supplied (3 ∷ 4 ∷ []) 9
supplied-IsServed = record {
  ready = supplied-IsReady;
  query = (omega arith, omega arith, omega arith, (omega arith, (omega arith, tt)));
  spare = (omega arith, (omega arith, (omega arith, (omega arith, tt))));
}

abbrev four_calls : List (Call ℕ ℕ)
four_calls = Call.put_call 6 60 ∷ Call.dup_call 6 61 ∷ Call.get_call 6 ∷ Call.del_call 5 ∷ []

-- What the reference answers to these calls.
four_calls-answers : reference_run pair_fields four_calls (entries supplied (3 ∷ 4 ∷ [])) ≡ (
  Answer.status done ∷ Answer.status done ∷ Answer.value 61 ∷ Answer.status done ∷ [],
  (6, 61) ∷ (6, 60) ∷ (9, 0) ∷ [],
)
unfolding reference_run reference_call enter enter_dup leave find
four_calls-answers = refl

run_lem_example :
    (answers : List (Answer ℕ)) × (zs' : List Ptr) × (s' : Store (ℕ × ℕ)) × (run pair_fields 1 10 9
        four_calls supplied
      ≡ ok answers s')
    × IsServed s' zs' 9
    × (reference_run pair_fields four_calls (entries supplied (3 ∷ 4 ∷ []))
        ≡ (answers, entries s' zs'))
run_lem_example =
    run_lem pair_fields (λ x a b k. refl) pairs-IsOrder 9 0 8 four_calls supplied (3 ∷ 4 ∷ [])
      supplied-IsServed (omega arith) (omega arith)
