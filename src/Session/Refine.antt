-- ===== src/Session/Refine.antt =====
-- The list of include/sl.h, used by its keys, is a sorted list of entries.
use skiplist.Base.{ℕ, suc, ◌+◌, ◌≤◌, ◌≡◌, refl, ap, arith, List, [], ◌∷◌, length}
use skiplist.Store.{Ptr, Callbacks, Store, ok}
use skiplist.Chain.{IsOrder}
use skiplist.Access.{Fields}
use skiplist.Session.{entries}
use skiplist.Session.Calls.{Call, Answer, run, reference_run, IsServed, IsQuery}
use skiplist.Session.Steps.{Follows, put-Follows, dup-Follows}
use skiplist.Session.Queries.{del-Follows, get-Follows}

module _ {E K V : Type 0} ⦃c : Callbacks E⦄ (fields : Fields E K V) (by_key : IsQuery fields)
    (order : IsOrder c) (q : Ptr) (tries fuel : ℕ) where
  call-Follows :
      (s : Store E) (zs : List Ptr)
      → IsServed s zs q
      → (a : Call K V) → length zs ≤ suc fuel
      → 1 ≤ length s.supply
      → Follows fields s zs q tries fuel a
  call-Follows s zs served (Call.del_call k) enough some =
      del-Follows fields by_key order s zs q served k tries fuel enough
  call-Follows s zs served (Call.get_call k) enough some =
      get-Follows fields by_key order s zs q served k tries fuel enough
  call-Follows s zs served (Call.put_call k v) enough spare = go s.supply refl
    where
      go : (l : List Ptr) → s.supply ≡ l → Follows fields s zs q tries fuel (Call.put_call k v)
      go [] e = absurd (let none : length s.supply ≡ 0 = ap length e in omega (arith, none, spare))
      go (n ∷ rest) e = put-Follows fields order s zs q served n rest e k v tries fuel enough
  call-Follows s zs served (Call.dup_call k v) enough spare = go s.supply refl
    where
      go : (l : List Ptr) → s.supply ≡ l → Follows fields s zs q tries fuel (Call.dup_call k v)
      go [] e = absurd (let none : length s.supply ≡ 0 = ap length e in omega (arith, none, spare))
      go (n ∷ rest) e = dup-Follows fields order s zs q served n rest e k v tries fuel enough

  -- Calls of skip_put_, skip_dup_, skip_del_ and skip_get_ in any order, on a well-formed list without snapshots, with
  -- a generator state that is not zero, a comparison that is an order and reads of a query only what the
  -- user's block sets, a variable for the query, fresh memory for as many nodes as there are calls, and fuel for as many nodes as there can be: they
  -- end, with the answers that the sorted list of the entries gives to the same calls, and the list
  -- is well-formed and has the entries of that sorted list.
  pub run_lem :
      (calls : List (Call K V)) (s : Store E) (zs : List Ptr)
      → IsServed s zs q
      → length zs + length calls ≤ suc fuel
      → length calls ≤ length s.supply
      → (answers : List (Answer V)) × (zs' : List Ptr) × (s' : Store E) × (run fields
            (suc tries)
            (suc (suc fuel))
            q
            calls
            s
          ≡ ok answers s')
        × IsServed s' zs' q
        × (reference_run fields calls (entries s zs) ≡ (answers, entries s' zs'))
  unfolding run reference_run
  run_lem [] s zs served enough spare = ([], zs, s, refl, served, refl)
  run_lem (a ∷ calls) s zs served enough spare =
      let (answer, zs', s', first, served', same, shorter, left) =
        call-Follows s zs served a (omega (arith, enough)) (omega (arith, spare)) in
      let (answers, zs'', t, later, served'', same') =
        run_lem calls s' zs' served' (omega (arith, enough, shorter))
          (omega (arith, spare, left)) in
      (answer ∷ answers, zs'', t, rw (first, later), served'', rw (same, same'))
