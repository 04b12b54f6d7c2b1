-- ===== src/Session/Steps.antt =====
-- One call of skip_put_ or skip_dup_ next to the reference's.
use skiplist.Base.{
  ℕ, suc, ◌≤◌, ◌≡◌, ◌≢◌, sym, ap, subst, ◌∙◌, inl, inr, arith, List, ◌∷◌, ◌++◌, length,
  length-append, Option, All, All-insert, NotIn,
}
use skiplist.Store.{Ptr, Callbacks, Store, ok}
use skiplist.Chain.{IsOrder}
use skiplist.Insert.{done, eexist}
use skiplist.Access.{Fields}
use skiplist.Access.Put.{put_done, dup_done, put_refused}
use skiplist.Session.{entries, IsApart, IsReady}
use skiplist.Session.Reference.{enter}
use skiplist.Session.Place.{place_lem, place_dup_lem}
use skiplist.Session.Calls.{Call, Answer, call, reference_call, IsServed, or_else, status_of, made}

module _ {E K V : Type 0} ⦃c : Callbacks E⦄ (fields : Fields E K V) where
  -- A call ends, the list is ready for the next one, and it has answered as the reference does.
  abbrev pub Follows : Store E → List Ptr → Ptr → ℕ → ℕ → Call K V → Type 0
  Follows s zs q tries fuel a =
      (answer : Answer V) × (zs' : List Ptr) × (s' : Store E) × (call fields (suc tries)
          (suc (suc fuel)) q a s
        ≡ ok answer s')
      × IsServed s' zs' q
      × (reference_call fields a (entries s zs) ≡ (answer, entries s' zs'))
      × (length zs' ≤ suc (length zs))
      × (length s.supply ≤ suc (length s'.supply))

  reference_call-put :
      (k : K) (v : V) (es : List E) (o : Option (List E))
      → enter (made fields k v) es ≡ o
      → reference_call fields (Call.put_call k v) es
        ≡ (status_of fields eexist o, or_else fields o es)
  unfolding reference_call
  reference_call-put k v es o e = rw e

  module _ (order : IsOrder c) (s : Store E) (zs : List Ptr) (q : Ptr) (served : IsServed s zs q)
      (n : Ptr) (rest : List Ptr) (given : s.supply ≡ n ∷ rest) (k : K) (v : V) (tries fuel : ℕ)
      (enough : length zs ≤ suc fuel) where
    open served use {ready, query, spare}

    apart : All (IsApart s zs) (n ∷ rest)
    apart = rw given at ready.apart

    spare' : NotIn q (n ∷ rest)
    spare' = rw given at spare

    -- The list with the new node `m` is ready for the next call.
    entered-IsServed :
        (xs ys : List Ptr) (m : Ptr) (s' : Store E)
        → zs ≡ xs ++ ys
        → s.supply ≡ m ∷ rest
        → IsReady s' (xs ++ m ∷ ys)
        → s'.head ≡ s.head
        → s'.tail ≡ s.tail
        → s'.supply ≡ rest
        → IsServed s' (xs ++ m ∷ ys) q
    entered-IsServed xs ys m s' split given' ready' head tail supply = record {
      ready = ready';
      query = (
        query.0,
        λ d. query.1 (d ∙ head),
        λ d. query.2 (d ∙ tail),
        All-insert (λ y. q ≢ y) xs ys m (subst (NotIn q) split query.3) (rw given' at spare).0,
      );
      spare = rw supply spare'.1;
    }

    pub put-Follows : Follows s zs q tries fuel (Call.put_call k v)
    unfolding call
    put-Follows =
        elim (place_lem order s zs ready n rest given (made fields k v) tries (suc fuel) enough) [
          | inl (s', run, (xs, m, ys, split, given', ready', placed, (head, tail, supply))) ↦ (
            Answer.status done,
            xs ++ m ∷ ys,
            s',
            rw (
                put_done fields order s zs ready.list n rest given apart.0.0 apart.0.1 apart.0.2
                  apart.0.3 ready.seed k v tries (suc fuel) enough s' run),
            entered-IsServed xs ys m s' split given' ready' head tail supply,
            reference_call-put k v (entries s zs) _ placed,
            rw split (omega (arith, length-append xs ys, length-append xs (m ∷ ys))),
            rw (given, supply) (omega arith),
          )
          | inr (s', t, run, freed, (ready', refused, same, (head, tail, supply))) ↦ (
            Answer.status eexist,
            zs,
            t,
            rw (
                put_refused fields order s zs ready.list n rest given apart.0.0 apart.0.1 apart.0.2
                  apart.0.3 ready.seed k v tries (suc fuel) enough s' t run freed),
            record {
              ready = ready';
              query = (query.0, λ d. query.1 (d ∙ head), λ d. query.2 (d ∙ tail), query.3);
              spare = rw supply spare'.1;
            },
            reference_call-put k v (entries s zs) _ refused
                ∙ ap (λ es. (Answer.status eexist, es)) (sym same),
            omega arith,
            rw (given, supply) (omega arith),
          )
        ]

    pub dup-Follows : Follows s zs q tries fuel (Call.dup_call k v)
    unfolding call reference_call
    dup-Follows =
        let (s', run, (xs, m, ys, split, given', ready', placed, (head, tail, supply))) =
          place_dup_lem order s zs ready n rest given (made fields k v) tries (suc fuel) enough in
        (
          Answer.status done,
          xs ++ m ∷ ys,
          s',
          rw (
              dup_done fields order s zs ready.list n rest given apart.0.0 apart.0.1 apart.0.2
                apart.0.3 ready.seed k v tries (suc fuel) enough s' run),
          entered-IsServed xs ys m s' split given' ready' head tail supply,
          ap (λ es. (Answer.status done, es)) placed,
          rw split (omega (arith, length-append xs ys, length-append xs (m ∷ ys))),
          rw (given, supply) (omega arith),
        )
