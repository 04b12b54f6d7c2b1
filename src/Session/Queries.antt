-- ===== src/Session/Queries.antt =====
-- One call of skip_del_ or skip_get_ next to the reference's.
use Prim.Native.Nat.{Ordering}
use skiplist.Base.{
  ℕ, suc, ◌≤◌, ◌≡◌, ◌≢◌, refl, sym, ap, subst, ◌∙◌, inl, inr, Ordering-cases, arith, false, List,
  [], ◌∷◌, ◌++◌, map, length, length-append, Option, none, some, All, All-map, All-remove, NotIn,
  ==_ne, ==_self,
}
use skiplist.Store.{Ptr, Callbacks, Store, update}
use skiplist.Chain.{IsOrder, IsInner, IsList}
use skiplist.Insert.{done, enoent}
use skiplist.Remove.Correct.{remove_lem}
use skiplist.Access.{Fields, begin_query, end_query, del}
use skiplist.Access.Frame.{frame-IsList}
use skiplist.Access.Get.{begun, begun_list, begun-IsInner, get_lem}
use skiplist.Session.{entries, IsApart}
use skiplist.Session.Reference.{leave, find, find-place, find-none}
use skiplist.Session.Entries.{map_congr, map-append, All-of_map, leave-of_Cut, leave-of_NoEqual}
use skiplist.Session.Calls.{
  Call, Answer, call, reference_call, IsServed, IsQuery, or_else, status_of, value_or, wanted,
}
use skiplist.Session.Steps.{Follows}

module _ {E : Type 0} ⦃c : Callbacks E⦄ where
  -- The comparison with a query is all that the reference reads of it.
  pub leave_congr :
      (a b : E)
      → ((x : E) → c.compare_entries x a ≡ c.compare_entries x b)
      → (es : List E) → leave a es ≡ leave b es
  unfolding leave
  leave_congr a b same [] = refl
  leave_congr a b same (x ∷ es) = elim (Ordering-cases (c.compare_entries x b)) [
    | inl d ↦ rw (leave, same x ∙ d, d, leave_congr a b same es)
    | inr (inl d) ↦ rw (leave, same x ∙ d, d)
    | inr (inr d) ↦ rw (leave, same x ∙ d, d)
  ]

  -- The query is gone from the memory.
  ended-IsList :
      (u : Store E) (zs : List Ptr) (q : Ptr)
      → IsApart u zs q
      → IsList u zs
      → IsList (record u { live = update u.live q false }) zs
  ended-IsList u zs q apart list =
      frame-IsList u zs list (update u.live q false) u.entry
        (All-map (λ z. q ≢ z) zs (λ z d. (rw (==_ne (λ k. d (sym k))), refl)) apart.3)
        (rw (==_ne (λ k. apart.1 (sym k)))) (rw (==_ne (λ k. apart.2 (sym k))))

module _ {E K V : Type 0} ⦃c : Callbacks E⦄ (fields : Fields E K V) (by_key : IsQuery fields)
    (order : IsOrder c) (s : Store E) (zs : List Ptr) (q : Ptr) (served : IsServed s zs q) (k : K)
    (tries fuel : ℕ) (enough : length zs ≤ suc fuel) where
  open served use {ready, query, spare}

  abbrev asking : Store E
  asking =
      begun fields order s zs ready.list q query.0 query.1 query.2 query.3 k tries (suc fuel) enough

  asking_list : IsList asking zs
  asking_list =
      begun_list fields order s zs ready.list q query.0 query.1 query.2 query.3 k tries (suc fuel)
        enough

  -- An entry of the list is the same while the query is there, and the query is as good as `wanted`.
  same_entries : (ws : List Ptr) → NotIn q ws → entries asking ws ≡ entries s ws
  same_entries ws apart =
      map_congr asking.entry s.entry ws
        (All-map (λ z. q ≢ z) ws (λ z d. rw (==_ne (λ i. d (sym i)))) apart)

  leave-wanted : leave (wanted fields k) (entries s zs) ≡ leave (asking.entry q) (entries asking zs)
  leave-wanted =
      leave_congr (wanted fields k) (asking.entry q)
        (λ x. by_key x c.blank_entry (s.entry q) k ∙ ap (c.compare_entries x) (sym at_query))
        (entries s zs)
      ∙ ap (leave (asking.entry q)) (sym (same_entries zs query.3))
    where
      at_query : asking.entry q ≡ fields.query_entry (s.entry q) k
      at_query = rw (==_self q)

  -- A list of some of the nodes, with the same sentinels and memory, is ready for the next call.
  moved-IsServed :
      (u : Store E) (ws : List Ptr)
      → IsList u ws
      → u.head ≡ s.head
      → u.tail ≡ s.tail
      → u.prng ≡ s.prng
      → u.supply ≡ s.supply
      → u.pres_era ≡ s.pres_era
      → ((n : Ptr) → NotIn n zs → NotIn n ws)
      → IsServed u ws q
  moved-IsServed u ws list head tail prng supply pres fewer =
      let moved : (n : Ptr) → IsApart s zs n → IsApart u ws n =
        λ n a. (a.0, λ d. a.1 (d ∙ head), λ d. a.2 (d ∙ tail), fewer n a.3) in
      record {
        ready = record {
          list = list;
          seed = rw prng ready.seed;
          none_kept = pres ∙ ready.none_kept;
          apart = rw supply (All-map (IsApart s zs) s.supply moved ready.apart);
          distinct = rw supply ready.distinct;
        };
        query = moved q query;
        spare = rw supply spare;
      }

  -- The list is ready for the next call when the query is gone.
  ended-IsServed :
      (u : Store E) (ws : List Ptr)
      → IsList u ws
      → u.head ≡ s.head
      → u.tail ≡ s.tail
      → u.prng ≡ s.prng
      → u.supply ≡ s.supply
      → u.pres_era ≡ s.pres_era
      → ((n : Ptr) → NotIn n zs → NotIn n ws)
      → IsServed (record u { live = update u.live q false }) ws q
  ended-IsServed u ws list head tail prng supply pres fewer =
      let apart : IsApart u ws q =
        (query.0, λ d. query.1 (d ∙ head), λ d. query.2 (d ∙ tail), fewer q query.3) in
      moved-IsServed (record u { live = update u.live q false }) ws (ended-IsList u ws q apart list)
        head tail prng supply pres fewer

  reference_call-del :
      (es : List E) (o : Option (List E))
      → leave (wanted fields k) es ≡ o
      → reference_call fields (Call.del_call k) es
        ≡ (status_of fields enoent o, or_else fields o es)
  unfolding reference_call
  reference_call-del es o e = rw e

  pub del-Follows : Follows fields s zs q tries fuel (Call.del_call k)
  unfolding call del begin_query end_query
  del-Follows =
      elim (remove_lem order asking zs asking_list q (query_inner) ready.none_kept tries fuel
        enough) [
          | inl (run, unequal) ↦ (
            Answer.status enoent,
            zs,
            record asking { live = update asking.live q false },
            rw run,
            ended-IsServed asking zs asking_list refl refl refl refl refl (λ n a. a),
            reference_call-del (entries s zs) none
                  (leave-wanted ∙ leave-of_NoEqual asking zs q unequal)
                ∙ ap (λ es. (Answer.status enoent, es)) (sym (same_entries zs query.3)),
            omega arith,
            omega arith,
          )
          | inr
                (
                  u,
                  run,
                  (
                    xs, n, ys, split, cut, equal, list, same, live, retired, head, tail, prng,
                    supply, pres,
                  ),
                ) ↦
              (
                Answer.status done,
                xs ++ ys,
                record u { live = update u.live q false },
                rw run,
                ended-IsServed u (xs ++ ys) list head tail prng supply pres
                    (λ m a. All-remove (λ z. m ≢ z) xs ys n (subst (NotIn m) split a)),
                reference_call-del (entries s zs) (some (entries u (xs ++ ys))) (
                    leave-wanted
                    ∙ ap (λ ws. leave (asking.entry q) (entries asking ws)) split
                    ∙ leave-of_Cut asking xs ys n q cut equal
                    ∙ ap (λ f. some (map f (xs ++ ys))) (sym same)),
                rw split (omega (arith, length-append xs ys, length-append xs (n ∷ ys))),
                rw supply (omega arith),
              )
        ]
    where
      query_inner : IsInner asking q
      query_inner =
          begun-IsInner fields order s zs ready.list q query.0 query.1 query.2 query.3 k tries
            (suc fuel) enough

  reference_call-get :
      (es : List E) (o : Option E)
      → find (wanted fields k) es ≡ o
      → reference_call fields (Call.get_call k) es ≡ (Answer.value (value_or fields o), es)
  unfolding reference_call
  reference_call-get es o e = rw e

  abbrev asked : E
  asked = fields.query_entry (s.entry q) k

  wanted_as : (x : E) → c.compare_entries x (wanted fields k) ≡ c.compare_entries x asked
  wanted_as x = by_key x c.blank_entry (s.entry q) k

  find-asked :
      (xs ys : List Ptr) (n : Ptr)
      → zs ≡ xs ++ n ∷ ys
      → All (λ x. c.compare_entries (s.entry x) asked ≡ Ordering.lt) xs
      → c.compare_entries (s.entry n) asked ≡ Ordering.eq
      → find (wanted fields k) (entries s zs) ≡ some (s.entry n)
  find-asked xs ys n split less equal =
      rw (split, map-append s.entry xs (n ∷ ys))
        (find-place (wanted fields k) (map s.entry xs) (map s.entry ys) (s.entry n)
          (All-of_map _ s.entry xs (
            All-map (λ x. c.compare_entries (s.entry x) asked ≡ Ordering.lt) xs
              (λ x d. wanted_as (s.entry x) ∙ d) less))
          (wanted_as (s.entry n) ∙ equal))

  pub get-Follows : Follows fields s zs q tries fuel (Call.get_call k)
  unfolding call
  get-Follows =
      let (s', list, (entry, head, tail, prng, supply, pres), answered) =
        get_lem fields order s zs ready.list q query.0 query.1 query.2 query.3 k tries (suc fuel)
          enough in
      let same : entries s' zs ≡ entries s zs =
        ap (λ f. map f zs) entry ∙ same_entries zs query.3 in
      let served' = moved-IsServed s' zs list head tail prng supply pres (λ n a. a) in
      let left : length s.supply ≤ suc (length s'.supply) = rw supply (omega arith) in
      elim answered [
        | inl (unequal, run, _) ↦
            let nothing = find-none (wanted fields k) (entries s zs) (
              All-of_map _ s.entry zs (
                All-map (λ x. c.compare_entries (s.entry x) asked ≢ Ordering.eq) zs
                  (λ x d e. d (sym (wanted_as (s.entry x)) ∙ e)) unequal)) in
            (
              Answer.value fields.zero_value,
              zs,
              s',
              rw run,
              served',
              reference_call-get (entries s zs) none nothing
                  ∙ ap (λ es. (Answer.value fields.zero_value, es)) (sym same),
              omega arith,
              left,
            )
        | inr (xs, n, ys, split, less, equal, run, _) ↦ (
          Answer.value (fields.value_of (s.entry n)),
          zs,
          s',
          rw run,
          served',
          reference_call-get (entries s zs) (some (s.entry n)) (find-asked xs ys n split less equal)
              ∙ ap (λ es. (Answer.value (fields.value_of (s.entry n)), es)) (sym same),
          omega arith,
          left,
        )
      ]
