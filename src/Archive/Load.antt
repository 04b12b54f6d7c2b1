-- ===== src/Archive/Load.antt =====
-- skip_deserialize_ on every stream.
use skiplist.Base.{
  ℕ, zero, suc, ◌+◌, ◌≤◌, ◌≡◌, refl, ap, inl, inr, arith, List, ◌∷◌, ◌++◌, length, length-append,
  ◌⊎◌,
}
use skiplist.Store.{Ptr, Callbacks, Store, Cmd, ok}
use skiplist.Chain.{IsOrder}
use skiplist.Insert.{Status, done, enomem, eexist, callback}
use skiplist.Session.{IsReady}
use skiplist.Archive.Record.{load_record_lem}
use skiplist.Archive.Files.{
  if_done, Libc, Blocks, read_record, read_header, load_record, load_records, deserialize,
}

pub if_done-cases :
    (rc : Status) → (rc ≡ done) ⊎ ((A : Type 0) (a : A) (k : Status → A) → if_done rc a k ≡ k rc)
if_done-cases Status.done = inl refl
if_done-cases Status.einval = inr (λ A a k. refl)
if_done-cases Status.enoent = inr (λ A a k. refl)
if_done-cases Status.eexist = inr (λ A a k. refl)
if_done-cases Status.enomem = inr (λ A a k. refl)
if_done-cases Status.eio = inr (λ A a k. refl)
if_done-cases Status.eoverflow = inr (λ A a k. refl)
if_done-cases (Status.callback n) = inr (λ A a k. refl)

module _ {E W : Type 0} ⦃c : Callbacks E⦄ (blocks : Blocks E) (libc : Libc W) (order : IsOrder c)
    (tries fuel : ℕ) where
  -- One record leaves a list that is ready for the next.
  next-IsReady :
      (buf : List ℕ) (s : Store E) (zs : List Ptr)
      → IsReady s zs
      → length zs + length s.supply ≤ fuel
      → (rc : Status) × (zs' : List Ptr) × (s' : Store E) × (load_record blocks
            (suc tries)
            (suc fuel)
            buf
            s
          ≡ ok rc s')
        × IsReady s' zs'
        × (length zs' + length s'.supply ≤ fuel)
  next-IsReady buf s zs ready enough =
      elim (load_record_lem blocks order s zs ready buf tries fuel (omega (arith, enough))) [
        | inl (empty, run) ↦ (enomem, zs, s, run, ready, enough)
        | inr (n, rest, given, loaded) ↦
            let spent : length s.supply ≡ suc (length rest) = ap length given in
            elim loaded [
              | inl (bad, (s', run, ready', same, (head, tail, supply))) ↦
                  (callback _, zs, s', run, ready', rw supply (omega (arith, enough, spent)))
              | inr
                    (inl (
                      good,
                      (s', run, (xs, m, ys, split, given', ready', placed, (head, tail, supply))),
                    )) ↦
                  (
                    done,
                    xs ++ m ∷ ys,
                    s',
                    run,
                    ready',
                    rw supply (
                        omega (
                          arith,
                          enough,
                          spent,
                          length-append xs ys,
                          length-append xs (m ∷ ys),
                          ap length split,
                        )),
                  )
              | inr (inr (good, (s', run, (ready', refused, same, (head, tail, supply))))) ↦
                  (eexist, zs, s', run, ready', rw supply (omega (arith, enough, spent)))
            ]
      ]

  load_records_lem :
      (count : ℕ) (w : W) (s : Store E) (zs : List Ptr)
      → IsReady s zs
      → length zs + length s.supply ≤ fuel
      → (rc : Status) × (w' : W) × (zs' : List Ptr) × (s' : Store E) × (load_records blocks libc
            (suc tries)
            (suc fuel)
            count
            w
            s
          ≡ ok (rc, w') s')
        × IsReady s' zs'
  unfolding load_records
  load_records_lem zero w s zs ready enough = (done, w, zs, s, refl, ready)
  load_records_lem (suc count) w s zs ready enough =
      let next = read_record libc w in
      elim (if_done-cases next.0.0) [
        | inr failed ↦
            (next.0.0, next.1, zs, s, ap (λ f. f s) (failed (Cmd E (Status × W)) _ _), ready)
        | inl e ↦
            let (rc, zs', s', run, ready', enough') = next-IsReady next.0.1 s zs ready enough in
            elim (if_done-cases rc) [
              | inr refused ↦ (
                rc,
                next.1,
                zs',
                s',
                rw (e, run) (ap (λ f. f s') (refused (Cmd E (Status × W)) _ _)),
                ready',
              )
              | inl d ↦
                  let (rc', w', zs'', t, later, ready'') =
                    load_records_lem count next.1 s' zs' ready' enough' in
                  (rc', w', zs'', t, rw (e, run, d, later), ready'')
            ]
      ]

  -- skip_deserialize_ of any stream, whatever the C library answers, into a well-formed list with fresh
  -- memory, without snapshots and with a generator state that is not zero, with a comparison that is an order
  -- and fuel for all the nodes that there can be: it ends, without a fault, and the list is again such a list,
  -- whether the stream was an archive or not.
  pub deserialize_ends :
      (w : W) (s : Store E) (zs : List Ptr)
      → IsReady s zs
      → length zs + length s.supply ≤ fuel
      → (rc : Status) × (w' : W) × (zs' : List Ptr) × (s' : Store E) × (deserialize blocks libc
            (suc tries)
            (suc fuel)
            w
            s
          ≡ ok (rc, w') s')
        × IsReady s' zs'
  unfolding deserialize
  deserialize_ends w s zs ready enough =
      let header = read_header libc w in
      elim (if_done-cases header.0.0) [
        | inr failed ↦
            (header.0.0, header.1, zs, s, ap (λ f. f s) (failed (Cmd E (Status × W)) _ _), ready)
        | inl e ↦
            let (rc, w', zs', s', run, ready') =
              load_records_lem header.0.1 header.1 s zs ready enough in
            (rc, w', zs', s', rw (e, run), ready')
      ]
