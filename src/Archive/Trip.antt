-- ===== src/Archive/Trip.antt =====
-- An archive that is written is read back.
use Prim.Native.Nat.{Ordering}
use skiplist.Base.{
  ℕ, suc, ◌+◌, ◌≤◌, ◌<◌, ◌≡◌, refl, sym, ap, ◌∙◌, arith, inl, inr, false, List, [], ◌∷◌, ◌++◌,
  length, append-nil, append_assoc, length-map, length-append, Ordered, Ordered-middle, subst, All,
  Option, none, some,
}
use skiplist.Store.{Ptr, Callbacks, Store, ok, size_mod}
use skiplist.Chain.{IsOrder, IsList, StrictlySorted}
use skiplist.Insert.{done}
use skiplist.Session.{entries, IsReady}
use skiplist.Session.Entries.{All-of_map}
use skiplist.Session.Reference.{enter, enter-place}
use skiplist.Archive.{write_le32, write_le64}
use skiplist.Archive.Files.{
  Libc, Blocks, max_record, magic, load_record, load_records, serialize, deserialize,
}
use skiplist.Archive.Record.{load_record_lem}
use skiplist.Archive.Read.{IsReader, read_record_lem, read_header_lem}
use skiplist.Archive.Save.{IsWriter, IsCoded, framed, all_framed, archive_of, serialize_lem}

-- in ascending order, without equal entries
abbrev pub Ascending : {E : Type 0} ⦃c : Callbacks E⦄ → List E → Type 0
Ascending ⦃c = c⦄ = Ordered (λ x y. c.compare_entries x y ≡ Ordering.lt)

abbrev known : {A : Type 0} → A → Option A → A
known d none = d
known d (some a) = a

module _ {E W : Type 0} ⦃c : Callbacks E⦄ (blocks : Blocks E) (record_of : E → List ℕ)
    (order : IsOrder c) (libc : Libc W) (left : W → List ℕ) (reader : IsReader libc left)
    (tries fuel : ℕ) where
  -- An entry that is behind all of the list's.
  load_last :
      (e : E) (s : Store E) (zs : List Ptr)
      → IsReady s zs
      → IsCoded blocks record_of e
      → All (λ x. c.compare_entries x e ≡ Ordering.lt) (entries s zs)
      → length zs ≤ fuel
      → 1 ≤ length s.supply
      → (zs' : List Ptr) × (s' : Store E) × (load_record blocks
            (suc tries)
            (suc fuel)
            (record_of e)
            s
          ≡ ok done s')
        × IsReady s' zs'
        × (entries s' zs' ≡ entries s zs ++ e ∷ [])
        × (length zs' ≡ suc (length zs))
        × (length s.supply ≡ suc (length s'.supply))
  load_last e s zs ready coded above enough spare =
      let place : enter e (entries s zs) ≡ some (entries s zs ++ e ∷ []) =
        ap (enter e) (sym (append-nil (entries s zs))) ∙ enter-place e (entries s zs) [] above tt in
      let read : (blocks.read_entry (record_of e) c.blank_entry).1 ≡ e =
        ap (λ r. r.1) coded.reads in
      elim (load_record_lem blocks order s zs ready (record_of e) tries fuel enough) [
        | inl (empty, run) ↦
            absurd
              (let nothing : length s.supply ≡ 0 = ap length empty in omega (arith, nothing, spare))
        | inr (n, rest, given, loaded) ↦ elim loaded [
          | inl (bad, _) ↦ absurd (bad (ap (λ r. r.0) coded.reads))
          | inr
                (inl (
                  good,
                  (s', run, (xs, m, ys, split, given', ready', placed, (head, tail, supply))),
                )) ↦
              (
                xs ++ m ∷ ys,
                s',
                run,
                ready',
                ap (known []) (sym placed ∙ ap (λ a. enter a (entries s zs)) read ∙ place),
                omega (arith, length-append xs ys, length-append xs (m ∷ ys), ap length split),
                rw (given, supply) refl,
              )
          | inr (inr (good, (s', run, (ready', refused, same, spent)))) ↦
              absurd (
                let clash = sym place ∙ ap (λ a. enter a (entries s zs)) (sym read) ∙ refused in cc)
        ]
      ]

  load_all :
      (es : List E) (more : List ℕ) (w : W) (s : Store E) (zs : List Ptr)
      → IsReady s zs
      → All (IsCoded blocks record_of) es
      → Ascending (entries s zs ++ es)
      → left w ≡ all_framed record_of es ++ more
      → length zs + length es ≤ fuel
      → length es ≤ length s.supply
      → (w' : W) × (zs' : List Ptr) × (s' : Store E) × (load_records blocks libc
            (suc tries)
            (suc fuel)
            (length es)
            w
            s
          ≡ ok (done, w') s')
        × IsReady s' zs'
        × (entries s' zs' ≡ entries s zs ++ es)
        × (left w' ≡ more)
  unfolding load_records
  load_all [] more w s zs ready coded up e enough spare =
      (w, zs, s, refl, ready, sym (append-nil (entries s zs)), e)
  load_all (a ∷ es) more w s zs ready coded up e enough spare =
      let acc = entries s zs in
      let short : length (record_of a) ≤ max_record =
        omega (arith, coded.0.fits, coded.0.bounded) in
      let (w₁, next, rest) =
        read_record_lem libc left reader (record_of a) (all_framed record_of es ++ more) w
          (e ∙ append_assoc (framed (record_of a)) (all_framed record_of es) more) short in
      let (zs₁, s₁, run, ready₁, now, longer, left₁) =
        load_last a s zs ready coded.0 (Ordered-middle _ acc es a up).0 (omega (arith, enough))
          (omega (arith, spare)) in
      let regroup : acc ++ a ∷ es ≡ entries s₁ zs₁ ++ es =
        sym (append_assoc acc (a ∷ []) es) ∙ ap (λ l. l ++ es) (sym now) in
      let (w', zs', s', runs, ready', all, end) =
        load_all es more w₁ s₁ zs₁ ready₁ coded.1 (subst Ascending regroup up) rest
          (omega (arith, enough, longer)) (omega (arith, spare, left₁)) in
      (w', zs', s', rw (next, run) runs, ready', all ∙ sym regroup, end)

  -- skip_deserialize_ of an archive of entries in ascending order, with a C library whose calls succeed, into
  -- an empty list with fresh memory for them, without snapshots and with a generator state that is not zero,
  -- and fuel for their number: it returns 0, and the list has these entries.
  pub deserialize_lem :
      (es : List E) (more : List ℕ) (w : W) (s : Store E)
      → IsReady s []
      → All (IsCoded blocks record_of) es
      → Ascending es
      → left w ≡ archive_of record_of es ++ more
      → length es ≤ fuel
      → length es < size_mod
      → length es ≤ length s.supply
      → (w' : W) × (zs' : List Ptr) × (s' : Store E) × (deserialize blocks libc
            (suc tries)
            (suc fuel)
            w
            s
          ≡ ok (done, w') s')
        × IsReady s' zs'
        × (entries s' zs' ≡ es)
        × (left w' ≡ more)
  unfolding deserialize
  deserialize_lem es more w s ready coded up e enough small spare =
      let (w₁, header, rest) =
        read_header_lem libc left reader (length es) (all_framed record_of es ++ more) w small (
          e
          ∙ ap (λ l. magic ++ l)
              (append_assoc (write_le32 1) (write_le64 (length es) ++ all_framed record_of es) more
                ∙ ap (λ l. write_le32 1 ++ l)
                    (append_assoc (write_le64 (length es)) (all_framed record_of es) more))) in
      let (w', zs', s', run, ready', all, end) =
        load_all es more w₁ s [] ready coded up rest (omega (arith, enough)) spare in
      (w', zs', s', rw (header, run), ready', all, end)

Ascending-of_strict :
    {E : Type 0} ⦃c : Callbacks E⦄ (s : Store E) (zs : List Ptr)
    → StrictlySorted s zs
    → Ascending (entries s zs)
Ascending-of_strict s [] strict = tt
Ascending-of_strict s (z ∷ zs) strict =
    (All-of_map _ s.entry zs strict.0, Ascending-of_strict s zs strict.1)

-- An archive that skip_serialize_ has written of a well-formed list that never held duplicates, when
-- skip_deserialize_ reads it into an empty list with fresh memory for as many nodes, without snapshots and
-- with a generator state that is not zero, gives a well-formed list with the same entries, and both return
-- 0: with fewer than 2 ^ 64 nodes, a comparison that is an order, a C library whose calls succeed, a file
-- that is empty at first and reopened in between, the user's blocks within the bound on a record and able
-- to read what they write, and fuel for the length of the list.
pub round_trip :
    {E W : Type 0} ⦃c : Callbacks E⦄ (blocks : Blocks E) (record_of : E → List ℕ)
    (order : IsOrder c) (libc : Libc W) (content left : W → List ℕ) (reopen : W → W)
    → IsWriter libc content
    → IsReader libc left
    → ((w : W) → left (reopen w) ≡ content w)
    → (s : Store E) (zs : List Ptr) (w : W) (t : Store E) (tries fuel : ℕ) → IsList s zs
    → s.has_dups ≡ false
    → All (IsCoded blocks record_of) (entries s zs)
    → content w ≡ []
    → IsReady t []
    → length zs ≤ fuel
    → length zs < size_mod
    → length zs ≤ length t.supply
    → (w' : W) × (w'' : W) × (zs' : List Ptr) × (t' : Store E) × (serialize blocks libc
          (suc fuel)
          w
          s
        ≡ ok (done, w') s)
      × (deserialize blocks libc (suc tries) (suc fuel) (reopen w') t ≡ ok (done, w'') t')
      × IsReady t' zs'
      × (entries t' zs' ≡ entries s zs)
round_trip blocks record_of order libc content left reopen writer reader reopened s zs w t tries
      fuel is single coded clear ready enough small spare =
    let es = entries s zs in
    let size = length-map s.entry zs in
    let (w', saved, written) =
      serialize_lem libc content writer blocks record_of s zs fuel w is enough small coded in
    let bytes : left (reopen w') ≡ archive_of record_of es ++ [] =
      reopened w'
      ∙ written
      ∙ ap (λ l. l ++ archive_of record_of es) clear
      ∙ sym (append-nil (archive_of record_of es)) in
    let (w'', zs', t', loaded, ready', same, _) =
      deserialize_lem blocks record_of order libc left reader tries fuel es [] (reopen w') t ready
        coded (Ascending-of_strict s zs (is.strict single)) bytes (omega (arith, size, enough))
        (omega (arith, size, small)) (omega (arith, size, spare)) in
    (w', w'', zs', t', saved, loaded, ready', same)
