-- ===== src/Session/Calls.antt =====
-- A list in use by its keys: the calls of the functions of SKIPLIST_DECL_ACCESS, one after another, and
-- what the reference answers.
use skiplist.Base.{ℕ, ◌≡◌, List, [], ◌∷◌, Option, none, some, NotIn}
use skiplist.Store.{Ptr, Callbacks, Store, Cmd, pure, ◌>>=◌}
use skiplist.Insert.{Status, done, eexist, enoent}
use skiplist.Access.{Fields, put_value, dup_value, del, get_value}
use skiplist.Session.{IsApart, IsReady}
use skiplist.Session.Reference.{enter, enter_dup, leave, find}

pub data Call (K V : Type 0) : Type 0 where
  put_call : K → V → Call K V
  dup_call : K → V → Call K V
  del_call : K → Call K V
  get_call : K → Call K V

pub data Answer (V : Type 0) : Type 0 where
  status : Status → Answer V
  value : V → Answer V

module _ {E K V : Type 0} ⦃c : Callbacks E⦄ (fields : Fields E K V) where
  -- one call of the list, whose query has the address `q`
  unfoldable pub call : ℕ → ℕ → Ptr → Call K V → Cmd E (Answer V)
  call tries fuel q (Call.put_call k v) = do
    rc ← put_value fields tries fuel k v
    pure (Answer.status rc)
  call tries fuel q (Call.dup_call k v) = do
    rc ← dup_value fields tries fuel k v
    pure (Answer.status rc)
  call tries fuel q (Call.del_call k) = do rc ← del fields tries fuel q k; pure (Answer.status rc)
  call tries fuel q (Call.get_call k) = do
    v ← get_value fields tries fuel q k
    pure (Answer.value v)

  unfoldable pub run : ℕ → ℕ → Ptr → List (Call K V) → Cmd E (List (Answer V))
  run tries fuel q [] = pure []
  run tries fuel q (a ∷ later) = do
    answer ← call tries fuel q a
    answers ← run tries fuel q later
    pure (answer ∷ answers)

  -- the entry that a key asks for
  abbrev pub wanted : K → E
  wanted k = fields.query_entry c.blank_entry k

  abbrev pub made : K → V → E
  made k v = fields.with_value (fields.with_key c.blank_entry k) v

  abbrev pub or_else : {A : Type 0} → Option A → A → A
  or_else none a = a
  or_else (some b) a = b

  abbrev pub status_of : Status → Option (List E) → Answer V
  status_of rc none = Answer.status rc
  status_of rc (some es) = Answer.status done

  abbrev pub value_or : Option E → V
  value_or none = fields.zero_value
  value_or (some e) = fields.value_of e

  -- What the reference answers, and its entries afterwards.
  unfoldable pub reference_call : Call K V → List E → Answer V × List E
  reference_call (Call.put_call k v) es =
      (status_of eexist (enter (made k v) es), or_else (enter (made k v) es) es)
  reference_call (Call.dup_call k v) es = (Answer.status done, enter_dup (made k v) es)
  reference_call (Call.del_call k) es =
      (status_of enoent (leave (wanted k) es), or_else (leave (wanted k) es) es)
  reference_call (Call.get_call k) es = (Answer.value (value_or (find (wanted k) es)), es)

  unfoldable pub reference_run : List (Call K V) → List E → List (Answer V) × List E
  reference_run [] es = ([], es)
  reference_run (a ∷ later) es =
      let first = reference_call a es in
      let rest = reference_run later first.1 in (first.0 ∷ rest.0, rest.1)

  -- The user's block for the query sets all that the comparison reads.
  abbrev pub IsQuery : Type 0
  IsQuery =
      (x a b : E) (k : K)
      → c.compare_entries x (fields.query_entry a k) ≡ c.compare_entries x (fields.query_entry b k)

-- The list, and a variable for the query that is no node and will not be one.
pub record IsServed {E : Type 0} ⦃c : Callbacks E⦄ (s : Store E) (zs : List Ptr) (q : Ptr)
    : Type 0 where
  pub ready : IsReady s zs
  pub query : IsApart s zs q
  pub spare : NotIn q s.supply
