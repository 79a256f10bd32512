-- ===== src/Merkle/Pool/Everywhere.antt =====
-- merkleservice/pool.go: what the pool reports registered has reached every endpoint, or is owed by it.
use arcade.Prelude.{
  ℕ, zero, suc, ◌+◌, ◌-◌, ◌≡◌, ◌⊎◌, refl, sym, ap, subst, ◌∙◌, inl, inr, String, Bool, true, false,
  not, ◌&&◌, ◌||◌, List, [], ◌∷◌, ◌++◌, map, Option, none, some, arith, if◌then◌else◌, length,
  get_elem?,
}
use arcade.Merkle.Answers.{
  CallError, no_healthy_endpoints, merge_errors, In, IsMerged, merge_errors-IsMerged,
}
use arcade.Merkle.Catchup.{Registration}
use arcade.Merkle.Catchup.Queue.{IsKeyed}
use arcade.Merkle.Endpoint.{Endpoint, record_call, queue}
use arcade.Merkle.Endpoint.Owed.{in_queue}
use arcade.Merkle.Endpoint.Owed.Sends.{
  record_call-pending, put_back-IsKeyed, put_back-in_queue, put_back_self,
}
use arcade.Merkle.Pool.{
  replicate, closed_endpoints, accepted, record_calls, answers_for, merge_all, owe, after_batch,
  answer_batch, register_batch_with_results,
}

abbrev pub Keyed : Endpoint → Type 0
Keyed ep = IsKeyed ep.pending.order ep.pending.by_tx_id

record_calls-pending :
    (threshold : ℕ) (calls : List (Bool × ℕ × Option CallError)) (ep : Endpoint)
    → (record_calls threshold calls ep).pending ≡ ep.pending
unfolding record_calls
record_calls-pending threshold [] ep = refl
record_calls-pending threshold ((ended, now, err) ∷ calls) ep =
    record_calls-pending threshold calls (record_call threshold ended now err ep)
    ∙ record_call-pending threshold ended now err ep

some-same : (a b : Registration) → some a ≡ some b → a ≡ b
some-same a b e = ground (arith, e)

-- What one turn does, where `b` says that the endpoint accepted.
one-in_queue :
    (b : Bool) (reg : Registration) (ep : Endpoint) (k : String)
    → in_queue k ep.pending ≡ true
    → in_queue k (if b then ep else queue reg ep).pending ≡ true
unfolding queue
one-in_queue true reg ep k h = h
one-in_queue false reg ep k h = put_back-in_queue true reg ep.pending k h

one-Keyed :
    (b : Bool) (reg : Registration) (ep : Endpoint)
    → Keyed ep
    → Keyed (if b then ep else queue reg ep)
unfolding queue
one-Keyed true reg ep v = v
one-Keyed false reg ep v = put_back-IsKeyed true reg ep.pending v

one-owed :
    (b : Bool) (reg : Registration) (ep : Endpoint)
    → Keyed ep
    → (in_queue reg.tx_id (if b then ep else queue reg ep).pending || b) ≡ true
unfolding queue
one-owed true reg ep v = ground arith
one-owed false reg ep v = ground (arith, put_back_self true reg ep.pending v)

module _ (answers : ℕ → Option CallError) (asked : Bool) where
  owe-in_queue :
      (j : ℕ) (regs : List Registration) (out : List (Option CallError)) (ep : Endpoint)
      (k : String)
      → in_queue k ep.pending ≡ true
      → in_queue k (owe answers asked j regs out ep).pending ≡ true
  unfolding owe
  owe-in_queue j [] out ep k h = h
  owe-in_queue j (reg ∷ regs) [] ep k h = h
  owe-in_queue j (reg ∷ regs) (some e ∷ out) ep k h = owe-in_queue (suc j) regs out ep k h
  owe-in_queue j (reg ∷ regs) (none ∷ out) ep k h =
      let b = asked && accepted (answers j) in
      owe-in_queue (suc j) regs out (if b then ep else queue reg ep) k (one-in_queue b reg ep k h)

  owe-owed :
      (j i n : ℕ) (regs : List Registration) (out : List (Option CallError)) (ep : Endpoint)
      (reg : Registration)
      → n ≡ i + j
      → Keyed ep
      → get_elem? regs i ≡ some reg
      → get_elem? out i ≡ some none
      → (in_queue reg.tx_id (owe answers asked j regs out ep).pending
          || (asked && accepted (answers n)))
        ≡ true
  unfolding owe
  owe-owed j i n [] out ep reg m v e f = absurd (ground (arith, e))
  owe-owed j i n (r ∷ regs) [] ep reg m v e f = absurd (ground (arith, f))
  owe-owed j zero n (r ∷ regs) (some x ∷ out) ep reg m v e f = absurd (ground (arith, f))
  owe-owed j zero n (r ∷ regs) (none ∷ out) ep reg m v e f =
      let b = asked && accepted (answers j) in
      let ep' = if b then ep else queue r ep in
      let q : n ≡ j = omega (arith, m) in
      rw (q, ← some-same r reg e)
        (ground (arith, one-owed b r ep v, owe-in_queue (suc j) regs out ep' r.tx_id))
  owe-owed j (suc i) n (r ∷ regs) (some x ∷ out) ep reg m v e f =
      owe-owed (suc j) i n regs out ep reg (omega (arith, m)) v e f
  owe-owed j (suc i) n (r ∷ regs) (none ∷ out) ep reg m v e f =
      let b = asked && accepted (answers j) in
      owe-owed (suc j) i n regs out (if b then ep else queue r ep) reg (omega (arith, m))
        (one-Keyed b r ep v) e f

In-map :
    (f : Endpoint → Option CallError) (targets : List Endpoint) (n : ℕ)
    → In none (map f targets ++ replicate n (some no_healthy_endpoints))
    → (i : ℕ) × (ep : Endpoint) × (get_elem? targets i ≡ some ep) × (f ep ≡ none)
In-map f [] zero h = elim h [ ]
In-map f [] (suc n) (inl e) = absurd (ground (arith, e))
In-map f [] (suc n) (inr h) = In-map f [] n h
In-map f (t ∷ targets) n (inl e) = (0, t, refl, e)
In-map f (t ∷ targets) n (inr h) = let (i, ep, e, q) = In-map f targets n h in (suc i, ep, e, q)

get_elem?-map :
    (f : Endpoint → Endpoint) (eps : List Endpoint) (i : ℕ) (ep : Endpoint)
    → get_elem? eps i ≡ some ep
    → get_elem? (map f eps) i ≡ some (f ep)
get_elem?-map f [] i ep e = absurd (ground (arith, e))
get_elem?-map f (x ∷ eps) zero ep e = ap some (ap f (ground (arith, e)))
get_elem?-map f (x ∷ eps) (suc i) ep e = get_elem?-map f eps i ep e

merged-none :
    (ended : Bool) (errs : List (Option CallError)) (x : Option CallError)
    → x ≡ none
    → IsMerged ended errs x
    → In none errs ⊎ (errs ≡ [])
merged-none ended errs none q h = h
merged-none ended errs (some e) q h = absurd (ground (arith, q))

merge_all-none :
    (ended : Bool) (answers : String → ℕ → Option CallError) (eps : List Endpoint) (t : Endpoint)
    (targets : List Endpoint) (j i n : ℕ) (regs : List Registration)
    → n ≡ i + j
    → get_elem? (merge_all ended answers eps (t ∷ targets) j regs) i ≡ some none
    → (a : ℕ) × (ep : Endpoint) × (get_elem? (t ∷ targets) a ≡ some ep) × (answers ep.url n ≡ none)
unfolding merge_all answers_for
merge_all-none ended answers eps t targets j i n [] m e = absurd (ground (arith, e))
merge_all-none ended answers eps t targets j zero n (reg ∷ regs) m e =
    let q : j ≡ n = omega (arith, m) in
    let errs = answers_for answers eps (t ∷ targets) j in
    elim (merged-none ended errs (merge_errors ended errs) (ground (arith, e))
      (merge_errors-IsMerged ended errs)) [
        | inl h ↦
            subst
              (λ x.
                (a : ℕ) × (ep : Endpoint) × (get_elem? (t ∷ targets) a ≡ some ep)
                × (answers ep.url x ≡ none))
              q
              (In-map (λ ep. answers ep.url j) (t ∷ targets) (length eps - length (t ∷ targets)) h)
        | inr h ↦ absurd (ground (arith, h))
      ]
merge_all-none ended answers eps t targets j (suc i) n (reg ∷ regs) m e =
    merge_all-none ended answers eps t targets (suc j) i n regs (omega (arith, m)) e

module _ (threshold : ℕ) (ended : Bool) (answers : String → ℕ → Option CallError)
    (calls : String → List (Bool × ℕ × Option CallError)) where
  -- The endpoint that accepted, and what another owes.
  abbrev pub Reached : List Endpoint → ℕ → ℕ → Registration → Endpoint → List Endpoint → Type 0
  Reached eps i b reg ep after =
      ((a : ℕ) × (e : Endpoint) × (get_elem? (closed_endpoints eps) a ≡ some e)
        × (answers e.url i ≡ none))
      × ((e : Endpoint) × (get_elem? after b ≡ some e)
          × ((in_queue reg.tx_id e.pending || (not ep.is_open && accepted (answers ep.url i)))
              ≡ true))

  after_batch-owed :
      (regs : List Registration) (out : List (Option CallError)) (i : ℕ) (reg : Registration)
      (ep : Endpoint)
      → Keyed ep
      → get_elem? regs i ≡ some reg
      → get_elem? out i ≡ some none
      → (in_queue reg.tx_id (after_batch threshold ended answers calls regs out ep).pending
          || (not ep.is_open && accepted (answers ep.url i)))
        ≡ true
  unfolding after_batch
  after_batch-owed regs out i reg ep v e f =
      owe-owed (answers ep.url) (not ep.is_open) 0 i i regs out
        (if ep.is_open then ep else record_calls threshold (calls ep.url) ep) reg (omega arith)
        (called_Keyed (ep.is_open)) e f
    where
      called_Keyed : (o : Bool) → Keyed (if o then ep else record_calls threshold (calls ep.url) ep)
      called_Keyed true = v
      called_Keyed false =
          subst (λ z. IsKeyed z.order z.by_tx_id)
            (sym (record_calls-pending threshold (calls ep.url) ep)) v

  answered-Reached :
      (regs : List Registration) (eps targets : List Endpoint) (i b : ℕ) (reg : Registration)
      (ep : Endpoint)
      → targets ≡ closed_endpoints eps
      → Keyed ep
      → get_elem? eps b ≡ some ep
      → get_elem? regs i ≡ some reg
      → let (after, out) = answer_batch threshold ended answers calls regs eps targets in
        get_elem? out i ≡ some none → Reached eps i b reg ep after
  unfolding answer_batch
  answered-Reached regs eps [] i b reg ep c v g e f = absurd (none_accepted regs i f)
    where
      none_accepted :
          (rs : List Registration) (n : ℕ)
          → get_elem? (map (λ (r : Registration). some no_healthy_endpoints) rs) n ≡ some none
          → ⊥
      none_accepted [] n h = ground (arith, h)
      none_accepted (r ∷ rs) zero h = ground (arith, h)
      none_accepted (r ∷ rs) (suc n) h = none_accepted rs n h
  answered-Reached regs eps (t ∷ targets) i b reg ep c v g e f =
      let out = merge_all ended answers eps (t ∷ targets) 0 regs in
      let (a, x, p, q) = merge_all-none ended answers eps t targets 0 i i regs (omega arith) f in
      (
        (a, x, subst (λ z. get_elem? z a ≡ some x) c p, q),
        (
          after_batch threshold ended answers calls regs out ep,
          get_elem?-map (after_batch threshold ended answers calls regs out) eps b ep g,
          after_batch-owed regs out i reg ep v e f,
        ),
      )

  -- Where the pool reports a registration as registered: some endpoint whose breaker was closed
  -- has accepted it, and each endpoint with a well-formed queue has accepted it, or its queue holds the
  -- transaction or has dropped entries since the last resync.
  pub registered_everywhere :
      (regs : List Registration) (eps : List Endpoint) (i b : ℕ) (reg : Registration)
      (ep : Endpoint)
      → Keyed ep
      → get_elem? eps b ≡ some ep
      → get_elem? regs i ≡ some reg
      → let (after, out) = register_batch_with_results threshold ended answers calls regs eps in
        get_elem? out i ≡ some none → Reached eps i b reg ep after
  unfolding register_batch_with_results
  registered_everywhere [] eps i b reg ep v g e f = absurd (ground (arith, e))
  registered_everywhere (r ∷ regs) eps i b reg ep v g e f =
      answered-Reached (r ∷ regs) eps (closed_endpoints eps) i b reg ep refl v g e f
