-- ===== src/Propagation/Narrowing/Settled.antt =====
-- services/propagation/propagator.go: how narrowing settles a chunk.
use arcade.Prelude.{
  ℕ, zero, suc, ◌+◌, ◌*◌, ◌/◌, ◌≤◌, ◌<◌, ◌≡◌, refl, sym, ap, ◌∙◌, ◌⊎◌, inl, inr, Bool, true, false,
  ◌&&◌, List, [], ◌∷◌, ◌++◌, arith, ltb, length, take, drop, length-append, length-take,
  length-drop, All, All-append, Bool-cases, append-nil, append_assoc, subst,
}
use arcade.Propagation.Narrowing.{copy, broadcast_chunk}

take-drop {ℓ} : {A : Type ℓ} (n : ℕ) (xs : List A) → take n xs ++ drop n xs ≡ xs
take-drop zero xs = refl
take-drop (suc n) [] = refl
take-drop (suc n) (x ∷ xs) = ap (x ∷◌) (take-drop n xs)

copy-whole {ℓ} :
    {A : Type ℓ} (out results : List A) → length results ≡ length out → copy out results ≡ results
unfolding copy
copy-whole [] [] h = refl
copy-whole [] (r ∷ results) h = absurd (omega (arith, h))
copy-whole (o ∷ out) [] h = absurd (omega (arith, h))
copy-whole (o ∷ out) (r ∷ results) h = ap (r ∷◌) (copy-whole out results (omega (arith, h)))

-- One call of broadcastBatchToEndpoints: the state of the network that it met, its chunk, and its
-- results.
pub record Call (Net Msg TxResult : Type 0) : Type 0 where
  pub met : Net
  pub chunk : List Msg
  pub results : List TxResult

abbrev pub joined {ℓ κ} : {A : Type ℓ} {B : Type κ} → (A → List B) → List A → List B
joined f [] = []
joined f (a ∷ rest) = f a ++ joined f rest

joined-append {ℓ κ} :
    {A : Type ℓ} {B : Type κ} (f : A → List B) (xs ys : List A)
    → joined f (xs ++ ys) ≡ joined f xs ++ joined f ys
joined-append f [] ys = refl
joined-append f (x ∷ xs) ys =
    ap (f x ++◌) (joined-append f xs ys) ∙ sym (append_assoc (f x) (joined f xs) (joined f ys))

decided : (narrow : Bool) (n : ℕ) → (narrow && ltb 1 n) ≡ false → 0 < n → (narrow ≡ false) ⊎ (n ≡ 1)
decided true n b h = inr (ground (arith, b))
decided false n b h = inl refl

module _ {Net Msg TxResult : Type 0} (broadcast : Net → List Msg → Net × (List TxResult × Bool))
    (calls : Net → ℕ) where
  -- Each call gives one result for each transaction of its chunk, and is one call of the network.
  abbrev pub IsAligned : Type 0
  IsAligned =
      (net : Net) (chunk : List Msg)
      → (length (broadcast net chunk).1.0 ≡ length chunk)
        × (calls (broadcast net chunk).0 ≡ calls net + 1)

  -- The call gave these results, and it needed no narrowing, or its chunk is a single transaction.
  abbrev pub Decides : Call Net Msg TxResult → Type 0
  Decides c =
      ((broadcast c.met c.chunk).1.0 ≡ c.results)
      × (((broadcast c.met c.chunk).1.1 ≡ false) ⊎ (length c.chunk ≡ 1))

  -- The chunk is cut into consecutive pieces that calls have decided, whose results in that order are
  -- the results of the chunk; and the calls that were made are fewer than twice its transactions.
  abbrev pub Settles : Net → List Msg → Net × List TxResult → Type 0
  Settles net chunk (net', out) =
      ((cs : List (Call Net Msg TxResult)) × (joined (λ c. c.chunk) cs ≡ chunk)
        × (joined (λ c. c.results) cs ≡ out)
        × All Decides cs)
      × (length out ≡ length chunk)
      × (calls net' + 1 ≤ calls net + 2 * length chunk)

  one_call :
      (net : Net) (chunk : List Msg) (out : List TxResult)
      → IsAligned
      → length out ≡ length chunk
      → ((broadcast net chunk).1.1 ≡ false) ⊎ (length chunk ≡ 1)
      → 0 < length chunk
      → Settles net chunk ((broadcast net chunk).0, copy out (broadcast net chunk).1.0)
  one_call net chunk out aligned same d h =
      let results = (broadcast net chunk).1.0 in
      let c : Call Net Msg TxResult = record { met = net; chunk = chunk; results = results } in
      let (n, k) = aligned net chunk in
      rw (copy-whole out results (n ∙ sym same))
        ((c ∷ [], append-nil chunk, append-nil results, ((refl, d), tt)), n, omega (arith, k))

  both_halves :
      (net net' : Net) (left right : List Msg) (l r : Net × List TxResult)
      → calls net' ≡ calls net + 1
      → Settles net' left l
      → Settles l.0 right r
      → Settles net (left ++ right) (r.0, l.1 ++ r.1)
  both_halves net net' left right (m, out_left) (net'', out_right) once ((cs, a, b, d), n, k)
        ((cs', a', b', d'), n', k') =
      (
        (
          cs ++ cs',
          joined-append (λ c. c.chunk) cs cs' ∙ rw (a, a') refl,
          joined-append (λ c. c.results) cs cs' ∙ rw (b, b') refl,
          All-append Decides cs cs' d d',
        ),
        omega (arith, length-append out_left out_right, length-append left right, n, n'),
        omega (arith, length-append left right, k, k'),
      )

  -- Where each call gives one result for each transaction of its chunk, the broadcast of a chunk that is
  -- not empty, with fuel for its length, gives each transaction the result of a call whose chunk was that
  -- transaction alone or that needed no narrowing, in the order of the chunk, and makes fewer calls than
  -- twice the transactions.
  pub broadcast_chunk-Settles :
      (fuel : ℕ) (net : Net) (chunk : List Msg) (out : List TxResult)
      → IsAligned
      → length out ≡ length chunk
      → 0 < length chunk
      → length chunk ≤ fuel
      → Settles net chunk (broadcast_chunk broadcast fuel net chunk out)
  unfolding broadcast_chunk
  broadcast_chunk-Settles zero net chunk out aligned same h f = absurd (omega arith)
  broadcast_chunk-Settles (suc fuel) net chunk out aligned same h f =
      let narrow = (broadcast net chunk).1.1 in
      let net' = (broadcast net chunk).0 in
      let mid = length chunk / 2 in
      elim (Bool-cases (narrow && ltb 1 (length chunk))) [
        | inr b ↦ rw b (one_call net chunk out aligned same (decided narrow (length chunk) b h) h)
        | inl b ↦
            let big : 1 < length chunk = ground (arith, b) in
            let first = broadcast_chunk broadcast fuel net' (take mid chunk) (take mid out) in
            let second = broadcast_chunk broadcast fuel first.0 (drop mid chunk) (drop mid out) in
            rw b (
              subst (λ c. Settles net c (second.0, first.1 ++ second.1)) (take-drop mid chunk)
                (both_halves net net' (take mid chunk) (drop mid chunk) first second
                  (aligned net chunk).1
                  (broadcast_chunk-Settles fuel net' (take mid chunk) (take mid out) aligned
                    (omega (arith, length-take mid chunk, length-take mid out))
                    (omega (arith, length-take mid chunk)) (omega (arith, length-take mid chunk)))
                  (broadcast_chunk-Settles fuel first.0 (drop mid chunk) (drop mid out) aligned
                    (omega (arith, length-drop mid chunk, length-drop mid out))
                    (omega (arith, length-drop mid chunk)) (omega (arith, length-drop mid chunk)))))
      ]
