-- ===== src/Kafka/Marks.antt =====
-- kafka/consumer.go: which offsets the loop over a claim marks.
use arcade.Prelude.{
  ℕ, ◌≡◌, ◌<◌, ◌⊎◌, refl, sym, subst, ◌∙◌, inl, inr, String, Bool, true, false, List, [], ◌∷◌,
  Option, none, some, arith, Bool-cases, nat_eq,
}
use arcade.Kafka.{
  Message, Turn, Action, marked, sent, flushed, process_with_retry, envelope, send_to_dlq,
  finish_one, process_one, Found, max_retries_of, received, empty, tick, handle_claim,
}
use arcade.Kafka.Topics.{dlq_topic}
use arcade.Kafka.Retries.{is_none, accepted, process_with_retry-accepted}

abbrev pub In : {A : Type 0} → A → List A → Type 0
In a [] = ⊥
In a (x ∷ xs) = (x ≡ a) ⊎ In a xs

-- The message's dead letter is out, with some error, or cannot be encoded.
abbrev pub IsBuried : Turn → Message → List Action → Type 0
IsBuried t msg done =
    (t.marshals ≡ false)
    ⊎ ((e : String) × In (sent (dlq_topic msg.topic) msg.key (envelope msg e)) done)

abbrev pub Accounted : ℕ → Turn → Message → List Action → Type 0
Accounted max_retries t msg done = (accepted t max_retries ≡ true) ⊎ IsBuried t msg done

-- A message of the claim that has the offset, and that the loop has dealt with.
abbrev pub Covered : ℕ → List Found → ℕ → List Action → Type 0
Covered max_retries found o done =
    (msg : Message) × (t : Turn) × In (received msg t) found
    × (msg.offset ≡ o)
    × Accounted max_retries t msg done

marked-offset : (a b : ℕ) → marked a ≡ marked b → a ≡ b
marked-offset a b e = ground (arith, e)

received-both : (m n : Message) (t u : Turn) → received m t ≡ received n u → (m ≡ n) × (t ≡ u)
received-both m n t u e = (ground (arith, e), ground (arith, e))

module _ (max_retries : ℕ) (some_retries : 0 < max_retries) where
  finish_one-In :
      (t : Turn) (msg : Message) (r : Option String) (done : List Action) (a : Action)
      → In a done
      → In a (finish_one true t msg r done)
  unfolding finish_one send_to_dlq
  finish_one-In t msg none done a h = inr h
  finish_one-In t msg (some e) done a h = elim (Bool-cases (t.marshals)) [
    | inr m ↦ rw m (inr h)
    | inl m ↦ elim (Bool-cases (t.send_fails)) [
      | inl f ↦ rw (m, f) h
      | inr f ↦ rw (m, f) (inr (inr h))
    ]
  ]

  -- An offset that processing marks anew.
  finish_one-Accounted :
      (t : Turn) (msg : Message) (r : Option String) (done : List Action) (o : ℕ)
      → is_none r ≡ accepted t max_retries
      → In (marked o) (finish_one true t msg r done)
      → In (marked o) done
        ⊎ ((msg.offset ≡ o) × Accounted max_retries t msg (finish_one true t msg r done))
  unfolding finish_one send_to_dlq
  finish_one-Accounted t msg none done o q (inl e) = inr (marked-offset msg.offset o e, inl (sym q))
  finish_one-Accounted t msg none done o q (inr i) = inl i
  finish_one-Accounted t msg (some e) done o q i = elim (Bool-cases (t.marshals)) [
    | inr m ↦ elim (rw m at i) [
      | inl x ↦ inr (marked-offset msg.offset o x, inr (inl m))
      | inr j ↦ inl j
    ]
    | inl m ↦ elim (Bool-cases (t.send_fails)) [
      | inl f ↦ inl (rw (m, f) at i)
      | inr f ↦ elim (rw (m, f) at i) [
        | inl x ↦ inr (marked-offset msg.offset o x, rw (m, f) (inr (inr (e, inr (inl refl)))))
        | inr j ↦ elim j [ inl x ↦ absurd (ground (arith, x)) | inr k ↦ inl k ]
      ]
    ]
  ]

  success-In :
      (t : Turn) (msg : Message) (done : List Action) (r : Option String)
      → is_none r ≡ true
      → In (marked msg.offset) (finish_one true t msg r done)
  unfolding finish_one
  success-In t msg done none q = inl refl
  success-In t msg done (some e) q = absurd (ground (arith, q))

  failure-same :
      (t : Turn) (msg : Message) (done : List Action) (r : Option String)
      → is_none r ≡ false
      → t.marshals ≡ true
      → t.send_fails ≡ true
      → finish_one true t msg r done ≡ done
  unfolding finish_one send_to_dlq
  failure-same t msg done none q m f = absurd (ground (arith, q))
  failure-same t msg done (some e) q m f = rw (m, f) refl

  -- The loop only adds to what is done.
  handle_claim-In :
      (draining : Bool) (found : List Found) (done : List Action) (a : Action)
      → In a done
      → In a (handle_claim true max_retries draining found done)
  unfolding handle_claim process_one
  handle_claim-In d [] done a h = inr h
  handle_claim-In d (received msg t ∷ found) done a h =
      handle_claim-In true found (process_one true max_retries t msg done) a
        (finish_one-In t msg (process_with_retry t max_retries) done a h)
  handle_claim-In true (empty ∷ found) done a h =
      handle_claim-In false found (flushed ∷ done) a (inr h)
  handle_claim-In false (empty ∷ found) done a h = handle_claim-In false found done a h
  handle_claim-In true (tick ∷ found) done a h = handle_claim-In true found done a h
  handle_claim-In false (tick ∷ found) done a h =
      handle_claim-In false found (flushed ∷ done) a (inr h)

  process_one-accepted :
      (t : Turn) (msg : Message) (done : List Action)
      → accepted t max_retries ≡ true
      → In (marked msg.offset) (process_one true max_retries t msg done)
  unfolding process_one
  process_one-accepted t msg done a =
      success-In t msg done (process_with_retry t max_retries)
        (process_with_retry-accepted t max_retries some_retries ∙ a)

  handle_claim-accepted :
      (draining : Bool) (found : List Found) (done : List Action) (msg : Message) (t : Turn)
      → accepted t max_retries ≡ true
      → In (received msg t) found
      → In (marked msg.offset) (handle_claim true max_retries draining found done)
  unfolding handle_claim process_one
  handle_claim-accepted d [] done msg t a i = elim i [ ]
  handle_claim-accepted d (received m u ∷ found) done msg t a (inr i) =
      handle_claim-accepted true found (process_one true max_retries u m done) msg t a i
  handle_claim-accepted d (received m u ∷ found) done msg t a (inl e) =
      let (p, q) = received-both m msg u t e in
      handle_claim-In true found (process_one true max_retries u m done) (marked msg.offset) (
        subst (λ x. In (marked msg.offset) (process_one true max_retries u x done)) (sym p)
          (subst (λ v. In (marked msg.offset) (process_one true max_retries v msg done)) (sym q)
            (process_one-accepted t msg done a)))
  handle_claim-accepted true (empty ∷ found) done msg t a (inl e) = absurd (ground (arith, e))
  handle_claim-accepted true (empty ∷ found) done msg t a (inr i) =
      handle_claim-accepted false found (flushed ∷ done) msg t a i
  handle_claim-accepted false (empty ∷ found) done msg t a (inl e) = absurd (ground (arith, e))
  handle_claim-accepted false (empty ∷ found) done msg t a (inr i) =
      handle_claim-accepted false found done msg t a i
  handle_claim-accepted true (tick ∷ found) done msg t a (inl e) = absurd (ground (arith, e))
  handle_claim-accepted true (tick ∷ found) done msg t a (inr i) =
      handle_claim-accepted true found done msg t a i
  handle_claim-accepted false (tick ∷ found) done msg t a (inl e) = absurd (ground (arith, e))
  handle_claim-accepted false (tick ∷ found) done msg t a (inr i) =
      handle_claim-accepted false found (flushed ∷ done) msg t a i

  Covered-later :
      (x : Found) (found : List Found) (o : ℕ) (done : List Action)
      → Covered max_retries found o done
      → Covered max_retries (x ∷ found) o done
  Covered-later x found o done (msg, t, i, e, a) = (msg, t, inr i, e, a)

  Accounted-handle_claim :
      (draining : Bool) (found : List Found) (done : List Action) (t : Turn) (msg : Message)
      → Accounted max_retries t msg done
      → Accounted max_retries t msg (handle_claim true max_retries draining found done)
  Accounted-handle_claim d found done t msg (inl a) = inl a
  Accounted-handle_claim d found done t msg (inr (inl m)) = inr (inl m)
  Accounted-handle_claim d found done t msg (inr (inr (e, i))) = inr (
      inr (e, handle_claim-In d found done (sent (dlq_topic msg.topic) msg.key (envelope msg e)) i))

  unflushed :
      {C : Type 0} {o : ℕ} (done : List Action)
      → In (marked o) (flushed ∷ done) ⊎ C
      → In (marked o) done ⊎ C
  unflushed done (inl (inl e)) = absurd (ground (arith, e))
  unflushed done (inl (inr i)) = inl i
  unflushed done (inr c) = inr c

  skipped :
      (x : Found) (found : List Found) (o : ℕ) (done after : List Action)
      → In (marked o) done ⊎ Covered max_retries found o after
      → In (marked o) done ⊎ Covered max_retries (x ∷ found) o after
  skipped x found o done after (inl i) = inl i
  skipped x found o done after (inr c) = inr (Covered-later x found o after c)

  handle_claim-Covered :
      (draining : Bool) (found : List Found) (done : List Action) (o : ℕ)
      → In (marked o) (handle_claim true max_retries draining found done)
      → In (marked o) done
        ⊎ Covered max_retries found o (handle_claim true max_retries draining found done)
  unfolding handle_claim process_one
  handle_claim-Covered d [] done o (inl e) = absurd (ground (arith, e))
  handle_claim-Covered d [] done o (inr i) = inl i
  handle_claim-Covered d (received msg t ∷ found) done o i =
      elim (handle_claim-Covered true found (process_one true max_retries t msg done) o i) [
        | inr c ↦ inr (
            Covered-later (received msg t) found o
              (handle_claim true max_retries true found (process_one true max_retries t msg done))
              c)
        | inl j ↦
            elim (finish_one-Accounted t msg (process_with_retry t max_retries) done o
              (process_with_retry-accepted t max_retries some_retries) j) [
                | inl k ↦ inl k
                | inr (e, a) ↦ inr (
                  msg,
                  t,
                  inl refl,
                  e,
                  Accounted-handle_claim true found (process_one true max_retries t msg done) t msg
                      a,
                )
              ]
      ]
  handle_claim-Covered true (empty ∷ found) done o i =
      skipped empty found o done (handle_claim true max_retries false found (flushed ∷ done))
        (unflushed done (handle_claim-Covered false found (flushed ∷ done) o i))
  handle_claim-Covered false (empty ∷ found) done o i =
      skipped empty found o done (handle_claim true max_retries false found done)
        (handle_claim-Covered false found done o i)
  handle_claim-Covered true (tick ∷ found) done o i =
      skipped tick found o done (handle_claim true max_retries true found done)
        (handle_claim-Covered true found done o i)
  handle_claim-Covered false (tick ∷ found) done o i =
      skipped tick found o done (handle_claim true max_retries false found (flushed ∷ done))
        (unflushed done (handle_claim-Covered false found (flushed ∷ done) o i))

max_retries_of-positive : (n : ℕ) → 0 < max_retries_of n
unfolding max_retries_of
max_retries_of-positive n = ground (arith, nat_eq.beq_iff n 0)

-- Where dead letters have a producer: each offset that a claim's loop marks is that of a message of
-- the claim which an attempt of the handler got through, whose dead letter was sent, or whose dead
-- letter cannot be encoded.
pub marked_offset_accounted :
    (configured : ℕ) (draining : Bool) (found : List Found) (o : ℕ)
    → let n = max_retries_of configured in
      In (marked o) (handle_claim true n draining found [])
      → Covered n found o (handle_claim true n draining found [])
marked_offset_accounted c d found o i =
    elim (handle_claim-Covered (max_retries_of c) (max_retries_of-positive c) d found [] o i) [
      | inl k ↦ elim k [ ]
      | inr v ↦ v
    ]

-- Where the committed position is beyond each marked offset, and dead letters have a producer: a
-- message that no attempt gets through and whose dead letter is not sent leaves no mark, but with
-- a message of a higher offset which the claim finds after it and handles, the committed
-- position is beyond it.
pub failed_message_passed :
    (committed : List Action → ℕ) (configured : ℕ) (draining : Bool) (found : List Found)
    (done : List Action) (msg later : Message) (t u : Turn)
    → ((l : List Action) (o : ℕ) → In (marked o) l → o < committed l)
    → accepted t (max_retries_of configured) ≡ false
    → t.marshals ≡ true
    → t.send_fails ≡ true
    → In (received later u) found
    → accepted u (max_retries_of configured) ≡ true
    → msg.offset < later.offset
    → let n = max_retries_of configured in
      (process_one true n t msg done ≡ done)
      × (msg.offset < committed (handle_claim true n draining (received msg t ∷ found) done))
unfolding handle_claim process_one
failed_message_passed committed c d found done msg later t u law a m f i b h =
    let n = max_retries_of c in
    let p = max_retries_of-positive c in
    let rest = process_one true n t msg done in
    let after : later.offset < committed (handle_claim true n true found rest) =
      law (handle_claim true n true found rest) later.offset
        (handle_claim-accepted n p true found rest later u b i) in
    (
      failure-same n p t msg done (process_with_retry t n) (process_with_retry-accepted t n p ∙ a) m
          f,
      omega (arith, after, h),
    )
