-- ===== src/Kafka/Retries.antt =====
-- kafka/consumer.go: which messages the retries get through.
use arcade.Prelude.{
  ℕ, zero, suc, ◌+◌, ◌≡◌, ◌≤◌, ◌<◌, ◌⊎◌, subst, refl, sym, inl, inr, String, Bool, true, false, not,
  ◌&&◌, ◌||◌, Option, none, some, arith, ltb, Bool-cases, lt→ltb,
}
use arcade.Kafka.{Turn, attempts, process_with_retry}

-- The context lasts through the waits before the attempts up to one.
unfoldable pub waits : Turn → ℕ → Bool
waits t zero = true
waits t (suc i) = waits t i && not (t.cancelled (suc i))

abbrev pub is_none : Option String → Bool
is_none none = true
is_none (some e) = false

positive : (a : ℕ) → ltb 0 (suc a) ≡ true
positive a = lt→ltb 0 (suc a) (omega arith)

le_cases : (i n : ℕ) → i ≤ suc n → (i ≤ n) ⊎ (i ≡ suc n)
le_cases i n h = ground (arith, h)

-- An attempt below `max` succeeds and the context lasts until it.
unfoldable pub accepted : Turn → ℕ → Bool
accepted t zero = false
accepted t (suc n) = accepted t n || (is_none (t.handler n) && waits t n)

module _ (t : Turn) where
  waits-stops : (n i : ℕ) → i ≤ n → waits t i ≡ false → waits t n ≡ false
  unfolding waits
  waits-stops zero i l h = let e : i ≡ 0 = omega (arith, l) in subst (λ k. waits t k ≡ false) e h
  waits-stops (suc n) i l h = elim (le_cases i n l) [
    | inl k ↦ ground (arith, waits-stops n i k h)
    | inr e ↦ subst (λ k. waits t k ≡ false) e h
  ]

  accepted-stops :
      (n i : ℕ) → i ≤ n → waits t i ≡ false → accepted t i ≡ false → accepted t n ≡ false
  unfolding accepted
  accepted-stops zero i l h a = refl
  accepted-stops (suc n) i l h a = elim (le_cases i n l) [
    | inl k ↦ rw (accepted-stops n i k h a, waits-stops n i k h) (ground arith)
    | inr e ↦ subst (λ k. accepted t k ≡ false) e a
  ]

  accepted-stays : (n i : ℕ) → i ≤ n → accepted t i ≡ true → accepted t n ≡ true
  unfolding accepted
  accepted-stays zero i l h =
      let e : i ≡ 0 = omega (arith, l) in subst (λ k. accepted t k ≡ true) e h
  accepted-stays (suc n) i l h = elim (le_cases i n l) [
    | inl k ↦ rw (accepted-stays n i k h) refl
    | inr e ↦ subst (λ k. accepted t k ≡ true) e h
  ]

  waits-next :
      (a : ℕ) → waits t a ≡ true → (b : Bool) → t.cancelled (suc a) ≡ b → waits t (suc a) ≡ not b
  unfolding waits
  waits-next a w b c = ground (arith, w, c)

  accepted-next :
      (a : ℕ) (o : Option String)
      → t.handler a ≡ o
      → waits t a ≡ true
      → accepted t a ≡ false
      → accepted t (suc a) ≡ is_none o
  unfolding accepted
  accepted-next a o q w h = rw (h, w, q) (ground arith)

  -- Once an attempt has failed.
  attempts-accepted :
      (left a n : ℕ) (e : String)
      → n ≡ left + suc a
      → accepted t (suc a) ≡ false
      → waits t a ≡ true
      → is_none (attempts t left (suc a) (some e)) ≡ accepted t n
  unfolding attempts
  attempts-accepted zero a n e s h w =
      let q : suc a ≡ n = omega (arith, s) in sym (subst (λ k. accepted t k ≡ false) q h)
  attempts-accepted (suc left) a n e s h w = elim (Bool-cases (t.cancelled (suc a))) [
    | inl c ↦
        rw (positive a, c)
          (sym (accepted-stops n (suc a) (omega (arith, s)) (waits-next a w true c) h))
    | inr c ↦
        rw (positive a, c)
          (tried (t.handler (suc a)) refl (waits-next a w false c)
            (λ x k g. attempts-accepted left (suc a) n x (omega (arith, s)) k g))
  ]
    where
      tried :
          (o : Option String)
          → t.handler (suc a) ≡ o
          → waits t (suc a) ≡ true
          → ((x : String)
              → accepted t (suc (suc a)) ≡ false
              → waits t (suc a) ≡ true
              → is_none (attempts t left (suc (suc a)) (some x)) ≡ accepted t n)
          → is_none (elim o [ none ↦ none | some x ↦ attempts t left (suc a + 1) (some x) ])
            ≡ accepted t n
      tried none q g rest =
          sym (accepted-stays n (suc (suc a)) (omega (arith, s)) (accepted-next (suc a) none q g h))
      tried (some x) q g rest =
          let m : suc a + 1 ≡ suc (suc a) = omega arith in
          rw m (rest x (accepted-next (suc a) (some x) q g h) g)

  -- With at least one attempt, processing succeeds exactly where some attempt within the bound
  -- succeeds and the context lasts through the waits before it.
  pub process_with_retry-accepted :
      (max_retries : ℕ)
      → 0 < max_retries
      → is_none (process_with_retry t max_retries) ≡ accepted t max_retries
  unfolding process_with_retry attempts accepted waits
  process_with_retry-accepted zero p = absurd (omega (arith, p))
  process_with_retry-accepted (suc n) p = first (t.handler 0) refl
    where
      first :
          (o : Option String)
          → t.handler 0 ≡ o
          → is_none (elim o [ none ↦ none | some x ↦ attempts t n (0 + 1) (some x) ])
            ≡ accepted t (suc n)
      first none q = sym (accepted-stays (suc n) 1 (omega arith) (accepted-next 0 none q refl refl))
      first (some x) q =
          attempts-accepted n 0 (suc n) x (omega arith) (accepted-next 0 (some x) q refl refl) refl
