-- ===== src/Caches/Fills/Counts.antt =====
-- store/bumpcache/bumpcache.go: the fills that run, counted by block, and what holds of each of them.
use arcade.Prelude.{
  ℕ, zero, suc, ◌+◌, ◌≤◌, ◌<◌, ◌≡◌, ◌≢◌, refl, sym, ap, subst, ◌∙◌, inl, inr, String, Bool, true,
  false, List, [], ◌∷◌, Option, none, some, arith, ◌==◌, string_eq, nat_eq, if◌then◌else◌,
  get_elem?, All, eq_cases,
}
use arcade.Prelude.Map.{Map, lookup, insert, delete, lookup-insert, lookup-delete}
use arcade.Caches.Bumps.{or_zero, count_of}
use arcade.Caches.Fills.{Fill, set_at, remove_at, update}

or_zero-if :
    (b : Bool) (n : ℕ) (o : Option ℕ)
    → or_zero (if b then some n else o) ≡ (if b then n else or_zero o)
or_zero-if true n o = refl
or_zero-if false n o = refl

pub count_of-insert :
    (k j : String) (n : ℕ) (m : Map String ℕ)
    → count_of j (insert k n m) ≡ (if k == j then n else count_of j m)
unfolding count_of
count_of-insert k j n m = ap or_zero (lookup-insert k j n m) ∙ or_zero-if (k == j) n (lookup j m)

pub count_of-delete :
    (k j : String) (m : Map String ℕ)
    → count_of j (delete k m) ≡ (if k == j then 0 else count_of j m)
unfolding count_of
count_of-delete k j m = ap or_zero (lookup-delete k j m) ∙ none-if (k == j)
  where
    none-if :
        (b : Bool)
        → or_zero (if b then none else lookup j m) ≡ (if b then 0 else or_zero (lookup j m))
    none-if true = refl
    none-if false = refl

-- How many fills of a block are running.
abbrev pub running : {V : Type 0} → String → List (Fill V) → ℕ
running k [] = 0
running k (f ∷ fs) = let rest = running k fs in if f.block == k then rest + 1 else rest

pub running-remove_at :
    {V : Type 0} (k : String) (n : ℕ) (fs : List (Fill V)) (f : Fill V)
    → get_elem? fs n ≡ some f
    → running k fs
      ≡ (if f.block == k then running k (remove_at n fs) + 1 else running k (remove_at n fs))
running-remove_at k n [] f e = absurd (ground (arith, e))
running-remove_at k zero (x ∷ fs) f e =
    ap
      (λ o. elim o [
        | none ↦ running k (x ∷ fs)
        | some z ↦ if z.block == k then running k fs + 1 else running k fs
      ])
      e
running-remove_at k (suc n) (x ∷ fs) f e = ground (arith, running-remove_at k n fs f e)

pub running-set_at :
    {V : Type 0} (k : String) (n : ℕ) (fs : List (Fill V)) (f g : Fill V)
    → get_elem? fs n ≡ some f
    → f.block ≡ g.block
    → running k (set_at n g fs) ≡ running k fs
running-set_at k n [] f g e h = absurd (ground (arith, e))
running-set_at k zero (x ∷ fs) f g e h =
    ap (λ z. if z == k then running k fs + 1 else running k fs)
      (sym h ∙ ap (λ o. elim o [ none ↦ f.block | some z ↦ z.block ]) (sym e))
running-set_at k (suc n) (x ∷ fs) f g e h = ground (arith, running-set_at k n fs f g e h)

pub All-get_elem? :
    {A : Type 0} (P : A → Type 0) (n : ℕ) (xs : List A) (a : A)
    → All P xs
    → get_elem? xs n ≡ some a
    → P a
All-get_elem? P n [] a h e = absurd (ground (arith, e))
All-get_elem? P zero (x ∷ xs) a h e = subst P (ap (λ o. elim o [ none ↦ x | some z ↦ z ]) e) h.0
All-get_elem? P (suc n) (x ∷ xs) a h e = All-get_elem? P n xs a h.1 e

pub All-remove_at :
    {A : Type 0} (P : A → Type 0) (n : ℕ) (xs : List A) → All P xs → All P (remove_at n xs)
All-remove_at P n [] h = tt
All-remove_at P zero (x ∷ xs) h = h.1
All-remove_at P (suc n) (x ∷ xs) h = (h.0, All-remove_at P n xs h.1)

pub All-set_at :
    {A : Type 0} (P : A → Type 0) (n : ℕ) (a : A) (xs : List A)
    → P a
    → All P xs
    → All P (set_at n a xs)
All-set_at P n a [] p h = tt
All-set_at P zero a (x ∷ xs) p h = (p, h.1)
All-set_at P (suc n) a (x ∷ xs) p h = (h.0, All-set_at P n a xs p h.1)

-- Fills whose blocks all run, and a property that a change keeps on such blocks.
All-running :
    {V : Type 0} (P Q : Fill V → Type 0) (fs : List (Fill V))
    → ((f : Fill V) → 0 < running f.block fs → P f → Q f)
    → All P fs
    → All Q fs
All-running P Q [] h p = tt
All-running P Q (f ∷ fs) h p = (
  h f (ground (arith, (string_eq.beq_iff f.block f.block).1 refl)) p.0,
  All-running P Q fs (λ g r q. h g (ground (arith, r)) q) p.1,
)

module _ {V : Type 0} (version : V → ℕ) where
  -- A result that is no older than an invalidation.
  abbrev pub Since : ℕ → Option V → Type 0
  Since n none = Unit
  Since n (some v) = n ≤ version v

  -- A fill's token is at most the generation, and where it is the generation, what it read from the
  -- store is no older than the last invalidation.
  abbrev pub IsSound : (String → ℕ) → (String → ℕ) → Fill V → Type 0
  IsSound gen removed f =
      (f.token ≤ gen f.block) × (gen f.block ≡ f.token → Since (removed f.block) f.result)

  -- What changes nothing at the blocks of the running fills.
  pub IsSound-elsewhere :
      (gen gen' removed removed' : String → ℕ) (fs : List (Fill V))
      → ((k : String) → 0 < running k fs → (gen' k ≡ gen k) × (removed' k ≡ removed k))
      → All (IsSound gen removed) fs
      → All (IsSound gen' removed') fs
  IsSound-elsewhere gen gen' removed removed' fs h =
      All-running (IsSound gen removed) (IsSound gen' removed') fs (λ f r s. (
        subst (λ g. f.token ≤ g) (sym (h f.block r).0) s.0,
        λ q. subst (λ n. Since n f.result) (sym (h f.block r).1) (s.1 (sym (h f.block r).0 ∙ q)),
      ))

  -- An invalidation of a block moves its generation on where a fill of it runs.
  pub IsSound-invalidated :
      (gen gen' removed : String → ℕ) (k : String) (n : ℕ) (fs : List (Fill V))
      → ((j : String) → k ≢ j → gen' j ≡ gen j)
      → (0 < running k fs → gen k < gen' k)
      → All (IsSound gen removed) fs
      → All (IsSound gen' (update removed k n)) fs
  IsSound-invalidated gen gen' removed k n fs other moves =
      All-running (IsSound gen removed) (IsSound gen' (update removed k n)) fs (λ f r s.
        elim (eq_cases k f.block) [
          | inl (b, x) ↦
              let moved : gen f.block < gen' f.block =
                subst (λ z. gen z < gen' z) x (moves (subst (λ z. 0 < running z fs) (sym x) r)) in
              (omega (arith, moved, s.0), λ q. absurd (omega (arith, moved, s.0, q)))
          | inr (b, x) ↦ (
            subst (λ g. f.token ≤ g) (sym (other f.block x)) s.0,
            λ q. rw b (s.1 (sym (other f.block x) ∙ q)),
          )
        ])
