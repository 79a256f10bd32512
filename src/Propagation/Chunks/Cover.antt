-- ===== src/Propagation/Chunks/Cover.antt =====
-- The chunks of a plan cover the batch, one after the other, none empty, each within both caps unless
-- it is a single transaction.
use arcade.Prelude.{
  ℕ, ◌+◌, ◌-◌, ◌≤◌, ◌<◌, ◌≡◌, refl, ◌⊎◌, inl, inr, Bool, true, false, ◌&&◌, List, [], ◌∷◌, ◌++◌,
  arith, ltb, length, take, drop, Bool-cases, ap, length-append, append_assoc, All, ◌∙◌, sym,
}
use arcade.Propagation.Chunks.{ChunkSpan, span_full, plan_from, plan_chunks, raw_txs_bytes}

-- The bytes of the transactions from index `a` up to `b`.
abbrev pub bytes_between : List ℕ → ℕ → ℕ → ℕ
bytes_between txs a b = raw_txs_bytes (take (b - a) (drop a txs))

-- A cap that is set bounds a number.
abbrev pub Within : ℕ → ℕ → Type 0
Within n cap = (cap ≡ 0) ⊎ (n ≤ cap)

-- A span is a single transaction or meets both caps.
abbrev pub Fits : ℕ → ℕ → List ℕ → ChunkSpan → Type 0
Fits max_count max_bytes txs s =
    (s.end ≡ s.start + 1)
    ⊎ (Within (s.end - s.start) max_count × Within (bytes_between txs s.start s.end) max_bytes)

-- Spans that are adjacent and not empty, from `a` to `b`.
abbrev pub Tiles : ℕ → ℕ → List ChunkSpan → Type 0
Tiles a b [] = a ≡ b
Tiles a b (s ∷ ss) = (s.start ≡ a) × (s.start < s.end) × Tiles s.end b ss

plan_from-Tiles :
    (mc mb i start bytes total : ℕ) (rest : List ℕ)
    → i + length rest ≡ total
    → start < total
    → start ≤ i
    → Tiles start total (plan_from mc mb i start bytes rest)
unfolding plan_from
plan_from-Tiles mc mb i start bytes total [] eq h k = (refl, omega arith, omega arith)
plan_from-Tiles mc mb i start bytes total (n ∷ rest) eq h k =
    elim (Bool-cases (ltb 0 (i - start) && span_full (i - start) bytes n mc mb)) [
      | inl e ↦ rw e (
        refl,
        ground (arith, e),
        plan_from-Tiles mc mb (i + 1) i n total rest (omega arith) (omega arith) (omega arith),
      )
      | inr e ↦ rw e (
          plan_from-Tiles mc mb (i + 1) start (bytes + n) total rest (omega arith) (omega arith)
            (omega arith))
    ]

take_mid :
    (pre cur post : List ℕ) → take (length cur) (drop (length pre) (pre ++ (cur ++ post))) ≡ cur
take_mid [] [] post = refl
take_mid [] (c ∷ cur) post = ap (c ∷◌) (take_mid [] cur post)
take_mid (p ∷ pre) cur post = take_mid pre cur post

raw_txs_bytes-append :
    (xs ys : List ℕ) → raw_txs_bytes (xs ++ ys) ≡ raw_txs_bytes xs + raw_txs_bytes ys
unfolding raw_txs_bytes
raw_txs_bytes-append [] ys = omega arith
raw_txs_bytes-append (x ∷ xs) ys = omega (arith, raw_txs_bytes-append xs ys)

-- The span that is open: at most one transaction, or within both caps.
abbrev IsOpen : ℕ → ℕ → List ℕ → Type 0
IsOpen mc mb cur = (length cur ≤ 1) ⊎ (Within (length cur) mc × Within (raw_txs_bytes cur) mb)

room-Within :
    (count bytes n mc mb : ℕ)
    → 0 < count
    → (ltb 0 count && span_full count bytes n mc mb) ≡ false
    → Within (count + 1) mc × Within (bytes + n) mb
unfolding span_full
room-Within count bytes n mc mb h e = (ground arith, ground arith)

raw_txs_bytes-one : (n : ℕ) → raw_txs_bytes (n ∷ []) ≡ n
unfolding raw_txs_bytes
raw_txs_bytes-one n = omega arith

extended-IsOpen :
    (mc mb : ℕ) (cur : List ℕ) (n : ℕ)
    → (ltb 0 (length cur) && span_full (length cur) (raw_txs_bytes cur) n mc mb) ≡ false
    → IsOpen mc mb (cur ++ n ∷ [])
extended-IsOpen mc mb [] n e = inl (omega arith)
extended-IsOpen mc mb (c ∷ cur) n e = inr (
    rw
      (
        length-append (c ∷ cur) (n ∷ []),
        raw_txs_bytes-append (c ∷ cur) (n ∷ []),
        raw_txs_bytes-one n,
      )
      (room-Within (length (c ∷ cur)) (raw_txs_bytes (c ∷ cur)) n mc mb (omega arith) e))

closed-Fits :
    (mc mb : ℕ) (pre cur post : List ℕ)
    → 0 < length cur
    → IsOpen mc mb cur
    → Fits mc mb
        (pre ++ (cur ++ post))
        (record { start = length pre; end = length pre + length cur })
closed-Fits mc mb pre cur post h (inl one) = inl (omega arith)
closed-Fits mc mb pre cur post h (inr o) =
    inr (rw (add_sub_lem (length pre) (length cur), take_mid pre cur post) o)
  where
    add_sub_lem : (a b : ℕ) → (a + b) - a ≡ b
    add_sub_lem a b = omega arith

plan_from-Fits :
    (mc mb i start bytes : ℕ) (txs pre cur post : List ℕ)
    → txs ≡ pre ++ (cur ++ post)
    → i ≡ length pre + length cur
    → start ≡ length pre
    → bytes ≡ raw_txs_bytes cur
    → 0 < length cur + length post
    → IsOpen mc mb cur
    → All (Fits mc mb txs) (plan_from mc mb i start bytes post)
unfolding plan_from
plan_from-Fits mc mb i start bytes txs pre cur [] te ie se be h o =
    (rw (te, ie, se) (closed-Fits mc mb pre cur [] (omega arith) o), tt)
plan_from-Fits mc mb i start bytes txs pre cur (n ∷ rest) te ie se be h o =
    elim (Bool-cases (ltb 0 (i - start) && span_full (i - start) bytes n mc mb)) [
      | inl e ↦ rw e (
        rw (te, ie, se)
            (closed-Fits mc mb pre cur (n ∷ rest) (cut-nonempty (i - start) _ e (gap ie se)) o),
        plan_from-Fits mc mb (i + 1) i n txs (pre ++ cur) (n ∷ []) rest
            (te ∙ sym (append_assoc pre cur (n ∷ rest))) (rw length-append (omega (arith, ie)))
            (rw length-append ie) (sym (raw_txs_bytes-one n)) (omega arith) (inl (omega arith)),
      )
      | inr e ↦ rw e (
          plan_from-Fits mc mb (i + 1) start (bytes + n) txs pre (cur ++ n ∷ []) rest
            (te ∙ ap (pre ++◌) (sym (append_assoc cur (n ∷ []) rest)))
            (rw length-append (omega (arith, ie))) se
            (rw (raw_txs_bytes-append, raw_txs_bytes-one, be) refl) (rw length-append (omega arith))
            (extended-IsOpen mc mb cur n (rw (gap ie se, be) at e)))
    ]
  where
    gap : i ≡ length pre + length cur → start ≡ length pre → i - start ≡ length cur
    gap ie se = omega (arith, ie, se)

    cut-nonempty : (k : ℕ) (b : Bool) → (ltb 0 k && b) ≡ true → k ≡ length cur → 0 < length cur
    cut-nonempty k b e g = ground (arith, e, g)

-- The plan of a batch tiles it: the spans are not empty, start at transaction 0, end at the last, and
-- each starts where the one before it ends; the empty batch has no span. And each span is a single
-- transaction or meets the caps on the count and on the bytes that are set.
pub plan_chunks-covers :
    (max_count max_bytes : ℕ) (txs : List ℕ)
    → Tiles 0 (length txs) (plan_chunks max_count max_bytes txs)
      × All (Fits max_count max_bytes txs) (plan_chunks max_count max_bytes txs)
unfolding plan_chunks raw_txs_bytes
plan_chunks-covers mc mb [] = (refl, tt)
plan_chunks-covers mc mb (n ∷ rest) = (
  plan_from-Tiles mc mb 0 0 0 (length (n ∷ rest)) (n ∷ rest) (omega arith) (omega arith)
      (omega arith),
  plan_from-Fits mc mb 0 0 0 (n ∷ rest) [] [] (n ∷ rest) refl refl refl refl (omega arith)
      (inl (omega arith)),
)
