-- ===== src/Teranode/Submit.antt =====
-- teranode/client.go: SubmitTransactions, which reads a peer's verdict on a batch out of its answer, and
-- parseTxsFailures. The two regular expressions and the lower-casing are the standard library's: the
-- first gives the id in the ProcessTransaction wrapper, the second the first 64 hexadecimal digits.
use arcade.Prelude.{
  ℕ, ◌+◌, ◌≡◌, ◌≢◌, ◌⊎◌, refl, sym, ap, subst, ◌∙◌, inl, inr, String, Bool, true, false, not, ◌&&◌,
  List, [], ◌∷◌, ◌++◌, Option, none, some, arith, ◌==◌, nat_eq, string_eq, if◌then◌else◌, length,
  drop, contains, contains-append, Bool-cases, eq_cases, beq_refl, beq_ne,
}
use arcade.Prelude.Map.{Map, lookup, insert, lookup-insert, lookup-insert_self}

pub record TxsFailures : Type 0 where
  pub by_key : Map String String
  pub unkeyed : List String

-- `Len`, of a list that may be nil.
unfoldable pub failure_count : Option TxsFailures → ℕ
failure_count none = 0
failure_count (some f) = length f.by_key + length f.unkeyed

unfoldable pub keyed : Option TxsFailures → Map String String
keyed none = []
keyed (some f) = f.by_key

abbrev pub txs_failure_header : String
txs_failure_header = "Failed to process transactions:"

abbrev pub txs_batch_limit_bodies : List String
txs_batch_limit_bodies =
    "Invalid request body: too many transactions" ∷ "Invalid request body: too much data"
    ∷ "Invalid request body: too many submissions" ∷ []

-- What the request came to: it could not be made or sent, or it was answered with a status, the body
-- trimmed of space, its lines without the newlines at the end, and whether reading it failed.
pub record Answer : Type 0 where
  pub status_code : ℕ
  pub trimmed : String
  pub lines : List String
  pub read_fails : Bool

pub data Problem : Type 0 where
  no_problem : Problem
  not_sent : Problem
  batch_too_large : Problem
  unexpected_status : Problem

pub record Verdict : Type 0 where
  pub status : ℕ
  pub failures : Option TxsFailures
  pub problem : Problem

unfoldable pub is_txs_batch_limit_body : String → Bool
is_txs_batch_limit_body trimmed = contains txs_batch_limit_bodies trimmed

module _ (wrapped : String → Option String) (first_hex : String → String)
    (to_lower : String → String) where
  -- The id that a failure line names, or the empty text.
  unfoldable pub line_txid : String → String
  line_txid line = elim (wrapped line) [ none ↦ first_hex line | some txid ↦ txid ]

  unfoldable pub place_line : String → TxsFailures → TxsFailures
  place_line line out =
      let txid = line_txid line in
      if line == ""
      then out
      else if txid == ""
      then record out { unkeyed = out.unkeyed ++ line ∷ [] }
      else record out { by_key = insert (to_lower txid) line out.by_key }

  unfoldable pub place_lines : List String → TxsFailures → TxsFailures
  place_lines [] out = out
  place_lines (line ∷ rest) out = place_lines rest (place_line line out)

  abbrev pub non_empty : TxsFailures → Option TxsFailures
  non_empty f = if failure_count (some f) == 0 then none else some f

  unfoldable pub parse_txs_failures : List String → Option TxsFailures
  parse_txs_failures [] = none
  parse_txs_failures (header ∷ rest) =
      if header == txs_failure_header
      then non_empty (place_lines rest (record { by_key = []; unkeyed = [] }))
      else none

  -- The answer to a non-200 whose body was read: a failure list, a refusal by shape, or neither.
  unfoldable pub read_refusal : Answer → Option TxsFailures → Verdict
  read_refusal a (some f) = record {
    status = a.status_code;
    failures = some f;
    problem = unexpected_status;
  }
  read_refusal a none =
      if a.status_code == 400 && is_txs_batch_limit_body a.trimmed
      then record { status = a.status_code; failures = none; problem = batch_too_large }
      else record { status = a.status_code; failures = none; problem = unexpected_status }

  unfoldable pub submit_transactions : Option Answer → Verdict
  submit_transactions none = record { status = 0; failures = none; problem = not_sent }
  submit_transactions (some a) =
      if a.status_code == 200
      then record { status = 200; failures = none; problem = no_problem }
      else if a.status_code == 413
      then record { status = 413; failures = none; problem = batch_too_large }
      else if a.read_fails
      then record { status = a.status_code; failures = none; problem = unexpected_status }
      else read_refusal a (parse_txs_failures a.lines)

  -- A failure line is kept: whole among the lines without an id, where it names none; and where it
  -- names one, that id, in lower case, is the key of a line, which names the same.
  abbrev pub Kept : String → TxsFailures → Type 0
  Kept line out =
      ((line_txid line ≡ "") × (contains out.unkeyed line ≡ true))
      ⊎ ((line_txid line ≢ "")
          × (l : String) × (lookup (to_lower (line_txid line)) out.by_key ≡ some l)
          × (to_lower (line_txid l) ≡ to_lower (line_txid line)))

  inserted-some :
      (k j v : String) (m : Map String String) (l : String)
      → lookup j m ≡ some l
      → to_lower (line_txid l) ≡ j
      → to_lower (line_txid v) ≡ k
      → (w : String) × (lookup j (insert k v m) ≡ some w) × (to_lower (line_txid w) ≡ j)
  inserted-some k j v m l h e d = elim (eq_cases k j) [
    | inl (b, x) ↦ (v, ground (arith, b, lookup-insert k j v m), d ∙ x)
    | inr (b, x) ↦ (l, ground (arith, b, h, lookup-insert k j v m), e)
  ]

  place_line-Kept :
      (line other : String) (out : TxsFailures) → Kept line out → Kept line (place_line other out)
  unfolding place_line
  place_line-Kept line other out (inl (n, h)) =
      inl (n, ground (arith, h, contains-append out.unkeyed (other ∷ []) line))
  place_line-Kept line other out (inr (n, l, h, e)) = elim (Bool-cases (other == "")) [
    | inl b ↦ rw b (inr (n, l, h, e))
    | inr b ↦ elim (Bool-cases (line_txid other == "")) [
      | inl c ↦ rw (b, c) (inr (n, l, h, e))
      | inr c ↦
          let (w, q, r) =
            inserted-some (to_lower (line_txid other)) (to_lower (line_txid line)) other out.by_key
              l h e refl in
          rw (b, c) (inr (n, w, q, r))
    ]
  ]

  -- The line that is placed.
  placed-Kept :
      (line : String) (out : TxsFailures) → (line == "") ≡ false → Kept line (place_line line out)
  unfolding place_line
  placed-Kept line out b = elim (eq_cases (line_txid line) "") [
    | inl (c, x) ↦
        rw (b, c)
          (inl (x, contains-append out.unkeyed (line ∷ []) line ∙ ground (arith, beq_refl line)))
    | inr (c, x) ↦
        rw (b, c)
          (inr (x, line, lookup-insert_self (to_lower (line_txid line)) line out.by_key, refl))
  ]

  place_lines-Kept :
      (lines : List String) (line : String) (out : TxsFailures)
      → Kept line out
      → Kept line (place_lines lines out)
  unfolding place_lines
  place_lines-Kept [] line out k = k
  place_lines-Kept (other ∷ rest) line out k =
      place_lines-Kept rest line (place_line other out) (place_line-Kept line other out k)

  all_placed :
      (lines : List String) (line : String) (out : TxsFailures)
      → contains lines line ≡ true
      → (line == "") ≡ false
      → Kept line (place_lines lines out)
  unfolding place_lines
  all_placed [] line out h b = absurd (ground (arith, h))
  all_placed (other ∷ rest) line out h b = elim (eq_cases other line) [
    | inl (c, x) ↦
        place_lines-Kept rest line (place_line other out)
          (subst (λ z. Kept line (place_line z out)) (sym x) (placed-Kept line out b))
    | inr (c, x) ↦ all_placed rest line (place_line other out) (ground (arith, h, c)) b
  ]

  parsed-Kept :
      (lines : List String) (line : String) (f : TxsFailures)
      → parse_txs_failures lines ≡ some f
      → contains (drop 1 lines) line ≡ true
      → (line == "") ≡ false
      → Kept line f
  unfolding parse_txs_failures
  parsed-Kept [] line f e h b = absurd (ground (arith, e))
  parsed-Kept (header ∷ rest) line f e h b =
      subst (Kept line) (named (place_lines rest (record { by_key = []; unkeyed = [] })) e)
        (all_placed rest line (record { by_key = []; unkeyed = [] }) h b)
    where
      named :
          (out : TxsFailures)
          → (if header == txs_failure_header then non_empty out else none) ≡ some f
          → out ≡ f
      named out q =
          elim (Bool-cases (header == txs_failure_header && not (failure_count (some out) == 0))) [
            | inl c ↦ ap (λ o. elim o [ none ↦ out | some z ↦ z ]) (sym (if_some c) ∙ q)
            | inr c ↦ absurd (ground (arith, q, c))
          ]
        where
          if_some :
              (header == txs_failure_header && not (failure_count (some out) == 0)) ≡ true
              → (if header == txs_failure_header then non_empty out else none) ≡ some out
          if_some c = ground (arith, c)

  refusal-failures : (a : Answer) (o : Option TxsFailures) → (read_refusal a o).failures ≡ o
  unfolding read_refusal
  refusal-failures a none = ground arith
  refusal-failures a (some f) = refl

  refusal-problem :
      (a : Answer) (o : Option TxsFailures) (f : TxsFailures)
      → o ≡ some f
      → (read_refusal a o).problem ≡ unexpected_status
  unfolding read_refusal
  refusal-problem a none f e = absurd (ground (arith, e))
  refusal-problem a (some g) f e = refl

  -- Where the answer to a batch comes with a list of failures: the body was read whole, the status is
  -- neither 200 nor 413, the problem is not that the batch is too large, and each line after the header
  -- that is not empty is in the list: one that names no id whole among the lines without an id, and one that
  -- names an id by that id, in lower case, as the key of a line that names the same.
  pub submit_transactions-Kept :
      (a : Answer) (f : TxsFailures) (line : String)
      → (submit_transactions (some a)).failures ≡ some f
      → contains (drop 1 a.lines) line ≡ true
      → line ≢ ""
      → (a.read_fails ≡ false)
        × (a.status_code ≢ 200)
        × (a.status_code ≢ 413)
        × ((submit_transactions (some a)).problem ≡ unexpected_status)
        × Kept line f
  unfolding submit_transactions
  submit_transactions-Kept a f line e h n = elim (Bool-cases (a.status_code == 200)) [
    | inl b ↦ absurd (ground (arith, b, e))
    | inr b ↦ elim (Bool-cases (a.status_code == 413)) [
      | inl c ↦ absurd (ground (arith, b, c, e))
      | inr c ↦ elim (Bool-cases a.read_fails) [
        | inl d ↦ absurd (ground (arith, b, c, d, e))
        | inr d ↦
            let parsed : parse_txs_failures a.lines ≡ some f =
              sym (refusal-failures a (parse_txs_failures a.lines)) ∙ ground (arith, b, c, d, e) in
            (
              d,
              ground (arith, b),
              ground (arith, c),
              ground (arith, b, c, d, refusal-problem a (parse_txs_failures a.lines) f parsed),
              parsed-Kept a.lines line f parsed h (beq_ne line "" n),
            )
      ]
    ]
  ]
