-- ===== src/Finality/Checker.antt =====
-- finality/mtp.go: `Checker`, which reads the tip of the chain, keeps the last reading for a while, and
-- applies the lock-time rule. The chain reader and the height reader are other components: a check
-- is given what they answer. A clock reading of 0 is the zero time, which is no reading.
use arcade.Prelude.{
  ℕ, ◌+◌, ◌-◌, ◌%◌, ◌^◌, String, Bool, true, false, not, ◌&&◌, ◌||◌, List, [], ◌∷◌, Option, none,
  some, ◌==◌, nat_eq, string_eq, if◌then◌else◌, ltb, leb,
}
use arcade.Finality.{Transaction, Verdict, final, lock_time_threshold, is_transaction_final}
use arcade.Finality.Median.{median}

pub record Tip : Type 0 where
  pub hash : String
  pub height : ℕ

-- The reader of the chain at one check: its tip, and its headers by first height and count, an
-- error or a list in which a header may be nil, of which the timestamp is read.
pub record View : Type 0 where
  pub tip : Option Tip
  pub headers : ℕ → ℕ → Option (List (Option ℕ))

pub record Snapshot : Type 0 where
  pub tip_hash : String
  pub tip_height : ℕ
  pub mtp : ℕ
  pub fetched_at : ℕ

pub record State : Type 0 where
  pub snap : Snapshot
  -- How often the hook for an unavailable chain was called.
  pub unavailable : ℕ

-- One reading: the clock at its start, the chain, and the clock when it is stored.
pub record Poll : Type 0 where
  pub now : ℕ
  pub view : View
  pub stored : ℕ

abbrev pub mtp_window : ℕ
mtp_window = 11

abbrev pub max_uint32 : ℕ
max_uint32 = 2 ^ 32 - 1

unfoldable pub note_unavailable : State → State
note_unavailable st = record st { unavailable = st.unavailable + 1 }

unfoldable pub timestamps_of : List (Option ℕ) → List ℕ
timestamps_of [] = []
timestamps_of (none ∷ hs) = timestamps_of hs
timestamps_of (some t ∷ hs) = t ∷ timestamps_of hs

-- The first height and the count of the headers whose median is taken.
unfoldable pub window : ℕ → ℕ × ℕ
window height =
    if leb (mtp_window - 1) height
    then (height - (mtp_window - 1), mtp_window)
    else (0, (height + 1) % 2 ^ 32)

-- The median of the window below a tip; none where it is unavailable.
unfoldable pub window_median : View → Tip → Option ℕ
window_median view tip =
    let (start, count) = window tip.height in
    elim (view.headers start count) [
      | none ↦ none
      | some hs ↦ elim (median (timestamps_of hs)) [
        | none ↦ none
        | some m ↦ if m == 0 then none else some m
      ]
    ]

unfoldable pub is_fresh : ℕ → ℕ → Snapshot → Bool
is_fresh ttl now snap = not (snap.fetched_at == 0) && ltb now (snap.fetched_at + ttl)

-- The tail of a reading: the median of the window of the tip is stored, or is unavailable.
unfoldable pub store_median : Poll → Tip → State → Option ℕ → State × Option (ℕ × ℕ)
store_median p tip st none = (note_unavailable st, none)
store_median p tip st (some m) = (
  record st {
    snap = record { tip_hash = tip.hash; tip_height = tip.height; mtp = m; fetched_at = p.stored };
  },
  some (tip.height, m),
)

-- A reading of the tip: on the tip that is kept, only its age is renewed.
unfoldable pub read_tip : Poll → State → Option Tip → State × Option (ℕ × ℕ)
read_tip p st none = (note_unavailable st, none)
read_tip p st (some tip) =
    if tip.hash == st.snap.tip_hash && not (st.snap.fetched_at == 0)
    then (
      record st { snap = record (st.snap) { fetched_at = p.stored } },
      some (st.snap.tip_height, st.snap.mtp),
    )
    else store_median p tip st (window_median p.view tip)

unfoldable pub chain_state : ℕ → Poll → State → State × Option (ℕ × ℕ)
chain_state ttl p st =
    if is_fresh ttl p.now st.snap
    then (st, some (st.snap.tip_height, st.snap.mtp))
    else read_tip p st p.view.tip

unfoldable pub next_height_u32 : ℕ → ℕ
next_height_u32 height = if leb max_uint32 height then max_uint32 else height + 1

abbrev pub zero_state : State
zero_state = record {
  snap = record { tip_hash = ""; tip_height = 0; mtp = 0; fetched_at = 0 };
  unavailable = 0;
}

-- What a checker is built over: no reader, or one; no height reader, one that fails, or a height.
pub record Sources : Type 0 where
  pub reader : Option Poll
  pub height_reader : Option (Option ℕ)

-- A checker with neither source is nil, which accepts every transaction.
unfoldable pub new_checker : Sources → Option Sources
new_checker c = elim (c.reader) [
  | some r ↦ some c
  | none ↦ elim (c.height_reader) [ none ↦ none | some h ↦ some c ]
]

abbrev pub is_nil : Option Poll → Bool
is_nil none = true
is_nil (some r) = false

module _ (default_sequence : ℕ) where
  unfoldable pub all_default : List ℕ → Bool
  all_default [] = true
  all_default (s ∷ rest) = if s == default_sequence then all_default rest else false

  unfoldable pub lock_time_irrelevant : Transaction → Bool
  lock_time_irrelevant tx = tx.lock_time == 0 || all_default tx.sequences

  unfoldable pub check_height_only : Sources → Transaction → State → State × Verdict
  check_height_only c tx st = elim (c.height_reader) [
    | none ↦ (st, final)
    | some answer ↦
        if leb lock_time_threshold tx.lock_time
        then (if is_nil c.reader then note_unavailable st else st, final)
        else elim answer [
          | none ↦ (note_unavailable st, final)
          | some height ↦
              if height == 0
              then (note_unavailable st, final)
              else (st, is_transaction_final default_sequence tx (next_height_u32 height) 0)
        ]
  ]

  -- After the chain was read.
  unfoldable pub check_state : Sources → Transaction → State × Option (ℕ × ℕ) → State × Verdict
  check_state c tx (st, none) = check_height_only c tx st
  check_state c tx (st, some (height, m)) =
      (st, is_transaction_final default_sequence tx ((height + 1) % 2 ^ 32) m)

  unfoldable pub check : ℕ → Option Sources → Transaction → State → State × Verdict
  check ttl none tx st = (st, final)
  check ttl (some c) tx st = if lock_time_irrelevant tx then (st, final) else elim (c.reader) [
    | none ↦ check_height_only c tx st
    | some p ↦ check_state c tx (chain_state ttl p st)
  ]
