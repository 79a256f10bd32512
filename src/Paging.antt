-- ===== src/Paging.antt =====
-- store/paging.go: ForEachBlockProcessing, the scan of the block rows by pages. The cursor is a height,
-- which rows share, so the scan takes the boundary height again and grows a page that is one height.
-- `list` is the store's ListBlockProcessingStatus: none is an error, a cancelled context included.
use arcade.Prelude.{
  ℕ, zero, suc, ◌+◌, ◌-◌, ◌*◌, ◌≡◌, String, Bool, true, false, List, [], ◌∷◌, ◌++◌, Option, none,
  some, ◌==◌, nat_eq, if◌then◌else◌, ltb, leb, length,
}
pub mod Rows
pub mod Cover
pub mod Ends

pub record BlockRow : Type 0 where
  pub block_hash : String
  pub block_height : ℕ

pub data Result : Type 0 where
  done : Result
  bad_page_size : Result
  list_failed : Result
  fn_failed : Result
  scan_incomplete : Result
  out_of_fuel : Result

abbrev pub max_page : ℕ
max_page = 65536

-- How the loop over a page ends: at its end, at a row below the minimum, or at a failure of `fn`.
pub data Visit : Type 0 where
  through : Visit
  below_min : Visit
  fn_error : Visit

-- What follows a page: the scan ends, or goes on from a cursor with a limit.
pub data Next : Type 0 where
  stop : Result → Next
  go : ℕ → ℕ → Next

abbrev pub last_height : BlockRow → List BlockRow → ℕ
last_height row [] = row.block_height
last_height row (next ∷ rows) = last_height next rows

module _ (fails : BlockRow → Bool) (min_height : ℕ) where
  -- The rows of a page that `fn` is called on.
  unfoldable pub visit : List BlockRow → List BlockRow × Visit
  visit [] = ([], through)
  visit (row ∷ rows) =
      let (seen, v) = visit rows in
      if ltb row.block_height min_height
      then ([], below_min)
      else (if fails row then (row ∷ [], fn_error) else (row ∷ seen, v))

  unfoldable pub advance : ℕ → ℕ → BlockRow → List BlockRow → Visit → Next
  advance before limit row rows below_min = stop done
  advance before limit row rows fn_error = stop fn_failed
  advance before limit row rows through =
      let last = last_height row rows in
      if ltb (suc (length rows)) limit
      then stop done
      else if row.block_height == last
      then (if leb max_page limit then stop scan_incomplete else go before (limit * 2))
      else (if last == 0 then stop done else go (last + 1) limit)

  -- The rows seen so far, and what the rest of the scan sees.
  abbrev pub follow :
      (ℕ → ℕ → List BlockRow × Result) → List BlockRow → Next → List BlockRow × Result
  follow next seen (stop r) = (seen, r)
  follow next seen (go before limit) = let (more, r) = next before limit in (seen ++ more, r)

  -- One page, and the rest of the scan.
  unfoldable pub scan_page :
      (ℕ → ℕ → List BlockRow × Result) → ℕ → ℕ → List BlockRow → List BlockRow × Result
  scan_page next before limit [] = ([], done)
  scan_page next before limit (row ∷ rows) =
      let (seen, v) = visit (row ∷ rows) in follow next seen (advance before limit row rows v)

  module _ (list : ℕ → ℕ → Option (List BlockRow)) where
    unfoldable pub scan : ℕ → ℕ → ℕ → List BlockRow × Result
    scan zero before limit = ([], out_of_fuel)
    scan (suc fuel) before limit = elim (list before limit) [
      | none ↦ ([], list_failed)
      | some page ↦ scan_page (scan fuel) before limit page
    ]

    unfoldable pub for_each_block_processing : ℕ → ℕ → List BlockRow × Result
    for_each_block_processing fuel page_size =
        if page_size == 0 then ([], bad_page_size) else scan fuel 0 page_size
