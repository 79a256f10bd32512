-- ===== src/Caches/Tokens.antt =====
-- services/sse/tokenindex.go: `tokenIndex`, which tells the fan-out the callback tokens that are
-- subscribed to a transaction. The store's resolution is a parameter: for a transaction id, a failure
-- or its tokens.
use arcade.Prelude.{
  ℕ, zero, suc, ◌+◌, ◌-◌, ◌*◌, ◌≤◌, ◌<◌, ◌≡◌, ◌⊎◌, refl, sym, ap, subst, ◌∙◌, inl, inr, String,
  Bool, true, false, not, ◌&&◌, ◌||◌, List, [], ◌∷◌, map, Option, none, some, arith, ◌==◌, IsEq,
  string_eq, if◌then◌else◌, ltb, length, contains, Bool-cases, Option-cases, eq_cases,
}
use arcade.Prelude.Map.{Map, lookup}
use arcade.Caches.Lru.{Lru, spent}
use arcade.Caches.Budget.{
  Charged, IsExact, IsWithin, drop_key, read, install, Part, drop_key-lookup, install-Part,
  read-lookup, install-IsExact, install-IsWithin, drop_key-IsExact, read-IsExact,
}
pub mod Answers

abbrev pub TokenSet : Type 0
TokenSet = List String

pub record CacheEntry : Type 0 where
  pub tokens : TokenSet
  pub expires_at : ℕ

abbrev pub entry_overhead : ℕ
entry_overhead = 160

abbrev pub token_overhead : ℕ
token_overhead = 16

abbrev pub max_token_cache_bytes : ℕ
max_token_cache_bytes = 16777216

-- `has`.
unfoldable pub has : TokenSet → String → Bool
has tokens token = contains tokens token

module _ (byte_length : String → ℕ) where
  unfoldable pub tokens_cost : TokenSet → ℕ
  tokens_cost [] = 0
  tokens_cost (t ∷ rest) = token_overhead + byte_length t + tokens_cost rest

  unfoldable pub entry_cost : String → CacheEntry → ℕ
  entry_cost txid entry = entry_overhead + byte_length txid + tokens_cost entry.tokens

-- One call of `lookup`: when it reads, when it stores, and what the store answers.
pub record Call : Type 0 where
  pub now : ℕ
  pub stored : ℕ
  pub txid : String
  pub answer : Option TokenSet

module _ {L : Type 0} (api : Lru String CacheEntry L) (byte_length : String → ℕ)
    (max_bytes ttl : ℕ) where
  -- An expired entry is dropped, and is a miss.
  unfoldable pub cached_entry :
      ℕ → String → Charged L × Option CacheEntry → Charged L × Option TokenSet
  cached_entry now txid (c, none) = (c, none)
  cached_entry now txid (c, some entry) =
      if ltb entry.expires_at now
      then (drop_key api (entry_cost byte_length) txid c, none)
      else (c, some (entry.tokens))

  unfoldable pub cached : ℕ → String → Charged L → Charged L × Option TokenSet
  cached now txid c = cached_entry now txid (read api (entry_cost byte_length) txid c)

  unfoldable pub add : ℕ → String → TokenSet → Charged L → Charged L
  add now txid tokens c =
      install api (entry_cost byte_length) max_bytes txid
        (record { tokens = tokens; expires_at = now + ttl }) c

  -- On a miss: what the store resolves, which is cached unless it is empty.
  unfoldable pub resolve : ℕ → String → Option TokenSet → Charged L → Charged L × TokenSet
  resolve now txid none c = (c, [])
  resolve now txid (some []) c = (c, [])
  resolve now txid (some (t ∷ rest)) c = (add now txid (t ∷ rest) c, t ∷ rest)

  abbrev hit_or : ℕ → String → Option TokenSet → Charged L × Option TokenSet → Charged L × TokenSet
  hit_or stored txid answer (c, some tokens) = (c, tokens)
  hit_or stored txid answer (c, none) = resolve stored txid answer c

  -- `lookup`, at the time of the read and that of the addition, with the store's answer.
  unfoldable pub find : ℕ → ℕ → String → Option TokenSet → Charged L → Charged L × TokenSet
  find now stored txid answer c =
      if txid == "" then (c, []) else hit_or stored txid answer (cached now txid c)

  -- The calls before, the newest first.
  unfoldable pub run : List Call → Charged L
  run [] = record { lru = api.empty; total = 0 }
  run (c ∷ older) = (find c.now c.stored c.txid c.answer (run older)).0

  -- `resolveBatch`: the store's answer for the transactions that it knows, and nothing where it fails.
  unfoldable pub resolve_batch :
      Option (Map String TokenSet) → List String → Charged L → Charged L × Map String TokenSet
  resolve_batch answer [] c = (c, [])
  resolve_batch none (t ∷ rest) c = (c, [])
  resolve_batch (some resolved) (t ∷ rest) c = (c, resolved)
