-- ===== src/Activity.antt =====
-- app/activity.py: the feed of settlements. What the RPC endpoint answers is a parameter. Amounts are
-- in micro-dollars; the source writes each as a decimal without zeros at its end.
pub mod Shows
use cortex_cloud_api.Prelude.{
  ℕ, zero, suc, ◌+◌, ◌-◌, String, Bool, Option, none, some, List, [], ◌∷◌, ◌++◌, length, leb, ◌==◌,
  if◌then◌else◌,
}
use cortex_cloud_api.Effects.{Exn, Result, ok, raised}
use cortex_cloud_api.Effects.Results.{◌>>=◌, map_result, traverse, or_else}
use cortex_cloud_api.Json.{Json, str, obj, end, is_true}
use cortex_cloud_api.Json.Access.{get, get_or, items_of}
use cortex_cloud_api.OnChain.{decode_hex_int}

-- The parsed answers to eth_blockNumber, to eth_getLogs from a block, and to eth_getBlockByNumber.
pub record Chain : Type 0 where
  pub block_number : Result Json
  pub get_logs : ℕ → Result Json
  pub get_block : Json → Result Json

-- A transaction of the feed; the one of the fallback has no age.
pub record Shown : Type 0 where
  pub tx_hash : Json
  pub amount_usdc : ℕ
  pub ts : ℕ
  pub age_s : Option ℕ

pub record Feed : Type 0 where
  pub count : ℕ
  pub volume_usdc : ℕ
  pub txns : List Shown

abbrev pub verified : Shown
verified = record {
  tx_hash = str "0x9b1f2c3d4e5f60718293a4b5c6d7e8f90a1b2c3d4e5f60718293a4b5c6d7e8f90";
  amount_usdc = 15_000;
  ts = 1_752_350_400;
  age_s = none;
}

abbrev pub fallback : Feed
fallback = record { count = 1; volume_usdc = verified.amount_usdc; txns = verified ∷ [] }

-- `_decode_amount`
unfoldable pub decode_amount : Json → Result ℕ
decode_amount log =
    get_or log "data" (str "0x0") >>= λ hex_digits. ok (or_else 0 (decode_hex_int hex_digits))

abbrev or_default : Json → Json → Json
or_default value default = if is_true value then value else default

module _ (chain : Chain) where
  -- `_block_number`
  unfoldable pub block_number : Result ℕ
  block_number =
      chain.block_number >>= λ reply. get_or reply "result" (str "0x0") >>= decode_hex_int

  abbrev logs_in : Json → Result (List Json)
  logs_in value = if is_true value then items_of value else ok []

  -- `_get_logs`
  unfoldable pub get_logs : ℕ → Result (List Json)
  get_logs from_block = chain.get_logs from_block >>= λ reply. get reply "result" >>= logs_in

  -- `_block_ts`
  unfoldable pub block_ts : Json → Result ℕ
  block_ts block = chain.get_block block >>= λ reply. get reply "result" >>= λ value.
      get_or (or_default value (obj end)) "timestamp" (str "0x0") >>= decode_hex_int

  abbrev shown_at : ℕ → Json → ℕ → ℕ → Shown
  shown_at now hash amount ts = record {
    tx_hash = hash;
    amount_usdc = amount;
    ts = ts;
    age_s = some (now - ts);
  }

  abbrev transfer : ℕ → Json → ℕ → Result (List Shown)
  transfer now log amount = get_or log "blockNumber" (str "0x0") >>= λ block.
      block_ts block >>= λ ts.
      get log "transactionHash" >>= λ hash. ok (shown_at now hash amount ts ∷ [])

  abbrev unless_zero : ℕ → Json → ℕ → Result (List Shown)
  unless_zero now log zero = ok []
  unless_zero now log (suc n) = transfer now log (suc n)

  -- A log with an amount above nought gives a transaction.
  abbrev pub read_log : ℕ → Json → Result (List Shown)
  read_log now log = decode_amount log >>= unless_zero now log

  abbrev pub read_logs : ℕ → List Json → Result (List Shown)
  read_logs now [] = ok []
  read_logs now (log ∷ rest) =
      read_log now log >>= λ found. map_result (λ later. found ++ later) (read_logs now rest)

  -- `max(head - 20000, 1)`
  abbrev start_of : ℕ → ℕ
  start_of head = if leb (head - 20_000) 1 then 1 else head - 20_000

  abbrev pub transfers : ℕ → Result (List Shown)
  transfers now = block_number >>= λ head. get_logs (start_of head) >>= λ logs. read_logs now logs

-- `txns.sort(key=lambda t: t["ts"], reverse=True)`, which keeps the order of equal times.
abbrev pub insert : Shown → List Shown → List Shown
insert t [] = t ∷ []
insert t (u ∷ rest) = let later = insert t rest in if leb u.ts t.ts then t ∷ u ∷ rest else u ∷ later

abbrev pub newest_first : List Shown → List Shown
newest_first [] = []
newest_first (t ∷ rest) = insert t (newest_first rest)

abbrev pub volume : List Shown → ℕ
volume [] = 0
volume (t ∷ rest) = t.amount_usdc + volume rest

abbrev pub feed_of : List Shown → Feed
feed_of [] = fallback
feed_of (t ∷ rest) =
    let sorted = newest_first (t ∷ rest) in
    record { count = length sorted; volume_usdc = volume sorted; txns = sorted }

abbrev pub feed_or_fallback : Result (List Shown) → Feed
feed_or_fallback (ok found) = feed_of found
feed_or_fallback (raised e) = fallback

unfoldable pub activity : Chain → ℕ → Feed
activity chain now = feed_or_fallback (transfers chain now)
