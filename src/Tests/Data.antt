-- ===== src/Tests/Data.antt =====
-- The inputs of the tests: a host, three products, and a store with two runs.
use mathlib.Core.List.Permᴰ
use conductor.Ingest.Processor.Again.{Digests}
use conductor.Prelude.{String, eq_iff, arith, ◌≡◌, refl, true, none, some, [], ◌∷◌, ok}
use conductor.Json.{Json}
use conductor.Ingest.Decode.{Decoder}
use conductor.Domain.{Product, enqueued, unchanged}
use conductor.Host.{Host, Ranges}
use conductor.Ingest.Processor.{ProductProcessResult}
use conductor.State.Records.{RunRecord}
use conductor.State.Memory.{MemoryStore, Shuffle, Shuffles}
use conductor.State.Memory.Keyed.{IsKeyed}
use conductor.Api.Context.{background}
use conductor.Api.Http.{Request, Clock}

-- A digest that is never empty.
abbrev pub digest : String → String
digest String.[] = "0"
digest (String.◌∷◌ c b) = String.◌∷◌ c b

abbrev pub host : Host
host = record {
  lower_rune = λ c. c;
  iterate = λ keys. keys;
  marshal = λ j. ok "document";
  sha256_hex = digest;
}

pub host-Ranges : Ranges host
host-Ranges = record { visits = λ keys. Permᴰ.refl keys }

pub host-Digests : Digests host
host-Digests = record { filled = go }
  where
    go : (b : String) → ¬ (digest b ≡ "")
    go String.[] e = ground (arith, eq_iff "0" "")
    go (String.◌∷◌ c b) e = cc

-- A decoder that finds this value in every text, and float64s as they are written.
abbrev pub reading : Json → Decoder
reading v = record {
  decode_first = λ text. ok v;
  decode_all = λ text. ok v;
  mismatch = λ v. "wrong kind";
  fold_name = λ name. name;
  float64 = λ literal. some literal;
}

abbrev pub mug : Product
mug = record {
  product_key = "mug";
  group_key = "";
  title = "Mug";
  description = "A mug";
  link = "https://shop/mug";
  image_link = "https://shop/mug.png";
  additional_image_links = "a" ∷ "b" ∷ [];
  brand = "";
  gtin = "";
  mpn = "";
  condition = "new";
  availability = "in_stock";
  price = record { amount_decimal = "12.50"; currency = "USD" };
  sale_price = none;
  options = [];
  attributes = [];
  channel = record {
    google = some (record { control = record { state = "active" } });
    meta = none;
    yotpo = none;
  };
}

-- The same content with the images the other way round.
abbrev pub turned_mug : Product
turned_mug = record mug { additional_image_links = "b" ∷ "a" ∷ [] }

abbrev pub untitled : Product
untitled = record mug { product_key = "untitled"; title = " " }

abbrev pub mug_result : ProductProcessResult
mug_result = record {
  product_key = "mug";
  hash = "document";
  disposition = enqueued;
  reason = "new_product";
  issues = [];
}

abbrev pub shuffle : Shuffle
shuffle = record { runs = λ l. l; products = λ l. l }

pub shuffle-Shuffles : Shuffles shuffle
shuffle-Shuffles = record { runs = λ l. Permᴰ.refl l; products = λ l. Permᴰ.refl l }

abbrev pub run_one : RunRecord
run_one = record {
  run_id = "r1";
  tenant_id = 7;
  feed_id = none;
  status = "has_changes";
  push_triggered = true;
  received = 1;
  valid = 1;
  rejected = 0;
  unchanged = 0;
  enqueued = 1;
  warnings = record { unknown_keys = [] };
  created_at = 100;
}

abbrev pub run_two : RunRecord
run_two = record run_one { run_id = "r2"; created_at = 50 }

-- Two runs that wait for a worker, and the results of one.
abbrev pub shop : MemoryStore
shop = record {
  product_hash = [];
  runs = ("r1", run_one) ∷ ("r2", run_two) ∷ [];
  run_products = ("r1", mug_result ∷ record mug_result { disposition = unchanged } ∷ []) ∷ [];
  idem = [];
}

pub shop-IsKeyed : IsKeyed shop.runs
shop-IsKeyed = record { distinct = ((refl, tt), (tt, tt)); own = (refl, (refl, tt)) }

abbrev pub clock : Clock
clock = record { looked_up = 1000; recorded = 1001; expiring = 1002; created = 1003 }

-- A POST with an idempotency key and a bearer token.
abbrev pub post : Request
post = record {
  method = "POST";
  path = "/v1/debug/products:upsert";
  headers = ("Idempotency-Key", "k1") ∷ ("Authorization", "Bearer abc") ∷ [];
  query = [];
  body = record { bytes = "[]"; failure = none };
  context = background;
}
