-- ===== src/Api/Bulk/Tally.antt =====
-- What the summary of a bulk upload says of its lines.
use mathlib.Core.Path.{subst}
use conductor.Prelude.{
  ℕ, ◌+◌, String, ◌≡◌, refl, inl, inr, Bool, false, Option, some, List, [], ◌∷◌, Result, ok, err,
  arith, length, length-append, Bool-cases, Result-cases, if◌then◌else◌,
}
use conductor.Prelude.Equality.{◌==◌, string_instance}
use conductor.Prelude.Text.{trim_space}
use conductor.Domain.{Product}
use conductor.Host.{Host}
use conductor.Ingest.Decode.{Decoder}
use conductor.Ingest.Parse.{parse_product_object_allow_unknown, merge_keys}
use conductor.Ingest.Processor.{
  PreviousHashLookup, ProductProcessResult, ProcessOutput, process_product, tally_result,
}
use conductor.Ingest.Processor.Accounts.{
  IsTallied, Agrees, tally_result-IsTallied, process_product-Agrees, received-tally_result,
}
use conductor.State.Store.{Store}
use conductor.Api.Bulk.{
  BulkState, running, stopped, take_line, take_result, persisted, persist_result, bulk_loop,
  count_received, invalid_line, no_output,
}

-- How many lines are not blank.
unfoldable pub filled_lines : List String → ℕ
filled_lines [] = 0
filled_lines (line ∷ lines) =
    let rest = filled_lines lines in if trim_space line == "" then rest else rest + 1

-- An output that agrees with its results after a number of lines that are not blank.
pub record Counts (n : ℕ) (out : ProcessOutput) : Type 0 where
  pub tallied : IsTallied out
  pub received : out.summary.received ≡ n
  pub results : length out.products ≡ n

abbrev StateCounts : ℕ → BulkState → Type 0
StateCounts n (running out unknown) = Counts n out
StateCounts n (stopped members) = Unit

count_received-Counts :
    (n : ℕ) (out : ProcessOutput) → Counts n out → IsTallied (count_received out)
count_received-Counts n out c = record {
  rejected = c.tallied.rejected;
  unchanged = c.tallied.unchanged;
  enqueued = c.tallied.enqueued;
  valid = c.tallied.valid;
  all = c.tallied.all;
}

length-tally_result :
    (n : ℕ) (out : ProcessOutput) (res : ProductProcessResult) (valid : Bool)
    → length out.products ≡ n
    → length (tally_result (count_received out) res valid).products ≡ n + 1
unfolding tally_result
length-tally_result n out res valid e = omega (arith, e, length-append out.products (res ∷ []))

tally_result-Counts :
    (n : ℕ) (out : ProcessOutput) (res : ProductProcessResult) (valid : Bool)
    → Agrees valid res.disposition
    → Counts n out
    → Counts (n + 1) (tally_result (count_received out) res valid)
tally_result-Counts n out res valid a c = record {
  tallied = tally_result-IsTallied (count_received out) res valid a (count_received-Counts n out c);
  received = omega (arith, received-tally_result (count_received out) res valid, c.received);
  results = length-tally_result n out res valid c.results;
}

module _ (h : Host) (d : Decoder) {S : Type 0} (store : Store S) (channels : List String)
    (t : ℕ) where
  persisted-Counts :
      (n : ℕ) (out : ProcessOutput) (unknown : List String) (key : String)
      (q : Result (Unit {0}) × S)
      → Counts n out
      → StateCounts n (persisted h d store channels t out unknown key q).0
  persisted-Counts n out unknown key (ok _, s) c = c
  persisted-Counts n out unknown key (err m, s) c = tt

  take_result-Counts :
      (n : ℕ) (p : Product) (out : ProcessOutput) (unknown : List String) (s : S)
      → Counts n out
      → StateCounts
          (n + 1)
          (take_result h d store channels t
            (count_received out)
            unknown
            (process_product h p channels (some (λ key. store.get_product_hash t key s)))
            s).0
  take_result-Counts n p out unknown s c =
      let l : Option PreviousHashLookup = some (λ key. store.get_product_hash t key s) in
      elim (Result-cases (process_product h p channels l)) [
        | inr (m, e) ↦ rw e tt
        | inl ((res, valid), e) ↦
            let agrees = (process_product-Agrees h channels l p res valid e).0 in
            rw e (
              persisted-Counts (n + 1) _ unknown res.product_key
                (persist_result h d store channels t res valid s)
                (tally_result-Counts n out res valid agrees c))
      ]

  take_line-Counts :
      (n : ℕ) (line : String) (out : ProcessOutput) (unknown : List String) (s : S)
      → Counts n out
      → StateCounts
          (if trim_space line == "" then n else n + 1)
          (take_line h d store channels t line out unknown s).0
  unfolding take_line
  take_line-Counts n line out unknown s c = elim (Bool-cases (trim_space line == "")) [
    | inl blank ↦ rw blank c
    | inr filled ↦ elim (Result-cases (parse_product_object_allow_unknown d (trim_space line))) [
      | inr (m, e) ↦ rw (filled, e) (tally_result-Counts n out (invalid_line m) false tt c)
      | inl ((p, unk), e) ↦ rw (filled, e) (take_result-Counts n p out (merge_keys unk unknown) s c)
    ]
  ]

  bulk_loop-Counts :
      (lines : List String) (n : ℕ) (q : BulkState × S)
      → StateCounts n q.0
      → StateCounts (n + filled_lines lines) (bulk_loop h d store channels t lines q).0
  unfolding bulk_loop filled_lines
  bulk_loop-Counts [] n q c = subst (λ m. StateCounts m q.0) (omega arith) c
  bulk_loop-Counts (line ∷ lines) n (stopped members, s) c = tt
  bulk_loop-Counts (line ∷ lines) n (running out unknown, s) c =
      let one = take_line-Counts n line out unknown s c in
      let rest = bulk_loop-Counts lines _ (take_line h d store channels t line out unknown s) one in
      let count : (if trim_space line == "" then n else n + 1) + filled_lines lines
          ≡ n + filled_lines (line ∷ lines) =
        ground arith in
      subst
        (λ m.
          StateCounts m
            (bulk_loop h d store channels t lines
              (take_line h d store channels t line out unknown s)).0)
        count rest

no_output-Counts : Counts 0 no_output
no_output-Counts = record {
  tallied = record { rejected = refl; unchanged = refl; enqueued = refl; valid = refl; all = refl };
  received = refl;
  results = refl;
}

-- When the loop of a bulk upload has taken all its lines, each counter of its summary is the number of
-- results of its kind, and received, the number of lines that are not blank, is valid plus rejected.
pub bulk_loop-IsTallied :
    (h : Host) (d : Decoder) {S : Type 0} (store : Store S) (channels : List String) (t : ℕ)
    (lines : List String) (s s' : S) (out : ProcessOutput) (unknown : List String)
    → bulk_loop h d store channels t lines (running no_output [], s) ≡ (running out unknown, s')
    → IsTallied out
      × (out.summary.received ≡ filled_lines lines)
      × (out.summary.received ≡ out.summary.valid + out.summary.rejected)
bulk_loop-IsTallied h d store channels t lines s s' out unknown e =
    let c =
      bulk_loop-Counts h d store channels t lines 0 (running no_output [], s) no_output-Counts in
    let done : Counts (0 + filled_lines lines) out =
      subst (λ q. StateCounts (0 + filled_lines lines) q.0) e c in
    (
      done.tallied,
      omega (arith, done.received),
      omega (arith, done.tallied.all, done.results, done.received),
    )
