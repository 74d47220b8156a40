-- ===== src/Ingest/Validate/Base.antt =====
-- When `ValidateProductBase` finds no issue.
use conductor.Prelude.{
  String, len, ◌≡◌, refl, ◌≢◌, ◌↔◌, true, false, ◌⊎◌, inl, inr, List, [], ◌∷◌, arith, eq_iff,
}
use conductor.Prelude.Text.{trim_space}
use conductor.Domain.{Product}
use conductor.Ingest.Validate.{
  ValidationResult, ValidationIssue, no_issues, is_valid, add_issue, require_non_empty,
  check_decimal, check_currency, looks_like_decimal, validate_product_base,
}

pub is_valid-add_issue :
    (r : ValidationResult) (path code msg : String) → is_valid (add_issue r path code msg) ≡ false
unfolding is_valid add_issue
is_valid-add_issue r path code msg = go r.issues
  where
    go :
        (l : List ValidationIssue)
        → is_valid (add_issue (record { issues = l }) path code msg) ≡ false
    go [] = refl
    go (x ∷ xs) = refl

pub no_issues-is_valid : is_valid no_issues ≡ true
unfolding is_valid
no_issues-is_valid = refl

require_iff :
    (r : ValidationResult) (path v : String)
    → (is_valid (require_non_empty r path v) ≡ true) ↔ ((trim_space v ≢ "") × (is_valid r ≡ true))
unfolding require_non_empty
require_iff r path v =
    ground
      (arith, is_valid-add_issue r path "required" "field is required", eq_iff (trim_space v) "")

-- What a product has to carry: no required field is blank, the amount is a decimal, and the
-- currency has three bytes.
pub record HasBaseFields (p : Product) : Type 0 where
  pub product_key : trim_space p.product_key ≢ ""
  pub title : trim_space p.title ≢ ""
  pub description : trim_space p.description ≢ ""
  pub link : trim_space p.link ≢ ""
  pub image_link : trim_space p.image_link ≢ ""
  pub condition : trim_space p.condition ≢ ""
  pub availability : trim_space p.availability ≢ ""
  pub amount : trim_space p.price.amount_decimal ≢ ""
  pub currency : trim_space p.price.currency ≢ ""
  pub decimal : looks_like_decimal p.price.amount_decimal ≡ true
  pub code : len p.price.currency ≡ 3

check_decimal_iff :
    (p : Product) (r : ValidationResult)
    → (is_valid (check_decimal p r) ≡ true) ↔ (
        ((p.price.amount_decimal ≡ "") ⊎ (looks_like_decimal p.price.amount_decimal ≡ true))
        × (is_valid r ≡ true))
unfolding check_decimal
check_decimal_iff p r = ground (
  arith,
  eq_iff p.price.amount_decimal "",
  is_valid-add_issue r "price.amount_decimal" "invalid_decimal"
      "amount_decimal must look like a decimal number (e.g. \"19.99\")",
)

check_currency_iff :
    (p : Product) (r : ValidationResult)
    → (is_valid (check_currency p r) ≡ true)
      ↔ (((p.price.currency ≡ "") ⊎ (len p.price.currency ≡ 3)) × (is_valid r ≡ true))
unfolding check_currency
check_currency_iff p r = ground (
  arith,
  eq_iff p.price.currency "",
  is_valid-add_issue r "price.currency" "invalid_currency"
      "currency must be a 3-letter ISO code (e.g. \"USD\")",
)

-- A blank amount is reported as missing, so the test for an empty one adds nothing.
filled : (v : String) {P : Type 0} → trim_space v ≢ "" → (v ≡ "") ⊎ P → P
unfolding trim_space
filled v h (inl e) = absurd (h (rw e))
filled v h (inr p) = p

-- `ValidateProductBase` finds no issue exactly when no required field is blank, the amount looks
-- like a decimal, and the currency has three bytes.
pub validate_product_base_iff :
    (p : Product) → (is_valid (validate_product_base p) ≡ true) ↔ HasBaseFields p
unfolding validate_product_base
validate_product_base_iff p = (sound, complete)
  where
    sound : is_valid (validate_product_base p) ≡ true → HasBaseFields p
    sound h =
        let (code, h) = (check_currency_iff p _).0 h in
        let (decimal, h) = (check_decimal_iff p _).0 h in
        let (currency, h) = (require_iff _ _ _).0 h in
        let (amount, h) = (require_iff _ _ _).0 h in
        let (availability, h) = (require_iff _ _ _).0 h in
        let (condition, h) = (require_iff _ _ _).0 h in
        let (image_link, h) = (require_iff _ _ _).0 h in
        let (link, h) = (require_iff _ _ _).0 h in
        let (description, h) = (require_iff _ _ _).0 h in
        let (title, h) = (require_iff _ _ _).0 h in
        let (product_key, h) = (require_iff _ _ _).0 h in
        record {
          product_key = product_key;
          title = title;
          description = description;
          link = link;
          image_link = image_link;
          condition = condition;
          availability = availability;
          amount = amount;
          currency = currency;
          decimal = filled _ amount decimal;
          code = filled _ currency code;
        }

    complete : HasBaseFields p → is_valid (validate_product_base p) ≡ true
    complete f = (check_currency_iff p _).1 (
      inr f.code,
      (check_decimal_iff p _).1 (
        inr f.decimal,
        (require_iff _ _ _).1 (
          f.currency,
          (require_iff _ _ _).1 (
            f.amount,
            (require_iff _ _ _).1 (
              f.availability,
              (require_iff _ _ _).1 (
                f.condition,
                (require_iff _ _ _).1 (
                  f.image_link,
                  (require_iff _ _ _).1 (
                    f.link,
                    (require_iff _ _ _).1 (
                      f.description,
                      (require_iff _ _ _).1
                          (f.title, (require_iff _ _ _).1 (f.product_key, no_issues-is_valid)),
                    ),
                  ),
                ),
              ),
            ),
          ),
        ),
      ),
    )
