-- ===== src/Legacy/Stores/Expiry.antt =====
-- What the older store of responses gives back, and when.
use conductor.Prelude.{
  ℕ, zero, suc, ◌+◌, ◌≤◌, ℤ, pos, negsuc, String, ◌≡◌, refl, ◌≢◌, false, Option, none, some, arith,
  eq_iff, Option-cases, inl, inr, if◌then◌else◌,
}
use conductor.Prelude.Equality.{◌==◌, string_instance}
use conductor.Prelude.Maps.{lookup, lookup-insert, lookup-remove}
use conductor.Legacy.Stores.{CachedResponse, IdempotencyStore, is_expired, get_record, set_record}

-- A response that was created then is still served: a time to live that is not positive has no end.
abbrev pub IsServed : ℤ → ℕ → ℕ → Type 0
IsServed (negsuc n) now created = Unit
IsServed (pos zero) now created = Unit
IsServed (pos (suc ttl)) now created = now ≤ created + suc ttl

-- What a store holds for a key at a time.
abbrev pub live : ℤ → ℕ → Option CachedResponse → Option CachedResponse
live ttl now none = none
live ttl now (some rec) = if is_expired ttl now rec then none else some rec

pub is_expired-IsServed :
    (ttl : ℤ) (now : ℕ) (rec : CachedResponse)
    → IsServed ttl now rec.created_at
    → is_expired ttl now rec ≡ false
is_expired-IsServed (negsuc n) now rec h = refl
is_expired-IsServed (pos zero) now rec h = refl
is_expired-IsServed (pos (suc ttl)) now rec h = ground arith

get_record-live :
    (now : ℕ) (key : String) (s : IdempotencyStore)
    → (get_record now key s).0 ≡ (if key == "" then none else live s.ttl now (lookup key s.records))
unfolding get_record
get_record-live now key s = elim (Option-cases (lookup key s.records)) [
  | inl e ↦ ground (arith, e)
  | inr (rec, e) ↦ ground (arith, e)
]

-- A look-up deletes at most its own key.
lookup-get_record :
    (now : ℕ) (asked other : String) (s : IdempotencyStore)
    → other ≢ asked
    → lookup other (get_record now asked s).1.records ≡ lookup other s.records
unfolding get_record
lookup-get_record now asked other s apart = elim (Option-cases (lookup asked s.records)) [
  | inl e ↦ ground (arith, e)
  | inr (rec, e) ↦ ground (arith, e, eq_iff asked other, lookup-remove asked other s.records)
]

ttl-get_record :
    (now : ℕ) (asked : String) (s : IdempotencyStore) → (get_record now asked s).1.ttl ≡ s.ttl
unfolding get_record
ttl-get_record now asked s = elim (Option-cases (lookup asked s.records)) [
  | inl e ↦ ground (arith, e)
  | inr (rec, e) ↦ ground (arith, e)
]

-- A response that is stored under a key that is not empty is given back until its time has passed, and
-- never after it; the look-up of one key changes nothing for another.
pub get_record-set :
    (now later : ℕ) (key asked other : String) (rec : CachedResponse) (s : IdempotencyStore)
    → key ≢ ""
    → asked ≢ ""
    → other ≢ asked
    → ((get_record now asked (set_record key rec s)).0
        ≡ live s.ttl now (if key == asked then some rec else lookup asked s.records))
      × ((get_record later other (get_record now asked s).1).0 ≡ (get_record later other s).0)
unfolding set_record
get_record-set now later key asked other rec s filled wanted apart = (
  rw (get_record-live now asked (set_record key rec s))
      (ground (arith, eq_iff key "", eq_iff asked "", lookup-insert key asked rec s.records)),
  rw
      (
        get_record-live later other (get_record now asked s).1,
        get_record-live later other s,
        lookup-get_record now asked other s apart,
        ttl-get_record now asked s,
      )
      refl,
)
