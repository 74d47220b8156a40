-- ===== src/Ingest/Validate/Channels.antt =====
-- When `ValidateChannelControls` finds no issue.
use mathlib.Core.List.Permᴰ
use mathlib.Core.Path.{subst}
use conductor.Prelude.{
  String, ◌≡◌, refl, sym, ◌↔◌, ◌⊎◌, inl, inr, Bool, true, false, Option, none, some, List, [], ◌∷◌,
  arith, eq_iff, All, All-perm, if◌then◌else◌, Bool-cases,
}
use conductor.Prelude.Maps.{Map, insert}
use conductor.Prelude.Equality.{◌==◌, string_instance}
use conductor.Prelude.Text.{trim_space}
use conductor.Domain.{
  Product, GoogleFields, MetaFields, YotpoFields, state_active, state_inactive, state_delete,
}
use conductor.Host.{Host, Ranges, lower}
use conductor.Ingest.Validate.{
  ValidationResult, no_issues, is_valid, is_known_state, validate_control_state, check_google,
  check_meta, check_yotpo, check_channel, check_channels, collect_enabled, keys,
  validate_channel_controls,
}
use conductor.Ingest.Validate.Base.{is_valid-add_issue, no_issues-is_valid}

abbrev pub IsLifecycle : String → Type 0
IsLifecycle s = (s ≡ state_active) ⊎ (s ≡ state_inactive) ⊎ (s ≡ state_delete)

-- The block is present, and its state is a lifecycle state.
abbrev pub InState : {A : Type 0} → (A → String) → Option A → Type 0
InState state none = ⊥
InState state (some block) = IsLifecycle (state block)

abbrev pub HasGoogle : Product → Type 0
HasGoogle p = InState (λ (g : GoogleFields). g.control.state) p.channel.google

abbrev pub HasMeta : Product → Type 0
HasMeta p = InState (λ (m : MetaFields). m.control.state) p.channel.meta

abbrev pub HasYotpo : Product → Type 0
HasYotpo p = InState (λ (y : YotpoFields). y.control.state) p.channel.yotpo

-- The channel is one of the three that the service knows, and the product controls it.
abbrev pub HasControl : Product → String → Type 0
HasControl p ch =
    ((ch ≡ "google") × HasGoogle p) ⊎ ((ch ≡ "meta") × HasMeta p) ⊎ ((ch ≡ "yotpo") × HasYotpo p)

is_known_state_iff : (s : String) → (is_known_state s ≡ true) ↔ IsLifecycle s
is_known_state_iff s =
    ground (arith, eq_iff s state_active, eq_iff s state_inactive, eq_iff s state_delete)

validate_control_state_iff :
    (r : ValidationResult) (path s : String)
    → (is_valid (validate_control_state r path s) ≡ true) ↔ ((is_valid r ≡ true) × IsLifecycle s)
unfolding validate_control_state
validate_control_state_iff r path s = ground (
  arith,
  is_known_state_iff s,
  is_valid-add_issue r path "invalid_state" "state must be one of: active, inactive, delete",
)

check_google_iff :
    (r : ValidationResult) (o : Option GoogleFields)
    → (is_valid (check_google o r) ≡ true)
      ↔ ((is_valid r ≡ true) × InState (λ (g : GoogleFields). g.control.state) o)
unfolding check_google
check_google_iff r none = ground (
  arith,
  is_valid-add_issue r "channel.google" "missing_channel_block"
      "google channel block is required because google is enabled for this feed",
)
check_google_iff r (some g) =
    ground (arith, validate_control_state_iff r "channel.google.control.state" g.control.state)

check_meta_iff :
    (r : ValidationResult) (o : Option MetaFields)
    → (is_valid (check_meta o r) ≡ true)
      ↔ ((is_valid r ≡ true) × InState (λ (m : MetaFields). m.control.state) o)
unfolding check_meta
check_meta_iff r none = ground (
  arith,
  is_valid-add_issue r "channel.meta" "missing_channel_block"
      "meta channel block is required because meta is enabled for this feed",
)
check_meta_iff r (some m) =
    ground (arith, validate_control_state_iff r "channel.meta.control.state" m.control.state)

check_yotpo_iff :
    (r : ValidationResult) (o : Option YotpoFields)
    → (is_valid (check_yotpo o r) ≡ true)
      ↔ ((is_valid r ≡ true) × InState (λ (y : YotpoFields). y.control.state) o)
unfolding check_yotpo
check_yotpo_iff r none = ground (
  arith,
  is_valid-add_issue r "channel.yotpo" "missing_channel_block"
      "yotpo channel block is required because yotpo is enabled for this feed",
)
check_yotpo_iff r (some y) =
    ground (arith, validate_control_state_iff r "channel.yotpo.control.state" y.control.state)

is_valid-if :
    (b : Bool) (r t : ValidationResult)
    → is_valid (if b then r else t) ≡ (if b then is_valid r else is_valid t)
is_valid-if true r t = refl
is_valid-if false r t = refl

is_valid-check_channel :
    (p : Product) (r : ValidationResult) (ch : String)
    → is_valid (check_channel p r ch) ≡ (
        if ch == "google"
        then is_valid (check_google p.channel.google r)
        else if ch == "meta"
        then is_valid (check_meta p.channel.meta r)
        else if ch == "yotpo"
        then is_valid (check_yotpo p.channel.yotpo r)
        else false)
unfolding check_channel
is_valid-check_channel p r ch = simp (is_valid-if, is_valid-add_issue)

check_channel_iff :
    (p : Product) (r : ValidationResult) (ch : String)
    → (is_valid (check_channel p r ch) ≡ true) ↔ ((is_valid r ≡ true) × HasControl p ch)
check_channel_iff p r ch = ground (
  arith,
  is_valid-check_channel p r ch,
  check_google_iff r p.channel.google,
  check_meta_iff r p.channel.meta,
  check_yotpo_iff r p.channel.yotpo,
  eq_iff ch "google",
  eq_iff ch "meta",
  eq_iff ch "yotpo",
  eq_iff "google" "meta",
  eq_iff "google" "yotpo",
  eq_iff "meta" "yotpo",
)

check_channels_iff :
    (p : Product) (r : ValidationResult) (chs : List String)
    → (is_valid (check_channels p r chs) ≡ true) ↔ ((is_valid r ≡ true) × All (HasControl p) chs)
unfolding check_channels
check_channels_iff p r [] = ground arith
check_channels_iff p r (ch ∷ chs) =
    let (to, from) = check_channels_iff p (check_channel p r ch) chs in
    let (to_one, from_one) = check_channel_iff p r ch in
    (
      λ h. let (here, later) = to h in ((to_one here).0, ((to_one here).1, later)),
      λ h. from (from_one (h.0, h.1.0), h.1.1),
    )

All-insert :
    (P : String → Type 0) (k : String) (m : Map String (Unit {0}))
    → All P (keys (insert k tt m)) ↔ (P k × All P (keys m))
unfolding insert
All-insert P k [] = (λ h. h, λ h. h)
All-insert P k ((j, _) ∷ m) = elim (Bool-cases (j == k)) [
  | inl same ↦
      let e = (eq_iff j k).0 same in
      rw same (λ h. (h.0, (subst P (sym e) h.0, h.1)), λ h. (h.0, h.1.1))
  | inr other ↦
      let (to, from) = All-insert P k m in
      rw other (λ h. ((to h.1).0, (h.0, (to h.1).1)), λ h. (h.1.0, from (h.0, h.1.1)))
]

-- The normalised name of an entry of the feed's list of enabled channels.
abbrev pub channel_name : Host → String → String
channel_name h c = lower h (trim_space c)

All-collect_enabled :
    (P : String → Type 0) (h : Host) (cs : List String) (m : Map String (Unit {0}))
    → All P (keys (collect_enabled h cs m)) ↔ (All (λ c. P (channel_name h c)) cs × All P (keys m))
unfolding collect_enabled
All-collect_enabled P h [] m = (λ a. (tt, a), λ a. a.1)
All-collect_enabled P h (c ∷ cs) m =
    let (to, from) = All-collect_enabled P h cs (insert (channel_name h c) tt m) in
    let (split, join) = All-insert P (channel_name h c) m in
    (
      λ a. (((split (to a).1).0, (to a).0), (split (to a).1).1),
      λ a. from (a.0.1, join (a.0.0, a.1)),
    )

-- Whatever the order in which the set of enabled channels is visited, no issue is found exactly
-- when each entry of the feed's list, trimmed and in lower case, names a channel that the service
-- knows and for which the product has a block in a lifecycle state.
pub validate_channel_controls_iff :
    (h : Host) (p : Product) (enabled_channels : List String)
    → Ranges h
    → (is_valid (validate_channel_controls h p enabled_channels) ≡ true)
      ↔ All (λ c. HasControl p (channel_name h c)) enabled_channels
unfolding validate_channel_controls
validate_channel_controls_iff h p cs ranges =
    let set = keys (collect_enabled h cs []) in
    let (to, from) = check_channels_iff p no_issues (h.iterate set) in
    let (spread, gather) = All-collect_enabled (HasControl p) h cs [] in
    (
      λ v. (spread (All-perm _ (ranges.visits set) (to v).1)).0,
      λ a. from (no_issues-is_valid, All-perm _ (Permᴰ.symm (ranges.visits set)) (gather (a, tt))),
    )
