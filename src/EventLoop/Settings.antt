-- ===== src/EventLoop/Settings.antt =====
-- The configuration of internal/controlplane/eventloop/eventloop.go, its backoff and the rhythm of its renewals. A
-- duration is a number of nanoseconds.
use akoflow_workflow_engine.Prelude.{
  ℕ, suc, zero, ◌*◌, ◌/◌, ◌^◌, ◌≤◌, ◌<◌, ◌≡◌, refl, String, Bool, true, false, not, ◌||◌, Option,
  none, some, List, [], Result, ok, err, is_empty, ltb, if◌then◌else◌, arith, Bool-cases, ◌⊎◌, inl,
  inr, ap, ◌∙◌, eq_true,
}
use native.Mathlib.Nat.{mul-le-mul_left, pow-le-pow_right, one-le-pow, pow-suc}
use akoflow_workflow_engine.Prelude.Int.{ℤ, pos, negsuc, pos_part, ltb_ℤ, leb_ℤ, mul_ℤ, mul_ℤ-pos}

pub record Config : Type 0 where
  pub owner : String
  pub categories : List String
  pub concurrency : ℤ
  pub lease_duration : ℤ
  pub poll_interval : ℤ
  pub retry_base_interval : ℤ

abbrev pub second : ℕ
second = 1000000000

abbrev pub millisecond : ℕ
millisecond = 1000000

unfoldable pub default_config : String → Config
default_config owner = record {
  owner = owner;
  categories = [];
  concurrency = pos 8;
  lease_duration = pos (30 * second);
  poll_interval = pos second;
  retry_base_interval = pos (2 * second);
}

pub data ConfigError : Type 0 where
  queue_and_dispatcher_required : ConfigError
  invalid_configuration : ConfigError

abbrev pub is_refused : Config → Bool
is_refused config =
    is_empty config.owner
    || ltb_ℤ config.concurrency (pos 1)
    || leb_ℤ config.lease_duration (pos 0)
    || leb_ℤ config.poll_interval (pos 0)

abbrev pub with_retry_base : Config → Config
with_retry_base config = record config {
  retry_base_interval =
      if leb_ℤ config.retry_base_interval (pos 0) then pos second else config.retry_base_interval;
}

-- `New`, up to the two pointers that it stores: what is left of the loop is its configuration.
unfoldable pub new : (has_queue has_dispatcher : Bool) → Config → Result ConfigError Config
new has_queue has_dispatcher config =
    if not has_queue || not has_dispatcher
    then err queue_and_dispatcher_required
    else if is_refused config
    then err invalid_configuration
    else ok (with_retry_base config)

-- `1 << min(attempts-1, 8)`: a shift by -1 panics.
abbrev pub factor : ℕ → Option ℕ
factor zero = none
factor (suc n) = some (2 ^ (if ltb n 8 then n else 8))

abbrev pub scaled : ℤ → Option ℕ → Option ℤ
scaled base none = none
scaled base (some times) = some (mul_ℤ base (pos times))

unfoldable pub backoff : ℤ → ℕ → Option ℤ
backoff base attempts = scaled base (factor attempts)

-- The rhythm of keepLeaseAlive.
unfoldable pub renewal_interval : ℤ → ℕ
renewal_interval lease_duration =
    let third = pos_part lease_duration / 3 in
    if ltb third (10 * millisecond) then 10 * millisecond else third

pub backoff_tried :
    (base : ℤ) (attempts : ℕ) → 1 ≤ attempts → (d : ℤ) × (backoff base attempts ≡ some d)
unfolding backoff
backoff_tried base zero h = absurd (omega arith)
backoff_tried base (suc n) h = (_, refl)

abbrev times : ℕ → ℕ
times n = 2 ^ (if ltb n 8 then n else 8)

times_le : (n : ℕ) → times n ≤ 256
times_le n =
    let low : (if ltb n 8 then n else 8) ≤ 8 = ground arith in
    pow-le-pow_right {n = 2} (omega arith) {i = if ltb n 8 then n else 8} {j = 8} low

one-le-times : (n : ℕ) → 1 ≤ times n
one-le-times n = one-le-pow (if ltb n 8 then n else 8) 2 (omega arith)

times_doubles : (n : ℕ) → n < 8 → times (suc n) ≡ times n * 2
times_doubles n h = elim (Bool-cases (ltb (suc n) 8)) [
  | inl e ↦ (let here : ltb n 8 ≡ true = ground arith in rw e (rw here (pow-suc 2 n)))
  | inr e ↦ (let last : n ≡ 7 = ground arith in rw last refl)
]

backoff_value :
    (base n : ℕ) → base * 256 < 2 ^ 63 → backoff (pos base) (suc n) ≡ some (pos (base * times n))
unfolding backoff
backoff_value base n small =
    let top = mul-le-mul_left base (times_le n) in
    ap some
      (mul_ℤ-pos base (times n) (omega arith) (omega (arith, times_le n)) (omega (arith, top)))

-- With a positive base, small enough that 256 times the base is an int64: the wait before an attempt is repeated is at
-- least the base and at most 256 times the base; it doubles from each of the first eight attempts to the next, and is 256
-- times the base from the ninth on.
pub backoff_bounds :
    (base n : ℕ)
    → base * 256 < 2 ^ 63
    → (wait : ℕ) × (backoff (pos base) (suc n) ≡ some (pos wait))
      × (base ≤ wait)
      × (wait ≤ base * 256)
      × (n < 8 → backoff (pos base) (suc (suc n)) ≡ some (pos (wait * 2)))
      × (8 ≤ n → wait ≡ base * 256)
backoff_bounds base n small =
    let least = mul-le-mul_left base (one-le-times n) in
    let top = mul-le-mul_left base (times_le n) in
    (
      base * times n,
      backoff_value base n small,
      omega (arith, least),
      top,
      λ h.
          (let twice : base * times (suc n) ≡ base * times n * 2 =
              omega (arith, ap (λ m. base * m) (times_doubles n h)) in
            backoff_value base (suc n) small ∙ ap (λ m. some (pos m)) twice),
      λ h. (let late : ltb n 8 ≡ false = ground arith in rw late refl),
    )

-- A configuration that `New` is to accept: an owner, a slot at least, and a lease and a poll that are positive.
pub record IsValid (config : Config) : Type 0 where
  pub named : config.owner ≡ "" → ⊥
  pub slots : (n : ℕ) × (config.concurrency ≡ pos (suc n))
  pub leases : (n : ℕ) × (config.lease_duration ≡ pos (suc n))
  pub polls : (n : ℕ) × (config.poll_interval ≡ pos (suc n))

-- What `New` makes of a configuration: the wait before a repetition is positive too, and the rest is as it was.
pub record IsMadeOf (config made : Config) : Type 0 where
  pub valid : IsValid made
  pub waits : (n : ℕ) × (made.retry_base_interval ≡ pos (suc n))
  pub kept_base :
      (n : ℕ) → config.retry_base_interval ≡ pos (suc n) → made.retry_base_interval ≡ pos (suc n)
  pub same_owner : made.owner ≡ config.owner
  pub same_categories : made.categories ≡ config.categories
  pub same_slots : made.concurrency ≡ config.concurrency
  pub same_lease : made.lease_duration ≡ config.lease_duration
  pub same_poll : made.poll_interval ≡ config.poll_interval
  -- No two renewals are closer than 10 milliseconds, and three of them fit into a lease of at least 30.
  pub spaced : 10 * millisecond ≤ renewal_interval made.lease_duration
  pub renewed :
      30 * millisecond ≤ pos_part made.lease_duration
      → 3 * renewal_interval made.lease_duration ≤ pos_part made.lease_duration

is_positive : (d : ℤ) → leb_ℤ d (pos 0) ≡ false → (n : ℕ) × (d ≡ pos (suc n))
is_positive (pos zero) h = absurd (ground arith)
is_positive (pos (suc n)) h = (n, refl)
is_positive (negsuc n) h = absurd (ground arith)

retry_base : (d : ℤ) → (n : ℕ) × ((if leb_ℤ d (pos 0) then pos second else d) ≡ pos (suc n))
retry_base d = elim (Bool-cases (leb_ℤ d (pos 0))) [
  | inl e ↦ (999999999, rw e refl)
  | inr e ↦ (let (n, same) = is_positive d e in (n, rw e same))
]

renewal_interval-spaced :
    (d : ℤ)
    → (10 * millisecond ≤ renewal_interval d)
      × (30 * millisecond ≤ pos_part d → 3 * renewal_interval d ≤ pos_part d)
unfolding renewal_interval
renewal_interval-spaced d = (ground arith, λ h. ground arith)

retry_base_kept :
    (d : ℤ) (n : ℕ) → d ≡ pos (suc n) → (if leb_ℤ d (pos 0) then pos second else d) ≡ pos (suc n)
retry_base_kept d n same =
    let big : leb_ℤ (pos (suc n)) (pos 0) ≡ false = ground arith in
    ap (λ (x : ℤ). if leb_ℤ x (pos 0) then pos second else x) same
    ∙ ap (λ b. if b then pos second else pos (suc n)) big

empty_of : (s : String) → is_empty s ≡ true → s ≡ ""
empty_of s h = eq_true s "" h

abbrev pub Accepts : (has_queue has_dispatcher : Bool) → Config → Type 0
Accepts has_queue has_dispatcher config =
    (has_queue ≡ true)
    × (has_dispatcher ≡ true)
    × IsValid config
    × (made : Config) × (new has_queue has_dispatcher config ≡ ok made)
    × IsMadeOf config made

-- A refusal, with what is wrong.
abbrev pub Refuses : (has_queue has_dispatcher : Bool) → Config → Type 0
Refuses has_queue has_dispatcher config =
    (((has_queue ≡ false) ⊎ (has_dispatcher ≡ false))
      × (new has_queue has_dispatcher config ≡ err queue_and_dispatcher_required))
    ⊎ ((IsValid config → ⊥) × (new has_queue has_dispatcher config ≡ err invalid_configuration))

named_of : (s : String) → is_empty s ≡ false → s ≡ "" → ⊥
named_of s h same = (let e : is_empty s ≡ true = ap is_empty same in ground (arith, e))

one_or_more : (d : ℤ) → ltb_ℤ d (pos 1) ≡ false → (n : ℕ) × (d ≡ pos (suc n))
one_or_more (pos zero) h = absurd (ground arith)
one_or_more (pos (suc n)) h = (n, refl)
one_or_more (negsuc n) h = absurd (ground arith)

accepted_IsValid : (config : Config) → is_refused config ≡ false → IsValid config
accepted_IsValid config h = record {
  named = named_of config.owner (ground arith);
  slots = one_or_more config.concurrency (ground arith);
  leases = is_positive config.lease_duration (ground arith);
  polls = is_positive config.poll_interval (ground arith);
}

valid_accepted : (config : Config) → IsValid config → is_refused config ≡ false
valid_accepted config v =
    let slots : ltb_ℤ config.concurrency (pos 1) ≡ false =
      ap (λ d. ltb_ℤ d (pos 1)) v.slots.1 ∙ ground arith in
    let leases : leb_ℤ config.lease_duration (pos 0) ≡ false =
      ap (λ d. leb_ℤ d (pos 0)) v.leases.1 ∙ ground arith in
    let polls : leb_ℤ config.poll_interval (pos 0) ≡ false =
      ap (λ d. leb_ℤ d (pos 0)) v.polls.1 ∙ ground arith in
    elim (Bool-cases (is_empty config.owner)) [
      | inl e ↦ absurd (v.named (empty_of config.owner e))
      | inr e ↦ rw e (rw slots (rw leases (rw polls refl)))
    ]

refused_invalid : (config : Config) → is_refused config ≡ true → IsValid config → ⊥
refused_invalid config h v = (let e = valid_accepted config v in ground (arith, h, e))

made_of : (config : Config) → IsValid config → IsMadeOf config (with_retry_base config)
made_of config v = record {
  valid = record { named = v.named; slots = v.slots; leases = v.leases; polls = v.polls };
  waits = retry_base config.retry_base_interval;
  kept_base = λ n same. retry_base_kept config.retry_base_interval n same;
  same_owner = refl;
  same_categories = refl;
  same_slots = refl;
  same_lease = refl;
  same_poll = refl;
  spaced = (renewal_interval-spaced config.lease_duration).0;
  renewed = (renewal_interval-spaced config.lease_duration).1;
}

-- `New` accepts exactly the configurations with an owner, a slot at least, and a lease and a poll that are positive, when there are
-- a queue and a dispatcher. The loop's configuration is then the one that was given, with a positive wait before a
-- repetition, and its renewals are 10 milliseconds apart at least, and three to a lease of 30 or more. A refusal says whether
-- the queue or the dispatcher was missing or the configuration was not one of these.
pub new_lem :
    (has_queue has_dispatcher : Bool) (config : Config)
    → Accepts has_queue has_dispatcher config ⊎ Refuses has_queue has_dispatcher config
unfolding new
new_lem false d config = inr (inl (inl refl, refl))
new_lem true false config = inr (inl (inr refl, refl))
new_lem true true config = elim (Bool-cases (is_refused config)) [
  | inl e ↦ inr (inr (refused_invalid config e, rw e refl))
  | inr e ↦
      let v = accepted_IsValid config e in
      inl (refl, refl, v, with_retry_base config, rw e refl, made_of config v)
]
