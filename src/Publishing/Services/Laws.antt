-- ===== src/Publishing/Services/Laws.antt =====
-- PublishingActions.tsx: what the services are sent, and what their forms show again.
use native.Mathlib.Nat.{mul-div-le, lt-mul-div-succ, lt_of_lt_of_le, mul-le-mul_right}
use stridetastic.Prelude.{
  ◌≤◌, ◌<◌, ◌⊎◌, or_else, ℕ, ◌+◌, ◌*◌, ◌/◌, suc, String, Bool, true, false, not, ◌||◌, ◌≡◌, refl,
  sym, ap, ◌==◌, eq_iff, or_else, List, [], ◌∷◌, ◌++◌, arith, if◌then◌else◌, Bool-cases, inl, inr,
  keep_if, eqb, leb,
}
use stridetastic.Prelude.Int.{Decimal, pos_part, ℤ, pos, negsuc}
use stridetastic.Publishing.Json.{Number, nan, dec}
use stridetastic.Publishing.Jobs.{number_of}
use stridetastic.Publishing.Services.{or_null, contains_id, toggle_id}
use stridetastic.Publishing.Keepalive.{
  max_ℕ, rounded, rounded_ratio, minutes_of, KeepaliveForm, KeepaliveStatus, KeepaliveUpdate,
  keepalive_update, keepalive_form_of,
}

-- `s` is `factor` times the number, to the nearest whole and a half up, but `least` at least; a negative
-- number counts as 0.
abbrev pub IsNearest : ℕ → ℕ → Decimal → ℕ → Type 0
IsNearest least factor d s =
    (least ≤ s)
    × ((2 * (pos_part d.num * factor) < (2 * s + 1) * suc d.over)
        × ((s ≡ least) ⊎ (2 * s * suc d.over ≤ 2 * (pos_part d.num * factor) + suc d.over)))

-- NaN stays NaN.
abbrev pub IsRounded : ℕ → ℕ → Number → Number → Type 0
IsRounded least factor nan result = result ≡ nan
IsRounded least factor (dec d) result =
    (s : ℕ) × (result ≡ number_of s) × IsNearest least factor d s

max-least : (a b : ℕ) → a ≤ max_ℕ a b
max-least a b = ground arith

max-other : (a b : ℕ) → b ≤ max_ℕ a b
max-other a b = ground arith

twice : {a b : ℕ} → a ≤ b → 2 * a + 1 ≤ 2 * b + 1
twice h = omega arith

max_cases : (a b : ℕ) → (max_ℕ a b ≡ a) ⊎ (max_ℕ a b ≡ b)
max_cases a b = elim (Bool-cases (leb a b)) [
  | inl below ↦ inr (rw below refl)
  | inr above ↦ inl (rw above refl)
]

-- The quotient that `Math.round` takes.
abbrev half_up : ℕ → ℕ → ℕ
half_up x k = (2 * x + suc k) / (2 * suc k)

half_up_below : (x k : ℕ) → 2 * half_up x k * suc k ≤ 2 * x + suc k
half_up_below x k =
    let below : 2 * suc k * half_up x k ≤ 2 * x + suc k = mul-div-le (2 * x + suc k) (2 * suc k) in
    omega arith

half_up_above : (x k : ℕ) → 2 * x < (2 * half_up x k + 1) * suc k
half_up_above x k =
    let above : 2 * x + suc k < 2 * suc k * (half_up x k + 1) =
      lt-mul-div-succ (2 * x + suc k) (omega arith) in
    omega arith

rounded_ratio-IsNearest :
    (least factor : ℕ) (num : ℤ) (k : ℕ)
    → IsNearest least factor (record { num = num; over = k }) (rounded_ratio least factor num k)
rounded_ratio-IsNearest least factor (pos n) k =
    let x = n * factor in
    let other = max-other least (half_up x k) in
    (
      max-least least (half_up x k),
      (
        lt_of_lt_of_le (half_up_above x k) (mul-le-mul_right (suc k) (twice other)),
        elim (max_cases least (half_up x k)) [
          | inl e ↦ inl e
          | inr e ↦ inr (rw e (half_up_below x k))
        ],
      ),
    )
rounded_ratio-IsNearest least factor (negsuc n) k = (omega arith, (omega arith, inl refl))

rounded-IsRounded :
    (least factor : ℕ) (n : Number) → IsRounded least factor n (rounded least factor n)
unfolding rounded
rounded-IsRounded least factor nan = refl
rounded-IsRounded least factor (dec d) =
    (_, refl, rounded_ratio-IsNearest least factor d.num d.over)

-- Whatever the form of the keepalive service holds, the server is asked for a node to be offline for its
-- minutes in seconds, to the nearest second and a minute at least, and for its seconds between checks, to
-- the nearest second and half a minute at least; a field that holds NaN is sent as NaN.
pub keepalive_update-IsRounded :
    (form : KeepaliveForm)
    → IsRounded 60 60 form.offline_after_minutes (keepalive_update form).offline_after_seconds
      × IsRounded 30 1 form.check_interval_seconds (keepalive_update form).check_interval_seconds
unfolding keepalive_update
keepalive_update-IsRounded form = (
  rounded-IsRounded 60 60 form.offline_after_minutes,
  rounded-IsRounded 30 1 form.check_interval_seconds,
)

minutes_of_whole : (m : ℕ) → minutes_of (60 * suc m) ≡ suc m
unfolding minutes_of
minutes_of_whole m = ground arith

rounded_seconds : (m : ℕ) → rounded 60 60 (number_of (suc m)) ≡ number_of (60 * suc m)
unfolding rounded
rounded_seconds m = ap number_of (most_seconds m)
  where
    most_seconds : (m : ℕ) → max_ℕ 60 ((2 * (suc m * 60) + 1) / 2) ≡ 60 * suc m
    most_seconds m = ground arith

rounded_interval : (n : ℕ) → rounded 30 1 (number_of (30 + n)) ≡ number_of (30 + n)
unfolding rounded
rounded_interval n = ap number_of (most_seconds n)
  where
    most_seconds : (n : ℕ) → max_ℕ 30 ((2 * ((30 + n) * 1) + 1) / 2) ≡ 30 + n
    most_seconds n = ground arith

if_same : {A : Type 0} {x : A} (b : Bool) → (if b then x else x) ≡ x
if_same true = refl
if_same false = refl

or_null-or_else : (s : String) → or_else (or_null s) "" ≡ s
or_null-or_else s = elim (Bool-cases (s == "")) [
  | inl blank ↦ rw blank (sym ((eq_iff s "").0 blank))
  | inr chosen ↦ rw chosen refl
]

-- The number of a field that holds a whole number.
abbrev pub whole : Number → ℕ
whole nan = 0
whole (dec d) = pos_part d.num

-- The status of a server that stores what it is sent.
abbrev pub status_of : KeepaliveUpdate → KeepaliveStatus
status_of update = record {
  enabled = update.enabled;
  payload_type = update.payload_type;
  from_node = update.from_node;
  gateway_node = update.gateway_node;
  channel_name = update.channel_name;
  channel_key = update.channel_key;
  hop_limit = update.hop_limit;
  hop_start = update.hop_start;
  interface_id = update.interface_id;
  offline_after_seconds = whole update.offline_after_seconds;
  check_interval_seconds = whole update.check_interval_seconds;
  scope = update.scope;
  selected_node_ids = update.selected_node_ids;
}

-- A form with a whole number of minutes, one or more, and a whole number of seconds from 30 on is shown
-- again as it was, when the server stores what it is sent.
pub keepalive_form_of-keepalive_update :
    (form : KeepaliveForm) (m n : ℕ)
    → form.offline_after_minutes ≡ number_of (suc m)
    → form.check_interval_seconds ≡ number_of (30 + n)
    → keepalive_form_of (status_of (keepalive_update form)) ≡ form
unfolding keepalive_form_of keepalive_update
keepalive_form_of-keepalive_update form m n minutes seconds = λ i. record form {
  from_node = or_null-or_else form.from_node i;
  gateway_node = or_null-or_else form.gateway_node i;
  channel_name = or_null-or_else form.channel_name i;
  channel_key = or_null-or_else form.channel_key i;
  offline_after_minutes = offline i;
  check_interval_seconds = interval i;
}
  where
    offline :
        number_of (minutes_of (whole (rounded 60 60 form.offline_after_minutes)))
        ≡ form.offline_after_minutes
    offline = rw (minutes, rounded_seconds m, minutes_of_whole m) refl

    interval :
        number_of (whole (rounded 30 1 form.check_interval_seconds)) ≡ form.check_interval_seconds
    interval = rw (seconds, rounded_interval n) refl

contains_id-append :
    (id other : ℕ) (ids : List ℕ)
    → contains_id other (ids ++ id ∷ []) ≡ (if eqb other id then true else contains_id other ids)
contains_id-append id other [] = ground arith
contains_id-append id other (x ∷ ids) =
    let rest = contains_id-append id other ids in
    rw rest (elim (Bool-cases (eqb x other)) [
      | inl same ↦ rw same (sym (if_same (eqb other id)))
      | inr apart ↦ rw apart refl
    ])

dropped_head :
    (x id other : ℕ) (found : Bool)
    → eqb x id ≡ true
    → (if eqb other id then false else found)
      ≡ (if eqb other id then false else eqb x other || found)
dropped_head x id other found same = ground arith

kept_head :
    (x id other : ℕ) (found : Bool)
    → eqb x id ≡ false
    → (eqb x other || (if eqb other id then false else found))
      ≡ (if eqb other id then false else eqb x other || found)
kept_head x id other found apart = ground arith

contains_id-keep_if :
    (id other : ℕ) (ids : List ℕ)
    → contains_id other (keep_if (λ x. not (eqb x id)) ids)
      ≡ (if eqb other id then false else contains_id other ids)
contains_id-keep_if id other [] = sym (if_same (eqb other id))
contains_id-keep_if id other (x ∷ ids) =
    let rest = contains_id-keep_if id other ids in
    elim (Bool-cases (eqb x id)) [
      | inl same ↦ rw (same, keep_if, rest) (dropped_head x id other (contains_id other ids) same)
      | inr apart ↦ rw (apart, keep_if, rest) (kept_head x id other (contains_id other ids) apart)
    ]

-- A toggle turns one entry and keeps the others.
pub contains_id-toggle_id :
    (id other : ℕ) (ids : List ℕ)
    → contains_id other (toggle_id id ids)
      ≡ (if eqb other id then not (contains_id id ids) else contains_id other ids)
unfolding toggle_id
contains_id-toggle_id id other ids = elim (Bool-cases (contains_id id ids)) [
  | inl there ↦ rw there (contains_id-keep_if id other ids)
  | inr missing ↦ rw missing (contains_id-append id other ids)
]
