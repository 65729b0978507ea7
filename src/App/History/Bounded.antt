-- ===== src/App/History/Bounded.antt =====
-- How many rows `handleHistory` of examples/privy-google-aa/server/api.mjs asks the log for.
use account_abstraction.Base.{
  List, length, Result, ok, ℕ, zero, suc, ◌*◌, ◌/◌, ◌%◌, ◌^◌, ◌<◌, ◌≤◌, String, ◌≡◌, inl, inr, refl,
  true, false, Option, some, nat_beq, Bool-cases, arith, if_cases, some_inj,
}
use native.Mathlib.Nat.{le_of_mul-le-mul_left}
use account_abstraction.Js.Value.{Value, ℤ, pos, negsuc}
use account_abstraction.Js.Num.{
  Num, not_a_number, infinite, ratio, whole, num_ltb, num_max, num_min, int_times,
}
use account_abstraction.Js.Number.{int_ltb}
use account_abstraction.Ethers.{Ethers, Exn}
use account_abstraction.App.Codec.{Codec}
use account_abstraction.App.Configured.{ApiConfig}
use account_abstraction.App.Cookie.{Crypto}
use account_abstraction.App.Guards.{Headers, Response}
use account_abstraction.App.Log.{Row, ReceiptCodec}
use account_abstraction.App.History.{Store, sql_limit, history_limit, listed}

quotient_bounds : (m d q : ℕ) → 0 < d → m ≡ d * q → d ≤ m → m ≤ 100 * d → (1 ≤ q) × (q ≤ 100)
quotient_bounds m d q h e l u =
    (grind arith, le_of_mul-le-mul_left {k = d} (omega (arith, l, e, u)) h)

pow_pos : (k : ℕ) → 0 < 10 ^ k
pow_pos zero = omega arith
pow_pos (suc k) = omega (arith, pow_pos k)

exact : (m d : ℕ) → 0 < d → m % d ≡ 0 → m ≡ d * (m / d)
exact m d h e = omega arith

num_ltb_asym : (x y : Num) → num_ltb x y ≡ true → num_ltb y x ≡ false
unfolding num_ltb
num_ltb_asym (ratio a k) (ratio b l) h =
    int_ltb_asym (int_times a (10 ^ l)) (int_times b (10 ^ k)) h
  where
    int_ltb_asym : (a b : ℤ) → int_ltb a b ≡ true → int_ltb b a ≡ false
    int_ltb_asym (pos a) (pos b) h = ground arith
    int_ltb_asym (pos a) (negsuc b) h = cc
    int_ltb_asym (negsuc a) (pos b) h = refl
    int_ltb_asym (negsuc a) (negsuc b) h = ground arith
num_ltb_asym (ratio a k) (infinite true) h = cc
num_ltb_asym (ratio a k) (infinite false) h = refl
num_ltb_asym (infinite true) (ratio a k) h = refl
num_ltb_asym (infinite false) (ratio a k) h = cc
num_ltb_asym (infinite true) (infinite true) h = cc
num_ltb_asym (infinite true) (infinite false) h = refl
num_ltb_asym (infinite false) (infinite b) h = cc
num_ltb_asym (infinite b) not_a_number h = cc
num_ltb_asym (ratio a k) not_a_number h = cc
num_ltb_asym not_a_number y h = cc

-- From one on, and up to a hundred.
abbrev InRange : Num → Type 0
InRange y = (num_ltb y (whole 1) ≡ false) × (num_ltb (whole 100) y ≡ false)

num_max-from_one : (x : Num) → num_ltb (num_max 1 x) (whole 1) ≡ false
unfolding num_max num_ltb
num_max-from_one not_a_number = refl
num_max-from_one (infinite b) =
    if_cases (λ y. num_ltb y (whole 1) ≡ false) _ (λ h. num_ltb_asym (whole 1) (infinite b) h)
      (λ h. refl)
num_max-from_one (ratio a k) =
    if_cases (λ y. num_ltb y (whole 1) ≡ false) _ (λ h. num_ltb_asym (whole 1) (ratio a k) h)
      (λ h. refl)

num_min-InRange : (x : Num) → num_ltb x (whole 1) ≡ false → InRange (num_min 100 x)
unfolding num_min num_ltb
num_min-InRange not_a_number h = (refl, refl)
num_min-InRange (infinite b) h =
    if_cases InRange _ (λ l. (h, num_ltb_asym (infinite b) (whole 100) l)) (λ l. (refl, refl))
num_min-InRange (ratio a k) h =
    if_cases InRange _ (λ l. (h, num_ltb_asym (ratio a k) (whole 100) l)) (λ l. (refl, refl))

sql_limit-InRange : (y : Num) (n : ℕ) → sql_limit y ≡ some n → InRange y → (1 ≤ n) × (n ≤ 100)
unfolding sql_limit num_ltb
sql_limit-InRange (ratio (pos m) k) n h (low, high) = elim (Bool-cases (nat_beq (m % 10 ^ k) 0)) [
  | inl no_rest ↦
      let n_is = some_inj (rw no_rest at h) in
      let (one, hundred) =
        quotient_bounds m (10 ^ k) (m / 10 ^ k) (pow_pos k)
          (exact m (10 ^ k) (pow_pos k) (ground arith)) (ground arith) (ground arith) in
      (omega (arith, one, n_is), omega (arith, hundred, n_is))
  | inr rest ↦ let got = rw rest at h in cc
]
sql_limit-InRange (ratio (negsuc m) k) n h r = cc
sql_limit-InRange (infinite b) n h r = cc
sql_limit-InRange not_a_number n h r = cc

-- Whatever the request and the settings ask for, a limit that the log takes is from 1 to 100.
pub history_limit-bounds :
    (default : Num) (parameter : Option String) (n : ℕ)
    → sql_limit (history_limit default parameter) ≡ some n
    → (1 ≤ n) × (n ≤ 100)
unfolding history_limit
history_limit-bounds default parameter n h =
    sql_limit-InRange _ n h (num_min-InRange _ (num_max-from_one _))

abbrev returns : Response × Store → Result Exn (Response × Store)
returns a = ok a

abbrev lists : List Row → Result Exn (List Row)
lists rows = ok rows

module _ (e : Ethers) (c : Codec) (rc : ReceiptCodec) (k : Crypto) (config : ApiConfig)
    (headers : Headers) (bundler : String → Result Exn Value) (now : ℕ) where
  -- The rows that an answer lists, from the log that the call leaves.
  abbrev pub IsListed : Store → Response → Type 0
  IsListed store response =
      (rows : List Row) × (response ≡ listed e c rc k config headers store rows)
      × (length rows ≤ 100)
