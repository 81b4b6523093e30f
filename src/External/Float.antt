-- ===== src/External/Float.antt =====
-- `f64` as the policies use it, with the conversions of `std::time::Duration` to and from seconds.
-- A comparison with a NaN is false.
use service_daemon_rs.Prelude.{ℕ, ◌≡◌, Bool, true, false, Option}

pub record F64 : Type 1 where
  pub Num : Type 0
  pub zero_value : Num
  pub one_value : Num
  -- the literals 2.0 and 0.1
  pub two_value : Num
  pub tenth_value : Num
  pub mul : Num → Num → Num
  pub add : Num → Num → Num
  pub neg : Num → Num
  pub lt : Num → Num → Bool
  pub le : Num → Num → Bool
  pub is_finite : Num → Bool
  -- `clamp x lo hi`
  pub clamp : Num → Num → Num → Num
  -- `Duration::as_secs_f64` and `Duration::try_from_secs_f64`
  pub as_secs : ℕ → Num
  pub try_from_secs : Num → Option ℕ

module _ (F : F64) where
  open F use {Num, zero_value, one_value, two_value, tenth_value, lt, le, is_finite, clamp}

  -- What IEEE 754 and the library's documentation say of them.
  pub record Laws : Type 0 where
    pub one_finite : is_finite one_value ≡ true
    pub zero_finite : is_finite zero_value ≡ true
    pub one_positive : lt zero_value one_value ≡ true
    pub two_finite : is_finite two_value ≡ true
    pub two_positive : lt zero_value two_value ≡ true
    pub tenth_finite : is_finite tenth_value ≡ true
    pub zero-le-tenth : le zero_value tenth_value ≡ true
    pub tenth-le-one : le tenth_value one_value ≡ true
    pub zero-le-zero : le zero_value zero_value ≡ true
    pub zero-le-one : le zero_value one_value ≡ true
    pub clamp_finite :
        (x : Num) → is_finite x ≡ true → is_finite (clamp x zero_value one_value) ≡ true
    pub clamp_lower :
        (x : Num) → is_finite x ≡ true → le zero_value (clamp x zero_value one_value) ≡ true
    pub clamp_upper :
        (x : Num) → is_finite x ≡ true → le (clamp x zero_value one_value) one_value ≡ true
    -- A number above zero is not at most zero.
    pub le_false : (x : Num) → lt zero_value x ≡ true → le x zero_value ≡ false
