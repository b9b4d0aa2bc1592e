-- ===== src/Worker/RetryPolicy/FloatLaws.antt =====
-- What the backoff of app/worker/retry_policy.py relies on of floats and of its settings.
use async_ai_document_pipeli.Prelude.{ℕ, ◌≡◌, true, false, some}
use async_ai_document_pipeli.Core.Settings.{Settings}
use async_ai_document_pipeli.Platform.{Platform}

-- What holds of IEEE floats: of those that are finite, of those that are no NaN, and of
-- `random.uniform`.
pub record DelayLaws (p : Platform) : Type 1 where
  pub IsFinite : p.Float → Type 0
  pub IsNumber : p.Float → Type 0
  pub finite_number : (x : p.Float) → IsFinite x → IsNumber x
  pub zero_finite : IsFinite p.float.zero_f
  pub between_finite :
      (lo x hi : p.Float)
      → IsFinite lo
      → IsFinite hi
      → p.float.leq lo x ≡ true
      → p.float.leq x hi ≡ true
      → IsFinite x
  pub leq_refl : (x : p.Float) → IsNumber x → p.float.leq x x ≡ true
  pub leq_total :
      (x y : p.Float) → IsNumber x → IsNumber y → p.float.leq x y ≡ false → p.float.leq y x ≡ true
  pub leq_trans :
      (x y z : p.Float) → p.float.leq x y ≡ true → p.float.leq y z ≡ true → p.float.leq x z ≡ true
  pub add_number : (x y : p.Float) → IsFinite x → IsFinite y → IsNumber (p.float.add x y)
  pub add_mono :
      (c x y : p.Float)
      → IsFinite c
      → IsFinite x
      → IsFinite y
      → p.float.leq x y ≡ true
      → p.float.leq (p.float.add c x) (p.float.add c y) ≡ true
  pub add_nonneg :
      (x y : p.Float)
      → IsFinite x
      → IsFinite y
      → p.float.leq p.float.zero_f x ≡ true
      → p.float.leq p.float.zero_f y ≡ true
      → p.float.leq p.float.zero_f (p.float.add x y) ≡ true
  pub mul_nonneg :
      (x y : p.Float)
      → IsFinite x
      → IsFinite y
      → p.float.leq p.float.zero_f x ≡ true
      → p.float.leq p.float.zero_f y ≡ true
      → p.float.leq p.float.zero_f (p.float.mul x y) ≡ true
  pub mul_fraction :
      (x y : p.Float)
      → IsFinite x
      → p.float.leq p.float.zero_f x ≡ true
      → p.float.leq p.float.zero_f y ≡ true
      → p.float.leq y p.float.one_f ≡ true
      → p.float.leq (p.float.mul x y) x ≡ true
  pub of_int_finite : (n : ℕ) (x : p.Float) → p.float.of_int n ≡ some x → IsFinite x
  pub of_int_nonneg :
      (n : ℕ) (x : p.Float) → p.float.of_int n ≡ some x → p.float.leq p.float.zero_f x ≡ true
  pub neg_finite : (x : p.Float) → IsFinite x → IsFinite (p.float.neg x)
  pub neg_leq :
      (x : p.Float)
      → IsFinite x
      → p.float.leq p.float.zero_f x ≡ true
      → p.float.leq (p.float.neg x) x ≡ true
  pub uniform_geq :
      (lo hi : p.Float) (e : p.Env)
      → IsFinite lo
      → IsFinite hi
      → p.float.leq lo hi ≡ true
      → p.float.leq lo (p.env.uniform lo hi e).0 ≡ true
  pub uniform_leq :
      (lo hi : p.Float) (e : p.Env)
      → IsFinite lo
      → IsFinite hi
      → p.float.leq lo hi ≡ true
      → p.float.leq (p.env.uniform lo hi e).0 hi ≡ true

-- The two delays of the settings are finite and not negative, and the ratio has passed `_check_jitter`.
pub record AreDelays (p : Platform) (laws : DelayLaws p) (settings : Settings p.Float)
    : Type 0 where
  pub base_finite : laws.IsFinite settings.retry_base_delay_seconds
  pub cap_finite : laws.IsFinite settings.retry_max_delay_seconds
  pub ratio_finite : laws.IsFinite settings.retry_jitter_ratio
  pub base : p.float.leq p.float.zero_f settings.retry_base_delay_seconds ≡ true
  pub cap : p.float.leq p.float.zero_f settings.retry_max_delay_seconds ≡ true
  pub ratio : p.float.leq p.float.zero_f settings.retry_jitter_ratio ≡ true
  pub fraction : p.float.leq settings.retry_jitter_ratio p.float.one_f ≡ true
