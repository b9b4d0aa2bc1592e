-- ===== src/Worker/RetryPolicy/Delay.antt =====
-- The backoff of app/worker/retry_policy.py stays within its bounds, or cannot be computed.
use Prim.Native.Nat.{◌^◌}
use async_ai_document_pipeli.Prelude.{
  ℕ, ◌≡◌, refl, ◌⊎◌, Bool-cases, Option-cases, none, some, true, inl, inr, arith, if◌then◌else◌,
}
use async_ai_document_pipeli.Core.Exec.{ok, raised}
use async_ai_document_pipeli.Core.Settings.{Settings}
use async_ai_document_pipeli.Platform.{Platform}
use async_ai_document_pipeli.Platform.World.{World}
use async_ai_document_pipeli.Worker.RetryPolicy.FloatLaws.{DelayLaws, AreDelays}
use async_ai_document_pipeli.Worker.RetryPolicy.{
  capped_at, capped_delay, exponent_of, overflow_error, at_least_zero, compute_delay,
}

-- The most that a delay is: the capped backoff and its jitter.
abbrev pub longest : (p : Platform) → Settings p.Float → p.Float → p.Float
longest p settings capped =
    if p.float.leq settings.retry_jitter_ratio p.float.zero_f
    then capped
    else p.float.add capped (p.float.mul capped settings.retry_jitter_ratio)

-- A delay that lies within the bounds of a backoff.
pub record IsWithin (p : Platform) (settings : Settings p.Float) (capped delay : p.Float)
    : Type 0 where
  pub nonneg : p.float.leq p.float.zero_f delay ≡ true
  pub at_most : p.float.leq delay (longest p settings capped) ≡ true
  pub capped_nonneg : p.float.leq p.float.zero_f capped ≡ true
  pub capped_at_most : p.float.leq capped settings.retry_max_delay_seconds ≡ true

exponent_of-id : (attempt : ℕ) → exponent_of attempt ≡ attempt
unfolding exponent_of
exponent_of-id attempt = ground arith

module _ (p : Platform) (settings : Settings p.Float) (attempt : ℕ) where
  capped_delay-some :
      (factor : p.Float)
      → p.float.of_int (2 ^ attempt) ≡ some factor
      → capped_delay p.float attempt settings ≡ ok (capped_at p.float factor settings)
  unfolding capped_delay
  capped_delay-some factor known = rw (capped_delay, exponent_of-id attempt, known) refl

  capped_delay-none :
      p.float.of_int (2 ^ attempt) ≡ none
      → capped_delay p.float attempt settings ≡ raised overflow_error
  unfolding capped_delay
  capped_delay-none over = rw (capped_delay, exponent_of-id attempt, over) refl

module _ (p : Platform) (laws : DelayLaws p) (settings : Settings p.Float)
    (delays : AreDelays p laws settings) where
  capped-leq :
      (factor : p.Float)
      → p.float.leq (capped_at p.float factor settings) settings.retry_max_delay_seconds ≡ true
  unfolding capped_at
  capped-leq factor = ground (
    arith,
    laws.leq_refl settings.retry_max_delay_seconds (laws.finite_number _ delays.cap_finite),
  )

  capped-nonneg :
      (factor : p.Float)
      → laws.IsFinite factor
      → p.float.leq p.float.zero_f factor ≡ true
      → p.float.leq p.float.zero_f (capped_at p.float factor settings) ≡ true
  unfolding capped_at
  capped-nonneg factor finite h = ground (
    arith,
    delays.cap,
    laws.mul_nonneg settings.retry_base_delay_seconds factor delays.base_finite finite delays.base
        h,
  )

  at_least_zero-nonneg :
      (x : p.Float) → laws.IsNumber x → p.float.leq p.float.zero_f (at_least_zero p.float x) ≡ true
  unfolding at_least_zero
  at_least_zero-nonneg x number = ground (
    arith,
    laws.leq_refl p.float.zero_f (laws.finite_number _ laws.zero_finite),
    laws.leq_total x p.float.zero_f number (laws.finite_number _ laws.zero_finite),
  )

  at_least_zero-leq :
      (x y : p.Float)
      → p.float.leq x y ≡ true
      → p.float.leq p.float.zero_f y ≡ true
      → p.float.leq (at_least_zero p.float x) y ≡ true
  unfolding at_least_zero
  at_least_zero-leq x y h k = ground arith

  module _ (capped : p.Float) (finite : laws.IsFinite capped)
      (nonneg : p.float.leq p.float.zero_f capped ≡ true) where
    abbrev spread : p.Float
    spread = p.float.mul capped settings.retry_jitter_ratio

    spread-nonneg : p.float.leq p.float.zero_f spread ≡ true
    spread-nonneg =
        laws.mul_nonneg capped settings.retry_jitter_ratio finite delays.ratio_finite nonneg
          delays.ratio

    spread-finite : laws.IsFinite spread
    spread-finite =
        laws.between_finite p.float.zero_f spread capped laws.zero_finite finite spread-nonneg (
          laws.mul_fraction capped settings.retry_jitter_ratio finite nonneg delays.ratio
            delays.fraction)

    -- What is drawn lies within the spread.
    module _ (env : p.Env) where
      abbrev drawn : p.Float
      drawn = (p.env.uniform (p.float.neg spread) spread env).0

      drawn-leq : p.float.leq drawn spread ≡ true
      drawn-leq =
          laws.uniform_leq (p.float.neg spread) spread env (laws.neg_finite _ spread-finite)
            spread-finite (laws.neg_leq spread spread-finite spread-nonneg)

      drawn-finite : laws.IsFinite drawn
      drawn-finite =
          laws.between_finite (p.float.neg spread) drawn spread (laws.neg_finite _ spread-finite)
            spread-finite
            (laws.uniform_geq (p.float.neg spread) spread env (laws.neg_finite _ spread-finite)
              spread-finite (laws.neg_leq spread spread-finite spread-nonneg))
            drawn-leq

      jittered-nonneg :
          p.float.leq p.float.zero_f (at_least_zero p.float (p.float.add capped drawn)) ≡ true
      jittered-nonneg =
          at_least_zero-nonneg (p.float.add capped drawn)
            (laws.add_number capped drawn finite drawn-finite)

      jittered-leq :
          p.float.leq (at_least_zero p.float (p.float.add capped drawn)) (p.float.add capped spread)
          ≡ true
      jittered-leq =
          at_least_zero-leq (p.float.add capped drawn) (p.float.add capped spread)
            (laws.add_mono capped drawn spread finite drawn-finite spread-finite drawn-leq)
            (laws.add_nonneg capped spread finite spread-finite nonneg spread-nonneg)

  module _ (attempt : ℕ) (w : World p) where
    -- The delay for a factor that is known.
    bounded :
        (factor : p.Float)
        → p.float.of_int (2 ^ attempt) ≡ some factor
        → (delay : p.Float) × ((compute_delay p attempt settings w).0 ≡ ok delay)
          × IsWithin p settings (capped_at p.float factor settings) delay
    unfolding compute_delay
    bounded factor known =
        let capped = capped_at p.float factor settings in
        let some_factor = capped_delay-some p settings attempt factor known in
        let nonneg =
          capped-nonneg factor (laws.of_int_finite _ factor known)
            (laws.of_int_nonneg _ factor known) in
        let finite =
          laws.between_finite p.float.zero_f capped settings.retry_max_delay_seconds
            laws.zero_finite delays.cap_finite nonneg (capped-leq factor) in
        elim (Bool-cases (p.float.leq settings.retry_jitter_ratio p.float.zero_f)) [
          | inl off ↦ (
            capped,
            rw (some_factor, off) refl,
            record {
              nonneg = nonneg;
              at_most = rw off (laws.leq_refl capped (laws.finite_number capped finite));
              capped_nonneg = nonneg;
              capped_at_most = capped-leq factor;
            },
          )
          | inr jitter ↦ (
            at_least_zero p.float (p.float.add capped (drawn capped finite nonneg w.env)),
            rw (some_factor, jitter) refl,
            record {
              nonneg = jittered-nonneg capped finite nonneg w.env;
              at_most = rw jitter (jittered-leq capped finite nonneg w.env);
              capped_nonneg = nonneg;
              capped_at_most = capped-leq factor;
            },
          )
        ]

    -- If the settings have finite delays that are not negative and a ratio between 0 and 1, and
    -- finite floats behave as in IEEE arithmetic, `compute_delay` raises `OverflowError` and
    -- changes nothing where the power of two of the attempts is too large for a float. In every
    -- other case it returns a delay that is not negative and at most the capped backoff and its
    -- jitter, and the capped backoff is not negative and at most the longest delay of the
    -- settings.
    pub compute_delay_bounds :
        ((p.float.of_int (2 ^ attempt) ≡ none)
          × (compute_delay p attempt settings w ≡ (raised overflow_error, w)))
        ⊎ ((factor : p.Float) × (p.float.of_int (2 ^ attempt) ≡ some factor)
            × ((delay : p.Float) × ((compute_delay p attempt settings w).0 ≡ ok delay)
                × IsWithin p settings (capped_at p.float factor settings) delay))
    unfolding compute_delay
    compute_delay_bounds = elim (Option-cases (p.float.of_int (2 ^ attempt))) [
      | inl over ↦ inl (over, rw (capped_delay-none p settings attempt over) refl)
      | inr (factor, known) ↦ inr (factor, known, bounded factor known)
    ]
