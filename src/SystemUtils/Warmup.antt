-- ===== src/SystemUtils/Warmup.antt =====
-- How long `warmup_cpu` keeps the processor busy.
use market_data_parser.Common.{
  ℕ, zero, suc, ◌+◌, ◌-◌, ◌*◌, ◌/◌, ◌%◌, ◌^◌, ◌≤◌, ◌<◌, ◌≡◌, refl, ap, some, arith, ltb, true,
  false,
}
use market_data_parser.Common.Int.{ℤ}
use market_data_parser.SystemUtils.{wait, warmup_cpu, get_tsc_frequency}
use native.Mathlib.Nat.{mul-le-mul_left}

-- The loop ends with the first reading that reaches the target: it has paused once for each before it.
wait-some :
    (clock : ℕ → ℕ) (target n i : ℕ)
    → ((j : ℕ) → j < n → clock (i + j) < target)
    → target ≤ clock (i + n)
    → wait (suc n) clock target i ≡ some n
unfolding wait
wait-some clock target zero i before reached =
    let same = ap clock {x = i + 0} {y = i} (omega arith) in
    let last : ltb (clock i) target ≡ false = ground (arith, same) in rw last refl
wait-some clock target (suc n) i before reached =
    let same = ap clock {x = i + 0} {y = i} (omega arith) in
    let end = ap clock {x = i + 1 + n} {y = i + suc n} (omega arith) in
    let first : ltb (clock i) target ≡ true = ground (arith, same, before 0 (omega arith)) in
    let rest =
      wait-some clock target n (i + 1)
        (λ j lt. omega (
          arith,
          ap clock {x = i + 1 + j} {y = i + suc j} (omega arith),
          before (suc j) (omega arith),
        ))
        (omega arith) in
    rw (first, rest) refl

module _ (clock : ℕ → ℕ) (never_falls : (i : ℕ) → clock i ≤ clock (i + 1))
    (u64 : (i : ℕ) → clock i < 2 ^ 64) where
  -- `get_tsc_frequency` gives the cycles between its two readings.
  get_tsc_frequency_lem : get_tsc_frequency (clock 1) (clock 2) ≡ clock 2 - clock 1
  unfolding get_tsc_frequency
  get_tsc_frequency_lem = omega (arith, never_falls 1, u64 1, u64 2)

  target_lem :
      (milliseconds : ℕ)
      → (clock 2 - clock 1) * milliseconds < 2 ^ 64
      → clock 0 + (clock 2 - clock 1) * milliseconds / 1000 < 2 ^ 64
      → (clock 0 + get_tsc_frequency (clock 1) (clock 2) * milliseconds % 2 ^ 64 / 1000) % 2 ^ 64
        ≡ clock 0 + (clock 2 - clock 1) * milliseconds / 1000
  target_lem ms small below = rw get_tsc_frequency_lem (omega arith)

  -- With a request of at most a second, `warmup_cpu` does not pause even once, since the measurement of
  -- the frequency, after the start was read, has taken that second: the loop ends at its first reading of
  -- the time stamp counter. The counter does not fall or wrap, and the products stay below 2^64.
  pub warmup_cpu-never_pauses :
      (milliseconds fuel : ℕ)
      → milliseconds ≤ 1000
      → (clock 2 - clock 1) * milliseconds < 2 ^ 64
      → warmup_cpu (suc fuel) clock (ℤ.pos milliseconds) ≡ some 0
  unfolding warmup_cpu wait
  warmup_cpu-never_pauses ms fuel short small =
      let at_most = mul-le-mul_left {m = ms} {n = 1000} (clock 2 - clock 1) short in
      let target = target_lem ms small (omega (arith, never_falls 0, never_falls 1, u64 2)) in
      let past : ltb (clock 3) (clock 0 + (clock 2 - clock 1) * ms / 1000) ≡ false =
        ground (arith, never_falls 0, never_falls 1, never_falls 2) in
      rw (target, past) refl

  -- With any request, `warmup_cpu` ends at the first reading after the measurement that has reached the
  -- target, and pauses once for each reading before it.
  pub warmup_cpu-pauses :
      (milliseconds n : ℕ)
      → (clock 2 - clock 1) * milliseconds < 2 ^ 64
      → clock 0 + (clock 2 - clock 1) * milliseconds / 1000 < 2 ^ 64
      → ((j : ℕ) → j < n → clock (3 + j) < clock 0 + (clock 2 - clock 1) * milliseconds / 1000)
      → clock 0 + (clock 2 - clock 1) * milliseconds / 1000 ≤ clock (3 + n)
      → warmup_cpu (suc n) clock (ℤ.pos milliseconds) ≡ some n
  unfolding warmup_cpu
  warmup_cpu-pauses ms n small below before reached =
      rw (target_lem ms small below) (wait-some clock _ n 3 before reached)
