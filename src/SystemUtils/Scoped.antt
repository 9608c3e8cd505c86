-- ===== src/SystemUtils/Scoped.antt =====
-- The scopes of ScopedMemoryLock and ScopedCPUPin: what holds in the scope and after it.
use market_data_parser.Common.{◌≡◌, ◌∙◌, Bool, true, false, Bool-cases, inl, inr}
use market_data_parser.Common.Int.{ℤ}
use market_data_parser.SystemUtils.{Kernel, pin, unpin, pin_thread_to_core}

-- Whether all pages are locked, and how mlockall and munlockall change it.
pub record Locks {W C : Type 0} (kernel : Kernel W C) (is_locked : W → Bool) : Type 0 where
  pub locked : (w : W) → (kernel.mlockall w).0 ≡ true → is_locked (kernel.mlockall w).1 ≡ true
  pub refused :
      (w : W) → (kernel.mlockall w).0 ≡ false → is_locked (kernel.mlockall w).1 ≡ is_locked w
  pub unlocked : (w : W) → is_locked (kernel.munlockall w) ≡ false

module _ {W C : Type 0} (kernel : Kernel W C) where
  -- What setting an affinity keeps, a scope with a ScopedCPUPin and nothing in it keeps.
  pub unpin-kept :
      {X : Type 0} (view : W → X)
      → ((mask : C) (w : W) → view (kernel.set_affinity mask w).1 ≡ view w)
      → (core_id : ℤ) (w : W)
      → let (flag, inside) = pin kernel core_id w in view (unpin kernel flag inside) ≡ view w
  unfolding pin unpin pin_thread_to_core
  unpin-kept view kept core_id w =
      let mask = kernel.add_cpu core_id kernel.no_cpus in
      elim (Bool-cases (kernel.set_affinity mask w).0) [
        | inl done ↦ rw done (kept _ (kernel.set_affinity mask w).1 ∙ kept mask w)
        | inr failed ↦ rw failed (kept mask w)
      ]
