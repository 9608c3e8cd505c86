-- ===== src/Logger/Opening.antt =====
-- How `start` of AsyncLogger fails.
use market_data_parser.Common.{
  ℕ, ◌≡◌, refl, ap, ◌∙◌, Bool, true, false, Bool-cases, none, some, List, inl, inr, if_true,
  if_false,
}
use market_data_parser.Common.Int.{ℤ}
use market_data_parser.Parser.{ParsedMessage}
use market_data_parser.Logger.{Os, Flags, AsyncLogger, WriteMode, map_failed}
use market_data_parser.Logger.Lifecycle.{
  returned, thrown, start, stop, open_file, map_file, map_by_mode, set_running, is_negative,
  open_flags, initial_size,
}

-- `readable` says whether a file descriptor is open for reading. As documented: O_WRONLY does not open for
-- reading, ftruncate does not change how a descriptor is open, and mmap with MAP_SHARED and PROT_WRITE
-- fails with EACCES on a descriptor that is not open for reading too.
pub record Documented {W : Type 0} (os : Os W) (readable : ℤ → W → Bool) : Type 0 where
  pub opened :
      (filename : List ℕ) (flags : Flags) (w : W)
      → flags.write_only ≡ true
      → let (fd, w') = os.open_file filename flags w in readable fd w' ≡ false
  pub truncated :
      (fd fd' : ℤ) (size : ℕ) (w : W) → readable fd' (os.ftruncate fd size w).1 ≡ readable fd' w
  pub refused : (fd : ℤ) (size : ℕ) (w : W) → readable fd w ≡ false → (os.map fd size w).0 ≡ none

module _ {W : Type 0} (os : Os W) (slack : ParsedMessage → List ℕ) where
  map_file-thrown :
      (l : AsyncLogger W)
      → (os.map l.fd initial_size (os.ftruncate l.fd initial_size l.world).1).0 ≡ none
      → (l' : AsyncLogger W) × (map_file os l ≡ thrown l') × (l'.running ≡ l.running)
  unfolding map_file
  map_file-thrown l e =
      let (done, w) = os.ftruncate l.fd initial_size l.world in
      let w' = (os.map l.fd initial_size w).1 in
      elim (Bool-cases done) [
        | inl allocated ↦ (
          record l { mmap_ptr = map_failed; world = os.close l.fd w' },
          rw (allocated, e) refl,
          refl,
        )
        | inr refused ↦ (record l { world = os.close l.fd w }, rw refused refl, refl)
      ]

  pub map_by_mode-map_file :
      (mode : WriteMode) (l : AsyncLogger W)
      → mode ≡ WriteMode.mmap
      → map_by_mode os mode l ≡ map_file os l
  map_by_mode-map_file mode l m = rw m refl

  open_file-thrown :
      (readable : ℤ → W → Bool)
      → Documented os readable
      → (l : AsyncLogger W) → l.write_mode ≡ WriteMode.mmap
      → (l' : AsyncLogger W) × (open_file os l ≡ thrown l') × (l'.running ≡ l.running)
  unfolding open_file
  open_file-thrown readable d l m =
      let flags = open_flags l.write_mode in
      let write_only : flags.write_only ≡ true = rw m refl in
      let (fd, w) = os.open_file l.filename flags l.world in
      let l₁ : AsyncLogger W = record l { fd = fd; world = w } in
      elim (Bool-cases (is_negative fd)) [
        | inl failed ↦ (l₁, if_true (is_negative fd) _ _ failed, refl)
        | inr opened ↦
            let unreadable =
              d.truncated fd fd initial_size w ∙ d.opened l.filename flags l.world write_only in
            let (l₂, e, kept) = map_file-thrown l₁ (d.refused fd initial_size _ unreadable) in
            (
              l₂,
              if_false (is_negative fd) (thrown l₁) _ opened
                  ∙ map_by_mode-map_file l.write_mode l₁ m
                  ∙ e,
              kept,
            )
      ]

  -- In MMAP mode `start` always throws, where the system does what is documented: the file is opened with
  -- O_WRONLY, and mmap refuses to map it for writing. The logger is not running then, and `stop` does
  -- nothing.
  pub start-thrown :
      (readable : ℤ → W → Bool)
      → Documented os readable
      → (l : AsyncLogger W) (fuel : ℕ) (retries : ℕ → ℕ) → l.write_mode ≡ WriteMode.mmap
      → l.running ≡ false
      → (l' : AsyncLogger W) × (start os l ≡ thrown l')
        × (l'.running ≡ false)
        × (stop os slack fuel retries l' ≡ some l')
  unfolding start stop
  start-thrown readable d l fuel retries m idle =
      let (l', e, kept) = open_file-thrown readable d l m in
      (
        l',
        if_false l.running (returned l) _ idle ∙ ap set_running e,
        kept ∙ idle,
        if_false l'.running _ (some l') (kept ∙ idle),
      )
