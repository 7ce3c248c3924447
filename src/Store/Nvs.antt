-- ===== src/Store/Nvs.antt =====
-- The flash file system that store.c calls: Zephyr's NVS, which is not part of the repository. Its
-- operations are a parameter, and `IsNvs` is what its documentation promises of them.
use n_rf5340_presence_test.Base.{ℕ, ◌≡◌, ◌≢◌, true, false, Option, none, some}
use n_rf5340_presence_test.Base.Int.{ℤ, is_zero, is_neg}
use n_rf5340_presence_test.Frame.Record.{Record}

-- `struct meta`
pub record Meta : Type 0 where
  pub next_seq : ℕ
  pub base_sec : ℕ

-- What store.c writes. `foreign` is an entry that another firmware wrote, of another size.
pub data Item : Type 0 where
  meta : Meta → Item
  format : ℕ → Item
  floor : ℕ → Item
  slot : Record → Item
  foreign : ℕ → Item

-- `nvs_mount`, `nvs_clear`, `nvs_write` (negative: failed) and `nvs_read` (none: no entry).
pub record Nvs : Type 1 where
  pub Fs : Type 0
  pub mount : Fs → ℤ × Fs
  pub clear : Fs → ℤ × Fs
  pub write : Fs → ℕ → Item → ℤ × Fs
  pub read : Fs → ℕ → Option Item

pub record IsNvs (nvs : Nvs) : Type 0 where
  pub mount_keeps : (fs : nvs.Fs) (id : ℕ) → nvs.read (nvs.mount fs).1 id ≡ nvs.read fs id
  pub clear_empties :
      (fs : nvs.Fs) (id : ℕ) → is_zero (nvs.clear fs).0 ≡ true → nvs.read (nvs.clear fs).1 id ≡ none
  pub write_stores :
      (fs : nvs.Fs) (id : ℕ) (item : Item)
      → is_neg (nvs.write fs id item).0 ≡ false
      → nvs.read (nvs.write fs id item).1 id ≡ some item
  pub write_keeps :
      (fs : nvs.Fs) (id other : ℕ) (item : Item)
      → other ≢ id
      → nvs.read (nvs.write fs id item).1 other ≡ nvs.read fs other
  pub write_fails :
      (fs : nvs.Fs) (id other : ℕ) (item : Item)
      → is_neg (nvs.write fs id item).0 ≡ true
      → nvs.read (nvs.write fs id item).1 other ≡ nvs.read fs other
