-- ===== src/Store/PowerLoss/Upgrade.antt =====
-- What a boot finds after the power failed while `store_init` dropped the records of another
-- format.
use n_rf5340_presence_test.Base.{
  ℕ, zero, suc, ◌≤◌, ◌≡◌, ◌≢◌, ap, ◌∙◌, true, ◌||◌, Option, none, some, arith, leb, ◌==◌,
  if◌then◌else◌, inl, inr, Bool-cases,
}
use n_rf5340_presence_test.Base.Int.{ℤ, is_neg, is_zero}
use n_rf5340_presence_test.Store.Nvs.{Nvs, IsNvs, Item}
use n_rf5340_presence_test.Store.{
  Store, Flash, id_meta, id_format, id_floor, format_now, init, erase, stamp, at_boot, format_of,
  meta_of,
}
use n_rf5340_presence_test.Store.Boot.{IsReady, old_meta, upgrade}
use n_rf5340_presence_test.Store.PowerLoss.{cut, powered}

module _ (nvs : Nvs) (laws : IsNvs nvs) where
  open nvs use {Fs, mount, clear, write, read}

  -- The flash that is left when the power lasts for `n` steps of a boot over `fs`.
  abbrev pub left : Flash → ℕ → Fs → Fs
  left flash n fs = (init (cut nvs) flash (at_boot (cut nvs) (n, fs))).1.fs.1

  stamp-meta : (s : Store Fs) → (stamp nvs s).1.meta ≡ s.meta
  unfolding stamp
  stamp-meta s = ground arith

  erase-meta : (s : Store Fs) → (erase nvs s).1.meta ≡ s.meta
  unfolding erase
  erase-meta s =
      ground (
        arith,
        stamp-meta (record s { fs = (mount (clear s.fs).1).1; floor_seq = s.meta.next_seq }),
      )

  -- The counters that a boot comes up with, when the flash is ready and mounts: those of the flash.
  boot-meta :
      (flash : Flash) (fs : Fs)
      → IsReady flash
      → is_zero (mount fs).0 ≡ true
      → (init nvs flash (at_boot nvs fs)).1.meta ≡ old_meta nvs laws fs
  unfolding init
  boot-meta flash fs ready mounted =
      let s : Store Fs = record (at_boot nvs fs) {
        fs = (mount fs).1;
        meta = old_meta nvs laws fs;
      } in
      ground (arith, erase-meta s)

  -- The flash has no counters.
  abbrev IsBlank : Fs → Type 0
  IsBlank fs = read fs id_meta ≡ none

  write-IsBlank :
      (fs : Fs) (id : ℕ) (item : Item) → id_meta ≢ id → IsBlank fs → IsBlank (write fs id item).1
  write-IsBlank fs id item other blank = laws.write_keeps fs id id_meta item other ∙ blank

  -- The counters are the last that is written.
  stamp-IsBlank :
      (k : ℕ) (s : Store Fs)
      → k ≤ 2
      → IsBlank s.fs
      → IsBlank (stamp (cut nvs) (powered nvs k s)).1.fs.1
  unfolding stamp
  stamp-IsBlank zero s h blank = blank
  stamp-IsBlank (suc zero) s h blank =
      let formatted = write-IsBlank s.fs id_format (Item.format format_now) (omega arith) blank in
      elim (Bool-cases (is_neg (write s.fs id_format (Item.format format_now)).0)) [
        | inl failed ↦ rw failed formatted
        | inr done ↦ rw done formatted
      ]
  stamp-IsBlank (suc (suc zero)) s h blank =
      let f1 = (write s.fs id_format (Item.format format_now)).1 in
      let formatted = write-IsBlank s.fs id_format (Item.format format_now) (omega arith) blank in
      let floored = write-IsBlank f1 id_floor (Item.floor s.floor_seq) (omega arith) formatted in
      elim (Bool-cases (is_neg (write s.fs id_format (Item.format format_now)).0)) [
        | inl failed ↦ rw failed formatted
        | inr done ↦ elim (Bool-cases (is_neg (write f1 id_floor (Item.floor s.floor_seq)).0)) [
          | inl failed ↦ rw (done, failed) floored
          | inr whole ↦ rw (done, whole) floored
        ]
      ]
  stamp-IsBlank (suc (suc (suc k))) s h blank = absurd (omega arith)

  erase-IsBlank :
      (k : ℕ) (s : Store Fs)
      → k ≤ 2
      → is_zero (clear s.fs).0 ≡ true
      → IsBlank (erase (cut nvs) (powered nvs (suc k) s)).1.fs.1
  unfolding erase
  erase-IsBlank k s h cleared =
      let f1 = (clear s.fs).1 in
      let blank = laws.mount_keeps f1 id_meta ∙ laws.clear_empties s.fs id_meta cleared in
      let s' : Store Fs = record s { fs = (mount f1).1; floor_seq = s.meta.next_seq } in
      elim (Bool-cases (is_zero (mount f1).0)) [
        | inl mounted ↦ rw (cleared, mounted) (stamp-IsBlank k s' h blank)
        | inr failed ↦ rw (cleared, failed) blank
      ]

  -- A power that lasts for four steps does not fail.
  stamp_whole :
      (k : ℕ) (s : Store Fs)
      → (stamp (cut nvs) (powered nvs (suc (suc (suc k))) s)).1.fs.1 ≡ (stamp nvs s).1.fs
  unfolding stamp
  stamp_whole k s = ground arith

  erase_whole :
      (k : ℕ) (s : Store Fs)
      → (erase (cut nvs) (powered nvs (suc (suc (suc (suc k)))) s)).1.fs.1 ≡ (erase nvs s).1.fs
  unfolding erase
  erase_whole k s = ground (
    arith,
    stamp_whole k (record s { fs = (mount (clear s.fs).1).1; floor_seq = s.meta.next_seq }),
  )

  erase_none : (s : Store Fs) → (erase (cut nvs) (powered nvs 0 s)).1.fs.1 ≡ (mount s.fs).1
  unfolding erase stamp
  erase_none s = ground arith

  erase_cleared : (s : Store Fs) → is_zero (erase nvs s).0 ≡ true → is_zero (clear s.fs).0 ≡ true
  unfolding erase
  erase_cleared s h = ground arith

  -- A boot over the flash of another firmware drops its records.
  entered :
      (n : ℕ) (flash : Flash) (fs : Fs)
      → IsReady flash
      → is_zero (mount fs).0 ≡ true
      → format_of (read (mount fs).1 id_format) ≢ format_now
      → let s : Store Fs = record (at_boot nvs fs) {
        fs = (mount fs).1;
        meta = old_meta nvs laws fs;
      } in
        (init (cut nvs) flash (at_boot (cut nvs) (n, fs)) ≡ erase (cut nvs) (powered nvs n s))
        × (init nvs flash (at_boot nvs fs) ≡ erase nvs s)
  unfolding init
  entered n flash fs ready mounted other = ground arith

  module _ (flash : Flash) (fs : Fs) (ready : IsReady flash)
      (mounts : (fs : Fs) → is_zero (mount fs).0 ≡ true)
      (other : format_of (read (mount fs).1 id_format) ≢ format_now)
      (success : is_zero (init nvs flash (at_boot nvs fs)).0 ≡ true) where
    abbrev s : Store Fs
    s = record (at_boot nvs fs) { fs = (mount fs).1; meta = old_meta nvs laws fs }

    enter :
        (n : ℕ)
        → init (cut nvs) flash (at_boot (cut nvs) (n, fs)) ≡ erase (cut nvs) (powered nvs n s)
    enter n = (entered n flash fs ready (mounts fs) other).0

    left_enter : (n : ℕ) → left flash n fs ≡ (erase (cut nvs) (powered nvs n s)).1.fs.1
    left_enter n = ap (λ (out : ℤ × Store (cut nvs).Fs). out.1.fs.1) (enter n)

    same : init nvs flash (at_boot nvs fs) ≡ erase nvs s
    same = (entered 0 flash fs ready (mounts fs) other).1

    counted :
        (f : Fs) (item : Option Item) → read f id_meta ≡ item → old_meta nvs laws f ≡ meta_of item
    counted f item e = ap meta_of (laws.mount_keeps f id_meta ∙ e)

    lost : (k : ℕ) → k ≤ 2 → old_meta nvs laws (left flash (suc k) fs) ≡ meta_of none
    lost k h =
        counted (left flash (suc k) fs) none
          (rw (left_enter (suc k)) (erase-IsBlank k s h (erase_cleared s (rw same at success))))

    whole :
        (k : ℕ) → left flash (suc (suc (suc (suc k)))) fs ≡ (init nvs flash (at_boot nvs fs)).1.fs
    whole k = rw (left_enter (suc (suc (suc (suc k)))), same) (erase_whole k s)

    kept :
        (k : ℕ) → old_meta nvs laws (left flash (suc (suc (suc (suc k)))) fs) ≡ old_meta nvs laws fs
    kept k =
        let (same_meta, _, saved) = upgrade nvs laws flash fs ready (mounts fs) other success in
        counted (left flash (suc (suc (suc (suc k)))) fs)
          (some (Item.meta (init nvs flash (at_boot nvs fs)).1.meta)) (rw (whole k) saved.meta)
        ∙ same_meta

    numbers_after :
        (n : ℕ)
        → old_meta nvs laws (left flash n fs) ≡ (
            if n == 0 || leb 4 n
            then old_meta nvs laws fs
            else record { next_seq = 0; base_sec = 0 })
    numbers_after zero =
        counted (left flash 0 fs) (read (mount fs).1 id_meta)
          (rw (left_enter 0, erase_none s) (laws.mount_keeps (mount fs).1 id_meta))
    numbers_after (suc zero) = lost 0 (omega arith)
    numbers_after (suc (suc zero)) = lost 1 (omega arith)
    numbers_after (suc (suc (suc zero))) = lost 2 (omega arith)
    numbers_after (suc (suc (suc (suc k)))) = kept k ∙ ground arith

  -- The power may fail while `store_init` drops the records of another format, after any number of
  -- its four changes of the flash, none of which fails by itself: if the flash is ready and always
  -- mounts, the next boot goes on with the old numbers and clock if none of the changes was made or
  -- all were. After one, two or three of them, it begins again at the number 0.
  pub upgrade_cut :
      (flash : Flash) (n : ℕ) (fs : Fs)
      → IsReady flash
      → ((fs : Fs) → is_zero (mount fs).0 ≡ true)
      → format_of (read (mount fs).1 id_format) ≢ format_now
      → is_zero (init nvs flash (at_boot nvs fs)).0 ≡ true
      → let s = (init nvs flash (at_boot nvs (left flash n fs))).1 in
        s.meta ≡ (
          if n == 0 || leb 4 n then old_meta nvs laws fs else record { next_seq = 0; base_sec = 0 })
  upgrade_cut flash n fs ready mounts other success =
      boot-meta flash (left flash n fs) ready (mounts (left flash n fs))
      ∙ numbers_after flash fs ready mounts other success n
