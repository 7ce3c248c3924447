-- ===== src/Store/PowerLoss/Cut.antt =====
-- What a boot finds after the power failed in `store_append`.
use n_rf5340_presence_test.Base.{
  ℕ, zero, suc, ◌+◌, ◌^◌, ◌<◌, ◌≡◌, ◌⊎◌, refl, ◌∙◌, true, false, ◌&&◌, leb, if◌then◌else◌, none,
  some, arith, ◌==◌, inl, inr, Bool-cases,
}
use n_rf5340_presence_test.Base.Int.{ℤ, is_neg, is_zero}
use native.Mathlib.Decide.{ℕ_discrete}
use n_rf5340_presence_test.Frame.Record.{Record}
use n_rf5340_presence_test.Store.Nvs.{Nvs, IsNvs, Item}
use n_rf5340_presence_test.Store.{
  Store, Flash, capacity, slot_id, id_rec0, id_meta, id_format, id_floor, oldest_seq, append, get,
  get_check, get_read, init, at_boot,
}
use n_rf5340_presence_test.Store.Ring.{
  extend, Log, IsRing, append-IsRing, stamped, recorded, next_meta,
}
use n_rf5340_presence_test.Store.Boot.{
  IsReady, IsSaved, append-IsSaved, init-resumed, resumed, reboot,
}
use n_rf5340_presence_test.Store.PowerLoss.{cut, powered}

module _ (nvs : Nvs) (laws : IsNvs nvs) where
  open nvs use {Fs, mount, write, read}

  -- The flash that is left when the power lasts for `n` writes of a `store_append`.
  abbrev pub left : ℕ → Store Fs → ℕ → Record → Fs
  left n s uptime rec = (append (cut nvs) (powered nvs n s) uptime rec).store.fs.1

  left_zero : (s : Store Fs) (uptime : ℕ) (rec : Record) → left 0 s uptime rec ≡ s.fs
  unfolding append
  left_zero s uptime rec = refl

  left_one :
      (s : Store Fs) (uptime : ℕ) (rec : Record)
      → left 1 s uptime rec ≡ (recorded nvs laws s (stamped nvs laws s uptime rec)).1
  unfolding append
  left_one s uptime rec =
      elim (Bool-cases (is_neg (recorded nvs laws s (stamped nvs laws s uptime rec)).0)) [
        | inl failed ↦ rw failed refl
        | inr done ↦ rw done refl
      ]

  enough : (n : ℕ) → leb 2 (suc (suc n)) ≡ true
  enough n = ground arith

  left_two :
      (n : ℕ) (s : Store Fs) (uptime : ℕ) (rec : Record)
      → left (suc (suc n)) s uptime rec ≡ (append nvs s uptime rec).store.fs
  unfolding append
  left_two n s uptime rec =
      elim (Bool-cases (is_neg (recorded nvs laws s (stamped nvs laws s uptime rec)).0)) [
        | inl failed ↦ rw failed refl
        | inr done ↦ rw done refl
      ]

  -- The flash holds what it held before the append of `r`, but for the slot of `r`.
  abbrev IsBefore : Store Fs → Record → Fs → Type 0
  IsBefore s r fs =
      (id : ℕ)
      → (read fs id ≡ read s.fs id)
        ⊎ ((id ≡ slot_id s.meta.next_seq) × (read fs id ≡ some (Item.slot r)))

  get_check-resumed :
      (s : Store Fs) (fs : Fs) (q : ℕ)
      → get_check nvs (resumed nvs laws (record s { fs = fs })) q ≡ get_check nvs s q
  unfolding get_check oldest_seq
  get_check-resumed s fs q = refl

  get_read-same :
      (s t : Store Fs) (q : ℕ)
      → read s.fs (slot_id q) ≡ read t.fs (slot_id q)
      → get_read nvs s q ≡ get_read nvs t q
  unfolding get_read
  get_read-same s t q e = rw (e, get_read) refl

  get_read-other :
      (s : Store Fs) (q : ℕ) (r : Record)
      → read s.fs (slot_id q) ≡ some (Item.slot r)
      → (r.seq == q) ≡ false
      → get_read nvs s q ≡ none
  unfolding get_read
  get_read-other s q r e other = rw (e, get_read) (rw other refl)

  -- A number that is held and has the slot of the next one is the oldest that a full ring holds.
  oldest_slot :
      (s : Store Fs) (q : ℕ)
      → get_check nvs s q ≡ true
      → slot_id q ≡ slot_id s.meta.next_seq
      → (q + capacity ≡ s.meta.next_seq) × ((s.meta.next_seq == q) ≡ false)
  unfolding get_check oldest_seq
  oldest_slot s q held same = ground arith

  get_before :
      (s : Store Fs) (r : Record) (fs : Fs) (q : ℕ)
      → r.seq ≡ s.meta.next_seq
      → IsBefore s r fs
      → let s' = resumed nvs laws (record s { fs = fs }) in
        (get nvs s' q ≡ get nvs s q) ⊎ ((get nvs s' q ≡ none) × (q + capacity ≡ s.meta.next_seq))
  unfolding get
  get_before s r fs q number before = elim (Bool-cases (get_check nvs s q)) [
    | inr gone ↦ inl (rw (get_check-resumed s fs q, gone) refl)
    | inl held ↦
        rw (get_check-resumed s fs q, held)
          (elim (before (slot_id q)) [
            | inl same ↦ inl (
                get_read-same (resumed nvs laws (record s { fs = fs })) s q
                  (laws.mount_keeps fs (slot_id q) ∙ same))
            | inr (reused, new) ↦
                let (oldest, other) = oldest_slot s q held reused in
                inr (
                  get_read-other (resumed nvs laws (record s { fs = fs })) q r
                      (laws.mount_keeps fs (slot_id q) ∙ new) (rw number other),
                  oldest,
                )
          ])
  ]

  recorded-IsBefore : (s : Store Fs) (r : Record) → IsBefore s r (recorded nvs laws s r).1
  recorded-IsBefore s r id = elim (Bool-cases (is_neg (recorded nvs laws s r).0)) [
    | inl failed ↦ inl (laws.write_fails s.fs (slot_id s.meta.next_seq) id (Item.slot r) failed)
    | inr done ↦ elim (ℕ_discrete id (slot_id s.meta.next_seq)) [
      | yes same ↦
          inr (same, rw same (laws.write_stores s.fs (slot_id s.meta.next_seq) (Item.slot r) done))
      | no other ↦ inl (laws.write_keeps s.fs (slot_id s.meta.next_seq) id (Item.slot r) other)
    ]
  ]

  -- An append that does not answer 0 has written no counters.
  failed-IsBefore :
      (s : Store Fs) (uptime : ℕ) (rec : Record)
      → is_zero (append nvs s uptime rec).code ≡ false
      → IsBefore s (stamped nvs laws s uptime rec) (append nvs s uptime rec).store.fs
  unfolding append
  failed-IsBefore s uptime rec =
      let r = stamped nvs laws s uptime rec in
      let m = next_meta nvs laws s r in
      elim (Bool-cases (is_neg (recorded nvs laws s r).0)) [
        | inl failed ↦ rw failed (λ _. recorded-IsBefore s r)
        | inr done ↦
            elim (Bool-cases (is_neg (write (recorded nvs laws s r).1 id_meta (Item.meta m)).0)) [
              | inl failed ↦
                  rw (done, failed)
                    λ _ id.
                      rw
                        (laws.write_fails (recorded nvs laws s r).1 id_meta id (Item.meta m) failed)
                        (recorded-IsBefore s r id)
              | inr written ↦ rw (done, written) (λ h. cc)
            ]
      ]

  -- The boot after a flash that holds what it held before.
  boot_before :
      (flash : Flash) (s : Store Fs) (r : Record) (fs : Fs)
      → IsReady flash
      → is_zero (mount fs).0 ≡ true
      → IsSaved nvs laws s
      → IsBefore s r fs
      → init nvs flash (at_boot nvs fs) ≡ (ℤ.pos 0, resumed nvs laws (record s { fs = fs }))
  boot_before flash s r fs ready mounted saved before =
      init-resumed nvs laws flash (record s { fs = fs }) ready mounted
        (record {
          meta = kept id_meta (omega arith) ∙ saved.meta;
          format = kept id_format (omega arith) ∙ saved.format;
          floor = kept id_floor (omega arith) ∙ saved.floor;
        })
    where
      kept : (id : ℕ) → id < id_rec0 → read fs id ≡ read s.fs id
      kept id h = elim (before id) [
        | inl same ↦ same
        | inr (reused, new) ↦ absurd (omega (arith, reused))
      ]

  -- What a boot comes up with: what `t` has, but perhaps without the number that the slot of the
  -- next record of `s` was taken from.
  abbrev ComesUpAs : Store Fs → Store Fs → ℤ × Store Fs → Type 0
  ComesUpAs s t (code, s') =
      (code ≡ ℤ.pos 0)
      × (s'.meta ≡ t.meta)
      × ((q : ℕ)
          → (get nvs s' q ≡ get nvs t q)
            ⊎ ((get nvs s' q ≡ none) × (q + capacity ≡ s.meta.next_seq)))

  comes_up-before :
      (flash : Flash) (s : Store Fs) (r : Record) (fs : Fs)
      → IsReady flash
      → is_zero (mount fs).0 ≡ true
      → IsSaved nvs laws s
      → r.seq ≡ s.meta.next_seq
      → IsBefore s r fs
      → ComesUpAs s s (init nvs flash (at_boot nvs fs))
  comes_up-before flash s r fs ready mounted saved number before =
      rw (boot_before flash s r fs ready mounted saved before)
        (refl, refl, λ q. get_before s r fs q number before)

  -- The power may fail in a `store_append` after any number of its writes, and its writes may fail:
  -- if the counters in the flash were those in memory, the ring was in step with a log, the numbers
  -- have not run out at 2 ^ 32, and the flash is ready and mounts, then the next boot answers 0. It
  -- comes up with the store after the append if both writes were done, and otherwise with the store
  -- before it: the next number is the same, and every number reads the same, but for the one whose
  -- slot the new record takes, which may read nothing. So no number ever reads a wrong record.
  pub power_loss :
      (flash : Flash) (n : ℕ) (s : Store Fs) (log : Log) (uptime : ℕ) (rec : Record)
      → IsReady flash
      → is_zero (mount (left n s uptime rec)).0 ≡ true
      → IsSaved nvs laws s
      → IsRing nvs laws s log
      → s.meta.next_seq + 1 < 2 ^ 32
      → let out = append nvs s uptime rec in
        let (code, s') = init nvs flash (at_boot nvs (left n s uptime rec)) in
        let t = if leb 2 n && is_zero out.code then out.store else s in
        (code ≡ ℤ.pos 0)
        × (s'.meta ≡ t.meta)
        × ((q : ℕ)
            → (get nvs s' q ≡ get nvs t q)
              ⊎ ((get nvs s' q ≡ none) × (q + capacity ≡ s.meta.next_seq)))
  power_loss flash zero s log uptime rec ready mounted saved ring room =
      comes_up-before flash s (stamped nvs laws s uptime rec) (left zero s uptime rec) ready mounted
        saved refl (λ id. inl (rw (left_zero s uptime rec) refl))
  power_loss flash (suc zero) s log uptime rec ready mounted saved ring room =
      comes_up-before flash s (stamped nvs laws s uptime rec) (left 1 s uptime rec) ready mounted
        saved refl
        (rw (left_one s uptime rec) (recorded-IsBefore s (stamped nvs laws s uptime rec)))
  power_loss flash (suc (suc n)) s log uptime rec ready mounted saved ring room =
      let out = append nvs s uptime rec in
      let whole = left_two n s uptime rec in
      elim (Bool-cases (is_zero out.code)) [
        | inr failed ↦
            rw (enough n, failed)
              (comes_up-before flash s (stamped nvs laws s uptime rec)
                (left (suc (suc n)) s uptime rec) ready mounted saved refl
                (rw whole (failed-IsBefore s uptime rec failed)))
        | inl success ↦
            let (answered, same_meta, _, _, same) =
              reboot nvs laws flash out.store (extend log s.meta.next_seq out.rec) ready
                (rw whole at mounted) (append-IsSaved nvs laws s uptime rec saved success)
                (append-IsRing nvs laws s log uptime rec ring room) in
            rw (enough n, success, whole) (answered, same_meta, λ q. inl (same q))
      ]
