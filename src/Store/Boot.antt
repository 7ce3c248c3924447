-- ===== src/Store/Boot.antt =====
-- `store_init`: what survives a reset, and what a change of the record format drops.
use n_rf5340_presence_test.Base.{
  ℕ, ◌+◌, ◌≡◌, ◌≢◌, refl, sym, ◌∙◌, ap, true, none, some, arith, inl, inr, Bool-cases,
}
use n_rf5340_presence_test.Base.Int.{ℤ, is_neg, is_zero, neg_not_zero}
use n_rf5340_presence_test.Base.Word.{u32}
use n_rf5340_presence_test.Frame.Record.{Record}
use n_rf5340_presence_test.Store.Nvs.{Nvs, IsNvs, Item, Meta}
use n_rf5340_presence_test.Store.{
  Store, Flash, id_meta, id_format, id_floor, format_now, oldest_seq, now, append, get, init, erase,
  stamp, get_check, meta_of, format_of, at_boot, slot_id,
}
use n_rf5340_presence_test.Store.Ring.{Log, IsRing, get_lem}

-- The flash driver answers, as store_init wants it.
abbrev pub IsReady : Flash → Type 0
IsReady flash = (flash.ready ≡ true) × (is_zero flash.page_info ≡ true)

module _ (nvs : Nvs) (laws : IsNvs nvs) where
  open nvs use {Fs, mount, clear, write, read}

  -- The counters in the flash are those in memory.
  pub record IsSaved (s : Store Fs) : Type 0 where
    pub meta : read s.fs id_meta ≡ some (Item.meta s.meta)
    pub format : read s.fs id_format ≡ some (Item.format format_now)
    pub floor : read s.fs id_floor ≡ some (Item.floor s.floor_seq)

  -- A successful `store_append` keeps the counters in the flash up to date.
  pub append-IsSaved :
      (s : Store Fs) (uptime : ℕ) (rec : Record)
      → IsSaved s
      → is_zero (append nvs s uptime rec).code ≡ true
      → IsSaved (append nvs s uptime rec).store
  unfolding append
  append-IsSaved s uptime rec saved =
      let next = s.meta.next_seq in
      let rec' : Record = record rec { seq = next; ts = now nvs s uptime } in
      let m : Meta = record { next_seq = u32 (next + 1); base_sec = rec'.ts } in
      let (e1, f1) = write s.fs (slot_id next) (Item.slot rec') in
      let (e2, f2) = write f1 id_meta (Item.meta m) in
      elim (Bool-cases (is_neg e1)) [
        | inl n1 ↦ rw n1 (λ zero. absurd (neg_not_zero e1 n1 zero))
        | inr w1 ↦ rw w1 (elim (Bool-cases (is_neg e2)) [
          | inl n2 ↦ rw n2 (λ zero. absurd (neg_not_zero e2 n2 zero))
          | inr w2 ↦ rw w2 λ zero. record {
            meta = laws.write_stores f1 id_meta (Item.meta m) w2;
            format =
                laws.write_keeps f1 id_meta id_format (Item.meta m) (omega arith)
                ∙ laws.write_keeps s.fs (slot_id next) id_format (Item.slot rec') (omega arith)
                ∙ saved.format;
            floor =
                laws.write_keeps f1 id_meta id_floor (Item.meta m) (omega arith)
                ∙ laws.write_keeps s.fs (slot_id next) id_floor (Item.slot rec') (omega arith)
                ∙ saved.floor;
          }
        ])
      ]

  -- The state that store_init comes up with over a flash of this firmware.
  abbrev pub resumed : Store Fs → Store Fs
  resumed s = record s { fs = (mount s.fs).1; boot_offset = s.meta.base_sec }

  pub init-resumed :
      (flash : Flash) (s : Store Fs)
      → IsReady flash
      → is_zero (mount s.fs).0 ≡ true
      → IsSaved s
      → init nvs flash (at_boot nvs s.fs) ≡ (ℤ.pos 0, resumed s)
  unfolding init
  init-resumed flash s ready mounted saved =
      rw
        (
          ready.0,
          ready.1,
          mounted,
          laws.mount_keeps s.fs id_meta ∙ saved.meta,
          laws.mount_keeps s.fs id_format ∙ saved.format,
          laws.mount_keeps s.fs id_floor ∙ saved.floor,
        )
        refl

  pub resumed-IsRing :
      (s : Store Fs) (log : Log) → IsRing nvs laws s log → IsRing nvs laws (resumed s) log
  resumed-IsRing s log ring = record {
    floor_le = ring.floor_le;
    held = λ q low high.
        laws.mount_keeps s.fs (slot_id q) ∙ ring.held q (unfold oldest_seq in low) high;
    numbered = ring.numbered;
  }

  oldest-resumed : (s : Store Fs) → oldest_seq nvs (resumed s) ≡ oldest_seq nvs s
  unfolding oldest_seq
  oldest-resumed s = refl

  -- A reset loses nothing, if the flash is ready and mounts, and the counters in it are those in
  -- memory: store_init answers 0, the next number and the oldest one are what they
  -- were, every held number reads the same record, and the clock goes on from the last append.
  pub reboot :
      (flash : Flash) (s : Store Fs) (log : Log)
      → IsReady flash
      → is_zero (mount s.fs).0 ≡ true
      → IsSaved s
      → IsRing nvs laws s log
      → let (code, s') = init nvs flash (at_boot nvs s.fs) in
        (code ≡ ℤ.pos 0)
        × (s'.meta ≡ s.meta)
        × (s'.boot_offset ≡ s.meta.base_sec)
        × (oldest_seq nvs s' ≡ oldest_seq nvs s)
        × ((q : ℕ) → get nvs s' q ≡ get nvs s q)
  reboot flash s log ready mounted saved ring = rw (init-resumed flash s ready mounted saved) (
    refl,
    refl,
    refl,
    oldest-resumed s,
    λ q.
        get_lem nvs laws (resumed s) log q (resumed-IsRing s log ring)
        ∙ rw (oldest-resumed s) (sym (get_lem nvs laws s log q ring)),
  )

  -- What a successful end of store_init has written.
  abbrev IsStamped : Store Fs → ℤ × Store Fs → Type 0
  IsStamped s out =
      is_zero out.0 ≡ true → (out.1.meta ≡ s.meta) × (out.1.floor_seq ≡ s.floor_seq) × IsSaved out.1

  stamp_lem : (s : Store Fs) → IsStamped s (stamp nvs s)
  unfolding stamp
  stamp_lem s =
      let (e1, f1) = write s.fs id_format (Item.format format_now) in
      let (e2, f2) = write f1 id_floor (Item.floor s.floor_seq) in
      let (e3, f3) = write f2 id_meta (Item.meta s.meta) in
      elim (Bool-cases (is_neg e1)) [
        | inl n1 ↦ rw n1 (λ h. cc)
        | inr w1 ↦ rw w1 (elim (Bool-cases (is_neg e2)) [
          | inl n2 ↦ rw n2 (λ h. cc)
          | inr w2 ↦ rw w2 (elim (Bool-cases (is_neg e3)) [
            | inl n3 ↦ rw n3 (λ h. cc)
            | inr w3 ↦ rw w3 λ h. (
              refl,
              refl,
              record {
                meta = laws.write_stores f2 id_meta (Item.meta s.meta) w3;
                format =
                    laws.write_keeps f2 id_meta id_format (Item.meta s.meta) (omega arith)
                    ∙ laws.write_keeps f1 id_floor id_format (Item.floor s.floor_seq) (omega arith)
                    ∙ laws.write_stores s.fs id_format (Item.format format_now) w1;
                floor =
                    laws.write_keeps f2 id_meta id_floor (Item.meta s.meta) (omega arith)
                    ∙ laws.write_stores f1 id_floor (Item.floor s.floor_seq) w2;
              },
            )
          ])
        ])
      ]

  erase_lem : (s : Store Fs) → IsStamped (record s { floor_seq = s.meta.next_seq }) (erase nvs s)
  unfolding erase
  erase_lem s =
      let (e1, f1) = clear s.fs in
      let (e2, f2) = mount f1 in
      elim (Bool-cases (is_zero e1)) [
        | inr n1 ↦ rw n1 (λ h. cc)
        | inl z1 ↦ rw z1 (elim (Bool-cases (is_zero e2)) [
          | inr n2 ↦ rw n2 (λ h. cc)
          | inl z2 ↦ rw z2 (stamp_lem (record s { fs = f2; floor_seq = s.meta.next_seq }))
        ])
      ]

  -- What is left in the flash before a boot with another record format.
  abbrev pub old_meta : Fs → Meta
  old_meta fs = meta_of (read (mount fs).1 id_meta)

  get_above_floor : (s : Store Fs) (q : ℕ) → s.floor_seq ≡ s.meta.next_seq → get nvs s q ≡ none
  unfolding get get_check oldest_seq
  get_above_floor s q e = ground (arith, e)

  -- Records in another format are dropped, but the numbering goes on: if the flash is ready, mounts
  -- and holds another format, and store_init answers 0, the next number and the clock are the ones
  -- that the flash had, no number reads anything, and the counters in the flash are those in
  -- memory.
  pub upgrade :
      (flash : Flash) (fs : Fs)
      → IsReady flash
      → is_zero (mount fs).0 ≡ true
      → format_of (read (mount fs).1 id_format) ≢ format_now
      → is_zero (init nvs flash (at_boot nvs fs)).0 ≡ true
      → let s = (init nvs flash (at_boot nvs fs)).1 in
        (s.meta ≡ old_meta fs) × ((q : ℕ) → get nvs s q ≡ none) × IsSaved s
  upgrade flash fs ready mounted other zero =
      let (same_meta, same_floor, saved) = erase_lem s' (rw entered at zero) in
      rw entered (
        same_meta,
        λ q.
            get_above_floor (erase nvs s').1 q
              (same_floor ∙ sym (ap (λ (m : Meta). m.next_seq) same_meta)),
        saved,
      )
    where
      s' : Store Fs
      s' = record (at_boot nvs fs) { fs = (mount fs).1; meta = old_meta fs }

      entered : init nvs flash (at_boot nvs fs) ≡ erase nvs s'
      entered = unfold init in ground arith
