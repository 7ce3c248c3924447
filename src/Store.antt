-- ===== src/Store.antt =====
-- store.c: the flash-backed ring of records. The NVS file system is the parameter `nvs`.
pub mod Nvs
pub mod Ring
pub mod Boot
pub mod PowerLoss
use n_rf5340_presence_test.Base.{
  ℕ, ◌+◌, ◌-◌, ◌*◌, ◌/◌, ◌%◌, Bool, true, false, ◌||◌, not, Option, none, some, ltb, leb, ◌==◌,
  if◌then◌else◌,
}
use n_rf5340_presence_test.Base.Int.{ℤ, is_zero, is_neg}
use n_rf5340_presence_test.Base.Word.{u32}
use n_rf5340_presence_test.Frame.Record.{Record}
use Nvs.{Meta, Item}

-- Seconds between two records.
abbrev pub period_s : ℕ
period_s = 30

abbrev pub capacity : ℕ
capacity = 24 * 3600 / period_s

abbrev pub id_meta : ℕ
id_meta = 1

abbrev pub id_format : ℕ
id_format = 2

abbrev pub id_floor : ℕ
id_floor = 3

abbrev pub id_rec0 : ℕ
id_rec0 = 0x100

-- `NVS_FORMAT`: `sizeof(struct sntl_record)`
abbrev pub format_now : ℕ
format_now = 24

-- The error codes of errno.h that store.c returns itself.
abbrev pub eio : ℤ
eio = ℤ.negsuc 4

abbrev pub enodev : ℤ
enodev = ℤ.negsuc 18

-- The file's static variables.
pub record Store (F : Type 0) : Type 0 where
  pub fs : F
  pub meta : Meta
  pub boot_offset : ℕ
  pub floor_seq : ℕ

-- What the flash driver answers at boot: is it ready, and `flash_get_page_info_by_offs`.
pub record Flash : Type 0 where
  pub ready : Bool
  pub page_info : ℤ

-- The slot of a record.
abbrev pub slot_id : ℕ → ℕ
slot_id seq = id_rec0 + seq % capacity

abbrev meta_of : Option Item → Meta
meta_of (some (Item.meta m)) = m
meta_of _ = record { next_seq = 0; base_sec = 0 }

abbrev format_of : Option Item → ℕ
format_of (some (Item.format n)) = n
format_of _ = 0

abbrev floor_of : ℕ → Option Item → ℕ
floor_of old (some (Item.floor n)) = n
floor_of old _ = old

module _ (nvs : Nvs.Nvs) where
  open nvs use {Fs, mount, clear, write, read}

  -- `store_now`, at an uptime in milliseconds
  unfoldable pub now : Store Fs → ℕ → ℕ
  now s uptime = u32 (s.boot_offset + u32 (uptime / 1000))

  unfoldable pub next_seq : Store Fs → ℕ
  next_seq s = s.meta.next_seq

  unfoldable pub oldest_seq : Store Fs → ℕ
  oldest_seq s =
      let ring = if ltb capacity s.meta.next_seq then s.meta.next_seq - capacity else 0 in
      if ltb ring s.floor_seq then s.floor_seq else ring

  -- `store_append` under its lock: the return code, the record with `seq` and `ts`, the new state.
  unfoldable pub append :
      Store Fs → ℕ → Record → record { code : ℤ; rec : Record; store : Store Fs }
  unfolding now
  append s uptime rec =
      let rec' = record rec { seq = s.meta.next_seq; ts = now s uptime } in
      let (err, fs) = write s.fs (slot_id rec'.seq) (Item.slot rec') in
      if is_neg err
      then record { code = err; rec = rec'; store = record s { fs = fs } }
      else (let meta : Meta = record { next_seq = u32 (s.meta.next_seq + 1); base_sec = rec'.ts } in
          let (err', fs') = write fs id_meta (Item.meta meta) in
          record {
            code = if is_neg err' then err' else ℤ.pos 0;
            rec = rec';
            store = record s { fs = fs'; meta = meta };
          })

  -- The guard of `store_get`, which it takes before the lock.
  unfoldable pub get_check : Store Fs → ℕ → Bool
  get_check s seq = not (leb s.meta.next_seq seq || ltb seq (oldest_seq s))

  -- The read of `store_get`, under the lock: the slot may hold another record by now.
  unfoldable pub get_read : Store Fs → ℕ → Option Record
  get_read s seq = elim (read s.fs (slot_id seq)) [
    | some (Item.slot out) ↦ if out.seq == seq then some out else none
    | _ ↦ none
  ]

  -- `store_get` with nothing between the two: `none` is -ENOENT.
  unfoldable pub get : Store Fs → ℕ → Option Record
  unfolding get_check get_read
  get s seq = if get_check s seq then get_read s seq else none

  -- The end of `store_init`.
  unfoldable pub start : Store Fs → ℤ × Store Fs
  start s = (ℤ.pos 0, record s { boot_offset = s.meta.base_sec })

  -- The three writes of `store_init`, the last ones only if those before succeed.
  unfoldable pub stamp : Store Fs → ℤ × Store Fs
  unfolding start
  stamp s =
      let (e1, f1) = write s.fs id_format (Item.format format_now) in
      if is_neg e1
      then (eio, record s { fs = f1 })
      else (let (e2, f2) = write f1 id_floor (Item.floor s.floor_seq) in
          if is_neg e2
          then (eio, record s { fs = f2 })
          else (let (e3, f3) = write f2 id_meta (Item.meta s.meta) in
              if is_neg e3 then (eio, record s { fs = f3 }) else start (record s { fs = f3 })))

  -- A record format of another firmware: drop the records, keep `seq`.
  unfoldable pub erase : Store Fs → ℤ × Store Fs
  unfolding stamp
  erase s =
      let (e1, f1) = clear s.fs in
      if not (is_zero e1)
      then (e1, record s { fs = f1 })
      else (let (e2, f2) = mount f1 in
          if not (is_zero e2)
          then (e2, record s { fs = f2 })
          else stamp (record s { fs = f2; floor_seq = s.meta.next_seq }))

  -- `store_init`: the return code and the state. `s` holds the variables as they are at boot.
  unfoldable pub init : Flash → Store Fs → ℤ × Store Fs
  unfolding erase start
  init flash s =
      if not flash.ready
      then (enodev, s)
      else if not (is_zero flash.page_info)
      then (flash.page_info, s)
      else (let (err, fs) = mount s.fs in
          if not (is_zero err)
          then (err, record s { fs = fs })
          else (let s' = record s { fs = fs; meta = meta_of (read fs id_meta) } in
              if not (format_of (read fs id_format) == format_now)
              then erase s'
              else start (record s' { floor_seq = floor_of s.floor_seq (read fs id_floor) })))

  -- The variables at boot, over the flash as it is.
  abbrev pub at_boot : Fs → Store Fs
  at_boot fs = record {
    fs = fs;
    meta = record { next_seq = 0; base_sec = 0 };
    boot_offset = 0;
    floor_seq = 0;
  }
