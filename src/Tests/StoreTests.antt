-- ===== src/Tests/StoreTests.antt =====
-- The store over a flash file system that is a function, at concrete inputs.
use n_rf5340_presence_test.Base.{
  ℕ, ◌≡◌, ◌≢◌, refl, true, Option, none, some, ltb, ◌==◌, if◌then◌else◌, arith,
}
use n_rf5340_presence_test.Base.Int.{ℤ}
use n_rf5340_presence_test.Frame.Record.{Record, unknown_s}
use n_rf5340_presence_test.Store.Nvs.{Nvs, IsNvs, Item}
use n_rf5340_presence_test.Store.{
  Store, Flash, id_meta, id_format, id_floor, format_now, oldest_seq, append, get, init, at_boot,
}
use n_rf5340_presence_test.Store.Ring.{Log, extend, IsRing, append-IsRing, get-append}
use n_rf5340_presence_test.Store.Boot.{IsSaved, reboot, old_meta, upgrade}

-- Entries by id; every operation succeeds.
abbrev pub Ram : Type 0
Ram = ℕ → Option Item

abbrev set_entry : Ram → ℕ → Item → Ram
set_entry fs id item other = if other == id then some item else fs other

abbrev pub ram : Nvs
ram = record {
  Fs = Ram;
  mount = λ fs. (ℤ.pos 0, fs);
  clear = λ fs. (ℤ.pos 0, λ id. none);
  write = λ fs id item. (ℤ.pos 24, set_entry fs id item);
  read = λ fs id. fs id;
}

set_entry_self : (fs : Ram) (id : ℕ) (item : Item) → set_entry fs id item id ≡ some item
set_entry_self fs id item = ground arith

set_entry_other :
    (fs : Ram) (id other : ℕ) (item : Item) → other ≢ id → set_entry fs id item other ≡ fs other
set_entry_other fs id other item h = ground (arith, h)

pub ram-IsNvs : IsNvs ram
ram-IsNvs = record {
  mount_keeps = λ fs id. refl;
  clear_empties = λ fs id h. refl;
  write_stores = λ fs id item h. set_entry_self fs id item;
  write_keeps = λ fs id other item h. set_entry_other fs id other item h;
  write_fails = λ fs id other item h. cc;
}

abbrev pub sample_record : Record
sample_record = record {
  seq = 0;
  ts = 0;
  headcount = 1;
  occ_s = 30;
  dwell_s = 60;
  flags = 4;
  batt = 100;
  pm25 = 120;
  pm10 = 140;
  temp = ℤ.pos 2150;
  rh = ℤ.pos 4500;
  voc = unknown_s;
}

-- A flash with the counters of this firmware and no record yet.
abbrev pub blank : Ram
blank =
    set_entry
      (set_entry (set_entry (λ id. none) id_format (Item.format format_now)) id_floor
        (Item.floor 5))
      id_meta (Item.meta (record { next_seq = 5; base_sec = 90 }))

abbrev pub fresh : Store Ram
fresh = record {
  fs = blank;
  meta = record { next_seq = 5; base_sec = 90 };
  boot_offset = 90;
  floor_seq = 5;
}

abbrev pub no_log : Log
no_log seq = record sample_record { seq = seq }

pub fresh-IsRing : IsRing ram ram-IsNvs fresh no_log
fresh-IsRing = record {
  floor_le = omega arith;
  held = λ q low high. absurd (unfold oldest_seq in omega arith);
  numbered = λ q h. refl;
}

pub fresh-IsSaved : IsSaved ram ram-IsNvs fresh
fresh-IsSaved = record { meta = refl; format = refl; floor = refl }

abbrev pub ready : Flash
ready = record { ready = true; page_info = ℤ.pos 0 }

append-IsRing_example :
    IsRing ram ram-IsNvs
      (append ram fresh 31000 sample_record).store
      (extend no_log 5 (append ram fresh 31000 sample_record).rec)
append-IsRing_example =
    append-IsRing ram ram-IsNvs fresh no_log 31000 sample_record fresh-IsRing (omega arith)

get-append_example :
    let out = append ram fresh 31000 sample_record in
    get ram out.store 5 ≡ (
      if 5 == 5
      then some out.rec
      else if ltb 5 (oldest_seq ram out.store)
      then none
      else get ram fresh 5)
unfolding append
get-append_example =
    get-append ram ram-IsNvs fresh no_log 31000 sample_record 5 fresh-IsRing (omega arith) refl

reboot_example :
    let (code, s') = init ram ready (at_boot ram blank) in
    (code ≡ ℤ.pos 0)
    × (s'.meta ≡ fresh.meta)
    × (s'.boot_offset ≡ 90)
    × (oldest_seq ram s' ≡ oldest_seq ram fresh)
    × ((q : ℕ) → get ram s' q ≡ get ram fresh q)
reboot_example =
    reboot ram ram-IsNvs ready fresh no_log (refl, refl) refl fresh-IsSaved fresh-IsRing

-- What another firmware left.
abbrev pub foreign_flash : Ram
foreign_flash = set_entry blank id_format (Item.format 14)

upgrade_example :
    let s = (init ram ready (at_boot ram foreign_flash)).1 in
    (s.meta ≡ old_meta ram ram-IsNvs foreign_flash)
    × ((q : ℕ) → get ram s q ≡ none)
    × IsSaved ram ram-IsNvs s
unfolding init
upgrade_example =
    upgrade ram ram-IsNvs ready foreign_flash (refl, refl) refl (λ e. omega (arith, e)) refl
