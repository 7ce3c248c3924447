-- ===== src/Store/Ring.antt =====
-- The ring of store.c against a log of every record that was ever appended.
pub mod Later
use n_rf5340_presence_test.Base.{
  ℕ, ◌+◌, ◌^◌, ◌≤◌, ◌<◌, ◌≡◌, ◌≢◌, refl, sym, ◌∙◌, ap, true, false, ◌&&◌, inl, inr, none, some,
  arith, ltb, leb, ◌==◌, if◌then◌else◌, Bool-cases,
}
use n_rf5340_presence_test.Base.Int.{ℤ, is_neg, is_zero, neg_not_zero}
use n_rf5340_presence_test.Base.Word.{u32}
use native.Mathlib.Decide.{ℕ_discrete}
use n_rf5340_presence_test.Frame.Record.{Record}
use n_rf5340_presence_test.Store.Nvs.{Nvs, IsNvs, Item, Meta}
use n_rf5340_presence_test.Store.{Store, capacity, slot_id, id_meta, now, oldest_seq, append, get}

-- `log seq` is the record that was given the number `seq`.
abbrev pub Log : Type 0
Log = ℕ → Record

abbrev pub extend : Log → ℕ → Record → Log
extend log seq rec q = if q == seq then rec else log q

-- Two numbers less than a ring apart have different slots.
slot_ne : (q next : ℕ) → q < next → next < q + capacity → slot_id next ≢ slot_id q
slot_ne q next h k e = omega arith

module _ (nvs : Nvs) (laws : IsNvs nvs) where
  open nvs use {Fs, write, read}

  -- Every number that the ring claims to hold is in its slot, with the record that the log has.
  pub record IsRing (s : Store Fs) (log : Log) : Type 0 where
    pub floor_le : s.floor_seq ≤ s.meta.next_seq
    pub held :
        (q : ℕ)
        → oldest_seq nvs s ≤ q
        → q < s.meta.next_seq
        → read s.fs (slot_id q) ≡ some (Item.slot (log q))
    pub numbered : (q : ℕ) → q < s.meta.next_seq → (log q).seq ≡ q

  -- `store_get` answers with the logged record for exactly the numbers from the oldest to the
  -- newest.
  pub get_lem :
      (s : Store Fs) (log : Log) (q : ℕ)
      → IsRing s log
      → get nvs s q
        ≡ (if leb (oldest_seq nvs s) q && ltb q s.meta.next_seq then some (log q) else none)
  unfolding get
  get_lem s log q ring = ground (arith, ring.held q, ring.numbered q)

  -- The record as `store_append` numbers it, and the state once it is written.
  abbrev pub stamped : Store Fs → ℕ → Record → Record
  stamped s uptime rec = record rec { seq = s.meta.next_seq; ts = now nvs s uptime }

  abbrev pub next_meta : Store Fs → Record → Meta
  next_meta s r = record { next_seq = u32 (s.meta.next_seq + 1); base_sec = r.ts }

  abbrev pub recorded : Store Fs → Record → ℤ × Fs
  recorded s r = write s.fs (slot_id s.meta.next_seq) (Item.slot r)

  abbrev pub grown : Store Fs → Record → Store Fs
  grown s r = record s {
    fs = (write (recorded s r).1 id_meta (Item.meta (next_meta s r))).1;
    meta = next_meta s r;
  }

  pub append_failed :
      (s : Store Fs) (uptime : ℕ) (rec : Record)
      → is_neg (recorded s (stamped s uptime rec)).0 ≡ true
      → append nvs s uptime rec ≡ record {
        code = (recorded s (stamped s uptime rec)).0;
        rec = stamped s uptime rec;
        store = record s { fs = (recorded s (stamped s uptime rec)).1 };
      }
  unfolding append
  append_failed s uptime rec e = rw e refl

  pub append_written :
      (s : Store Fs) (uptime : ℕ) (rec : Record)
      → is_neg (recorded s (stamped s uptime rec)).0 ≡ false
      → ((append nvs s uptime rec).rec ≡ stamped s uptime rec)
        × ((append nvs s uptime rec).store ≡ grown s (stamped s uptime rec))
  unfolding append
  append_written s uptime rec e = (rw e refl, rw e refl)

  oldest_grown :
      (s : Store Fs) (r : Record)
      → s.meta.next_seq + 1 < 2 ^ 32
      → (oldest_seq nvs s ≤ oldest_seq nvs (grown s r))
        × (s.meta.next_seq < oldest_seq nvs (grown s r) + capacity)
  unfolding oldest_seq
  oldest_grown s r room = ground arith

  grown-IsRing :
      (s : Store Fs) (log : Log) (r : Record)
      → IsRing s log
      → s.meta.next_seq + 1 < 2 ^ 32
      → r.seq ≡ s.meta.next_seq
      → is_neg (recorded s r).0 ≡ false
      → IsRing (grown s r) (extend log s.meta.next_seq r)
  grown-IsRing s log r ring room number written = record {
    floor_le = omega (arith, ring.floor_le);
    held = λ q low high. elim (ℕ_discrete q next) [
      | yes same ↦ rw same (
          laws.write_keeps fs1 id_meta (slot_id next) item (omega arith)
          ∙ laws.write_stores s.fs (slot_id next) (Item.slot r) written
          ∙ ground arith)
      | no older ↦
          laws.write_keeps fs1 id_meta (slot_id q) item (omega arith)
          ∙ laws.write_keeps s.fs (slot_id next) (slot_id q) (Item.slot r)
              (λ e. slot_ne q next (omega arith) (omega (arith, oldest_grown s r room)) (sym e))
          ∙ ring.held q (omega (arith, oldest_grown s r room)) (omega arith)
          ∙ ground arith
    ];
    numbered = λ q high. ground (arith, ring.numbered q);
  }
    where
      next : ℕ
      next = s.meta.next_seq

      fs1 : Fs
      fs1 = (recorded s r).1

      item : Item
      item = Item.meta (next_meta s r)

  -- A record that could not be written leaves the ring as it was.
  failed-IsRing :
      (s : Store Fs) (log : Log) (r : Record)
      → IsRing s log
      → is_neg (recorded s r).0 ≡ true
      → IsRing (record s { fs = (recorded s r).1 }) log
  failed-IsRing s log r ring failed = record {
    floor_le = ring.floor_le;
    held = λ q low high.
        laws.write_fails s.fs (slot_id s.meta.next_seq) (slot_id q) (Item.slot r) failed
        ∙ ring.held q (unfold oldest_seq in low) high;
    numbered = ring.numbered;
  }

  -- A number that was not given out yet says nothing about the ring.
  extend-IsRing :
      (s : Store Fs) (log : Log) (r : Record)
      → IsRing s log
      → IsRing s (extend log s.meta.next_seq r)
  extend-IsRing s log r ring = record {
    floor_le = ring.floor_le;
    held = λ q low high. ring.held q low high ∙ ground arith;
    numbered = λ q high. ground (arith, ring.numbered q);
  }

  -- `store_append` keeps the ring and the log in step, whichever of its writes fail, before the
  -- numbers run out at 2 ^ 32.
  pub append-IsRing :
      (s : Store Fs) (log : Log) (uptime : ℕ) (rec : Record)
      → IsRing s log
      → s.meta.next_seq + 1 < 2 ^ 32
      → IsRing
          (append nvs s uptime rec).store
          (extend log s.meta.next_seq (append nvs s uptime rec).rec)
  append-IsRing s log uptime rec ring room =
      elim (Bool-cases (is_neg (recorded s (stamped s uptime rec)).0)) [
        | inl failed ↦ rw (append_failed s uptime rec failed) (
            extend-IsRing (record s { fs = (recorded s (stamped s uptime rec)).1 }) log
              (stamped s uptime rec) (failed-IsRing s log (stamped s uptime rec) ring failed))
        | inr written ↦
            let (same_rec, same_store) = append_written s uptime rec written in
            rw (same_rec, same_store)
              (grown-IsRing s log (stamped s uptime rec) ring room refl written)
      ]

  -- The record went to the flash if `store_append` answers 0.
  written_of_zero :
      (s : Store Fs) (uptime : ℕ) (rec : Record)
      → is_zero (append nvs s uptime rec).code ≡ true
      → is_neg (recorded s (stamped s uptime rec)).0 ≡ false
  written_of_zero s uptime rec zero =
      elim (Bool-cases (is_neg (recorded s (stamped s uptime rec)).0)) [
        | inl failed ↦ absurd (
            neg_not_zero (recorded s (stamped s uptime rec)).0 failed (
              ap (λ (c : ℤ). is_zero c)
                (ap (λ (r : record { code : ℤ; rec : Record; store : Store Fs }). r.code)
                  (sym (append_failed s uptime rec failed)))
              ∙ zero))
        | inr written ↦ written
      ]

  -- A successful append gives the record the next number and the time.
  pub append-rec :
      (s : Store Fs) (uptime : ℕ) (rec : Record)
      → is_zero (append nvs s uptime rec).code ≡ true
      → (append nvs s uptime rec).rec ≡ record rec { seq = s.meta.next_seq; ts = now nvs s uptime }
  append-rec s uptime rec zero = (append_written s uptime rec (written_of_zero s uptime rec zero)).0

  oldest_grown_le :
      (s : Store Fs) (r : Record)
      → s.floor_seq ≤ s.meta.next_seq
      → s.meta.next_seq + 1 < 2 ^ 32
      → oldest_seq nvs (grown s r) ≤ s.meta.next_seq
  unfolding oldest_seq
  oldest_grown_le s r low room = ground arith

  get-grown :
      (s : Store Fs) (log : Log) (r : Record) (q : ℕ)
      → IsRing s log
      → s.meta.next_seq + 1 < 2 ^ 32
      → r.seq ≡ s.meta.next_seq
      → is_neg (recorded s r).0 ≡ false
      → get nvs (grown s r) q ≡ (
          if q == s.meta.next_seq
          then some r
          else if ltb q (oldest_seq nvs (grown s r))
          then none
          else get nvs s q)
  get-grown s log r q ring room number written = ground (
    arith,
    get_lem (grown s r) (extend log s.meta.next_seq r) q
        (grown-IsRing s log r ring room number written),
    get_lem s log q ring,
    oldest_grown s r room,
    oldest_grown_le s r ring.floor_le room,
  )

  -- In a ring that is in step with a log, and before the numbers run out at 2 ^ 32: after a
  -- successful `store_append` the new number reads back the new record, a number that fell out of
  -- the ring reads nothing, and every other number reads what it did before.
  pub get-append :
      (s : Store Fs) (log : Log) (uptime : ℕ) (rec : Record) (q : ℕ)
      → IsRing s log
      → s.meta.next_seq + 1 < 2 ^ 32
      → is_zero (append nvs s uptime rec).code ≡ true
      → let out = append nvs s uptime rec in
        get nvs out.store q ≡ (
          if q == s.meta.next_seq
          then some out.rec
          else if ltb q (oldest_seq nvs out.store)
          then none
          else get nvs s q)
  get-append s log uptime rec q ring room zero =
      let written = written_of_zero s uptime rec zero in
      let (same_rec, same_store) = append_written s uptime rec written in
      rw (same_rec, same_store) (get-grown s log (stamped s uptime rec) q ring room refl written)
