-- ===== src/Store/Ring/Later.antt =====
-- The store while records are appended.
use n_rf5340_presence_test.Base.{
  ℕ, ◌+◌, ◌^◌, ◌-◌, ◌%◌, ◌==◌, true, if◌then◌else◌, ◌≤◌, ◌<◌, ◌≡◌, refl, ◌∙◌, none, some, arith,
  leb, inl, inr, Bool-cases,
}
use n_rf5340_presence_test.Base.Int.{is_neg}
use n_rf5340_presence_test.Frame.Record.{Record}
use n_rf5340_presence_test.Store.Nvs.{Nvs, IsNvs}
use n_rf5340_presence_test.Store.{Store, oldest_seq, append, get_check, get_read, slot_id, capacity}
use n_rf5340_presence_test.Store.Ring.{
  Log, extend, IsRing, append-IsRing, append_failed, append_written, recorded, stamped,
}

module _ (nvs : Nvs) (laws : IsNvs nvs) where
  -- A store that comes after `s`, by appends whose writes may fail.
  pub data Later (s : Store nvs.Fs) : Store nvs.Fs → Type 0 where
    now : Later s s
    after :
        (t : Store nvs.Fs) (uptime : ℕ) (rec : Record)
        → Later s t
        → t.meta.next_seq + 1 < 2 ^ 32
        → Later s (append nvs t uptime rec).store

  next_le :
      (t : Store nvs.Fs) (uptime : ℕ) (rec : Record)
      → t.meta.next_seq + 1 < 2 ^ 32
      → t.meta.next_seq ≤ (append nvs t uptime rec).store.meta.next_seq
  next_le t uptime rec room =
      elim (Bool-cases (is_neg (recorded nvs laws t (stamped nvs laws t uptime rec)).0)) [
        | inl failed ↦ rw (append_failed nvs laws t uptime rec failed) (omega arith)
        | inr written ↦ rw ((append_written nvs laws t uptime rec written).1) (omega arith)
      ]

  -- The log of a later store goes on from the log before it.
  pub later_log :
      {s t : Store nvs.Fs} (log : Log)
      → IsRing nvs laws s log
      → Later s t
      → (log' : Log) × IsRing nvs laws t log'
        × ((q : ℕ) → q < s.meta.next_seq → log' q ≡ log q)
        × (s.meta.next_seq ≤ t.meta.next_seq)
  later_log log ring now = (log, ring, λ q h. refl, omega arith)
  later_log log ring (after t uptime rec later room) =
      let (log', ring', same, le) = later_log log ring later in
      (
        extend log' t.meta.next_seq (append nvs t uptime rec).rec,
        append-IsRing nvs laws t log' uptime rec ring' room,
        λ q h. ground (arith, same q h),
        omega (arith, next_le t uptime rec room),
      )

  floor-append :
      (t : Store nvs.Fs) (uptime : ℕ) (rec : Record)
      → (append nvs t uptime rec).store.floor_seq ≡ t.floor_seq
  unfolding append
  floor-append t uptime rec = ground arith

  floor-later : {s t : Store nvs.Fs} → Later s t → t.floor_seq ≡ s.floor_seq
  floor-later now = refl
  floor-later (after t uptime rec later room) = floor-append t uptime rec ∙ floor-later later

  -- The number whose record is in the slot of `q`, when it is not that of `q` any more.
  abbrev newest_in_slot : ℕ → ℕ → ℕ
  newest_in_slot next q = next - 1 - (next - 1 - q) % capacity

  newest_in_slot_lem :
      (t : Store nvs.Fs) (q : ℕ)
      → t.floor_seq ≤ q
      → q < oldest_seq nvs t
      → let p = newest_in_slot t.meta.next_seq q in
        (slot_id p ≡ slot_id q) × (oldest_seq nvs t ≤ p) × (p < t.meta.next_seq) × (q < p)
  unfolding oldest_seq
  newest_in_slot_lem t q low gone = ground arith

  checked_bounds :
      (s : Store nvs.Fs) (q : ℕ)
      → get_check nvs s q ≡ true
      → (s.floor_seq ≤ q) × (q < s.meta.next_seq)
  unfolding get_check oldest_seq
  checked_bounds s q h = ground arith

  read_held :
      (t : Store nvs.Fs) (log : Log) (p q : ℕ)
      → IsRing nvs laws t log
      → slot_id p ≡ slot_id q
      → oldest_seq nvs t ≤ p
      → p < t.meta.next_seq
      → get_read nvs t q ≡ (if p == q then some (log p) else none)
  unfolding get_read
  read_held t log p q ring same low high =
      rw (← same, ring.held p low high, get_read) (rw (ring.numbered p high) refl)

  -- `store_get` tests a number before it takes the lock, so records may be appended between the
  -- test and the read. In a ring that is in step with a log, a number that passed the test then
  -- reads its logged record if the ring still holds it, and nothing if its slot was taken: never
  -- the record that took its slot.
  pub get_read-later :
      (s t : Store nvs.Fs) (log : Log) (q : ℕ)
      → IsRing nvs laws s log
      → Later s t
      → get_check nvs s q ≡ true
      → get_read nvs t q ≡ (if leb (oldest_seq nvs t) q then some (log q) else none)
  get_read-later s t log q ring later checked =
      let (log', ring', same, le) = later_log log ring later in
      let (low, high) = checked_bounds s q checked in
      elim (Bool-cases (leb (oldest_seq nvs t) q)) [
        | inl held ↦ rw held (
            read_held t log' q q ring' refl (ground arith) (omega arith)
            ∙ ground (arith, same q high))
        | inr gone ↦
            let p = newest_in_slot t.meta.next_seq q in
            let (shared, held, given, newer) =
              newest_in_slot_lem t q (omega (arith, floor-later later)) (ground arith) in
            rw gone (read_held t log' p q ring' shared held given ∙ ground arith)
      ]
