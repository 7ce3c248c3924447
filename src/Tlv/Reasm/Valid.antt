-- ===== src/Tlv/Reasm/Valid.antt =====
-- The reassembler's invariant: no byte is written or read out of range.
use n_rf5340_presence_test.Base.{
  ℕ, ◌+◌, ◌≤◌, ◌<◌, ◌≡◌, ◌≢◌, refl, ◌∙◌, inl, inr, Bool, true, false, some, arith, length, drop,
  set, get_or, IsBytes, ltb, ◌==◌, length-set, length-drop, IsBytes-set, IsBytes-drop, ◌||◌,
  if◌then◌else◌, IsBytes-append, get_elem?-eq-get_or, Bool-cases,
}
use n_rf5340_presence_test.Tlv.{magic, magic_len, hdr_len, max_frame, rd_u32}
use n_rf5340_presence_test.Tlv.Read.{le32, rd_u32-eq-le32, le32-set}
use n_rf5340_presence_test.Base.Word.{u32}
use native.Mathlib.Decide.{ℕ_discrete, dec_lt}
use n_rf5340_presence_test.Tlv.Reasm.{
  Reasm, reset, lock, hunted, hunt, finish, header, collect, push,
}

-- Between two calls: the buffer has its size, the counters are in range, and once the header is in,
-- `want` is what it says.
pub record IsValid (r : Reasm) : Type 0 where
  pub room : length r.buf ≡ max_frame
  pub bytes : IsBytes r.buf
  pub matched : r.match < magic_len
  pub unread : r.want ≡ 0 → r.len < hdr_len
  pub enough : r.want ≢ 0 → hdr_len ≤ r.len
  pub unfinished : r.want ≢ 0 → r.len < r.want
  pub bounded : r.want ≤ max_frame
  pub claimed : r.want ≢ 0 → le32 r.buf 12 ≡ r.want

-- What `push` leaves when it answers 1: `buf` holds a frame of the length that its header claims.
pub record IsComplete (r : Reasm) : Type 0 where
  pub room : length r.buf ≡ max_frame
  pub bytes : IsBytes r.buf
  pub matched : r.match < magic_len
  pub least : hdr_len ≤ r.len
  pub most : r.len ≤ max_frame
  pub taken : r.want ≡ 0
  pub claimed : le32 r.buf 12 ≡ r.len

abbrev pub After : Bool × Reasm → Type 0
After (true, r) = IsComplete r
After (false, r) = IsValid r

lock-IsValid : (r : Reasm) → IsValid r → IsValid (lock r)
unfolding lock
lock-IsValid r v = record {
  room = omega (arith, length-drop magic_len r.buf, v.room);
  bytes =
      IsBytes-append magic (drop magic_len r.buf) (omega arith)
        (IsBytes-drop magic_len r.buf v.bytes);
  matched = omega arith;
  unread = λ _. omega arith;
  enough = λ h. absurd (h refl);
  unfinished = λ h. absurd (h refl);
  bounded = omega arith;
  claimed = λ h. absurd (h refl);
}

hunted-IsValid : (r : Reasm) (b m : ℕ) → IsValid r → IsValid (hunted r b m)
unfolding hunted
hunted-IsValid r b m v = ground (arith, lock-IsValid r v)

hunt_total :
    (r : Reasm) (b : ℕ) → IsValid r → (out : Bool × Reasm) × (hunt r b ≡ some out) × After out
unfolding hunt
hunt_total r b v =
    let m = get_or magic r.match 0 in
    (
      (false, hunted r b m),
      rw (get_elem?-eq-get_or magic r.match 0 v.matched) refl,
      hunted-IsValid r b m v,
    )

-- The header is in and says `want`; the frame may be complete.
record IsHeaded (r : Reasm) : Type 0 where
  room : length r.buf ≡ max_frame
  bytes : IsBytes r.buf
  matched : r.match < magic_len
  least : hdr_len ≤ r.len
  most : r.len ≤ r.want
  bounded : r.want ≤ max_frame
  claimed : le32 r.buf 12 ≡ r.want

finish-After : (r : Reasm) → IsHeaded r → After (finish r)
unfolding finish
finish-After r h = ground arith

-- After the byte is stored: the facts that `header` and `finish` start from.
record IsStored (r : Reasm) : Type 0 where
  room : length r.buf ≡ max_frame
  bytes : IsBytes r.buf
  matched : r.match < magic_len

reset-IsValid_stored : (r : Reasm) → IsStored r → IsValid (reset r)
unfolding reset
reset-IsValid_stored r h = ground arith

header_total :
    (r : Reasm)
    → IsStored r
    → r.len ≡ hdr_len
    → (out : Bool × Reasm) × (header r ≡ some out) × After out
unfolding header
header_total r h full =
    let w = le32 r.buf 12 in
    let read : rd_u32 r.buf 12 ≡ some w = rd_u32-eq-le32 r.buf 12 h.bytes (omega (arith, h.room)) in
    elim (Bool-cases (ltb w hdr_len || ltb max_frame w)) [
      | inl bogus ↦ (
        (false, reset (record r { want = w })),
        rw (read, bogus) refl,
        reset-IsValid_stored (record r { want = w }) (ground arith),
      )
      | inr good ↦ (
        finish (record r { want = w }),
        rw (read, good) refl,
        finish-After (record r { want = w }) (ground arith),
      )
    ]

len-lt-max_frame : (r : Reasm) → IsValid r → r.len < max_frame
len-lt-max_frame r v = ground arith

-- The state with the byte stored at the end.
stored : Reasm → ℕ → Reasm
stored r b = record r { buf = set r.buf r.len b; len = u32 (r.len + 1) }

collect_eq :
    (r : Reasm) (b : ℕ)
    → IsValid r
    → collect r b ≡ (
        if r.want == 0
        then (if ltb (r.len + 1) hdr_len then some (false, stored r b) else header (stored r b))
        else some (finish (stored r b)))
unfolding collect stored
collect_eq r b v = ground (arith, len-lt-max_frame r v)

stored-IsStored : (r : Reasm) (b : ℕ) → IsValid r → b < 256 → IsStored (stored r b)
unfolding stored
stored-IsStored r b v hb = record {
  room = length-set r.buf r.len b ∙ v.room;
  bytes = IsBytes-set r.buf r.len b v.bytes hb;
  matched = v.matched;
}

-- Storing past the header leaves the length that it claims.
stored-claimed : (r : Reasm) (b : ℕ) → IsValid r → r.want ≢ 0 → le32 (stored r b).buf 12 ≡ r.want
unfolding stored
stored-claimed r b v ne = le32-set r.buf 12 r.len b (omega (arith, v.enough ne)) ∙ v.claimed ne

stored-IsHeaded : (r : Reasm) (b : ℕ) → IsValid r → b < 256 → r.want ≢ 0 → IsHeaded (stored r b)
unfolding stored
stored-IsHeaded r b v hb ne = record {
  room = length-set r.buf r.len b ∙ v.room;
  bytes = IsBytes-set r.buf r.len b v.bytes hb;
  matched = v.matched;
  least = omega (arith, len-lt-max_frame r v, v.enough ne);
  most = omega (arith, len-lt-max_frame r v, v.unfinished ne);
  bounded = v.bounded;
  claimed = unfold stored in stored-claimed r b v ne;
}

stored-IsValid :
    (r : Reasm) (b : ℕ)
    → IsValid r
    → b < 256
    → r.want ≡ 0
    → r.len + 1 < hdr_len
    → IsValid (stored r b)
unfolding stored
stored-IsValid r b v hb e h = record {
  room = length-set r.buf r.len b ∙ v.room;
  bytes = IsBytes-set r.buf r.len b v.bytes hb;
  matched = v.matched;
  unread = λ _. omega arith;
  enough = λ ne. absurd (ne e);
  unfinished = λ ne. absurd (ne e);
  bounded = v.bounded;
  claimed = λ ne. absurd (ne e);
}

stored-len : (r : Reasm) (b : ℕ) → IsValid r → (stored r b).len ≡ r.len + 1
unfolding stored
stored-len r b v = omega (arith, len-lt-max_frame r v)

-- A byte of the header: kept, or the last one.
unread_total :
    (r : Reasm) (b : ℕ)
    → IsValid r
    → b < 256
    → r.want ≡ 0
    → (out : Bool × Reasm) × (collect r b ≡ some out) × After out
unread_total r b v hb e = elim (dec_lt (r.len + 1) hdr_len) [
  | yes more ↦
      ((false, stored r b), collect_eq r b v ∙ ground arith, stored-IsValid r b v hb e more)
  | no last ↦
      let (out, eq, after) =
        header_total (stored r b) (stored-IsStored r b v hb)
          (omega (arith, stored-len r b v, v.unread e)) in
      (out, collect_eq r b v ∙ ground arith, after)
]

collect_total :
    (r : Reasm) (b : ℕ)
    → IsValid r
    → b < 256
    → (out : Bool × Reasm) × (collect r b ≡ some out) × After out
collect_total r b v hb = elim (ℕ_discrete r.want 0) [
  | yes e ↦ unread_total r b v hb e
  | no ne ↦ (
    finish (stored r b),
    collect_eq r b v ∙ ground arith,
    finish-After (stored r b) (stored-IsHeaded r b v hb ne),
  )
]

-- From a valid state every byte is handled with no access out of range: the state is valid again,
-- or a complete frame of 40 to 2048 bytes lies in the buffer, of the length that its header claims.
pub push_total :
    (r : Reasm) (b : ℕ)
    → IsValid r
    → b < 256
    → (out : Bool × Reasm) × (push r b ≡ some out) × After out
unfolding push
push_total r b v hb = elim (Bool-cases (r.len == 0)) [
  | inl hunting ↦ rw hunting (hunt_total r b v)
  | inr reading ↦ rw reading (collect_total r b v hb)
]

-- `tlv_reset` after a complete frame gives a valid state.
pub reset-IsValid : (r : Reasm) → IsComplete r → IsValid (reset r)
reset-IsValid r h = reset-IsValid_stored r (ground arith)
