-- ===== src/Radar/Thread/Stall.antt =====
-- What a session delivers, and when it ends.
use n_rf5340_presence_test.Base.{
  ℕ, ◌+◌, ◌≤◌, ◌<◌, ◌≡◌, ◌≢◌, ◌⊎◌, refl, sym, ◌∙◌, ap, append-nil, length-append, Bool, true, false,
  List, [], ◌∷◌, ◌++◌, some, ltb, leb, ◌||◌, length, IsBytes, arith, inl, inr, Bool-cases,
}
use n_rf5340_presence_test.Tlv.{max_frame}
use n_rf5340_presence_test.Tlv.Reasm.{Reasm, reset}
use n_rf5340_presence_test.Tlv.Reasm.Valid.{IsValid}
use n_rf5340_presence_test.Radar.Stream.{pump, pump-append}
use n_rf5340_presence_test.Radar.Stream.Total.{AreHeld, pump_total}
use n_rf5340_presence_test.Radar.Thread.{Round, Session, stall_ms, last_of, take_rounds, session}

-- The bytes of rounds.
abbrev pub bytes_of : List Round → List ℕ
bytes_of [] = []
bytes_of (r ∷ rounds) = r.chunk ++ bytes_of rounds

abbrev pub AreChunks : List Round → Type 0
AreChunks [] = Unit {0}
AreChunks (r ∷ rounds) = IsBytes r.chunk × AreChunks rounds

-- How a session ended: by a round that came too late, or with the rounds.
abbrev pub IsOver : Bool → ℕ → List Round → Type 0
IsOver true last (r ∷ rounds) = last + stall_ms ≤ r.now
IsOver true last [] = ⊥
IsOver false last left = left ≡ []

-- Some round comes too late.
abbrev pub any_late : ℕ → List Round → Bool
any_late last [] = false
any_late last (r ∷ rounds) = leb (last + stall_ms) r.now || any_late last rounds

-- The round in which the last frame came: with it the stream has all frames, and before it not.
pub record IsLast (re : Reasm) (taken : List Round) (s : Session) : Type 0 where
  pub before : List Round
  pub round : Round
  pub quiet : List Round
  pub parts : taken ≡ before ++ round ∷ quiet
  pub clock : s.last_frame ≡ round.handled
  pub on_time : any_late s.last_frame quiet ≡ false
  pub fewer : List (List ℕ)
  pub re_before : Reasm
  pub re_then : Reasm
  pub missing : pump re (bytes_of before) ≡ some (fewer, re_before)
  pub less : length fewer < length s.frames
  pub complete : pump re (bytes_of (before ++ round ∷ [])) ≡ some (s.frames, re_then)

-- When the clock was set last: at the start, or when the last frame was handled.
abbrev pub IsClock : Reasm → ℕ → List Round → Session → Type 0
IsClock re start taken s =
    ((s.frames ≡ []) × (s.last_frame ≡ start) × (any_late start taken ≡ false)) ⊎ IsLast re taken s

-- The rounds that were taken, and that they are the stream up to the end.
pub record IsSession (re : Reasm) (start : ℕ) (rounds : List Round) (s : Session) : Type 0 where
  pub taken : List Round
  pub split : rounds ≡ taken ++ s.left
  pub pumped : pump re (bytes_of taken) ≡ some (s.frames, s.re)
  pub held : AreHeld s.frames
  pub valid : IsValid s.re
  pub over : IsOver s.stalled s.last_frame s.left
  pub clock : IsClock re start taken s

AreHeld-append : (xs ys : List (List ℕ)) → AreHeld xs → AreHeld ys → AreHeld (xs ++ ys)
AreHeld-append [] ys h k = k
AreHeld-append (x ∷ xs) ys h k = (h.0, AreHeld-append xs ys h.1 k)

take_late :
    (re : Reasm) (last : ℕ) (r : Round) (rounds : List Round)
    → ltb r.now (last + stall_ms) ≡ false
    → take_rounds re last (r ∷ rounds)
      ≡ some (record { frames = []; re = re; last_frame = last; stalled = true; left = r ∷ rounds })
unfolding take_rounds
take_late re last r rounds late = ground (arith, late)

take_more :
    (re : Reasm) (last : ℕ) (r : Round) (rounds : List Round) {frames : List (List ℕ)} {re' : Reasm}
    {s : Session}
    → ltb r.now (last + stall_ms) ≡ true
    → pump re r.chunk ≡ some (frames, re')
    → take_rounds re' (last_of frames last r.handled) rounds ≡ some s
    → take_rounds re last (r ∷ rounds) ≡ some (record s { frames = frames ++ s.frames })
unfolding take_rounds
take_more re last r rounds early e e' = ground (arith, early, e, e')

-- What a session with one round more in front says of the clock.
IsClock-here :
    (re : Reasm) (last : ℕ) (r : Round) (taken : List Round) (frames : List (List ℕ)) (re' : Reasm)
    (s : Session)
    → ltb r.now (last + stall_ms) ≡ true
    → pump re r.chunk ≡ some (frames, re')
    → s.frames ≡ []
    → s.last_frame ≡ last_of frames last r.handled
    → any_late (last_of frames last r.handled) taken ≡ false
    → IsClock re last (r ∷ taken) (record s { frames = frames ++ s.frames })
IsClock-here re last r taken [] re' s early e none_later clock time =
    inl (none_later, clock, ground (arith, early, time))
IsClock-here re last r taken (f ∷ fs) re' s early e none_later clock time = inr (record {
  before = [];
  round = r;
  quiet = taken;
  parts = refl;
  clock = clock;
  on_time = rw clock time;
  fewer = [];
  re_before = re;
  re_then = re';
  missing = unfold pump in refl;
  less = omega arith;
  complete =
      ap (λ (t : List ℕ). pump re t) (append-nil r.chunk)
      ∙ e
      ∙ ap (λ (t : List (List ℕ)). some (t, re'))
          (sym (append-nil (f ∷ fs)) ∙ ap (λ (t : List (List ℕ)). (f ∷ fs) ++ t) (sym none_later));
})

IsLast-later :
    (re : Reasm) (r : Round) (taken : List Round) (frames : List (List ℕ)) (re' : Reasm)
    (s : Session)
    → pump re r.chunk ≡ some (frames, re')
    → IsLast re' taken s
    → IsLast re (r ∷ taken) (record s { frames = frames ++ s.frames })
IsLast-later re r taken frames re' s e k = record {
  before = r ∷ k.before;
  round = k.round;
  quiet = k.quiet;
  parts = ap (λ (t : List Round). r ∷ t) k.parts;
  clock = k.clock;
  on_time = k.on_time;
  fewer = frames ++ k.fewer;
  re_before = k.re_before;
  re_then = k.re_then;
  missing = pump-append r.chunk (bytes_of k.before) re ∙ rw (e, k.missing) refl;
  less = omega (arith, k.less, length-append frames k.fewer, length-append frames s.frames);
  complete = pump-append r.chunk (bytes_of (k.before ++ k.round ∷ [])) re ∙ rw (e, k.complete) refl;
}

IsClock-more :
    (re : Reasm) (last : ℕ) (r : Round) (taken : List Round) (frames : List (List ℕ)) (re' : Reasm)
    (s : Session)
    → ltb r.now (last + stall_ms) ≡ true
    → pump re r.chunk ≡ some (frames, re')
    → IsClock re' (last_of frames last r.handled) taken s
    → IsClock re last (r ∷ taken) (record s { frames = frames ++ s.frames })
IsClock-more re last r taken frames re' s early e (inl (none_later, clock, time)) =
    IsClock-here re last r taken frames re' s early e none_later clock time
IsClock-more re last r taken frames re' s early e (inr k) =
    inr (IsLast-later re r taken frames re' s e k)

take_total :
    (rounds : List Round) (re : Reasm) (last : ℕ)
    → AreChunks rounds
    → IsValid re
    → (s : Session) × (take_rounds re last rounds ≡ some s) × IsSession re last rounds s
take_total [] re last h v = (
  record { frames = []; re = re; last_frame = last; stalled = false; left = [] },
  unfold take_rounds in refl,
  record {
    taken = [];
    split = refl;
    pumped = unfold pump in refl;
    held = tt;
    valid = v;
    over = refl;
    clock = inl (refl, refl, refl);
  },
)
take_total (r ∷ rounds) re last h v = elim (Bool-cases (ltb r.now (last + stall_ms))) [
  | inr late ↦ (
    record { frames = []; re = re; last_frame = last; stalled = true; left = r ∷ rounds },
    take_late re last r rounds late,
    record {
      taken = [];
      split = refl;
      pumped = unfold pump in refl;
      held = tt;
      valid = v;
      over = ground (arith, late);
      clock = inl (refl, refl, refl);
    },
  )
  | inl early ↦
      let ((frames, re'), e, held, v') = pump_total r.chunk re h.0 v in
      let (s, e', k) = take_total rounds re' (last_of frames last r.handled) h.1 v' in
      (
        record s { frames = frames ++ s.frames },
        take_more re last r rounds early e e',
        record {
          taken = r ∷ k.taken;
          split = ap (λ (t : List Round). r ∷ t) k.split;
          pumped = pump-append r.chunk (bytes_of k.taken) re ∙ rw (e, k.pumped) refl;
          held = AreHeld-append frames s.frames held k.held;
          valid = k.valid;
          over = k.over;
          clock = IsClock-more re last r k.taken frames re' s early e k.clock;
        },
      )
]

IsValid-reset : (re : Reasm) → length re.buf ≡ max_frame → IsBytes re.buf → IsValid (reset re)
unfolding reset
IsValid-reset re room bytes = record {
  room = room;
  bytes = bytes;
  matched = omega arith;
  unread = λ _. omega arith;
  enough = λ h. absurd (h refl);
  unfinished = λ h. absurd (h refl);
  bounded = omega arith;
  claimed = λ h. absurd (h refl);
}

pub session_lem :
    (re : Reasm) (start : ℕ) (rounds : List Round)
    → length re.buf ≡ max_frame
    → IsBytes re.buf
    → AreChunks rounds
    → (s : Session) × (session re start rounds ≡ some s) × IsSession (reset re) start rounds s
unfolding session
session_lem re start rounds room bytes h =
    take_total rounds (reset re) start h (IsValid-reset re room bytes)

append-nil_split : (xs ys : List (List ℕ)) → xs ++ ys ≡ [] → (xs ≡ []) × (ys ≡ [])
append-nil_split [] ys e = (refl, e)
append-nil_split (x ∷ xs) ys e = cc

take_silent :
    (rounds : List Round) (re : Reasm) (last : ℕ)
    → AreChunks rounds
    → IsValid re
    → (s : Session) × (take_rounds re last rounds ≡ some s)
      × (s.frames ≡ [] → s.stalled ≡ any_late last rounds)
take_silent [] re last h v = (
  record { frames = []; re = re; last_frame = last; stalled = false; left = [] },
  unfold take_rounds in refl,
  λ _. refl,
)
take_silent (r ∷ rounds) re last h v = elim (Bool-cases (ltb r.now (last + stall_ms))) [
  | inr late ↦ (
    record { frames = []; re = re; last_frame = last; stalled = true; left = r ∷ rounds },
    take_late re last r rounds late,
    λ _. ground (arith, late),
  )
  | inl early ↦
      let ((frames, re'), e, held, v') = pump_total r.chunk re h.0 v in
      let (s, e', k) = take_silent rounds re' (last_of frames last r.handled) h.1 v' in
      (
        record s { frames = frames ++ s.frames },
        take_more re last r rounds early e e',
        λ quiet.
            let (none_here, none_later) = append-nil_split frames s.frames quiet in
            k none_later
            ∙ ap (λ (t : List (List ℕ)). any_late (last_of t last r.handled) rounds) none_here
            ∙ ground (arith, early),
      )
]

-- A radar that goes silent is noticed: a session that delivers no frame is ended just if one of its
-- rounds comes ten seconds or more after its start.
pub session_silent :
    (re : Reasm) (start : ℕ) (rounds : List Round)
    → length re.buf ≡ max_frame
    → IsBytes re.buf
    → AreChunks rounds
    → (s : Session) × (session re start rounds ≡ some s)
      × ((s.frames ≢ []) ⊎ (s.stalled ≡ any_late start rounds))
unfolding session
session_silent re start rounds room bytes h =
    let (s, e, silent) = take_silent rounds (reset re) start h (IsValid-reset re room bytes) in
    (s, e, none_or_some s.frames silent)
  where
    none_or_some : {A : Type 0} (frames : List (List ℕ)) → (frames ≡ [] → A) → (frames ≢ []) ⊎ A
    none_or_some [] silent = inr (silent refl)
    none_or_some (f ∷ fs) silent = inl (λ e. cc)
