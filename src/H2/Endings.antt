-- ===== src/H2/Endings.antt =====
-- How an h2StreamConn ends: Close is final, and a deadline that was set can end the stream.
use magilla.Base.{
  ℕ, zero, suc, ◌+◌, ◌*◌, ◌<◌, ◌≤◌, ◌≡◌, ◌≢◌, refl, ap, ◌∙◌, arith, true, Option, none, some, ◌⊎◌,
  inl, inr, leb, Bool-cases,
}
use magilla.H2.StreamConn.{
  StreamError, Timer, running, stopped, H2StreamConn, stream_close, arm_deadline,
  set_stream_read_deadline, set_stream_write_deadline, mark_deadline, end_stream,
}
use magilla.H2.Deadlines.{
  Step, closed, set_read, set_write, read_expired, write_expired, marked, ended, Reach, here, next,
}

Step-closed :
    {c d : H2StreamConn}
    → Step c d
    → c.close_once ≡ true
    → (d.close_once ≡ true) × (d.close_err ≡ c.close_err)
unfolding stream_close set_stream_read_deadline set_stream_write_deadline arm_deadline mark_deadline
    end_stream
Step-closed (closed c answer) h = ground (arith, h)
Step-closed (set_read c none now) h = (h, refl)
Step-closed (set_read c (some t) now) h = ground (arith, h)
Step-closed (set_write c none now) h = (h, refl)
Step-closed (set_write c (some t) now) h = ground (arith, h)
Step-closed (read_expired c e) h = (h, refl)
Step-closed (write_expired c e) h = (h, refl)
Step-closed (marked c e) h = (h, refl)
Step-closed (ended c e) h = (h, refl)

Reach-closed :
    {c d : H2StreamConn}
    → Reach c d
    → c.close_once ≡ true
    → (d.close_once ≡ true) × (d.close_err ≡ c.close_err)
Reach-closed here h = (h, refl)
Reach-closed (next r s) h =
    let (shut, err) = Reach-closed r h in
    let (shut', err') = Step-closed s shut in (shut', err' ∙ err)

stream_close-closes :
    (answer : Option StreamError) (c : H2StreamConn)
    → ((stream_close answer c).1.close_once ≡ true)
      × ((stream_close answer c).1.close_err ≡ (stream_close answer c).0)
unfolding stream_close
stream_close-closes answer c = ground arith

close_again :
    (answer : Option StreamError) (c : H2StreamConn)
    → c.close_once ≡ true
    → stream_close answer c ≡ (c.close_err, c)
unfolding stream_close
close_again answer c h = ground (arith, h)

-- Whatever happened since a Close, another Close returns the error of that one and changes nothing,
-- whatever the closer would answer now.
stream_close-stream_close :
    (answer answer' : Option StreamError) (c : H2StreamConn) {d : H2StreamConn}
    → Reach (stream_close answer c).1 d
    → stream_close answer' d ≡ ((stream_close answer c).0, d)
stream_close-stream_close answer answer' c {d} r =
    let (shut, err) = stream_close-closes answer c in
    let (shut', err') = Reach-closed r shut in
    close_again answer' d shut' ∙ ap (λ e. (e, d)) (err' ∙ err)

-- A step that is not a call: a timer that runs expires, or a callback takes one of its two steps.
pub data Elapse : H2StreamConn → H2StreamConn → Type 0 where
  read_timer :
      (c : H2StreamConn)
      → c.read_deadline ≡ some running
      → Elapse c (record c { read_deadline = some stopped; starting = c.starting + 1 })
  write_timer :
      (c : H2StreamConn)
      → c.write_deadline ≡ some running
      → Elapse c (record c { write_deadline = some stopped; starting = c.starting + 1 })
  marks : (c : H2StreamConn) → 0 < c.starting → Elapse c (mark_deadline c)
  ends' : (c : H2StreamConn) → 0 < c.ending → Elapse c (end_stream c)

-- It is a step of the stream's life.
Elapse-Step : {c d : H2StreamConn} → Elapse c d → Step c d
Elapse-Step (read_timer c e) = read_expired c e
Elapse-Step (write_timer c e) = write_expired c e
Elapse-Step (marks c e) = marked c e
Elapse-Step (ends' c e) = ended c e

-- Such steps, and no call.
pub data Elapses (c : H2StreamConn) : H2StreamConn → Type 0 where
  at_once : Elapses c c
  after : {d e : H2StreamConn} → Elapses c d → Elapse d e → Elapses c e

Elapses-Elapses : {c d e : H2StreamConn} → Elapses c d → Elapses d e → Elapses c e
Elapses-Elapses r at_once = r
Elapses-Elapses r (after q s) = after (Elapses-Elapses r q) s

-- No timer runs, and no callback is on its way.
pub record IsAtRest (c : H2StreamConn) : Type 0 where
  pub no_read : c.read_deadline ≢ some running
  pub no_write : c.write_deadline ≢ some running
  pub none_starting : c.starting ≡ 0
  pub none_ending : c.ending ≡ 0

-- The steps of timers and callbacks go on to a rest at which the deadline has passed and the context
-- is cancelled.
pub record Expires (c : H2StreamConn) : Type 0 where
  pub last : H2StreamConn
  pub path : Elapses c last
  pub rest : IsAtRest last
  pub exceeded : last.exceeded ≡ true
  pub cancelled : last.cancelled ≡ true

-- A deadline is to end the stream, or has ended it.
record IsDue (c : H2StreamConn) : Type 0 where
  pub can : c.has_cancel ≡ true
  pub due :
      ((c.exceeded ≡ true) × (c.cancelled ≡ true))
      ⊎ (((c.exceeded ≡ true) × (0 < c.ending))
          ⊎ ((0 < c.starting)
              ⊎ ((c.read_deadline ≡ some running) ⊎ (c.write_deadline ≡ some running))))

Elapse-IsDue : {c d : H2StreamConn} → Elapse c d → IsDue c → IsDue d
unfolding mark_deadline end_stream
Elapse-IsDue (read_timer c e) h = record { can = h.can; due = inr (inr (inl (omega arith))) }
Elapse-IsDue (write_timer c e) h = record { can = h.can; due = inr (inr (inl (omega arith))) }
Elapse-IsDue (marks c e) h = record { can = h.can; due = inr (inl (refl, omega arith)) }
Elapse-IsDue (ends' c e) h = record {
  can = h.can;
  due = elim h.due [
    | inl (passed, gone) ↦ inl (passed, ground (arith, h.can))
    | inr (inl (passed, on_way)) ↦ inl (passed, ground (arith, h.can))
    | inr (inr later) ↦ inr (inr later)
  ];
}

Elapses-IsDue : {c d : H2StreamConn} → Elapses c d → IsDue c → IsDue d
Elapses-IsDue at_once h = h
Elapses-IsDue (after r s) h = Elapse-IsDue s (Elapses-IsDue r h)

-- What is left to happen: three steps for a timer that runs.
abbrev timer_steps : Option Timer → ℕ
timer_steps none = 0
timer_steps (some stopped) = 0
timer_steps (some running) = 3

abbrev steps_left : H2StreamConn → ℕ
steps_left c =
    timer_steps c.read_deadline + timer_steps c.write_deadline + 2 * c.starting + c.ending

-- A step that leaves less to happen.
record Going (c : H2StreamConn) : Type 0 where
  pub then' : H2StreamConn
  pub step : Elapse c then'
  pub fewer : steps_left then' < steps_left c

timer-cases : (t : Option Timer) → (t ≡ some running) ⊎ ((t ≢ some running) × (timer_steps t ≡ 0))
timer-cases none = inr (λ e. cc, refl)
timer-cases (some stopped) = inr (λ e. cc, refl)
timer-cases (some running) = inl refl

number-cases : (n : ℕ) → (n ≡ 0) ⊎ (0 < n)
number-cases zero = inl refl
number-cases (suc n) = inr (omega arith)

goes : (c : H2StreamConn) → IsAtRest c ⊎ Going c
unfolding mark_deadline end_stream
goes c = elim (timer-cases c.read_deadline) [
  | inl e ↦ inr (record {
    then' = record c { read_deadline = some stopped; starting = c.starting + 1 };
    step = read_timer c e;
    fewer = omega (arith, ap timer_steps e);
  })
  | inr (no_read, z) ↦ elim (timer-cases c.write_deadline) [
    | inl e ↦ inr (record {
      then' = record c { write_deadline = some stopped; starting = c.starting + 1 };
      step = write_timer c e;
      fewer = omega (arith, ap timer_steps e);
    })
    | inr (no_write, z') ↦ elim (number-cases c.starting) [
      | inr busy ↦
          inr (record { then' = mark_deadline c; step = marks c busy; fewer = omega (arith, busy) })
      | inl idle ↦ elim (number-cases c.ending) [
        | inr busy ↦
            inr (record { then' = end_stream c; step = ends' c busy; fewer = omega (arith, busy) })
        | inl idle' ↦ inl (record {
          no_read = no_read;
          no_write = no_write;
          none_starting = idle;
          none_ending = idle';
        })
      ]
    ]
  ]
]

at_rest-over :
    (c : H2StreamConn) → IsDue c → IsAtRest c → (c.exceeded ≡ true) × (c.cancelled ≡ true)
at_rest-over c h rest = elim h.due [
  | inl over ↦ over
  | inr (inl (passed, on_way)) ↦ absurd (omega (arith, on_way, rest.none_ending))
  | inr (inr (inl busy)) ↦ absurd (omega (arith, busy, rest.none_starting))
  | inr (inr (inr (inl e))) ↦ absurd (rest.no_read e)
  | inr (inr (inr (inr e))) ↦ absurd (rest.no_write e)
]

over-Expires : (c : H2StreamConn) → IsDue c → IsAtRest c → Expires c
over-Expires c h rest =
    let (passed, gone) = at_rest-over c h rest in
    record { last = c; path = at_once; rest = rest; exceeded = passed; cancelled = gone }

IsDue-Expires : (k : ℕ) (c : H2StreamConn) → steps_left c ≤ k → IsDue c → Expires c
IsDue-Expires zero c le h = elim (goes c) [
  | inl rest ↦ over-Expires c h rest
  | inr g ↦ absurd (omega (arith, g.fewer, le))
]
IsDue-Expires (suc k) c le h = elim (goes c) [
  | inl rest ↦ over-Expires c h rest
  | inr g ↦
      let f = IsDue-Expires k g.then' (omega (arith, g.fewer, le)) (Elapse-IsDue g.step h) in
      record {
        last = f.last;
        path = Elapses-Elapses (after at_once g.step) f.path;
        rest = f.rest;
        exceeded = f.exceeded;
        cancelled = f.cancelled;
      }
]

set_read-IsDue :
    (t now : ℕ) (c : H2StreamConn)
    → c.has_cancel ≡ true
    → IsDue (set_stream_read_deadline (some t) now c)
unfolding set_stream_read_deadline arm_deadline
set_read-IsDue t now c b = elim (Bool-cases (leb t now)) [
  | inl past ↦ rw past (record { can = b; due = inl (refl, ground (arith, b)) })
  | inr later ↦ rw later (record { can = b; due = inr (inr (inr (inl refl))) })
]

set_write-IsDue :
    (t now : ℕ) (c : H2StreamConn)
    → c.has_cancel ≡ true
    → IsDue (set_stream_write_deadline (some t) now c)
unfolding set_stream_write_deadline arm_deadline
set_write-IsDue t now c b = elim (Bool-cases (leb t now)) [
  | inl past ↦ rw past (record { can = b; due = inl (refl, ground (arith, b)) })
  | inr later ↦ rw later (record { can = b; due = inr (inr (inr (inr refl))) })
]

-- SetReadDeadline or SetWriteDeadline of a stream with a context, with a time that has come or a
-- later one: wherever timers that expire and their callbacks have brought the stream, without a
-- further call, they go on without one to a state in which no timer runs and no callback is on its
-- way, and there the deadline has passed and the context is cancelled. Callbacks may have been on
-- their way before.
pub set_deadlines-Expires :
    (t now : ℕ) (c : H2StreamConn) {d : H2StreamConn}
    → c.has_cancel ≡ true
    → Elapses (set_stream_read_deadline (some t) now c) d
      ⊎ Elapses (set_stream_write_deadline (some t) now c) d
    → Expires d
set_deadlines-Expires t now c {d} b (inl r) =
    IsDue-Expires (steps_left d) d (omega arith) (Elapses-IsDue r (set_read-IsDue t now c b))
set_deadlines-Expires t now c {d} b (inr r) =
    IsDue-Expires (steps_left d) d (omega arith) (Elapses-IsDue r (set_write-IsDue t now c b))
