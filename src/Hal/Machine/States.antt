-- ===== src/Hal/Machine/States.antt =====
-- The states of the display under the events of the FIFO.
use mathlib.Core.Path.{subst}
use lenovo_magicbay_hud_linu.Base.{
  ℕ, ◌≡◌, ◌∙◌, refl, sym, ap, ◌⊎◌, inl, inr, Bool, true, false, List, [], ◌∷◌, Bool-cases,
  if◌then◌else◌, ◌||◌,
}
use lenovo_magicbay_hud_linu.Base.Memory.{Memory}
use lenovo_magicbay_hud_linu.Device.Events.{Event, enable, disable, update}
use lenovo_magicbay_hud_linu.Hal.{DevState, unknown, enabled, disabled}
use lenovo_magicbay_hud_linu.Hal.Machine.{
  update_if, proc_in, World, Tick, do_update, do_enable, do_disable, state_unknown, proc_event,
  proc_events, check_idle, finish, is_enabled, state_machine,
}
use lenovo_magicbay_hud_linu.Hal.Machine.Sends.{Sends, Quiet, check_idle-Quiet, update_if-Sends}

-- The display's states as the events should drive them.
abbrev pub next : DevState → Event → DevState
next unknown (enable info) = enabled
next unknown disable = unknown
next unknown (update len) = unknown
next enabled (enable info) = enabled
next enabled disable = disabled
next enabled (update len) = enabled
next disabled (enable info) = enabled
next disabled disable = disabled
next disabled (update len) = disabled

abbrev pub after : DevState → List Event → DevState
after s [] = s
after s (e ∷ es) = after (next s e) es

-- Whether an update arrives while the display is on.
abbrev pub asks : DevState → List Event → Bool
asks s [] = false
asks s (enable info ∷ es) = asks (next s (enable info)) es
asks s (disable ∷ es) = asks (next s disable) es
asks s (update len ∷ es) = is_enabled s || asks (next s (update len)) es

-- One event moves the state as it should, sends no block, and is remembered if it asks for one.
abbrev Stepped : DevState → List Event → World → Bool → World × Bool → Type 0
Stepped s events w b r =
    (r.0.hal.state ≡ after s events) × (r.0.blocks ≡ w.blocks) × (r.1 ≡ (b || asks s events))

or_false : (b : Bool) → b ≡ (b || false)
or_false true = refl
or_false false = refl

or_true : (b : Bool) → true ≡ (b || true)
or_true true = refl
or_true false = refl

proc_in-Stepped :
    (s : DevState) (event : Event) (w : World) (b : Bool)
    → w.hal.state ≡ s
    → Stepped s (event ∷ []) w b (proc_in s event w b)
unfolding proc_in state_unknown do_enable do_disable
proc_in-Stepped unknown (enable info) w b e = (refl, refl, or_false b)
proc_in-Stepped unknown disable w b e = (e, refl, or_false b)
proc_in-Stepped unknown (update len) w b e = (e, refl, or_false b)
proc_in-Stepped disabled (enable info) w b e = (refl, refl, or_false b)
proc_in-Stepped disabled disable w b e = (e, refl, or_false b)
proc_in-Stepped disabled (update len) w b e = (e, refl, or_false b)
proc_in-Stepped enabled (enable info) w b e = (e, refl, or_false b)
proc_in-Stepped enabled disable w b e = (refl, refl, or_false b)
proc_in-Stepped enabled (update len) w b e = (e, refl, or_true b)

proc_event-Stepped :
    (s : DevState) (event : Event) (w : World) (b : Bool)
    → w.hal.state ≡ s
    → Stepped s (event ∷ []) w b (proc_event event (w, b))
unfolding proc_event
proc_event-Stepped s event w b e =
    subst (Stepped s (event ∷ []) w b) (ap (λ t. proc_in t event w b) (sym e))
      (proc_in-Stepped s event w b e)

asks-cons :
    (s : DevState) (event : Event) (events : List Event) (b : Bool)
    → ((b || asks s (event ∷ [])) || asks (next s event) events) ≡ (b || asks s (event ∷ events))
asks-cons s event events true = refl
asks-cons s (enable info) events false = refl
asks-cons s disable events false = refl
asks-cons unknown (update len) events false = refl
asks-cons enabled (update len) events false = refl
asks-cons disabled (update len) events false = refl

proc_events-Stepped :
    (events : List Event) (s : DevState) (w : World) (b : Bool)
    → w.hal.state ≡ s
    → Stepped s events w b (proc_events events (w, b))
unfolding proc_events
proc_events-Stepped [] s w b e = (e, refl, or_false b)
proc_events-Stepped (event ∷ events) s w b e =
    let (p, q, r) = proc_event-Stepped s event w b e in
    let (p', q', r') =
      proc_events-Stepped events (next s event) (proc_event event (w, b)).0
        (proc_event event (w, b)).1 p in
    (p', q' ∙ q, r' ∙ ap (λ c. c || asks (next s event) events) r ∙ asks-cons s event events b)

finish-off :
    (t : Tick) (w : World) (b : Bool) → is_enabled w.hal.state ≡ false → finish t (w, b) ≡ w
unfolding finish
finish-off t w b e =
    ap (λ (c : Bool). if c then update_if t (if b then (w, true) else check_idle t.now w) else w) e

pub finish-on :
    (t : Tick) (w : World) (b : Bool)
    → is_enabled w.hal.state ≡ true
    → finish t (w, b) ≡ update_if t (if b then (w, true) else check_idle t.now w)
unfolding finish
finish-on t w b e =
    ap (λ (c : Bool). if c then update_if t (if b then (w, true) else check_idle t.now w) else w) e

finish-Sends : (t : Tick) (w : World) (b : Bool) → Sends w (finish t (w, b))
finish-Sends t w b = elim (Bool-cases (is_enabled w.hal.state)) [
  | inl e ↦ subst (Sends w) (sym (finish-on t w b e)) (update_if-Sends t w _ (quiet b))
  | inr e ↦ subst (Sends w) (sym (finish-off t w b e)) (refl, inl refl)
]
  where
    quiet : (c : Bool) → Quiet w (if c then (w, true) else check_idle t.now w)
    quiet true = (refl, refl)
    quiet false = check_idle-Quiet t.now w

-- The events that a call handles.
abbrev pub taken : Tick → List Event
taken t = if t.woken then t.events else []

pub state_machine-awake :
    (t : Tick) (w : World)
    → w.hal.suspended ≡ false
    → state_machine t w ≡ finish t (proc_events (taken t) (w, false))
unfolding state_machine proc_events
state_machine-awake t w e =
    ap
      (λ (b : Bool).
        if b then w else finish t (if t.woken then proc_events t.events (w, false) else (w, false)))
      e
    ∙ ap (finish t) (woken t.woken)
  where
    woken :
        (b : Bool)
        → (if b then proc_events t.events (w, false) else (w, false))
          ≡ proc_events (if b then t.events else []) (w, false)
    woken true = refl
    woken false = refl

state_machine-suspended : (t : Tick) (w : World) → w.hal.suspended ≡ true → state_machine t w ≡ w
unfolding state_machine
state_machine-suspended t w e =
    ap
      (λ (b : Bool).
        if b then w else finish t (if t.woken then proc_events t.events (w, false) else (w, false)))
      e

-- A call of the state machine on a suspended bus changes nothing. Otherwise it moves the display's
-- state as the events that it takes say, and sends at most one block, and none if the display is
-- not on after them.
pub state_machine_refines :
    (t : Tick) (w : World)
    → let w' = state_machine t w in
      (w.hal.suspended ≡ true → w' ≡ w)
      × (w.hal.suspended ≡ false
          → (w'.hal.state ≡ after w.hal.state (taken t))
            × ((w'.blocks ≡ w.blocks) ⊎ ((block : Memory × ℕ) × (w'.blocks ≡ block ∷ w.blocks)))
            × (is_enabled w'.hal.state ≡ false → w'.blocks ≡ w.blocks))
state_machine_refines t w = (
  state_machine-suspended t w,
  λ awake.
      let r = proc_events (taken t) (w, false) in
      let (p, q, asked) = proc_events-Stepped (taken t) w.hal.state w false refl in
      let (p', o) = finish-Sends t r.0 r.1 in
      let m = state_machine-awake t w awake in
      let st = ap (λ v. v.hal.state) m ∙ p' in
      (
        st ∙ p,
        elim o [
          | inl e ↦ inl (ap (λ v. v.blocks) m ∙ e ∙ q)
          | inr (block, e) ↦ inr (block, ap (λ v. v.blocks) m ∙ e ∙ ap (λ l. block ∷ l) q)
        ],
        λ off. ap (λ v. v.blocks) (m ∙ finish-off t r.0 r.1 (ap is_enabled (sym st) ∙ off)) ∙ q,
      ),
)

-- If the bus is not suspended, an update has arrived while the display was on, and the display is
-- on after the last event, then the call is the handling of the events, which sends no block, and
-- one update after them, however many updates it has taken.
pub state_machine_updates :
    (t : Tick) (w : World)
    → w.hal.suspended ≡ false
    → is_enabled (after w.hal.state (taken t)) ≡ true
    → asks w.hal.state (taken t) ≡ true
    → let w' = (proc_events (taken t) (w, false)).0 in
      (state_machine t w ≡ do_update t.urb t.after w') × (w'.blocks ≡ w.blocks)
state_machine_updates t w awake on asked =
    let r = proc_events (taken t) (w, false) in
    let (p, q, a) = proc_events-Stepped (taken t) w.hal.state w false refl in
    (
      state_machine-awake t w awake
          ∙ finish-on t r.0 r.1 (ap is_enabled p ∙ on)
          ∙ ap (λ (b : Bool). update_if t (if b then (r.0, true) else check_idle t.now r.0))
              (a ∙ asked),
      q,
    )
