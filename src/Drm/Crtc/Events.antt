-- ===== src/Drm/Crtc/Events.antt =====
-- What becomes of the events of the commits.
use mathlib.Core.Path.{subst}
use lenovo_magicbay_hud_linu.Base.{
  ◌^◌, ◌%◌, ◌+◌, ℕ, ◌≡◌, ◌∙◌, inl, inr, ap, refl, Bool, true, false, List, [], ◌∷◌, ◌++◌, Option,
  none, some, Option-cases,
}
use lenovo_magicbay_hud_linu.Drm.Crtc.{
  Crtc, DisplayMode, update_event, atomic_flush, handle_page_flip, vblank_timer_func, vblank_start,
  vblank_stop, atomic_enable, atomic_disable,
}
use lenovo_magicbay_hud_linu.Drm.Crtc.Kept.{
  one_or_none, pending, Kept, IsKept, update-IsKept, flush-IsKept, flip-IsKept, flip-event,
  send-IsKept, send-state_event, send-event, AllSent, sent_all,
}

-- A CRTC and the events that were handed to it, latest first.
pub data Step : Crtc × List ℕ → Crtc × List ℕ → Type 0 where
  commit :
      (c : Crtc) (given : List ℕ) (e : ℕ)
      → pending c ≡ []
      → Step (c, given) (record c { state_event = some e }, e ∷ given)
  flush :
      (c : Crtc) (given : List ℕ) (active was_active : Bool)
      → Step (c, given) (atomic_flush active was_active c, given)
  enable :
      (c : Crtc) (given : List ℕ) (m : DisplayMode) (format : ℕ)
      → Step (c, given) ((atomic_enable m format c).0, given)
  disable : (c : Crtc) (given : List ℕ) → Step (c, given) ((atomic_disable c).0, given)
  vblank :
      (c : Crtc) (given : List ℕ) (period : ℕ)
      → c.vblank_timer ≡ some period
      → Step (c, given) (vblank_timer_func c, given)

pub data Run (s : Crtc × List ℕ) : Crtc × List ℕ → Type 0 where
  start : Run s s
  later : {t u : Crtc × List ℕ} → Run s t → Step t u → Run s u

disable-AllSent :
    (c : Crtc) (given : List ℕ) → IsKept (c, given) → AllSent (atomic_disable c).0 given
unfolding atomic_disable vblank_stop
disable-AllSent c given k =
    let stopped : Crtc = record c { vblank_timer = none } in
    let d : Crtc = record (handle_page_flip stopped) { vblank_on = false } in
    let n = flip-event stopped in
    sent_all (atomic_disable c).0 given (send-state_event d) (send-event d ∙ n)
      (send-IsKept d given n (flip-IsKept stopped given k))

none_waits : (s e : Option ℕ) → one_or_none s ++ one_or_none e ≡ [] → (s ≡ none) × (e ≡ none)
none_waits none none p = (refl, refl)
none_waits none (some y) p = cc
none_waits (some x) none p = cc
none_waits (some x) (some y) p = cc

timer-IsKept : (c : Crtc) (given : List ℕ) → IsKept (c, given) → IsKept (vblank_timer_func c, given)
unfolding vblank_timer_func
timer-IsKept c given k =
    flip-IsKept (record c { vblank_count = (c.vblank_count + 1) % 2 ^ 64 }) given k

-- After a flush no event of a commit waits, and after a vertical blank no other does.
update-state_event : (c : Crtc) → (update_event c).state_event ≡ none
unfolding update_event
update-state_event c = elim (Option-cases c.state_event) [
  | inl s ↦ rw (update_event, s) s
  | inr (e, s) ↦ rw (update_event, s) refl
]

flip-state_event : (c : Crtc) → (handle_page_flip c).state_event ≡ c.state_event
unfolding handle_page_flip
flip-state_event c = elim (Option-cases c.event) [
  | inl n ↦ rw (handle_page_flip, n) refl
  | inr (e, s) ↦ rw (handle_page_flip, s) refl
]

blank-AllSent :
    (c : Crtc) (given : List ℕ)
    → IsKept (c, given)
    → AllSent (vblank_timer_func (atomic_flush true true c)) given
unfolding vblank_timer_func atomic_flush
blank-AllSent c given k =
    let u = update_event c in
    let v : Crtc = record u { vblank_count = (u.vblank_count + 1) % 2 ^ 64 } in
    let s = flip-state_event v ∙ update-state_event c in
    let e = flip-event v in
    let kept = flip-IsKept v given (update-IsKept c given k) in
    sent_all (handle_page_flip v) given s e (
      subst (λ x. Kept none x (handle_page_flip v).sent given) e
        (subst (λ x. Kept x (handle_page_flip v).event (handle_page_flip v).sent given) s kept))

enable-IsKept :
    (c : Crtc) (given : List ℕ) (m : DisplayMode) (format : ℕ)
    → IsKept (c, given)
    → IsKept ((atomic_enable m format c).0, given)
unfolding atomic_enable vblank_start
enable-IsKept c given m format k = update-IsKept (record c { vblank_on = true }) given k

commit-IsKept :
    (c : Crtc) (given : List ℕ) (e : ℕ)
    → pending c ≡ []
    → IsKept (c, given)
    → IsKept (record c { state_event = some e }, e ∷ given)
commit-IsKept c given e p (k, o) =
    let (s, n) = none_waits c.state_event c.event p in
    (
      ap (λ l. e ∷ l) (subst (λ x. one_or_none x ++ one_or_none c.event ++ c.sent ≡ given) s k),
      inr n,
    )

Step-IsKept : {s t : Crtc × List ℕ} → Step s t → IsKept s → IsKept t
Step-IsKept (commit c given e p) k = commit-IsKept c given e p k
Step-IsKept (flush c given a b) k = flush-IsKept c given a b k
Step-IsKept (enable c given m format) k = enable-IsKept c given m format k
Step-IsKept (disable c given) k =
    let (p, s) = disable-AllSent c given k in
    let (n, m) = none_waits (atomic_disable c).0.state_event (atomic_disable c).0.event p in
    (rw (n, m) s, inl n)
Step-IsKept (vblank c given period t) k = timer-IsKept c given k

-- In every run from such a state each event is waiting or was sent, once and in order, and at most
-- one waits.
Run-IsKept : {s t : Crtc × List ℕ} → Run s t → IsKept s → IsKept t
Run-IsKept start k = k
Run-IsKept (later r s) k = Step-IsKept s (Run-IsKept r k)

-- Start with a CRTC without an event, and take any run of commits, each of which comes when no
-- event waits, of flushes, of switching on and off, and of vertical blanks while the timer runs.
-- Then after switching off, and after the flush of an active CRTC with the next vertical blank, no
-- event waits, and the events that were sent are those that were given, once each and in their
-- order.
pub Run-AllSent :
    (c d : Crtc) (given : List ℕ)
    → AllSent c []
    → Run (c, []) (d, given)
    → AllSent (atomic_disable d).0 given
      × AllSent (vblank_timer_func (atomic_flush true true d)) given
Run-AllSent c d given (p, s) r =
    let (n, m) = none_waits c.state_event c.event p in
    let k = Run-IsKept r (rw (n, m) s, inl n) in
    (disable-AllSent d given k, blank-AllSent d given k)
