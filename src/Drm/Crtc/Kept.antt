-- ===== src/Drm/Crtc/Kept.antt =====
-- Each event of a commit is waiting or was sent, after each part of the calls.
use mathlib.Core.Path.{subst}
use lenovo_magicbay_hud_linu.Base.{
  ℕ, ◌≡◌, ◌⊎◌, inl, inr, refl, Bool, true, false, List, [], ◌∷◌, ◌++◌, Option, none, some,
  Option-cases, arith,
}
use lenovo_magicbay_hud_linu.Drm.Crtc.{
  Crtc, update_event, atomic_flush, handle_page_flip, send_state_event,
}

abbrev pub one_or_none : Option ℕ → List ℕ
one_or_none none = []
one_or_none (some e) = e ∷ []

-- The events that were not sent yet; the kernel starts no commit before the last one is through.
abbrev pub pending : Crtc → List ℕ
pending c = one_or_none c.state_event ++ one_or_none c.event

-- Every event is waiting or was sent, once and in order, and at most one waits.
abbrev pub Kept : Option ℕ → Option ℕ → List ℕ → List ℕ → Type 0
Kept state_event event sent given =
    (one_or_none state_event ++ one_or_none event ++ sent ≡ given)
    × ((state_event ≡ none) ⊎ (event ≡ none))

abbrev pub IsKept : Crtc × List ℕ → Type 0
IsKept (c, given) = Kept c.state_event c.event c.sent given

-- The event of the commit moves on.
pub moved :
    (s e : Option ℕ) (sent given : List ℕ)
    → Kept s e sent given
    → (x : ℕ) → s ≡ some x
    → Kept none (some x) sent given
moved none e sent given k x q = cc
moved (some y) none sent given (k, o) x q = ground arith
moved (some y) (some z) sent given (k, inl a) x q = cc
moved (some y) (some z) sent given (k, inr a) x q = cc

pub update-IsKept : (c : Crtc) (given : List ℕ) → IsKept (c, given) → IsKept (update_event c, given)
unfolding update_event
update-IsKept c given k = elim (Option-cases c.state_event) [
  | inl n ↦ rw (update_event, n) k
  | inr (e, s) ↦ rw (update_event, s) (moved c.state_event c.event c.sent given k e s)
]

pub flush-IsKept :
    (c : Crtc) (given : List ℕ) (active was_active : Bool)
    → IsKept (c, given)
    → IsKept (atomic_flush active was_active c, given)
unfolding atomic_flush
flush-IsKept c given true true k = update-IsKept c given k
flush-IsKept c given true false k = k
flush-IsKept c given false was_active k = k

-- The event that waits for the vertical blank is sent.
flipped :
    (s e : Option ℕ) (sent given : List ℕ)
    → Kept s e sent given
    → (x : ℕ) → e ≡ some x
    → Kept s none (x ∷ sent) given
flipped s none sent given k x q = cc
flipped none (some y) sent given (k, o) x q = ground arith
flipped (some z) (some y) sent given (k, inl a) x q = cc
flipped (some z) (some y) sent given (k, inr a) x q = cc

pub flip-IsKept :
    (c : Crtc) (given : List ℕ) → IsKept (c, given) → IsKept (handle_page_flip c, given)
unfolding handle_page_flip
flip-IsKept c given k = elim (Option-cases c.event) [
  | inl n ↦ rw (handle_page_flip, n) k
  | inr (e, s) ↦ rw (handle_page_flip, s) (flipped c.state_event c.event c.sent given k e s)
]

pub flip-event : (c : Crtc) → (handle_page_flip c).event ≡ none
unfolding handle_page_flip
flip-event c = elim (Option-cases c.event) [
  | inl n ↦ rw (handle_page_flip, n) n
  | inr (e, s) ↦ rw (handle_page_flip, s) refl
]

-- The event of the commit is sent at once, if no other waits.
dropped :
    (s : Option ℕ) (sent given : List ℕ)
    → Kept s none sent given
    → (x : ℕ) → s ≡ some x
    → Kept none none (x ∷ sent) given
dropped none sent given k x q = cc
dropped (some y) sent given (k, o) x q = ground arith

pub send-IsKept :
    (c : Crtc) (given : List ℕ)
    → c.event ≡ none
    → IsKept (c, given)
    → Kept none none (send_state_event c).sent given
send-IsKept c given n k = elim (Option-cases c.state_event) [
  | inl s ↦
      rw (send_state_event, s)
        (subst (λ e. Kept none e c.sent given) n (subst (λ e. Kept e c.event c.sent given) s k))
  | inr (e, s) ↦
      rw (send_state_event, s)
        (dropped c.state_event c.sent given (subst (λ x. Kept c.state_event x c.sent given) n k) e
          s)
]

pub send-state_event : (c : Crtc) → (send_state_event c).state_event ≡ none
send-state_event c = elim (Option-cases c.state_event) [
  | inl s ↦ rw (send_state_event, s) s
  | inr (e, s) ↦ rw (send_state_event, s) refl
]

pub send-event : (c : Crtc) → (send_state_event c).event ≡ c.event
send-event c = elim (Option-cases c.state_event) [
  | inl s ↦ rw (send_state_event, s) refl
  | inr (e, s) ↦ rw (send_state_event, s) refl
]

-- No event waits, and all were sent.
abbrev pub AllSent : Crtc → List ℕ → Type 0
AllSent c given = (pending c ≡ []) × (c.sent ≡ given)

pub sent_all :
    (c : Crtc) (given : List ℕ)
    → c.state_event ≡ none
    → c.event ≡ none
    → Kept none none c.sent given
    → AllSent c given
sent_all c given s e (k, o) = (rw (s, e) refl, k)
