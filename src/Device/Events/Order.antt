-- ===== src/Device/Events/Order.antt =====
-- What the chip hears when the display is switched off.
use mathlib.Core.List.{append_assoc}
use lenovo_magicbay_hud_linu.Base.{
  failed, Errno, ℕ, List, [], ◌∷◌, ◌++◌, ◌≡◌, ◌≢◌, ◌∙◌, refl, ap, sym, Bool, true, false, get_or,
  Outcome, ok, fail, take, drop, if◌then◌else◌, ltb,
}
use lenovo_magicbay_hud_linu.Device.{
  M, Usb, Request, Reply, no_memory, stalled, answer, hid_report, pure, throw, ◌>>=◌,
}
use lenovo_magicbay_hud_linu.Device.Xdata.{
  read_max_cnt, xdata_read_byte, xdata_write_byte, read_xdata_once, read_report, write_report,
}
use lenovo_magicbay_hud_linu.Device.Xdata.Reads.{set_of}
use lenovo_magicbay_hud_linu.Device.Video.{
  set_trans_enable, set_video_enable, set_power_enable, video_report, send,
}
use lenovo_magicbay_hud_linu.Device.Chip.{set_screen_enable, screen_switch, switch_byte}
use lenovo_magicbay_hud_linu.Device.Events.{disable, event_disable, event_proc}

-- The bus afterwards is the bus before with more sent.
abbrev Grown : Usb → Usb → Type 0
Grown u v = ((xs : List Request) × (v.sent ≡ xs ++ u.sent)) × (v.reply ≡ u.reply)

abbrev Grows : {A : Type 0} → M A → Type 0
Grows m = (u : Usb) → Grown u (m u).1

Grown-trans : (u v w : Usb) → Grown u v → Grown v w → Grown u w
Grown-trans u v w ((xs, p), q) ((ys, r), t) =
    ((ys ++ xs, r ∙ ap (λ l. ys ++ l) p ∙ sym (append_assoc ys xs u.sent)), t ∙ q)

Grows-pure : {A : Type 0} (a : A) → Grows (pure a)
Grows-pure a u = (([], refl), refl)

Grows-throw : (A : Type 0) (e : Errno) → Grows {A = A} (throw e)
Grows-throw A e u = (([], refl), refl)

Grown-reply :
    (is_set : Bool) (report : List ℕ) (r : Reply) (u : Usb)
    → u.reply u.calls u.sent (record { is_set = is_set; report = report }) ≡ r
    → Grown u (hid_report is_set report u).1
unfolding hid_report
Grown-reply is_set report no_memory u e = (([], rw (hid_report, e)), rw (hid_report, e))
Grown-reply is_set report stalled u e =
    ((record { is_set = is_set; report = report } ∷ [], rw (hid_report, e)), rw (hid_report, e))
Grown-reply is_set report (answer bytes) u e =
    ((record { is_set = is_set; report = report } ∷ [], rw (hid_report, e)), rw (hid_report, e))

Grows-hid_report : (is_set : Bool) (report : List ℕ) → Grows (hid_report is_set report)
Grows-hid_report is_set report u = Grown-reply is_set report _ u refl

Grown-then :
    {A B : Type 0} (o : Outcome A) (u v : Usb) (f : A → M B)
    → Grown u v
    → ((a : A) → Grows (f a))
    → Grown u (((λ w. (o, v)) >>= f) u).1
Grown-then (ok a) u v f g h = Grown-trans u v (f a v).1 g (h a v)
Grown-then (fail e) u v f g h = g

Grows-bind :
    {A B : Type 0} (m : M A) (f : A → M B) → Grows m → ((a : A) → Grows (f a)) → Grows (m >>= f)
Grows-bind m f g h u = Grown-then (m u).0 u (m u).1 f (g u) h

Grows-if : {A : Type 0} (b : Bool) (m k : M A) → Grows m → Grows k → Grows (if b then m else k)
Grows-if true m k g h = g
Grows-if false m k g h = h

Grows-read_once : (addr cnt : ℕ) → Grows (read_xdata_once addr cnt)
unfolding read_xdata_once
Grows-read_once addr cnt =
    let get : (sent : List ℕ)
        → Grows (hid_report false sent >>= λ rdata. pure (take cnt (drop 3 rdata))) =
      λ sent.
        Grows-bind (hid_report false sent) (λ rdata. pure (take cnt (drop 3 rdata)))
          (Grows-hid_report false sent) (λ rdata. Grows-pure (take cnt (drop 3 rdata))) in
    Grows-if (ltb read_max_cnt cnt) (throw failed) _ (Grows-throw (List ℕ) failed) (
      Grows-bind (hid_report true (read_report addr))
        (λ sent. hid_report false sent >>= λ rdata. pure (take cnt (drop 3 rdata)))
        (Grows-hid_report true (read_report addr)) get)

Grows-read_byte : (addr : ℕ) → Grows (xdata_read_byte addr)
unfolding xdata_read_byte
Grows-read_byte addr =
    Grows-bind (read_xdata_once addr 1) (λ bytes. pure (get_or bytes 0 0)) (Grows-read_once addr 1)
      (λ bytes. Grows-pure (get_or bytes 0 0))

Grows-write_byte : (addr value : ℕ) → Grows (xdata_write_byte addr value)
unfolding xdata_write_byte
Grows-write_byte addr value =
    Grows-bind (hid_report true (write_report addr value)) (λ r. pure tt)
      (Grows-hid_report true (write_report addr value)) (λ r. Grows-pure tt)

Grows-set_screen_enable :
    (on chip_id port_type : ℕ) → Grows (set_screen_enable on chip_id port_type)
unfolding set_screen_enable
Grows-set_screen_enable on chip_id port_type =
    let s = screen_switch chip_id port_type in
    Grows-bind (xdata_read_byte s.addr) (λ value. xdata_write_byte s.addr (switch_byte s on value))
      (Grows-read_byte s.addr) (λ value. Grows-write_byte s.addr (switch_byte s on value))

-- Without memory for the report a command is not even tried; such a bus is left out.
abbrev pub Allocates : Usb → Type 0
Allocates u = (n : ℕ) (h : List Request) (r : Request) → u.reply n h r ≢ no_memory

sent_by :
    (is_set : Bool) (report : List ℕ) (u : Usb)
    → Allocates u
    → (r : Reply) → u.reply u.calls u.sent (record { is_set = is_set; report = report }) ≡ r
    → (hid_report is_set report u).1.sent ≡ record { is_set = is_set; report = report } ∷ u.sent
unfolding hid_report
sent_by is_set report u h no_memory e = absurd (h _ _ _ e)
sent_by is_set report u h stalled e = rw (hid_report, e)
sent_by is_set report u h (answer bytes) e = rw (hid_report, e)

hid_report-sent :
    (is_set : Bool) (report : List ℕ) (u : Usb)
    → Allocates u
    → (hid_report is_set report u).1.sent ≡ record { is_set = is_set; report = report } ∷ u.sent
hid_report-sent is_set report u h = sent_by is_set report u h _ refl

-- The `pure` after the report does not touch the bus.
pure-bus : (o : Outcome (List ℕ)) (v : Usb) → (((λ w. (o, v)) >>= λ a. pure (tt {0})) v).1 ≡ v
pure-bus (ok a) v = refl
pure-bus (fail e) v = refl

send-sent :
    (report : List ℕ) (u : Usb) → Allocates u → (send report u).1.sent ≡ set_of report ∷ u.sent
send-sent report u h =
    ap (λ v. v.sent) (pure-bus (hid_report true report u).0 (hid_report true report u).1)
    ∙ hid_report-sent true report u h

Grows-send : (report : List ℕ) → Grows (send report)
Grows-send report =
    Grows-bind (hid_report true report) (λ r. pure tt) (Grows-hid_report true report)
      (λ r. Grows-pure tt)

Allocates-Grown : (u v : Usb) → Grown u v → Allocates u → Allocates v
Allocates-Grown u v (g, e) h n xs r =
    let q : v.reply n xs r ≡ u.reply n xs r = ap (λ f. f n xs r) e in λ z. h n xs r (sym q ∙ z)

-- Switching off returns 0 on any bus, and if there is memory for the reports, it sends the reports
-- that stop the transfer and the pictures first and the one that cuts the power last, whatever
-- fails.
pub event_disable_tries_all :
    (chip_id port_type : ℕ) (u : Usb)
    → Allocates u
    → let r = event_proc disable chip_id port_type u in
      (r.0 ≡ ok tt)
      × ((xs : List Request) × (r.1.sent
            ≡ set_of (video_report 0x07 0 2 0 0 0 0)
              ∷ (xs
                  ++ (set_of (video_report 0x05 0 0 0 0 0 0)
                      ∷ set_of (video_report 0x04 0 0 0 0 0 0)
                      ∷ u.sent))))
unfolding event_proc event_disable set_trans_enable set_video_enable set_power_enable
event_disable_tries_all chip_id port_type u h =
    let u1 = (set_trans_enable 0 u).1 in
    let u2 = (set_video_enable 0 u1).1 in
    let u3 = (set_screen_enable 0 chip_id port_type u2).1 in
    let h1 = Allocates-Grown u u1 (Grows-send (video_report 0x04 0 0 0 0 0 0) u) h in
    let h2 = Allocates-Grown u1 u2 (Grows-send (video_report 0x05 0 0 0 0 0 0) u1) h1 in
    let ((xs, e3), e) = Grows-set_screen_enable 0 chip_id port_type u2 in
    let h3 = Allocates-Grown u2 u3 ((xs, e3), e) h2 in
    let e1 = send-sent (video_report 0x04 0 0 0 0 0 0) u h in
    let e2 = send-sent (video_report 0x05 0 0 0 0 0 0) u1 h1 in
    (
      refl,
      (
        xs,
        send-sent (video_report 0x07 0 2 0 0 0 0) u3 h3
            ∙ ap (λ l. set_of (video_report 0x07 0 2 0 0 0 0) ∷ l)
                (e3
                  ∙ ap (λ l. xs ++ l)
                      (e2 ∙ ap (λ l. set_of (video_report 0x05 0 0 0 0 0 0) ∷ l) e1)),
      ),
    )
