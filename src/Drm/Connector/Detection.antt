-- ===== src/Drm/Connector/Detection.antt =====
-- A display that is reported connected has an EDID.
use lenovo_magicbay_hud_linu.Base.{
  ℕ, ◌≡◌, ◌∙◌, ◌⊎◌, sym, ap, refl, Bool, true, false, Option, none, some, inl, inr, Outcome,
}
use lenovo_magicbay_hud_linu.Drm.Connector.{
  Connector, Status, connected, disconnected, unknown, fresh, is_connected, status_of, detected,
  detect,
}

-- A connected connector keeps an EDID.
abbrev HasEdid : Connector → Type 0
HasEdid c = (c.status ≡ connected → ⊥) ⊎ ((e : ℕ) × (c.edid ≡ some e))

pub fresh-HasEdid : HasEdid fresh
fresh-HasEdid = inl λ e. cc

connected_iff : (s : Status) → is_connected s ≡ true → s ≡ connected
connected_iff connected e = refl
connected_iff disconnected e = cc
connected_iff unknown e = cc

was_connected : (c : Connector) → is_connected c.status ≡ true → c.status ≡ connected
was_connected c e = connected_iff c.status e

not_both : (c : Connector) → is_connected c.status ≡ false → c.status ≡ connected → ⊥
not_both c w q = let e : Path Bool true false = sym (ap is_connected q) ∙ w in cc

kept_edid : (c : Connector) → HasEdid c → c.status ≡ connected → (e : ℕ) × (c.edid ≡ some e)
kept_edid c (inl n) q = absurd (n q)
kept_edid c (inr e) q = e

-- What holds of the answer and the connector after a detection.
pub record IsDetected (hpd : Option (Outcome Bool)) (read : Option ℕ) (c : Connector)
    (r : Status × Connector) : Type 0 where
  pub keeps : HasEdid r.1
  pub reported :
      (r.0 ≡ connected → ⊥) ⊎ ((r.1.status ≡ connected) × ((e : ℕ) × (r.1.edid ≡ some e)))
  pub same : (c.status ≡ connected → ⊥) ⊎ (r.1.edid ≡ c.edid)
  pub answer :
      (r.0 ≡ status_of hpd)
      ⊎ ((status_of hpd ≡ connected) × (read ≡ none) × (r.1.status ≡ c.status))

detected-IsDetected :
    (hpd : Option (Outcome Bool)) (read : Option ℕ) (c : Connector)
    → HasEdid c
    → (was : Bool) → is_connected c.status ≡ was
    → (s : Status) → status_of hpd ≡ s
    → IsDetected hpd read c (detected read c was s)
detected-IsDetected hpd none c h false w connected e = record {
  keeps = inl (not_both c w);
  reported = inl λ q. cc;
  same = inl (not_both c w);
  answer = inr (e, refl, refl);
}
detected-IsDetected hpd (some x) c h false w connected e = record {
  keeps = inr (x, refl);
  reported = inr (refl, (x, refl));
  same = inl (not_both c w);
  answer = inl (sym e);
}
detected-IsDetected hpd read c h false w disconnected e = record {
  keeps = inl λ q. cc;
  reported = inl λ q. cc;
  same = inr refl;
  answer = inl (sym e);
}
detected-IsDetected hpd read c h false w unknown e = record {
  keeps = inl λ q. cc;
  reported = inl λ q. cc;
  same = inr refl;
  answer = inl (sym e);
}
detected-IsDetected hpd read c h true w connected e =
    let x = kept_edid c h (was_connected c w) in
    record { keeps = inr x; reported = inr (refl, x); same = inr refl; answer = inl (sym e) }
detected-IsDetected hpd read c h true w disconnected e = record {
  keeps = inl λ q. cc;
  reported = inl λ q. cc;
  same = inr refl;
  answer = inl (sym e);
}
detected-IsDetected hpd read c h true w unknown e = record {
  keeps = inl λ q. cc;
  reported = inl λ q. cc;
  same = inr refl;
  answer = inl (sym e);
}

-- If a connected connector has an EDID, it has one after `msdisp_drm_detect`, however the display
-- and the reading of the EDID answer. A connector that is reported connected is connected and has
-- an EDID; one that was connected keeps its EDID. What is reported is what the display says,
-- unless it says connected and the EDID cannot be read: then the status stays.
pub detect-IsDetected :
    (hpd : Option (Outcome Bool)) (read : Option ℕ) (c : Connector)
    → HasEdid c
    → IsDetected hpd read c (detect hpd read c)
unfolding detect
detect-IsDetected hpd read c h =
    detected-IsDetected hpd read c h (is_connected c.status) refl (status_of hpd) refl
