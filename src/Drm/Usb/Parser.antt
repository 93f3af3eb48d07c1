-- ===== src/Drm/Usb/Parser.antt =====
-- Which modes of the parameter are kept.
use native.Mathlib.Decide.{dec_lt}
use lenovo_magicbay_hud_linu.Base.{
  some, ℕ, ◌+◌, ◌≤◌, ◌<◌, ◌≡◌, ◌∙◌, ◌⊎◌, sym, ap, refl, true, false, Bool-cases, List, [], ◌∷◌,
  ◌++◌, map, length, length-append, leb, inl, inr, arith, Outcome, ok, fail, fault, if◌then◌else◌,
}
use lenovo_magicbay_hud_linu.Drm.Usb.{
  CustomMode, Scanned, max_custom_mode_cnt, split, is_complete, cut, store, parse_loop,
  parser_custom_mode,
}

-- The modes of the parts that have all four numbers, none of them 0, cut to their fields.
abbrev pub wanted : List Scanned → List CustomMode
wanted [] = []
wanted (s ∷ ss) = if is_complete s then cut s ∷ wanted ss else wanted ss

append_nil : (xs : List CustomMode) → xs ++ [] ≡ xs
append_nil [] = refl
append_nil (x ∷ xs) = ap (λ l. x ∷ l) (append_nil xs)

append_one : (xs ys : List CustomMode) (m : CustomMode) → (xs ++ (m ∷ [])) ++ ys ≡ xs ++ (m ∷ ys)
append_one [] ys m = refl
append_one (x ∷ xs) ys m = ap (λ l. x ∷ l) (append_one xs ys m)

step :
    (scan : List ℕ → Scanned) (part : List ℕ) (parts : List (List ℕ)) (ms ms' : List CustomMode)
    → store (scan part) ms ≡ ok ms'
    → parse_loop scan (part ∷ parts) ms ≡ parse_loop scan parts ms'
unfolding parse_loop
step scan part parts ms ms' e = rw (parse_loop, e) refl

stop :
    (scan : List ℕ → Scanned) (part : List ℕ) (parts : List (List ℕ)) (ms : List CustomMode)
    → store (scan part) ms ≡ fail fault
    → parse_loop scan (part ∷ parts) ms ≡ fail fault
unfolding parse_loop
stop scan part parts ms e = rw (parse_loop, e) refl

-- The modes fit and are kept, or the last write is past the end.
abbrev pub Kept : ℕ → List CustomMode → Outcome (List CustomMode) → Type 0
Kept count modes r =
    ((count ≤ max_custom_mode_cnt) × (r ≡ ok modes))
    ⊎ ((max_custom_mode_cnt < count) × (r ≡ fail fault))

-- The loop over the other parts decides.
carried :
    (count count' : ℕ) (modes modes' : List CustomMode) (r r' : Outcome (List CustomMode))
    → count ≡ count'
    → modes ≡ modes'
    → r ≡ r'
    → Kept count modes r
    → Kept count' modes' r'
carried count count' modes modes' r r' c m e (inl (le, q)) = inl (omega arith, sym e ∙ q ∙ ap ok m)
carried count count' modes modes' r r' c m e (inr (lt, q)) = inr (omega arith, sym e ∙ q)

loop-Kept :
    (scan : List ℕ → Scanned) (parts : List (List ℕ)) (ms : List CustomMode)
    → length ms ≤ max_custom_mode_cnt
    → let ws = wanted (map scan parts) in
      Kept (length ms + length ws) (ms ++ ws) (parse_loop scan parts ms)
unfolding parse_loop
loop-Kept scan [] ms le = inl (omega arith, ap ok (sym (append_nil ms)))
loop-Kept scan (part ∷ parts) ms le = elim (Bool-cases (is_complete (scan part))) [
  | inr c ↦
      let e : store (scan part) ms ≡ ok ms = rw c refl in
      let w : wanted (map scan (part ∷ parts)) ≡ wanted (map scan parts) = rw c refl in
      carried _ _ _ _ _ _ (ap (λ ws. length ms + length ws) (sym w)) (ap (λ ws. ms ++ ws) (sym w))
        (sym (step scan part parts ms ms e)) (loop-Kept scan parts ms le)
  | inl c ↦
      let m = cut (scan part) in
      let ws = wanted (map scan parts) in
      let w : wanted (map scan (part ∷ parts)) ≡ m ∷ ws = rw c refl in
      elim (dec_lt (length ms) max_custom_mode_cnt) [
        | yes lt ↦
            let room : leb max_custom_mode_cnt (length ms) ≡ false = ground arith in
            let e : store (scan part) ms ≡ ok (ms ++ (m ∷ [])) = rw (c, room) refl in
            let one = length-append ms (m ∷ []) in
            carried _ _ _ _ _ _ (omega (arith, one, ap length w))
              (append_one ms ws m ∙ ap (λ l. ms ++ l) (sym w))
              (sym (step scan part parts ms (ms ++ (m ∷ [])) e))
              (loop-Kept scan parts (ms ++ (m ∷ [])) (omega arith))
        | no full ↦
            let none_left : leb max_custom_mode_cnt (length ms) ≡ true = ground arith in
            let e : store (scan part) ms ≡ fail fault = rw (c, none_left) refl in
            inr (omega (arith, ap length w), stop scan part parts ms e)
      ]
]

-- If there is memory for a copy of the parameter, take its parts between the commas whose four
-- numbers are not 0. If they are at most sixteen, `parser_custom_mode` keeps the modes of exactly
-- these, in order and cut to the width of the fields; if they are more, it writes past the end of
-- `mode_arr`.
pub parser_custom_mode-Kept :
    (scan : List ℕ → Scanned) (custom_mode : List ℕ)
    → let modes = wanted (map scan (split custom_mode)) in
      Kept (length modes) modes (parser_custom_mode scan true (some custom_mode))
unfolding parser_custom_mode
parser_custom_mode-Kept scan custom_mode =
    carried _ _ _ _ _ _ (omega arith) refl refl
      (loop-Kept scan (split custom_mode) [] (omega arith))
