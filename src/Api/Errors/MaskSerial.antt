-- ===== src/Api/Errors/MaskSerial.antt =====
-- What a masked serial shows (`mask_serial` of custom_components/wattpilot/api/client.py).
use ha_wattpilot.Base.{
  ℕ, zero, suc, ◌-◌, ◌<◌, ◌≡◌, refl, ap, false, some, ◌∷◌, ◌++◌, arith, Text, leb, length,
  replicate, drop, length-append, length-replicate, length-drop, take,
}
use ha_wattpilot.Api.Errors.{mask_serial}

take-replicate-append : (n : ℕ) (a : ℕ) (t : Text) → take n (replicate n a ++ t) ≡ replicate n a
take-replicate-append zero a t = refl
take-replicate-append (suc n) a t = ap (λ (r : Text). a ∷ r) (take-replicate-append n a t)

drop-replicate-append : (n : ℕ) (a : ℕ) (t : Text) → drop n (replicate n a ++ t) ≡ t
drop-replicate-append zero a t = refl
drop-replicate-append (suc n) a t = drop-replicate-append n a t

-- A masked serial of more than two characters is as long as the serial and ends in its last two
-- characters, and those are all that it tells: two serials of one length that agree in their last
-- two characters are masked to the same text.
pub mask_serial_hides :
    (s t : Text)
    → 2 < length s
    → length s ≡ length t
    → drop (length s - 2) s ≡ drop (length t - 2) t
    → (length (mask_serial (some s)) ≡ length s)
      × (drop (length s - 2) (mask_serial (some s)) ≡ drop (length s - 2) s)
      × (mask_serial (some s) ≡ mask_serial (some t))
unfolding mask_serial
mask_serial_hides s t long same tails =
    let e : leb (length s) 2 ≡ false = ground arith in
    let f : leb (length t) 2 ≡ false = ground arith in
    (
      rw e (
          omega (
            arith,
            length-append (replicate {A = ℕ} (length s - 2) b'*') (drop (length s - 2) s),
            length-replicate {A = ℕ} (length s - 2) b'*',
            length-drop (length s - 2) s,
          )),
      rw e (drop-replicate-append (length s - 2) b'*' (drop (length s - 2) s)),
      rw (e, f) (rw (tails, same)),
    )
