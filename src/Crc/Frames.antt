-- ===== src/Crc/Frames.antt =====
-- `appendModbusCrc` and `hasValidModbusCrc` of src/core/crc.ts against one another.
use bluetti_mqtt_node.Common.{
  ℕ, zero, suc, ◌/◌, ◌%◌, ◌<◌, ◌≤◌, ◌-◌, ◌≡◌, ◌≢◌, ◌↔◌, refl, ap, List, [], ◌∷◌, ◌++◌, Bool, true,
  false, ◌&&◌, arith, IsBytes, length, length-append, take, Bool-cases, inl, inr, ltb,
}
use bluetti_mqtt_node.Crc.{
  crc_byte, crc_from, crc_bytes, at_is, crc_initial_value, modbus_crc, append_modbus_crc,
  has_valid_modbus_crc,
}
use bluetti_mqtt_node.Crc.Bounds.{crc_byte-lt}
use bluetti_mqtt_node.Crc.Detection.{crc_byte_cancel, crc_byte_cancel_byte}

-- The frame ends with the two bytes of the checksum that runs over what stands before them.
abbrev EndsWithCrc : ℕ → List ℕ → Type 0
EndsWithCrc c [] = ⊥
EndsWithCrc c (lo ∷ []) = ⊥
EndsWithCrc c (lo ∷ hi ∷ []) = (lo ≡ c % 256) × (hi ≡ c / 256 % 256)
EndsWithCrc c (b ∷ x ∷ y ∷ rest) = EndsWithCrc (crc_byte c b) (x ∷ y ∷ rest)

abbrev tail_test : ℕ → ℕ → List ℕ → Bool
tail_test c n frame =
    at_is frame n (crc_from c (take n frame) % 256)
    && at_is frame (suc n) (crc_from c (take n frame) / 256 % 256)

tail_test_iff :
    (n c : ℕ) (frame : List ℕ)
    → length frame ≡ suc (suc n)
    → (tail_test c n frame ≡ true) ↔ EndsWithCrc c frame
unfolding crc_from
tail_test_iff n c [] e = absurd (omega arith)
tail_test_iff n c (lo ∷ []) e = absurd (omega arith)
tail_test_iff zero c (lo ∷ hi ∷ []) e = ground arith
tail_test_iff (suc n) c (lo ∷ hi ∷ []) e = absurd (omega arith)
tail_test_iff zero c (b ∷ x ∷ y ∷ rest) e = absurd (omega arith)
tail_test_iff (suc n) c (b ∷ x ∷ y ∷ rest) e =
    tail_test_iff n (crc_byte c b) (x ∷ y ∷ rest) (omega arith)

has_valid_iff_tail_test :
    (n : ℕ) (frame : List ℕ)
    → length frame ≡ suc (suc (suc n))
    → (has_valid_modbus_crc frame ≡ true) ↔ (tail_test crc_initial_value (suc n) frame ≡ true)
unfolding has_valid_modbus_crc modbus_crc
has_valid_iff_tail_test n frame e =
    let e2 : length frame - 2 ≡ suc n = omega arith in
    let e1 : length frame - 1 ≡ suc (suc n) = omega arith in
    let crc = crc_from crc_initial_value (take (suc n) frame) in
    let low : crc % 0x10000 % 256 ≡ crc % 256 = omega arith in
    let high : crc % 0x10000 / 256 % 256 ≡ crc / 256 % 256 = omega arith in
    let long : ltb (length frame) 3 ≡ false = ground arith in
    rw (e2, e1, long, low, high) (λ h. h, λ h. h)

-- A frame is accepted exactly if it has three bytes at least and ends with its checksum.
has_valid-EndsWithCrc :
    (frame : List ℕ)
    → (has_valid_modbus_crc frame ≡ true)
      ↔ ((3 ≤ length frame) × EndsWithCrc crc_initial_value frame)
unfolding has_valid_modbus_crc
has_valid-EndsWithCrc [] = ground arith
has_valid-EndsWithCrc (a ∷ []) = ground arith
has_valid-EndsWithCrc (a ∷ b ∷ []) = ground arith
has_valid-EndsWithCrc (a ∷ b ∷ c ∷ rest) =
    let (to, from) = has_valid_iff_tail_test (length rest) (a ∷ b ∷ c ∷ rest) refl in
    let (into, back) =
      tail_test_iff (suc (length rest)) crc_initial_value (a ∷ b ∷ c ∷ rest) refl in
    (λ h. (omega arith, into (to h)), λ h. from (back h.1))

EndsWithCrc-append : (c : ℕ) (body : List ℕ) → EndsWithCrc c (body ++ crc_bytes (crc_from c body))
unfolding crc_from
EndsWithCrc-append c [] = (refl, refl)
EndsWithCrc-append c (b ∷ []) = EndsWithCrc-append (crc_byte c b) []
EndsWithCrc-append c (b ∷ x ∷ []) = EndsWithCrc-append (crc_byte c b) (x ∷ [])
EndsWithCrc-append c (b ∷ x ∷ y ∷ rest) = EndsWithCrc-append (crc_byte c b) (x ∷ y ∷ rest)

EndsWithCrc-body :
    (c : ℕ) (frame : List ℕ)
    → EndsWithCrc c frame
    → (body : List ℕ) × (frame ≡ body ++ crc_bytes (crc_from c body))
unfolding crc_from
EndsWithCrc-body c [] h = absurd h
EndsWithCrc-body c (lo ∷ []) h = absurd h
EndsWithCrc-body c (lo ∷ hi ∷ []) (p, q) = ([], cc)
EndsWithCrc-body c (b ∷ x ∷ y ∷ rest) h =
    let (body, e) = EndsWithCrc-body (crc_byte c b) (x ∷ y ∷ rest) h in (b ∷ body, ap (◌∷◌ b) e)

crc_bytes_mod : (crc : ℕ) → crc_bytes (crc % 0x10000) ≡ crc_bytes crc
crc_bytes_mod crc =
    let low : crc % 0x10000 % 256 ≡ crc % 256 = omega arith in
    let high : crc % 0x10000 / 256 % 256 ≡ crc / 256 % 256 = omega arith in cc

-- `hasValidModbusCrc` accepts exactly the frames that `appendModbusCrc` makes of bodies that are
-- not empty.
pub has_valid-iff-append :
    (frame : List ℕ)
    → (has_valid_modbus_crc frame ≡ true)
      ↔ ((body : List ℕ) × (1 ≤ length body) × (frame ≡ append_modbus_crc body))
unfolding append_modbus_crc modbus_crc
has_valid-iff-append frame = (to, from)
  where
    to :
        has_valid_modbus_crc frame ≡ true
        → (body : List ℕ) × (1 ≤ length body) × (frame ≡ append_modbus_crc body)
    to h =
        let (long, ends) = (has_valid-EndsWithCrc frame).0 h in
        let (body, e) = EndsWithCrc-body crc_initial_value frame ends in
        let crc = crc_from crc_initial_value body in
        (
          body,
          omega (arith, ap length e, length-append body (crc_bytes crc)),
          rw (crc_bytes_mod crc) e,
        )

    from :
        ((body : List ℕ) × (1 ≤ length body) × (frame ≡ append_modbus_crc body))
        → has_valid_modbus_crc frame ≡ true
    from (body, long, e) =
        let crc = crc_from crc_initial_value body in
        let e' : frame ≡ body ++ crc_bytes crc = rw (← crc_bytes_mod crc) e in
        (has_valid-EndsWithCrc frame).1 (
          omega (arith, ap length e', length-append body (crc_bytes crc)),
          rw e' (EndsWithCrc-append crc_initial_value body),
        )

-- The rest of an accepted frame determines the checksum before it.
EndsWithCrc-cancel :
    (c d : ℕ) (frame : List ℕ)
    → c < 0x10000
    → d < 0x10000
    → IsBytes frame
    → EndsWithCrc c frame
    → EndsWithCrc d frame
    → c ≡ d
EndsWithCrc-cancel c d [] p q k g h = absurd g
EndsWithCrc-cancel c d (lo ∷ []) p q k g h = absurd g
EndsWithCrc-cancel c d (lo ∷ hi ∷ []) p q k g h = omega arith
EndsWithCrc-cancel c d (b ∷ x ∷ y ∷ rest) p q (kb, k) g h = crc_byte_cancel c d b p q kb (
    EndsWithCrc-cancel (crc_byte c b) (crc_byte d b) (x ∷ y ∷ rest) (crc_byte-lt c b p kb)
      (crc_byte-lt d b q kb) k g h)

EndsWithCrc-one_byte :
    (c : ℕ) (before : List ℕ) (x y : ℕ) (after : List ℕ)
    → c < 0x10000
    → IsBytes (before ++ x ∷ after)
    → y < 256
    → EndsWithCrc c (before ++ x ∷ after)
    → EndsWithCrc c (before ++ y ∷ after)
    → x ≡ y
EndsWithCrc-one_byte c [] x y [] p k ky g h = absurd g
EndsWithCrc-one_byte c [] x y (hi ∷ []) p k ky g h = omega arith
EndsWithCrc-one_byte c [] x y (u ∷ v ∷ rest) p (kx, k) ky g h = crc_byte_cancel_byte c x y p kx ky (
    EndsWithCrc-cancel (crc_byte c x) (crc_byte c y) (u ∷ v ∷ rest) (crc_byte-lt c x p kx)
      (crc_byte-lt c y p ky) k g h)
EndsWithCrc-one_byte c (b ∷ []) x y [] p k ky g h = omega arith
EndsWithCrc-one_byte c (b ∷ []) x y (u ∷ rest) p (kb, k) ky g h =
    EndsWithCrc-one_byte (crc_byte c b) [] x y (u ∷ rest) (crc_byte-lt c b p kb) k ky g h
EndsWithCrc-one_byte c (b ∷ b' ∷ []) x y after p (kb, k) ky g h =
    EndsWithCrc-one_byte (crc_byte c b) (b' ∷ []) x y after (crc_byte-lt c b p kb) k ky g h
EndsWithCrc-one_byte c (b ∷ b' ∷ b'' ∷ before) x y after p (kb, k) ky g h =
    EndsWithCrc-one_byte (crc_byte c b) (b' ∷ b'' ∷ before) x y after (crc_byte-lt c b p kb) k ky g
      h

-- A frame that is accepted is refused once any one byte of it, checksum included, is another.
pub has_valid-detects_one_byte :
    (before : List ℕ) (x y : ℕ) (after : List ℕ)
    → IsBytes (before ++ x ∷ after)
    → y < 256
    → x ≢ y
    → has_valid_modbus_crc (before ++ x ∷ after) ≡ true
    → has_valid_modbus_crc (before ++ y ∷ after) ≡ false
has_valid-detects_one_byte before x y after k ky ne h =
    elim (Bool-cases (has_valid_modbus_crc (before ++ y ∷ after))) [
      | inl both ↦ absurd (
          ne (
            EndsWithCrc-one_byte crc_initial_value before x y after (omega arith) k ky
              ((has_valid-EndsWithCrc _).0 h).1 ((has_valid-EndsWithCrc _).0 both).1))
      | inr refused ↦ refused
    ]
