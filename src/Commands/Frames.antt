-- ===== src/Commands/Frames.antt =====
-- The request frames of src/core/commands.ts, as a device reads them.
use bluetti_mqtt_node.Common.{
  ℕ, ◌+◌, ◌-◌, ◌*◌, ◌/◌, ◌%◌, ◌≤◌, ◌<◌, ◌≡◌, refl, true, not, ◌&&◌, List, [], ◌∷◌, ◌++◌, length,
  length-append, take, take_left, ◌==◌, if◌then◌else◌, Option, none, some, arith,
}
use bluetti_mqtt_node.Common.JsNumber.{JsNumber, nat, neg, frac}
use bluetti_mqtt_node.Errors.{ok}
use bluetti_mqtt_node.Crc.{append_modbus_crc, has_valid_modbus_crc, modbus_crc, crc_bytes}
use bluetti_mqtt_node.Crc.Frames.{has_valid-iff-append}
use bluetti_mqtt_node.Commands.{
  Kind, read_holding_registers, write_single_register, write_multiple_registers, DeviceCommand,
  device_command, new_read_holding_registers, new_write_single_register,
  new_write_multiple_registers,
}

-- A MODBUS device's reading of a request body: unit address, function code, two 16-bit words with
-- the high byte first and, for a write of several registers, a byte count and the data.
decode_body : List ℕ → Option Kind
decode_body (unit ∷ code ∷ a_hi ∷ a_lo ∷ v_hi ∷ v_lo ∷ []) =
    if not (unit == 1)
    then none
    else if code == 3
    then some (read_holding_registers (a_hi * 256 + a_lo) (v_hi * 256 + v_lo))
    else if code == 6
    then some (write_single_register (a_hi * 256 + a_lo) (v_hi * 256 + v_lo))
    else none
decode_body (unit ∷ code ∷ a_hi ∷ a_lo ∷ v_hi ∷ v_lo ∷ count ∷ payload) =
    if unit == 1 && code == 16 && count == length payload && count == 2 * (v_hi * 256 + v_lo)
    then some (write_multiple_registers (a_hi * 256 + a_lo) payload)
    else none
decode_body _ = none

pub decode_request : List ℕ → Option Kind
decode_request frame =
    if has_valid_modbus_crc frame then decode_body (take (length frame - 2) frame) else none

-- The three ways to come by a command.
pub data Built : DeviceCommand → Type 0 where
  built_read :
      {c : DeviceCommand} (starting_address quantity : JsNumber)
      → new_read_holding_registers starting_address quantity ≡ ok c
      → Built c
  built_write :
      {c : DeviceCommand} (address value : JsNumber)
      → new_write_single_register address value ≡ ok c
      → Built c
  built_write_multiple :
      {c : DeviceCommand} (starting_address : JsNumber) (payload : List ℕ)
      → new_write_multiple_registers starting_address payload ≡ ok c
      → Built c

abbrev pub read_bytes : ℕ → ℕ → List ℕ
read_bytes a v = (a / 256 % 256) ∷ (a % 256) ∷ (v / 256 % 256) ∷ (v % 256) ∷ []

abbrev pub read_command : ℕ → ℕ → DeviceCommand
read_command a q = device_command 3 (read_bytes a q) (read_holding_registers a q)

abbrev pub write_command : ℕ → ℕ → DeviceCommand
write_command a v = device_command 6 (read_bytes a v) (write_single_register a v)

abbrev pub write_multiple_command : ℕ → List ℕ → DeviceCommand
write_multiple_command a payload =
    device_command 16 (read_bytes a (length payload / 2) ++ (length payload % 256) ∷ payload)
      (write_multiple_registers a payload)

-- What a successful construction says of the arguments.
pub new_read_inversion :
    (s q : JsNumber) (c : DeviceCommand)
    → new_read_holding_registers s q ≡ ok c
    → (a n : ℕ) × (s ≡ nat a)
      × (q ≡ nat n)
      × (a < 0x10000)
      × (1 ≤ n)
      × (n ≤ 125)
      × (c ≡ read_command a n)
unfolding new_read_holding_registers
new_read_inversion (nat a) (nat n) c h =
    (a, n, refl, refl, ground arith, ground arith, ground arith, ground arith)
new_read_inversion (nat a) (neg n) c h = cc
new_read_inversion (nat a) (frac q) c h = cc
new_read_inversion (neg a) (nat n) c h = absurd (ground arith)
new_read_inversion (neg a) (neg n) c h = cc
new_read_inversion (neg a) (frac q) c h = cc
new_read_inversion (frac q) (nat n) c h = absurd (ground arith)
new_read_inversion (frac q) (neg n) c h = cc
new_read_inversion (frac q) (frac r) c h = cc

pub new_write_inversion :
    (s v : JsNumber) (c : DeviceCommand)
    → new_write_single_register s v ≡ ok c
    → (a n : ℕ) × (s ≡ nat a)
      × (v ≡ nat n)
      × (a < 0x10000)
      × (n < 0x10000)
      × (c ≡ write_command a n)
unfolding new_write_single_register
new_write_inversion (nat a) (nat n) c h =
    (a, n, refl, refl, ground arith, ground arith, ground arith)
new_write_inversion (nat a) (neg n) c h = absurd (ground arith)
new_write_inversion (nat a) (frac q) c h = absurd (ground arith)
new_write_inversion (neg a) v c h = cc
new_write_inversion (frac q) v c h = cc

pub new_write_multiple_inversion :
    (s : JsNumber) (payload : List ℕ) (c : DeviceCommand)
    → new_write_multiple_registers s payload ≡ ok c
    → (a r : ℕ) × (s ≡ nat a)
      × (a < 0x10000)
      × (length payload ≡ 2 * r)
      × (1 ≤ r)
      × (r ≤ 123)
      × (c ≡ write_multiple_command a payload)
unfolding new_write_multiple_registers
new_write_multiple_inversion (nat a) payload c h = (
  a,
  length payload / 2,
  refl,
  ground arith,
  ground arith,
  ground arith,
  ground arith,
  ground arith,
)
new_write_multiple_inversion (neg a) payload c h = absurd (ground arith)
new_write_multiple_inversion (frac q) payload c h = absurd (ground arith)

decode-append :
    (body : List ℕ) → 1 ≤ length body → decode_request (append_modbus_crc body) ≡ decode_body body
unfolding decode_request append_modbus_crc
decode-append body long =
    let valid : has_valid_modbus_crc (append_modbus_crc body) ≡ true =
      (has_valid-iff-append (append_modbus_crc body)).1 (body, long, refl) in
    let tail = crc_bytes (modbus_crc body) in
    rw (
      valid,
      take_left (length (body ++ tail) - 2) body tail (omega (arith, length-append body tail)),
    )

-- The frame of every command that the constructors build is read by the device as that command:
-- the register address and the count, the value or the data come back unchanged.
pub decode_request-Built : {c : DeviceCommand} → Built c → decode_request c.frame ≡ some c.kind
unfolding decode_body device_command
decode_request-Built (built_read {c} s q h) =
    let (a, n, _, _, ha, h1, hn, e) = new_read_inversion s q c h in
    rw (e, decode-append (1 ∷ 3 ∷ read_bytes a n) (omega arith)) (ground arith)
decode_request-Built (built_write {c} s v h) =
    let (a, n, _, _, ha, hn, e) = new_write_inversion s v c h in
    rw (e, decode-append (1 ∷ 6 ∷ read_bytes a n) (omega arith)) (ground arith)
decode_request-Built (built_write_multiple {c} s payload h) =
    let (a, r, _, ha, hr, h1, hn, e) = new_write_multiple_inversion s payload c h in
    rw
      (
        e,
        decode-append
            (1 ∷ 16 ∷ read_bytes a (length payload / 2) ++ (length payload % 256) ∷ payload)
            (omega arith),
      )
      (ground arith)
