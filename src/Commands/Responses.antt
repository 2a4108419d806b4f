-- ===== src/Commands/Responses.antt =====
-- Which notifications src/core/commands.ts takes for a response, and what it reads from them.
use bluetti_mqtt_node.Common.{
  empty_of_length, ℕ, ◌+◌, ◌*◌, ◌/◌, ◌≤◌, ◌≡◌, refl, ap, ◌∙◌, true, List, [], ◌∷◌, ◌++◌, length,
  length-append, take, take_left, arith, ◌↔◌, and-true,
}
use bluetti_mqtt_node.Crc.{append_modbus_crc, has_valid_modbus_crc, modbus_crc, crc_bytes}
use bluetti_mqtt_node.Crc.Frames.{has_valid-iff-append}
use bluetti_mqtt_node.Commands.{
  DeviceCommand, device_command, response_size, is_exception_response, is_valid_base, echoes,
  valid_extra, is_valid_response, parse_response,
}
use bluetti_mqtt_node.Commands.Frames.{
  read_bytes, read_command, write_command, write_multiple_command,
}

pub append-valid :
    (body : List ℕ) → 1 ≤ length body → has_valid_modbus_crc (append_modbus_crc body) ≡ true
append-valid body long = (has_valid-iff-append (append_modbus_crc body)).1 (body, long, refl)

pub length-append_modbus_crc : (body : List ℕ) → length (append_modbus_crc body) ≡ length body + 2
unfolding append_modbus_crc
length-append_modbus_crc body = length-append body (crc_bytes (modbus_crc body))

-- An accepted frame of n + 2 bytes is made of a body of n bytes.
body_of :
    (n : ℕ) (r : List ℕ)
    → has_valid_modbus_crc r ≡ true
    → length r ≡ n + 2
    → (body : List ℕ) × (length body ≡ n) × (r ≡ append_modbus_crc body)
body_of n r valid len =
    let (body, _, e) = (has_valid-iff-append r).0 valid in
    (body, omega (arith, ap length e, length-append_modbus_crc body), e)

-- A body of three bytes and more.
split3 :
    (n : ℕ) (body : List ℕ)
    → length body ≡ n + 3
    → (a b c : ℕ) × (rest : List ℕ) × (body ≡ a ∷ b ∷ c ∷ rest) × (length rest ≡ n)
split3 n [] h = absurd (omega arith)
split3 n (a ∷ []) h = absurd (omega arith)
split3 n (a ∷ b ∷ []) h = absurd (omega arith)
split3 n (a ∷ b ∷ c ∷ rest) h = (a, b, c, rest, refl, omega arith)

-- A frame with its header read.
with_header :
    (u f n : ℕ) {u' f' n' : ℕ} (rest : List ℕ) {r : List ℕ}
    → r ≡ append_modbus_crc (u' ∷ f' ∷ n' ∷ rest)
    → u' ≡ u
    → f' ≡ f
    → n' ≡ n
    → r ≡ append_modbus_crc (u ∷ f ∷ n ∷ rest)
with_header u f n rest e p q h = cc

-- An exception frame carries the unit address, the function code with its high bit set, and a
-- code.
pub is_exception_response_iff :
    (c : DeviceCommand) (r : List ℕ)
    → (is_exception_response c r ≡ true)
      ↔ ((code : ℕ) × (r ≡ append_modbus_crc (1 ∷ (c.function_code + 0x80) ∷ code ∷ [])))
unfolding is_exception_response append_modbus_crc
is_exception_response_iff c r = (to, from)
  where
    to :
        is_exception_response c r ≡ true
        → (code : ℕ) × (r ≡ append_modbus_crc (1 ∷ (c.function_code + 0x80) ∷ code ∷ []))
    to h =
        let (body, len, e) = body_of 3 r (ground arith) (ground arith) in
        let (u, f, code, rest, shape, short) = split3 0 body len in
        let nothing = empty_of_length rest short in
        let e' : r ≡ append_modbus_crc (u ∷ f ∷ code ∷ []) = rw (shape, nothing) at e in
        let h' = rw e' at h in
        (code, with_header 1 (c.function_code + 0x80) code [] e' (ground arith) (ground arith) refl)

    from :
        ((code : ℕ) × (r ≡ append_modbus_crc (1 ∷ (c.function_code + 0x80) ∷ code ∷ [])))
        → is_exception_response c r ≡ true
    from (code, e) =
        let valid = append-valid (1 ∷ (c.function_code + 0x80) ∷ code ∷ []) (omega arith) in
        rw e (ground arith)

-- A read accepts exactly the frames with its byte count and that many payload bytes.
read_response_frame :
    (a q : ℕ) (r : List ℕ)
    → (is_valid_response (read_command a q) r ≡ true) ↔ (
        (payload : List ℕ) × (length payload ≡ 2 * q)
        × (r ≡ append_modbus_crc (1 ∷ 3 ∷ (2 * q) ∷ payload)))
unfolding is_valid_response append_modbus_crc device_command
read_response_frame a q r = (to, from)
  where
    to :
        is_valid_response (read_command a q) r ≡ true
        → (payload : List ℕ) × (length payload ≡ 2 * q)
          × (r ≡ append_modbus_crc (1 ∷ 3 ∷ (2 * q) ∷ payload))
    to h =
        let (body, len, e) = body_of (2 * q + 3) r (ground arith) (ground arith) in
        let (u, f, n, payload, shape, rest) = split3 (2 * q) body len in
        let e' : r ≡ append_modbus_crc (u ∷ f ∷ n ∷ payload) = rw shape at e in
        let h' = rw e' at h in
        (
          payload,
          rest,
          with_header 1 3 (2 * q) payload e' (ground arith) (ground arith) (ground arith),
        )

    from :
        ((payload : List ℕ) × (length payload ≡ 2 * q)
          × (r ≡ append_modbus_crc (1 ∷ 3 ∷ (2 * q) ∷ payload)))
        → is_valid_response (read_command a q) r ≡ true
    from (payload, len, e) =
        let valid = append-valid (1 ∷ 3 ∷ (2 * q) ∷ payload) (omega arith) in
        let size = length-append_modbus_crc (1 ∷ 3 ∷ (2 * q) ∷ payload) in rw e (ground arith)

-- Of such a frame the payload is read.
parse_read_response :
    (a q : ℕ) (payload : List ℕ)
    → parse_response (read_command a q) (append_modbus_crc (1 ∷ 3 ∷ (2 * q) ∷ payload)) ≡ payload
unfolding parse_response append_modbus_crc device_command
parse_read_response a q payload =
    take_left _ payload (crc_bytes (modbus_crc (1 ∷ 3 ∷ (2 * q) ∷ payload)))
      (omega (arith, length-append payload (crc_bytes (modbus_crc (1 ∷ 3 ∷ (2 * q) ∷ payload)))))

-- A response to a read of `q` registers is valid exactly if it is a frame of the unit, function 3,
-- the byte count and a payload of that many bytes, and the payload is what is then read from it.
pub read_response_iff :
    (a q : ℕ) (r : List ℕ)
    → (is_valid_response (read_command a q) r ≡ true) ↔ (
        (payload : List ℕ) × (length payload ≡ 2 * q)
        × (r ≡ append_modbus_crc (1 ∷ 3 ∷ (2 * q) ∷ payload))
        × (parse_response (read_command a q) r ≡ payload))
read_response_iff a q r = (
  λ h.
      let (payload, len, e) = (read_response_frame a q r).0 h in
      (payload, len, e, ap (parse_response (read_command a q)) e ∙ parse_read_response a q payload),
  λ (payload, len, e, _). (read_response_frame a q r).1 (payload, len, e),
)

body_of_six :
    (r : List ℕ)
    → has_valid_modbus_crc r ≡ true
    → length r ≡ 8
    → (a b c d e f : ℕ) × (r ≡ append_modbus_crc (a ∷ b ∷ c ∷ d ∷ e ∷ f ∷ []))
body_of_six r valid len =
    let (body, n, made) = body_of 6 r valid len in
    let (a, b, c, rest, e, n') = split3 3 body n in
    let (a', b', c', rest', e', n'') = split3 0 rest n' in
    let nothing = empty_of_length rest' n'' in (a, b, c, a', b', c', cc)

-- A frame whose six leading bytes are those of another, checksum aside.
echoes_six :
    (a b c d e f a' b' c' d' e' f' : ℕ) (rest r : List ℕ)
    → r ≡ append_modbus_crc (a ∷ b ∷ c ∷ d ∷ e ∷ f ∷ [])
    → echoes (a ∷ b ∷ c ∷ d ∷ e ∷ f ∷ []) (a' ∷ b' ∷ c' ∷ d' ∷ e' ∷ f' ∷ rest) ≡ true
    → r ≡ append_modbus_crc (a' ∷ b' ∷ c' ∷ d' ∷ e' ∷ f' ∷ [])
echoes_six a b c d e f a' b' c' d' e' f' rest r made h = made ∙ ap append_modbus_crc same
  where
    same : a ∷ b ∷ c ∷ d ∷ e ∷ f ∷ [] ≡ a' ∷ b' ∷ c' ∷ d' ∷ e' ∷ f' ∷ []
    same = ground arith

-- A command whose response must echo the six leading bytes `head` of its frame.
record IsEcho (c : DeviceCommand) (a b : ℕ) (rest : List ℕ) : Type 0 where
  size : response_size c ≡ 8
  code : ℕ
  coded : c.function_code ≡ code
  framed : c.frame ≡ 1 ∷ code ∷ read_bytes a b ++ rest
  extra : (r : List ℕ) → valid_extra c.kind c.frame r ≡ echoes (take 6 r) c.frame

echo_response_iff :
    (c : DeviceCommand) (a b : ℕ) (rest : List ℕ)
    → (e : IsEcho c a b rest) → (r : List ℕ)
    → (is_valid_response c r ≡ true) ↔ (r ≡ append_modbus_crc (1 ∷ e.code ∷ read_bytes a b))
unfolding is_valid_response append_modbus_crc
echo_response_iff c a b rest e r = (to, from)
  where
    to : is_valid_response c r ≡ true → r ≡ append_modbus_crc (1 ∷ e.code ∷ read_bytes a b)
    to h =
        let (base, extra) = and-true (is_valid_base c r) (valid_extra c.kind c.frame r) h in
        let (x0, x1, x2, x3, x4, x5, made) =
          body_of_six r (ground arith) (ground (arith, e.size)) in
        let same = rw (e.extra r, made, e.framed) at extra in
        echoes_six x0 x1 x2 x3 x4 x5 _ _ _ _ _ _ rest r made same

    from : r ≡ append_modbus_crc (1 ∷ e.code ∷ read_bytes a b) → is_valid_response c r ≡ true
    from made =
        let valid = append-valid (1 ∷ e.code ∷ read_bytes a b) (omega arith) in
        let size = e.size in
        let coded = e.coded in
        let framed = e.framed in
        rw made (ground (arith, e.extra (append_modbus_crc (1 ∷ e.code ∷ read_bytes a b))))

-- A response to a write of one register is valid exactly if it is the request.
pub write_response_iff :
    (a v : ℕ) (r : List ℕ)
    → (is_valid_response (write_command a v) r ≡ true) ↔ (r ≡ (write_command a v).frame)
unfolding device_command append_modbus_crc response_size
write_response_iff a v r =
    echo_response_iff (write_command a v) a v (crc_bytes (modbus_crc (1 ∷ 6 ∷ read_bytes a v)))
      (record { size = refl; code = 6; coded = refl; framed = refl; extra = λ r'. refl }) r

-- A response to a write of several registers is valid exactly if it is the checksummed head of the
-- request.
pub write_multiple_response_iff :
    (a : ℕ) (payload r : List ℕ)
    → (is_valid_response (write_multiple_command a payload) r ≡ true)
      ↔ (r ≡ append_modbus_crc (1 ∷ 16 ∷ read_bytes a (length payload / 2)))
unfolding device_command append_modbus_crc response_size
write_multiple_response_iff a payload r =
    echo_response_iff (write_multiple_command a payload) a (length payload / 2) _
      (record { size = refl; code = 16; coded = refl; framed = refl; extra = λ r'. refl }) r
