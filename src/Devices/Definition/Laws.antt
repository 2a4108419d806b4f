-- ===== src/Devices/Definition/Laws.antt =====
-- The commands and the fields of the table of src/devices/definition.ts.
use bluetti_mqtt_node.Common.{
  ℕ, ◌+◌, ◌*◌, ◌≤◌, ◌<◌, ◌≡◌, refl, Bool, true, false, ◌&&◌, ◌||◌, List, Memᴰ, [], ◌∷◌, ◌++◌,
  length, leb, ◌==◌, Bool-cases, inl, inr, arith, All, All-Memᴰ, and-true, String,
}
use bluetti_mqtt_node.Common.JsNumber.{nat}
use bluetti_mqtt_node.Errors.{ok}
use bluetti_mqtt_node.Commands.{new_read_holding_registers}
use bluetti_mqtt_node.Commands.Frames.{read_command}
use bluetti_mqtt_node.Devices.Field.{
  DeviceField, FieldKind, uint_field, bool_field, enum_field, decimal_field, decimal_array_field,
  string_field, swap_string_field, version_field, serial_number_field,
}
use bluetti_mqtt_node.Devices.Field.Laws.{HasSize}
use bluetti_mqtt_node.Devices.Struct.{ParsedFieldMap}
use bluetti_mqtt_node.Devices.Struct.Total.{HasSizes, parse_struct-total}
use bluetti_mqtt_node.Devices.Device.{ReadWindow, parse}
use bluetti_mqtt_node.Devices.Device.Setter.{IsAddressed}
use bluetti_mqtt_node.Devices.Definition.{
  DeviceDefinition, bluetti_definitions, or_empty, new_bluetti_device_model,
}

-- The windows that the logger reads, and those and the polled ones.
abbrev pub logged_windows : DeviceDefinition → List ReadWindow
logged_windows def = def.logging_commands ++ or_empty def.pack_logging_commands

abbrev pub all_windows : DeviceDefinition → List ReadWindow
all_windows def = def.polling_commands ++ or_empty def.pack_polling_commands ++ logged_windows def

-- A test on every element, and the predicate that it decides.
abbrev all_of {ℓ} : {A : Type ℓ} → (A → Bool) → List A → Bool
all_of p [] = true
all_of p (x ∷ xs) = p x && all_of p xs

all_of-All {ℓ κ} :
    {A : Type ℓ} (P : A → Type κ) (p : A → Bool) (xs : List A)
    → ((x : A) → p x ≡ true → P x)
    → all_of p xs ≡ true
    → All P xs
all_of-All P p [] f h = tt
all_of-All P p (x ∷ xs) f h =
    let (here, there) = and-true (p x) (all_of p xs) h in (f x here, all_of-All P p xs f there)

abbrev has_size : FieldKind → ℕ → Bool
has_size version_field size = size == 2
has_size serial_number_field size = size == 4
has_size (decimal_array_field scale) size = true
has_size string_field size = true
has_size swap_string_field size = true
has_size _ size = size == 1

has_size-HasSize : (kind : FieldKind) (size : ℕ) → has_size kind size ≡ true → HasSize kind size
has_size-HasSize version_field size h = ground arith
has_size-HasSize serial_number_field size h = ground arith
has_size-HasSize (decimal_array_field scale) size h = tt
has_size-HasSize string_field size h = tt
has_size-HasSize swap_string_field size h = tt
has_size-HasSize (uint_field range) size h = ground arith
has_size-HasSize bool_field size h = ground arith
has_size-HasSize (enum_field entries) size h = ground arith
has_size-HasSize (decimal_field scale range) size h = ground arith

abbrev is_sound_window : ReadWindow → Bool
is_sound_window window =
    leb 1 window.quantity && leb window.quantity 125 && leb window.starting_address 0xffff

-- The window holds every register of the field.
abbrev pub Covers : DeviceField → ReadWindow → Type 0
Covers field window =
    (window.starting_address ≤ field.address)
    × (field.address + field.size ≤ window.starting_address + window.quantity)

abbrev covers : DeviceField → ReadWindow → Bool
covers field window =
    leb window.starting_address field.address
    && leb (field.address + field.size) (window.starting_address + window.quantity)

abbrev any_covers : DeviceField → List ReadWindow → Bool
any_covers field [] = false
any_covers field (window ∷ windows) = covers field window || any_covers field windows

abbrev pub IsCovered : List ReadWindow → DeviceField → Type 0
IsCovered windows field = (window : ReadWindow) × Memᴰ window windows × Covers field window

any_covers-IsCovered :
    (windows : List ReadWindow) (field : DeviceField)
    → any_covers field windows ≡ true
    → IsCovered windows field
any_covers-IsCovered [] field h = cc
any_covers-IsCovered (window ∷ windows) field h = elim (Bool-cases (covers field window)) [
  | inl e ↦ (window, Memᴰ.head refl, ground arith)
  | inr e ↦
      let (w, among, cover) = any_covers-IsCovered windows field (ground arith) in
      (w, Memᴰ.tail among, cover)
]

sizes_of_table : All (λ def. HasSizes def.build_struct) bluetti_definitions
sizes_of_table =
    all_of-All (λ def. HasSizes def.build_struct)
      (λ def. all_of (λ field. has_size field.kind field.size) def.build_struct) bluetti_definitions
      (λ def h.
        all_of-All (λ field. HasSize field.kind field.size)
          (λ field. has_size field.kind field.size) def.build_struct
          (λ field. has_size-HasSize field.kind field.size) h)
      refl

windows_of_table :
    All (λ def. All (λ window. is_sound_window window ≡ true) (all_windows def)) bluetti_definitions
windows_of_table =
    all_of-All (λ def. All (λ window. is_sound_window window ≡ true) (all_windows def))
      (λ def. all_of is_sound_window (all_windows def)) bluetti_definitions
      (λ def h.
        all_of-All (λ window. is_sound_window window ≡ true) is_sound_window (all_windows def)
          (λ window e. e) h)
      refl

fields_of_table :
    All (λ def. All (IsCovered (logged_windows def)) def.build_struct) bluetti_definitions
fields_of_table =
    all_of-All (λ def. All (IsCovered (logged_windows def)) def.build_struct)
      (λ def. all_of (λ field. any_covers field (logged_windows def)) def.build_struct)
      bluetti_definitions
      (λ def h.
        all_of-All (IsCovered (logged_windows def)) (λ field. any_covers field (logged_windows def))
          def.build_struct (any_covers-IsCovered (logged_windows def)) h)
      refl

addresses_of_table : All (λ def. IsAddressed def.build_struct) bluetti_definitions
addresses_of_table =
    all_of-All (λ def. IsAddressed def.build_struct)
      (λ def. all_of (λ field. leb field.address 0xffff) def.build_struct) bluetti_definitions
      (λ def h.
        all_of-All (λ field. field.address < 0x10000) (λ field. leb field.address 0xffff)
          def.build_struct (λ field e. ground arith) h)
      refl

sound_window-builds :
    (window : ReadWindow)
    → is_sound_window window ≡ true
    → new_read_holding_registers (nat window.starting_address) (nat window.quantity)
      ≡ ok (read_command window.starting_address window.quantity)
unfolding new_read_holding_registers
sound_window-builds window h = ground arith

-- Every command that a model of the table sends can be built, and what a device may answer to it,
-- two bytes for each register, decodes without an error, whatever the registers hold.
pub table_window_reads :
    (address serial_number : String) (def : DeviceDefinition) (window : ReadWindow) (bytes : List ℕ)
    → Memᴰ def bluetti_definitions
    → Memᴰ window (all_windows def)
    → length bytes ≡ 2 * window.quantity
    → (new_read_holding_registers (nat window.starting_address) (nat window.quantity)
        ≡ ok (read_command window.starting_address window.quantity))
      × ((parsed : ParsedFieldMap) × (parse
              (new_bluetti_device_model address serial_number def)
              window.starting_address
              bytes
            ≡ ok parsed))
table_window_reads address serial_number def window bytes in_table in_windows size =
    let sizes =
      All-Memᴰ (λ d. HasSizes d.build_struct) bluetti_definitions sizes_of_table in_table in
    let windows =
      All-Memᴰ (λ d. All (λ w. is_sound_window w ≡ true) (all_windows d)) bluetti_definitions
        windows_of_table in_table in
    (
      sound_window-builds window
          (All-Memᴰ (λ w. is_sound_window w ≡ true) (all_windows def) windows in_windows),
      parse_struct-total def.build_struct window.starting_address bytes sizes (omega arith),
    )

-- Every field of a model of the table lies whole in a window that the logger reads.
pub table_field_is_logged :
    (def : DeviceDefinition) (field : DeviceField)
    → Memᴰ def bluetti_definitions
    → Memᴰ field def.build_struct
    → IsCovered (logged_windows def) field
table_field_is_logged def field in_table in_struct =
    All-Memᴰ (IsCovered (logged_windows def)) def.build_struct
      (All-Memᴰ (λ d. All (IsCovered (logged_windows d)) d.build_struct) bluetti_definitions
        fields_of_table in_table)
      in_struct

-- The registers of every model have 16-bit addresses.
pub table-IsAddressed :
    (def : DeviceDefinition) → Memᴰ def bluetti_definitions → IsAddressed def.build_struct
table-IsAddressed def =
    All-Memᴰ (λ d. IsAddressed d.build_struct) bluetti_definitions addresses_of_table
