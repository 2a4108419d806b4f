-- ===== src/Transport.antt =====
-- src/bluetooth/transport.ts: the transport that a session works on, as operations on a state, and
-- what each operation promises. A callback is a number.
pub mod Helper
pub mod Mock
pub mod Laws
pub mod MockLaws
pub mod Calls
mod Tests
use bluetti_mqtt_node.Common.{ℕ, ◌≡◌, ◌≢◌, Bool, true, false, List, Option, none, some, String}
use bluetti_mqtt_node.Errors.{Error, Result, ok, throws}
use bluetti_mqtt_node.App.Runner.{Done}

pub record BluetoothTransport (S : Type 0) : Type 0 where
  pub connect : String → S → Result Done × S
  pub disconnect : S → Result Done × S
  pub read_characteristic : String → S → Result (List ℕ) × S
  pub write_characteristic : String → List ℕ → S → Result Done × S
  pub subscribe : String → ℕ → S → Result Done × S

-- The contract, for an implementation that says of its state whether it is connected and which
-- callback it keeps for the notifications of a characteristic.
pub record Contract {S : Type 0} (is_connected : S → Bool) (subscriber : String → S → Option ℕ)
    (t : BluetoothTransport S) : Type 0 where
  pub connects :
      (address : String) (s : S) (done : Done)
      → (t.connect address s).0 ≡ ok done
      → is_connected (t.connect address s).1 ≡ true
  pub disconnects : (s : S) → is_connected (t.disconnect s).1 ≡ false
  pub forgets : (s : S) (uuid : String) → subscriber uuid (t.disconnect s).1 ≡ none
  pub reads_connected :
      (uuid : String) (s : S) (bytes : List ℕ)
      → (t.read_characteristic uuid s).0 ≡ ok bytes
      → is_connected s ≡ true
  pub writes_connected :
      (uuid : String) (bytes : List ℕ) (s : S) (done : Done)
      → (t.write_characteristic uuid bytes s).0 ≡ ok done
      → is_connected s ≡ true
  pub subscribes :
      (uuid : String) (callback : ℕ) (s : S) (done : Done)
      → (t.subscribe uuid callback s).0 ≡ ok done
      → (is_connected s ≡ true) × (subscriber uuid (t.subscribe uuid callback s).1 ≡ some callback)
  pub refuses :
      (uuid : String) (callback : ℕ) (s : S) (e : Error) (other : String)
      → (t.subscribe uuid callback s).0 ≡ throws e
      → subscriber other (t.subscribe uuid callback s).1 ≡ subscriber other s
  pub stays_connected :
      (uuid : String) (callback : ℕ) (s : S)
      → is_connected (t.subscribe uuid callback s).1 ≡ is_connected s
