-- ===== src/Authority/Devices.antt =====
-- enrollment.py: the `DeviceRegistry` without persistence. Times are UTC minutes.
pub mod Revoked
use personal_secretary.Prelude.{
  String, Bool, true, false, not, Option, none, some, List, [], ◌∷◌, ◌++◌, str_eq, if◌then◌else◌,
}
use personal_secretary.Prelude.Int.{ℤ}
use personal_secretary.Prelude.Results.{Result, err, ok}

pub data DeviceState : Type 0 where
  enrolled revoked : DeviceState

abbrev pub is_enrolled : DeviceState → Bool
is_enrolled DeviceState.enrolled = true
is_enrolled DeviceState.revoked = false

pub record Device : Type 0 where
  pub device_id : String
  pub public_key_fingerprint : String
  pub enrolled_at : ℤ
  pub enrolled_by : String
  pub state : DeviceState
  pub revoked_at : Option ℤ
  pub revoked_by : Option String
  pub approval_public_key : Option String

-- The exceptions of the module; `invalid_key` is the `ValueError` of the key's parser.
pub data DeviceError : Type 0 where
  forged revoked not_found already_enrolled invalid_key : String → DeviceError

-- The dict `_devices` holds each device under its own id, `_by_fingerprint` pairs of a
-- fingerprint and an id.
pub record DeviceRegistry : Type 0 where
  pub devices : List Device
  pub by_fingerprint : List (String × String)

unfoldable pub find_device : String → List Device → Option Device
find_device k [] = none
find_device k (d ∷ ds) =
    let rest = find_device k ds in if str_eq d.device_id k then some d else rest

unfoldable pub find_fingerprint : String → List (String × String) → Option String
find_fingerprint f [] = none
find_fingerprint f ((g, k) ∷ rest) =
    let later = find_fingerprint f rest in if str_eq g f then some k else later

-- `self._devices[device.device_id] = device`
unfoldable pub put_device : Device → List Device → List Device
put_device d [] = d ∷ []
put_device d (e ∷ es) =
    let rest = put_device d es in if str_eq e.device_id d.device_id then d ∷ es else e ∷ rest

unfoldable pub device : DeviceRegistry → String → Option Device
device registry device_id = find_device device_id registry.devices

unfoldable pub new_device : ℤ → String → String → String → Option String → Device
new_device now device_id public_key_fingerprint actor approval_public_key = record {
  device_id = device_id;
  public_key_fingerprint = public_key_fingerprint;
  enrolled_at = now;
  enrolled_by = actor;
  state = DeviceState.enrolled;
  revoked_at = none;
  revoked_by = none;
  approval_public_key = approval_public_key;
}

unfoldable pub add_device : DeviceRegistry → Device → DeviceRegistry
add_device registry d = record {
  devices = put_device d registry.devices;
  by_fingerprint = registry.by_fingerprint ++ (d.public_key_fingerprint, d.device_id) ∷ [];
}

-- The argument `valid_key` is whether the Ed25519 library reads the hexadecimal key.
abbrev pub key_is_valid : (String → Bool) → Option String → Bool
key_is_valid valid_key none = true
key_is_valid valid_key (some key) = valid_key key

abbrev pub enroll_new :
    (String → Bool)
    → DeviceRegistry
    → Device
    → Option Device
    → Option String
    → Result DeviceError (DeviceRegistry × Device)
enroll_new valid_key registry d (some known) holder = err (DeviceError.already_enrolled d.device_id)
enroll_new valid_key registry d none (some holder) = err (DeviceError.already_enrolled holder)
enroll_new valid_key registry d none none =
    if key_is_valid valid_key d.approval_public_key
    then ok (add_device registry d, d)
    else err (DeviceError.invalid_key d.device_id)

unfoldable pub enroll :
    (String → Bool)
    → ℤ
    → DeviceRegistry
    → String
    → String
    → String
    → Option String
    → Result DeviceError (DeviceRegistry × Device)
enroll valid_key now registry device_id public_key_fingerprint actor approval_public_key =
    enroll_new valid_key registry
      (new_device now device_id public_key_fingerprint actor approval_public_key)
      (device registry device_id) (find_fingerprint public_key_fingerprint registry.by_fingerprint)

unfoldable pub revoked_device : ℤ → String → Device → Device
revoked_device now actor d = record d {
  state = DeviceState.revoked;
  revoked_at = some now;
  revoked_by = some actor;
}

abbrev pub revoke_found :
    ℤ
    → DeviceRegistry
    → String
    → String
    → Option Device
    → Result DeviceError (DeviceRegistry × Device)
revoke_found now registry device_id actor none = err (DeviceError.not_found device_id)
revoke_found now registry device_id actor (some d) =
    let revoked = revoked_device now actor d in
    ok (record registry { devices = put_device revoked registry.devices }, revoked)

unfoldable pub revoke :
    ℤ → DeviceRegistry → String → String → Result DeviceError (DeviceRegistry × Device)
revoke now registry device_id actor =
    revoke_found now registry device_id actor (device registry device_id)

abbrev pub verify_found : String → String → Option Device → Result DeviceError Device
verify_found device_id public_key_fingerprint none = err (DeviceError.forged public_key_fingerprint)
verify_found device_id public_key_fingerprint (some d) =
    if not (str_eq d.public_key_fingerprint public_key_fingerprint)
    then err (DeviceError.forged public_key_fingerprint)
    else if not (is_enrolled d.state)
    then err (DeviceError.revoked device_id)
    else ok d

unfoldable pub verify_mtls_identity : DeviceRegistry → String → String → Result DeviceError Device
verify_mtls_identity registry device_id public_key_fingerprint =
    verify_found device_id public_key_fingerprint (device registry device_id)

abbrev pub require_found : String → Option Device → Result DeviceError Device
require_found device_id none = err (DeviceError.not_found device_id)
require_found device_id (some d) =
    if not (is_enrolled d.state) then err (DeviceError.revoked device_id) else ok d

unfoldable pub require_active_device : DeviceRegistry → String → Result DeviceError Device
require_active_device registry device_id = require_found device_id (device registry device_id)
