-- ===== src/Authority/Devices/Revoked.antt =====
-- enrollment.py: sequences of enrollments and revocations.
use mathlib.Core.Path.{subst}
use personal_secretary.Prelude.{
  ◌≡◌, refl, sym, ap, ◌∙◌, inl, inr, String, Bool, true, false, Option, none, some, List, [], ◌∷◌,
  arith, str_eq, eq_iff, Bool-cases, if◌then◌else◌,
}
use personal_secretary.Prelude.Int.{ℤ}
use personal_secretary.Prelude.Results.{Result, err, ok}
use personal_secretary.Authority.Devices.{
  is_enrolled, Device, DeviceError, DeviceRegistry, find_device, put_device, device,
  find_fingerprint, new_device, add_device, key_is_valid, enroll_new, enroll, revoked_device,
  revoke_found, revoke, require_active_device,
}

-- One call of the registry's two methods that change it.
pub data Change : Type 0 where
  enrolls : (String → Bool) → ℤ → String → String → String → Option String → Change
  revokes : ℤ → String → String → Change

abbrev kept : DeviceRegistry → Result DeviceError (DeviceRegistry × Device) → DeviceRegistry
kept registry (err e) = registry
kept registry (ok (after, d)) = after

unfoldable pub change : DeviceRegistry → Change → DeviceRegistry
change registry (Change.enrolls valid_key now k fingerprint actor key) =
    kept registry (enroll valid_key now registry k fingerprint actor key)
change registry (Change.revokes now k actor) = kept registry (revoke now registry k actor)

unfoldable pub change_all : DeviceRegistry → List Change → DeviceRegistry
change_all registry [] = registry
change_all registry (c ∷ rest) = change_all (change registry c) rest

find_device-put :
    (k : String) (d : Device) (ds : List Device)
    → find_device k (put_device d ds) ≡ (if str_eq d.device_id k then some d else find_device k ds)
unfolding find_device put_device
find_device-put k d [] = refl
find_device-put k d (e ∷ es) = ground (
  arith,
  find_device-put k d es,
  eq_iff e.device_id d.device_id,
  eq_iff d.device_id k,
  eq_iff e.device_id k,
)

find_device-id :
    (k : String) (ds : List Device) (d : Device)
    → find_device k ds ≡ some d
    → str_eq d.device_id k ≡ true
unfolding find_device
find_device-id k [] d h = ground arith
find_device-id k (e ∷ es) d h = elim (Bool-cases (str_eq e.device_id k)) [
  | inl hit ↦
      let same : e ≡ d = ground (arith, hit, h) in subst (λ x. str_eq x.device_id k ≡ true) same hit
  | inr missed ↦ find_device-id k es d (ground (arith, missed, h))
]

-- The device is in the registry and revoked.
unfoldable pub IsRevoked : String → List Device → Type 0
IsRevoked k ds = (d : Device) × ((find_device k ds ≡ some d) × (is_enrolled d.state ≡ false))

put_device-IsRevoked :
    (k : String) (d : Device) (ds : List Device)
    → IsRevoked k ds
    → (str_eq d.device_id k ≡ true → is_enrolled d.state ≡ false)
    → IsRevoked k (put_device d ds)
unfolding IsRevoked
put_device-IsRevoked k d ds (e, (found, off)) same = elim (Bool-cases (str_eq d.device_id k)) [
  | inl hit ↦ (d, (find_device-put k d ds ∙ rw hit, same hit))
  | inr missed ↦ (e, (find_device-put k d ds ∙ rw missed found, off))
]

unknown_id :
    (k : String) (d : Device) (ds : List Device)
    → none ≡ find_device d.device_id ds
    → IsRevoked k ds
    → str_eq d.device_id k ≡ true
    → is_enrolled d.state ≡ false
unfolding IsRevoked
unknown_id k d ds unknown (e, (found, off)) hit =
    let known : find_device k ds ≡ none =
      subst (λ x. find_device x ds ≡ none) ((eq_iff d.device_id k).0 hit) (sym unknown) in
    ground (arith, known, found)

enroll_new-IsRevoked :
    (k : String) (valid_key : String → Bool) (registry : DeviceRegistry) (d : Device)
    (known : Option Device) (holder : Option String)
    → known ≡ find_device d.device_id registry.devices
    → IsRevoked k registry.devices
    → IsRevoked k (kept registry (enroll_new valid_key registry d known holder)).devices
unfolding IsRevoked add_device
enroll_new-IsRevoked k valid_key registry d (some e) holder same h = h
enroll_new-IsRevoked k valid_key registry d none (some f) same h = h
enroll_new-IsRevoked k valid_key registry d none none same h =
    elim (Bool-cases (key_is_valid valid_key d.approval_public_key)) [
      | inl e ↦
          rw e
            (put_device-IsRevoked k d registry.devices h (unknown_id k d registry.devices same h))
      | inr e ↦ rw e h
    ]

revoke_found-IsRevoked :
    (k : String) (now : ℤ) (registry : DeviceRegistry) (id actor : String) (o : Option Device)
    → IsRevoked k registry.devices
    → IsRevoked k (kept registry (revoke_found now registry id actor o)).devices
unfolding revoked_device
revoke_found-IsRevoked k now registry id actor none h = h
revoke_found-IsRevoked k now registry id actor (some d) h =
    put_device-IsRevoked k (revoked_device now actor d) registry.devices h (λ e. refl)

change-IsRevoked :
    (k : String) (registry : DeviceRegistry) (c : Change)
    → IsRevoked k registry.devices
    → IsRevoked k (change registry c).devices
unfolding change enroll revoke new_device device
change-IsRevoked k registry (Change.enrolls valid_key now id fingerprint actor key) h =
    enroll_new-IsRevoked k valid_key registry (new_device now id fingerprint actor key)
      (device registry id) (find_fingerprint fingerprint registry.by_fingerprint) refl h
change-IsRevoked k registry (Change.revokes now id actor) h =
    revoke_found-IsRevoked k now registry id actor (device registry id) h

change_all-IsRevoked :
    (k : String) (registry : DeviceRegistry) (changes : List Change)
    → IsRevoked k registry.devices
    → IsRevoked k (change_all registry changes).devices
unfolding change_all
change_all-IsRevoked k registry [] h = h
change_all-IsRevoked k registry (c ∷ rest) h =
    change_all-IsRevoked k (change registry c) rest (change-IsRevoked k registry c h)

revoke-IsRevoked :
    (registry after : DeviceRegistry) (now : ℤ) (k actor : String) (d : Device) (o : Option Device)
    → o ≡ find_device k registry.devices
    → revoke_found now registry k actor o ≡ ok (after, d)
    → IsRevoked k after.devices
unfolding IsRevoked revoked_device
revoke-IsRevoked registry after now k actor d none same h = ground (arith, h)
revoke-IsRevoked registry after now k actor d (some e) same h =
    let new = revoked_device now actor e in
    let hit = find_device-id k registry.devices e (sym same) in
    let done : record registry { devices = put_device new registry.devices } ≡ after =
      ap (kept registry) h in
    subst (λ r. IsRevoked k r.devices) done
      (new, (find_device-put k new registry.devices ∙ rw hit, refl))

IsRevoked-refused :
    (k : String) (registry : DeviceRegistry)
    → IsRevoked k registry.devices
    → require_active_device registry k ≡ err (DeviceError.revoked k)
unfolding IsRevoked require_active_device device
IsRevoked-refused k registry (d, (found, off)) = rw (found, off)

-- A device that is revoked stays revoked: after any further enrollments and revocations, also of the
-- same id, the registry refuses it for approvals.
pub revoke_forever :
    (registry after : DeviceRegistry) (now : ℤ) (k actor : String) (d : Device)
    (changes : List Change)
    → revoke now registry k actor ≡ ok (after, d)
    → require_active_device (change_all after changes) k ≡ err (DeviceError.revoked k)
unfolding revoke device
revoke_forever registry after now k actor d changes h =
    IsRevoked-refused k (change_all after changes) (
      change_all-IsRevoked k after changes
        (revoke-IsRevoked registry after now k actor d (device registry k) refl h))
