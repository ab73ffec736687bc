-- ===== src/Auth/Devices.antt =====
-- src/auth/device_store.rs: the credentials of paired devices.
pub mod Lifecycle
use veyron.Prelude.{
  [], ◌∷◌, none, some, inl, inr, true, false, refl, text_eq, nat_eq, arith, if◌then◌else◌, ==_iff,
  ==_refl, Option-cases, Bool-cases, ◌≡◌, zero, suc, List, Option, Bool, Text, ℕ, leb, retain, ◌==◌,
  ◌+◌, any, bytes, length, ◌%◌, ◌++◌, not, ◌^◌,
}
use veyron.Utils.Errors.{Result, ok, err, VynkorError, auth}

pub record DeviceRecord : Type 0 where
  pub device_id : Text
  pub name : Text
  pub created_at : ℕ
  pub expires_at : ℕ
  pub revoked : Bool
  pub secret_enc : List ℕ

pub data DeviceStatus : Type 0 where
  active expired withdrawn : DeviceStatus

unfoldable pub status : DeviceRecord → ℕ → DeviceStatus
status row now_secs =
    if row.revoked then withdrawn else if leb row.expires_at now_secs then expired else active

-- The cipher library under the store's key, and the check that bytes are text.
pub record Vault : Type 0 where
  pub encrypt : List ℕ → Text → Option (List ℕ)
  pub decrypt : List ℕ → List ℕ → Option (List ℕ)
  pub is_utf8 : List ℕ → Bool

-- The rows of the store's file, none where there is no file, and what fails in reading or writing it.
pub record Disk : Type 0 where
  pub rows : List DeviceRecord
  pub read_error : Option VynkorError
  pub write_error : Option VynkorError

abbrev nonce_len : ℕ
nonce_len = 12

-- `enc.split_at(n)`
abbrev pub first : ℕ → List ℕ → List ℕ
first zero bs = []
first (suc n) [] = []
first (suc n) (b ∷ bs) = b ∷ first n bs

abbrev pub after : ℕ → List ℕ → List ℕ
after zero bs = bs
after (suc n) [] = []
after (suc n) (b ∷ bs) = after n bs

-- `nonce` is the random value that this call draws.
unfoldable pub seal : Vault → List ℕ → Text → Result (List ℕ)
seal v nonce secret_hex = elim (v.encrypt nonce secret_hex) [
  | none ↦ err (auth (bytes "device store encryption failed"))
  | some ct ↦ ok (nonce ++ ct)
]

abbrev decrypt_failed : Text
decrypt_failed =
    bytes "device store decrypt failed "
    ++ (0xe2
        ∷ 0x80
        ∷ 0x94
        ∷ bytes " was jwt_secret rotated? re-pair devices (rm <data_dir>/devices.json)")

unfoldable pub unseal : Vault → List ℕ → Result Text
unseal v enc =
    if leb (length enc) nonce_len
    then err (auth (bytes "corrupt device store entry"))
    else elim (v.decrypt (first nonce_len enc) (after nonce_len enc)) [
      | none ↦ err (auth decrypt_failed)
      | some pt ↦ if v.is_utf8 pt then ok pt else err (auth (bytes "bad secret encoding"))
    ]

-- The first row that cannot be decrypted makes the whole file unreadable.
unfoldable pub check_rows : Vault → List DeviceRecord → Result (Unit {0})
unfolding unseal
check_rows v [] = ok tt
check_rows v (row ∷ rows) = elim (unseal v row.secret_enc) [
  | err e ↦ err e
  | ok secret ↦ check_rows v rows
]

unfoldable pub read_all : Vault → Disk → Result (List DeviceRecord)
unfolding check_rows
read_all v disk = elim disk.read_error [
  | some e ↦ err e
  | none ↦ elim (check_rows v disk.rows) [ err e ↦ err e | ok u ↦ ok disk.rows ]
]

-- The file is replaced as a whole or stays.
unfoldable pub write_all : List DeviceRecord → Disk → Result Disk
write_all rows disk = elim disk.write_error [
  | some e ↦ err e
  | none ↦ ok (record disk { rows = rows })
]

-- The first row of the device gets the new credential; without one a row is added at the end.
unfoldable pub put_row : DeviceRecord → List DeviceRecord → List DeviceRecord
put_row fresh [] = fresh ∷ []
put_row fresh (row ∷ rows) =
    if row.device_id == fresh.device_id then fresh ∷ rows else row ∷ put_row fresh rows

unfoldable pub issue : Vault → ℕ → List ℕ → Text → Text → Text → ℕ → Disk → Result (Text × Disk)
unfolding seal read_all write_all put_row
issue v now_secs nonce secret_hex device_id name ttl_secs disk = elim (read_all v disk) [
  | err e ↦ err e
  | ok rows ↦ elim (seal v nonce secret_hex) [
    | err e ↦ err e
    | ok enc ↦
        elim (write_all
          (put_row
            record {
              device_id = device_id;
              name = name;
              created_at = now_secs;
              expires_at = (now_secs + ttl_secs) % 2 ^ 64;
              revoked = false;
              secret_enc = enc;
            }
            rows)
          disk) [ err e ↦ err e | ok disk' ↦ ok (secret_hex, disk') ]
  ]
]

unfoldable pub find_row : Text → List DeviceRecord → Option DeviceRecord
find_row device_id [] = none
find_row device_id (row ∷ rows) =
    if row.device_id == device_id then some row else find_row device_id rows

unfoldable pub set_revoked_each : Text → Bool → List DeviceRecord → List DeviceRecord
set_revoked_each device_id revoked [] = []
set_revoked_each device_id revoked (row ∷ rows) =
    (if row.device_id == device_id then record row { revoked = revoked } else row)
    ∷ set_revoked_each device_id revoked rows

unfoldable pub set_revoked : Vault → Text → Bool → Disk → Result (Bool × Disk)
unfolding read_all write_all set_revoked_each
set_revoked v device_id revoked disk = elim (read_all v disk) [
  | err e ↦ err e
  | ok rows ↦
      if any (λ r. r.device_id == device_id) rows
      then elim (write_all (set_revoked_each device_id revoked rows) disk) [
        | err e ↦ err e
        | ok disk' ↦ ok (true, disk')
      ]
      else ok (false, disk)
]

unfoldable remove : Vault → Text → Disk → Result (Bool × Disk)
unfolding read_all write_all
remove v device_id disk = elim (read_all v disk) [
  | err e ↦ err e
  | ok rows ↦
      let left : List DeviceRecord = retain (λ r. not (r.device_id == device_id)) rows in
      if length left == length rows
      then ok (false, disk)
      else elim (write_all left disk) [ err e ↦ err e | ok disk' ↦ ok (true, disk') ]
]

-- What a failed gate says of the device.
abbrev pub refusal_of : Text → DeviceStatus → VynkorError
refusal_of device_id expired = auth (
    bytes "device '"
    ++ (device_id ++ (bytes "' credential expired " ++ (0xe2 ∷ 0x80 ∷ 0x94 ∷ bytes " re-pair"))))
refusal_of device_id _ = auth (
    bytes "device '"
    ++ (device_id
        ++ (bytes "' is revoked " ++ (0xe2 ∷ 0x80 ∷ 0x94 ∷ bytes " re-pair to restore access"))))

-- The gate of a registration. That `unseal` succeeds is known from `read_all`; where it did not,
-- the source would panic, here its error is the answer.
unfoldable pub active_secret : Vault → ℕ → Text → Disk → Result (Option Text)
unfolding read_all find_row status
active_secret v now_secs device_id disk = elim (read_all v disk) [
  | err e ↦ err e
  | ok rows ↦ elim (find_row device_id rows) [
    | none ↦ ok none
    | some row ↦ elim (unseal v row.secret_enc) [
      | err e ↦ err e
      | ok secret ↦ elim (status row now_secs) [
        | active ↦ ok (some secret)
        | expired ↦ err (refusal_of device_id expired)
        | withdrawn ↦ err (refusal_of device_id withdrawn)
      ]
    ]
  ]
]
