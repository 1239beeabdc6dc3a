-- ===== src/Device/Codes.antt =====
-- The table of device codes: internal/store/device_codes.go. Every statement is atomic; the column
-- device_code is unique, so that an insertion of a known code fails. Times are in nanoseconds, and the
-- poll interval is in seconds and is not bounded.
use modelserver.Prelude.{
  String, Bool, true, false, not, ◌&&◌, List, ◌∷◌, Option, some, find, any, keep, map, str_eq,
  if◌then◌else◌,
}
use modelserver.Prelude.Int.{ℤ, pos, ◌+ℤ◌, ltb_ℤ}

-- `DeviceCode`, with encrypted tokens in B; the client, the scopes and the time of creation are left out.
pub record DeviceCode (B : Type 0) : Type 0 where
  pub id : String
  pub device_code : String
  pub user_code : String
  pub status : String
  pub verification_nonce : String
  pub access_token : B
  pub refresh_token : B
  pub token_type : String
  pub token_expires_in : ℤ
  pub expires_at : ℤ
  pub poll_interval : ℤ
  pub last_polled_at : Option ℤ

module _ {B : Type 0} where
  abbrev pub has_code : String → DeviceCode B → Bool
  has_code code dc = str_eq dc.device_code code

  abbrev pub has_row_id : String → DeviceCode B → Bool
  has_row_id id dc = str_eq dc.id id

  -- `CreateDeviceCode`; whether the insertion took place.
  unfoldable pub create_device_code :
      DeviceCode B → List (DeviceCode B) → Bool × List (DeviceCode B)
  create_device_code dc t = if any (has_code dc.device_code) t then (false, t) else (true, dc ∷ t)

  abbrev pub is_pending_at : ℤ → DeviceCode B → Bool
  is_pending_at now dc = str_eq dc.status "pending" && ltb_ℤ now dc.expires_at

  -- `GetDeviceCodeByUserCode`
  unfoldable pub get_device_code_by_user_code :
      ℤ → String → List (DeviceCode B) → Option (DeviceCode B)
  get_device_code_by_user_code now code =
      find (λ dc. str_eq dc.user_code code && is_pending_at now dc)

  -- `GetDeviceCodeByNonce`
  unfoldable pub get_device_code_by_nonce : ℤ → String → List (DeviceCode B) → Option (DeviceCode B)
  get_device_code_by_nonce now nonce =
      find (λ dc. str_eq dc.verification_nonce nonce && is_pending_at now dc)

  -- `GetDeviceCodeByCode`
  unfoldable pub get_device_code_by_code : String → List (DeviceCode B) → Option (DeviceCode B)
  get_device_code_by_code code = find (has_code code)

  abbrev pub update_row :
      (DeviceCode B → DeviceCode B) → String → List (DeviceCode B) → List (DeviceCode B)
  update_row f id = map (λ dc. if has_row_id id dc then f dc else dc)

  abbrev pub approved_with : B → B → String → ℤ → DeviceCode B → DeviceCode B
  approved_with access refresh type expires_in dc = record dc {
    status = "approved";
    access_token = access;
    refresh_token = refresh;
    token_type = type;
    token_expires_in = expires_in;
  }

  -- `ApproveDeviceCode`
  unfoldable pub approve_device_code :
      String → B → B → String → ℤ → List (DeviceCode B) → List (DeviceCode B)
  approve_device_code id access refresh type expires_in =
      update_row (approved_with access refresh type expires_in) id

  abbrev pub denied_row : DeviceCode B → DeviceCode B
  denied_row dc = record dc { status = "denied" }

  -- `DenyDeviceCode`
  unfoldable pub deny_device_code : String → List (DeviceCode B) → List (DeviceCode B)
  deny_device_code = update_row denied_row

  abbrev pub polled_at : ℤ → Bool → DeviceCode B → DeviceCode B
  polled_at now true dc = record dc {
    last_polled_at = some now;
    poll_interval = dc.poll_interval +ℤ pos 5;
  }
  polled_at now false dc = record dc { last_polled_at = some now }

  -- `UpdateDeviceCodePoll`
  unfoldable pub update_device_code_poll :
      ℤ → String → Bool → List (DeviceCode B) → List (DeviceCode B)
  update_device_code_poll now id slow_down = update_row (polled_at now slow_down) id

  abbrev pub is_approved_code : String → DeviceCode B → Bool
  is_approved_code code dc = has_code code dc && str_eq dc.status "approved"

  -- `ConsumeApprovedDeviceCode`
  unfoldable pub consume_approved_device_code :
      String → List (DeviceCode B) → Option (DeviceCode B) × List (DeviceCode B)
  consume_approved_device_code code t =
      (find (is_approved_code code) t, keep (λ dc. not (is_approved_code code dc)) t)

  -- `DeleteDeviceCode`
  unfoldable pub delete_device_code : String → List (DeviceCode B) → List (DeviceCode B)
  delete_device_code id = keep (λ dc. not (has_row_id id dc))

  -- `DeleteExpiredDeviceCodes`
  unfoldable pub delete_expired_device_codes : ℤ → List (DeviceCode B) → List (DeviceCode B)
  delete_expired_device_codes now = keep (λ dc. not (ltb_ℤ dc.expires_at now))
