-- ===== src/Device/Tests.antt =====
-- A device code that a client is granted once, and the theorems at it.
use modelserver.Prelude.{String, ◌≡◌, refl, false, List, [], ◌∷◌, none, some}
use modelserver.Prelude.Int.{pos, ◌-ℤ◌, ◌*ℤ◌, ◌+ℤ◌}
use modelserver.Device.Codes.{
  DeviceCode, approved_with, create_device_code, approve_device_code, consume_approved_device_code,
  get_device_code_by_code, update_device_code_poll,
}
use modelserver.Device.Polls.{poll_refused, poll_slow_down, granted, token_poll}
use modelserver.Device.Consumed.{
  Statement, creates, approves, consumes, sweeps, executed_all, consume_approved_device_code-once,
}

abbrev fresh : DeviceCode String
fresh = record {
  id = "1";
  device_code = "abc";
  user_code = "WXYZ";
  status = "pending";
  verification_nonce = "nonce";
  access_token = "";
  refresh_token = "";
  token_type = "";
  token_expires_in = pos 0;
  expires_at = pos 900_000_000_000;
  poll_interval = pos 5;
  last_polled_at = none;
}

abbrev before : List (Statement String)
before = creates fresh ∷ approves "1" "access" "refresh" "bearer" (pos 3600) ∷ []

abbrev after : List (Statement String)
after = approves "1" "other" "other" "bearer" (pos 3600) ∷ consumes "abc" ∷ sweeps (pos 7) ∷ []

abbrev grant_type : String
grant_type = "urn:ietf:params:oauth:grant-type:device_code"

pending_then_fast :
    let (first, t) = token_poll some (λ n. false) (pos 10) grant_type "abc" (fresh ∷ []) in
    (first ≡ poll_refused 400 "authorization_pending")
    × ((token_poll some (λ n. false) (pos 11) grant_type "abc" t).0 ≡ poll_slow_down (pos 10))
unfolding token_poll get_device_code_by_code update_device_code_poll ◌-ℤ◌ ◌*ℤ◌ ◌+ℤ◌
pending_then_fast = (refl, refl)

approved_then_granted :
    (token_poll some (λ n. false) (pos 10) grant_type "abc" (executed_all before [])).0
    ≡ granted "access" "refresh" "bearer" (pos 3600)
unfolding token_poll get_device_code_by_code create_device_code approve_device_code
    consume_approved_device_code
approved_then_granted = refl

consume_approved_device_code-once_example :
    let t = executed_all after (consume_approved_device_code "abc" (executed_all before [])).1 in
    ((consume_approved_device_code "abc" t).0 ≡ none)
    × (token_poll some (λ n. false) (pos 10) grant_type "abc" t
        ≡ (poll_refused 400 "invalid_grant", t))
unfolding create_device_code approve_device_code consume_approved_device_code
consume_approved_device_code-once_example =
    consume_approved_device_code-once some before after "abc"
      (approved_with "access" "refresh" "bearer" (pos 3600) fresh) (λ n. false) (pos 10) refl refl
      refl refl
