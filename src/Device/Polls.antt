-- ===== src/Device/Polls.antt =====
-- The poll for tokens: `HandleTokenPoll` of internal/admin/device_flow.go, once its body is parsed. The
-- cipher is a parameter; statements fail by their numbers, and no other request comes between them.
use modelserver.Prelude.{
  ℕ, String, Bool, false, not, List, Option, none, some, str_eq, if◌then◌else◌,
}
use modelserver.Prelude.Int.{ℤ, pos, ◌+ℤ◌, ◌-ℤ◌, ◌*ℤ◌, ltb_ℤ}
use modelserver.Device.Codes.{
  DeviceCode, get_device_code_by_code, update_device_code_poll, consume_approved_device_code,
  delete_device_code,
}

pub data PollAnswer : Type 0 where
  poll_refused : ℕ → String → PollAnswer
  poll_slow_down : ℤ → PollAnswer
  granted : String → String → String → ℤ → PollAnswer

module _ {B : Type 0} (decrypt : B → Option String) where
  -- The answer to a consumed row.
  abbrev pub decrypted : DeviceCode B → Option String → Option String → PollAnswer
  decrypted dc none refresh = poll_refused 500 "server_error"
  decrypted dc (some access) none = poll_refused 500 "server_error"
  decrypted dc (some access) (some refresh) =
      granted access refresh dc.token_type dc.token_expires_in

  abbrev pub consumed_answer : Option (DeviceCode B) → PollAnswer
  consumed_answer none = poll_refused 400 "invalid_grant"
  consumed_answer (some dc) = decrypted dc (decrypt dc.access_token) (decrypt dc.refresh_token)

  module _ (fails : ℕ → Bool) (now : ℤ) where
    -- An update or a deletion whose failure is ignored.
    abbrev pub ignoring : List (DeviceCode B) → List (DeviceCode B) → List (DeviceCode B)
    ignoring before after = if fails 1 then before else after

    -- The poll came before the interval was over.
    abbrev pub polls_too_fast : ℤ → Option ℤ → Bool
    polls_too_fast interval none = false
    polls_too_fast interval (some last) = ltb_ℤ (now -ℤ last) (interval *ℤ pos 1_000_000_000)

    abbrev pub poll_pending : DeviceCode B → List (DeviceCode B) → PollAnswer × List (DeviceCode B)
    poll_pending dc t =
        let slow_down = polls_too_fast dc.poll_interval dc.last_polled_at in
        let t' = ignoring t (update_device_code_poll now dc.id slow_down t) in
        if slow_down
        then (poll_slow_down (dc.poll_interval +ℤ pos 5), t')
        else (poll_refused 400 "authorization_pending", t')

    abbrev pub poll_approved : String → List (DeviceCode B) → PollAnswer × List (DeviceCode B)
    poll_approved code t =
        if fails 1
        then (poll_refused 500 "server_error", t)
        else let (consumed, t') = consume_approved_device_code code t in
          (consumed_answer consumed, t')

    -- The answer to a row that was looked up.
    abbrev pub poll_found :
        String → List (DeviceCode B) → Option (DeviceCode B) → PollAnswer × List (DeviceCode B)
    poll_found code t none = (poll_refused 400 "invalid_grant", t)
    poll_found code t (some dc) =
        if ltb_ℤ dc.expires_at now
        then (poll_refused 400 "expired_token", ignoring t (delete_device_code dc.id t))
        else if str_eq dc.status "denied"
        then (poll_refused 400 "access_denied", ignoring t (delete_device_code dc.id t))
        else if str_eq dc.status "pending"
        then poll_pending dc t
        else if str_eq dc.status "approved"
        then poll_approved code t
        else (poll_refused 400 "invalid_grant", t)

    -- `HandleTokenPoll`
    unfoldable pub token_poll :
        String → String → List (DeviceCode B) → PollAnswer × List (DeviceCode B)
    token_poll grant_type code t =
        if not (str_eq grant_type "urn:ietf:params:oauth:grant-type:device_code")
        then (poll_refused 400 "unsupported_grant_type", t)
        else if str_eq code ""
        then (poll_refused 400 "invalid_request", t)
        else if fails 0
        then (poll_refused 500 "server_error", t)
        else poll_found code t (get_device_code_by_code code t)
