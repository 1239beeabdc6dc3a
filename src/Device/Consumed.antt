-- ===== src/Device/Consumed.antt =====
-- The tokens behind a device code are handed out once: about the table of device codes and the poll.
use mathlib.Core.Path.{subst}
use modelserver.Prelude.{
  ℕ, ◌+◌, ◌≤◌, ◌<◌, String, ◌≡◌, refl, inl, inr, Bool, true, false, not, List, [], ◌∷◌, Option,
  none, some, find, any, keep, arith, str_eq, eq_iff, Bool-cases, if◌then◌else◌,
}
use modelserver.Prelude.Int.{ℤ}
use modelserver.Device.Codes.{
  DeviceCode, has_code, has_row_id, update_row, is_approved_code, approved_with, denied_row,
  polled_at, create_device_code, approve_device_code, deny_device_code, update_device_code_poll,
  consume_approved_device_code, delete_device_code, delete_expired_device_codes,
  get_device_code_by_code,
}
use modelserver.Device.Polls.{poll_refused, token_poll}

-- The statements that change the table.
pub data Statement (B : Type 0) : Type 0 where
  creates : DeviceCode B → Statement B
  approves : String → B → B → String → ℤ → Statement B
  denies : String → Statement B
  polls : ℤ → String → Bool → Statement B
  consumes : String → Statement B
  deletes : String → Statement B
  sweeps : ℤ → Statement B

module _ {B : Type 0} where
  abbrev pub executed : Statement B → List (DeviceCode B) → List (DeviceCode B)
  executed (creates dc) t = (create_device_code dc t).1
  executed (approves id access refresh type expires_in) t =
      approve_device_code id access refresh type expires_in t
  executed (denies id) t = deny_device_code id t
  executed (polls now id slow_down) t = update_device_code_poll now id slow_down t
  executed (consumes code) t = (consume_approved_device_code code t).1
  executed (deletes id) t = delete_device_code id t
  executed (sweeps now) t = delete_expired_device_codes now t

  abbrev pub executed_all : List (Statement B) → List (DeviceCode B) → List (DeviceCode B)
  executed_all [] t = t
  executed_all (s ∷ ss) t = executed_all ss (executed s t)

  abbrev pub creates_code : String → Statement B → Bool
  creates_code code (creates dc) = has_code code dc
  creates_code code (approves id access refresh type expires_in) = false
  creates_code code (denies id) = false
  creates_code code (polls now id slow_down) = false
  creates_code code (consumes code') = false
  creates_code code (deletes id) = false
  creates_code code (sweeps now) = false

  abbrev rows_of : String → List (DeviceCode B) → ℕ
  rows_of code [] = 0
  rows_of code (dc ∷ t) = (if has_code code dc then 1 else 0) + rows_of code t

  rows_of-update_row :
      (f : DeviceCode B → DeviceCode B) (code id : String) (t : List (DeviceCode B))
      → ((dc : DeviceCode B) → has_code code (f dc) ≡ has_code code dc)
      → rows_of code (update_row f id t) ≡ rows_of code t
  rows_of-update_row f code id [] same = refl
  rows_of-update_row f code id (dc ∷ t) same = elim (Bool-cases (has_row_id id dc)) [
    | inl this ↦ rw (this, same dc, rows_of-update_row f code id t same) refl
    | inr other ↦ rw (other, rows_of-update_row f code id t same) refl
  ]

  rows_of-keep :
      (p : DeviceCode B → Bool) (code : String) (t : List (DeviceCode B))
      → rows_of code (keep p t) ≤ rows_of code t
  rows_of-keep p code [] = omega arith
  rows_of-keep p code (dc ∷ t) = elim (Bool-cases (p dc)) [
    | inl kept ↦ rw kept (omega (arith, rows_of-keep p code t))
    | inr gone ↦ rw gone (omega (arith, rows_of-keep p code t))
  ]

  rows_of-any :
      (code : String) (t : List (DeviceCode B)) → any (has_code code) t ≡ false → rows_of code t ≡ 0
  rows_of-any code [] h = refl
  rows_of-any code (dc ∷ t) h = elim (Bool-cases (has_code code dc)) [
    | inl this ↦ cc (rw this at h)
    | inr other ↦ rw other (omega (arith, rows_of-any code t (rw other at h)))
  ]

  rows_of-executed :
      (code : String) (s : Statement B) (t : List (DeviceCode B))
      → creates_code code s ≡ false
      → rows_of code (executed s t) ≤ rows_of code t
  unfolding create_device_code approve_device_code deny_device_code update_device_code_poll
      consume_approved_device_code delete_device_code delete_expired_device_codes
  rows_of-executed code (creates dc) t other = elim (Bool-cases (any (has_code dc.device_code) t)) [
    | inl known ↦ rw (executed, create_device_code, known) (omega arith)
    | inr new ↦ rw (executed, create_device_code, new, other) (omega arith)
  ]
  rows_of-executed code (approves id access refresh type expires_in) t other = omega (
    arith,
    rows_of-update_row (approved_with access refresh type expires_in) code id t (λ dc. refl),
  )
  rows_of-executed code (denies id) t other =
      omega (arith, rows_of-update_row denied_row code id t (λ dc. refl))
  rows_of-executed code (polls now id true) t other =
      omega (arith, rows_of-update_row (polled_at now true) code id t (λ dc. refl))
  rows_of-executed code (polls now id false) t other =
      omega (arith, rows_of-update_row (polled_at now false) code id t (λ dc. refl))
  rows_of-executed code (consumes code') t other = rows_of-keep _ code t
  rows_of-executed code (deletes id) t other = rows_of-keep _ code t
  rows_of-executed code (sweeps now) t other = rows_of-keep _ code t

  at_most_one :
      (code : String) (s : Statement B) (t : List (DeviceCode B))
      → rows_of code t ≤ 1
      → rows_of code (executed s t) ≤ 1
  unfolding create_device_code
  at_most_one code (creates dc) t h = elim (Bool-cases (has_code code dc)) [
    | inr other ↦ omega (arith, rows_of-executed code (creates dc) t other)
    | inl this ↦ elim (Bool-cases (any (has_code dc.device_code) t)) [
      | inl known ↦ rw (executed, create_device_code, known) h
      | inr new ↦
          let gone =
            rows_of-any code t
              (subst (λ c. any (has_code c) t ≡ false) ((eq_iff dc.device_code code).0 this) new) in
          rw (executed, create_device_code, new, this, gone) (omega arith)
    ]
  ]
  at_most_one code (approves id access refresh type expires_in) t h =
      omega (arith, rows_of-executed code (approves id access refresh type expires_in) t refl)
  at_most_one code (denies id) t h = omega (arith, rows_of-executed code (denies id) t refl)
  at_most_one code (polls now id slow_down) t h =
      omega (arith, rows_of-executed code (polls now id slow_down) t refl)
  at_most_one code (consumes code') t h =
      omega (arith, rows_of-executed code (consumes code') t refl)
  at_most_one code (deletes id) t h = omega (arith, rows_of-executed code (deletes id) t refl)
  at_most_one code (sweeps now) t h = omega (arith, rows_of-executed code (sweeps now) t refl)

  executed_all-at_most_one :
      (code : String) (ss : List (Statement B)) (t : List (DeviceCode B))
      → rows_of code t ≤ 1
      → rows_of code (executed_all ss t) ≤ 1
  executed_all-at_most_one code [] t h = h
  executed_all-at_most_one code (s ∷ ss) t h =
      executed_all-at_most_one code ss (executed s t) (at_most_one code s t h)

  executed_all-gone :
      (code : String) (ss : List (Statement B)) (t : List (DeviceCode B))
      → any (creates_code code) ss ≡ false
      → rows_of code t ≡ 0
      → rows_of code (executed_all ss t) ≡ 0
  executed_all-gone code [] t h e = e
  executed_all-gone code (s ∷ ss) t h e = elim (Bool-cases (creates_code code s)) [
    | inl this ↦ cc (rw this at h)
    | inr other ↦
        executed_all-gone code ss (executed s t) (rw other at h)
          (omega (arith, rows_of-executed code s t other, e))
  ]

  consumed_row :
      (code : String) (t : List (DeviceCode B)) (dc : DeviceCode B)
      → find (is_approved_code code) t ≡ some dc
      → rows_of code (keep (λ row. not (is_approved_code code row)) t) < rows_of code t
  consumed_row code [] dc h = cc
  consumed_row code (row ∷ t) dc h = elim (Bool-cases (is_approved_code code row)) [
    | inl this ↦
        let has : has_code code row ≡ true = ground (arith, this) in
        rw (this, has) (omega (arith, rows_of-keep (λ row. not (is_approved_code code row)) code t))
    | inr other ↦ rw other (omega (arith, consumed_row code t dc (rw other at h)))
  ]

  gone-find :
      (p : DeviceCode B → Bool) (code : String) (t : List (DeviceCode B))
      → ((dc : DeviceCode B) → has_code code dc ≡ false → p dc ≡ false)
      → rows_of code t ≡ 0
      → find p t ≡ none
  gone-find p code [] only e = refl
  gone-find p code (dc ∷ t) only e = elim (Bool-cases (has_code code dc)) [
    | inl this ↦ absurd (omega (arith, rw this at e))
    | inr other ↦ rw (only dc other) (gone-find p code t only (omega (arith, rw other at e)))
  ]

  -- From the empty table, after any statements: where the consumption of a code answers with an
  -- approved row, and then follow any statements, such as those of concurrent polls, of which none
  -- creates the code again, a further consumption of it answers with nothing, and a poll for it whose
  -- lookup does not fail is refused as an invalid grant and changes nothing.
  pub consume_approved_device_code-once :
      (decrypt : B → Option String) (before after : List (Statement B)) (code : String)
      (dc : DeviceCode B) (fails : ℕ → Bool) (now : ℤ)
      → (consume_approved_device_code code (executed_all before [])).0 ≡ some dc
      → any (creates_code code) after ≡ false
      → fails 0 ≡ false
      → str_eq code "" ≡ false
      → let t = executed_all after (consume_approved_device_code code (executed_all before [])).1 in
        ((consume_approved_device_code code t).0 ≡ none)
        × (token_poll decrypt fails now "urn:ietf:params:oauth:grant-type:device_code" code t
            ≡ (poll_refused 400 "invalid_grant", t))
  unfolding consume_approved_device_code token_poll get_device_code_by_code
  consume_approved_device_code-once decrypt before after code dc fails now h other runs named =
      let t0 = executed_all before [] in
      let fewer = consumed_row code t0 dc h in
      let one = executed_all-at_most_one code before [] (omega arith) in
      let gone = executed_all-gone code after _ other (omega (arith, fewer, one)) in
      (
        gone-find (is_approved_code code) code _ (λ row e. rw e refl) gone,
        rw (named, runs, gone-find (has_code code) code _ (λ row e. e) gone) refl,
      )
