-- ===== src/History/Handlers/Accounts.antt =====
-- Accounts, recovery and the second factor (src/grpc.rs).
use iam_rust_auth.Base.{ℕ, zero, suc, String, Option, none, some, List, [], ◌∷◌, refl, arith}
use iam_rust_auth.Base.Int.{ℤ}
use iam_rust_auth.Db.{Uuid, UserRow}
use iam_rust_auth.World.{
  Event, Order, Status, draw, Within, Within-still, Within-bind, Within-pure, within_rules, pure,
  ◌>>=◌, ◌>>◌,
}
use iam_rust_auth.Repo
use iam_rust_auth.Totp
use iam_rust_auth.Service
use iam_rust_auth.Service.{MetadataMap}
use iam_rust_auth.History.Writes.{Writes}
use iam_rust_auth.History.Handlers.Common.{rules, audit_as-Within, audit-Within}
use iam_rust_auth.History.Handlers.Sessions.{or_recovery_code-Within}

module _ {o : Order} where
  send_mail-Within : (t s b : String) → Within o (Service.send_mail t s b)
  send_mail-Within t s b = Within-still (Service.send_mail t s b) (λ env w. refl)

  pub encode-Within : (ev : Event) → Within o (Service.encode ev)
  encode-Within ev = Within-still (Service.encode ev) (λ env w. ground arith)

  letters-Within : (n : ℕ) → Within o {E = Status} (Totp.letters n)
  unfolding Totp.letters
  letters-Within zero = search within_rules
  letters-Within (suc n) =
      Within-bind (draw λ env k. env.random_below k 31)
        (λ i. do rest ← Totp.letters n; pure (Totp.letter Totp.alphabet i ∷ rest))
        (search within_rules)
        λ i.
          Within-bind (Totp.letters n) (λ rest. pure (Totp.letter Totp.alphabet i ∷ rest))
            (letters-Within n) λ rest. Within-pure (Totp.letter Totp.alphabet i ∷ rest)

  recovery_codes-Within : (n : ℕ) → Within o {E = Status} (Totp.generate_recovery_codes n)
  unfolding Totp.generate_recovery_codes
  recovery_codes-Within zero = search within_rules
  recovery_codes-Within (suc n) =
      Within-bind (Totp.letters 8)
        (λ ls. do rest ← Totp.generate_recovery_codes n; pure (Totp.hyphenate ls ∷ rest))
        (letters-Within 8)
        λ ls.
          Within-bind (Totp.generate_recovery_codes n) (λ rest. pure (Totp.hyphenate ls ∷ rest))
            (recovery_codes-Within n) λ rest. Within-pure (Totp.hyphenate ls ∷ rest)

module _ {o : Order} ⦃s : Writes o⦄ where
  pub register-Within : (e p : String) → Within o (Service.register e p)
  unfolding Service.register
  register-Within e p = search (rules, audit_as-Within, encode-Within) depth 40 fits 4000

  pub restore_user-Within : (md : MetadataMap) (i : String) → Within o (Service.restore_user md i)
  unfolding Service.restore_user
  restore_user-Within md i = search (rules, audit-Within, encode-Within) depth 40 fits 4000

  verification_for-Within : (r : Option UserRow) → Within o (Service.verification_for r)
  verification_for-Within none = search rules
  verification_for-Within (some r) =
      search (rules, send_mail-Within, audit_as-Within) depth 30 fits 4000

  pub request_email_verification-Within :
      (e : String) → Within o (Service.request_email_verification e)
  unfolding Service.request_email_verification
  request_email_verification-Within e = search (rules, verification_for-Within) depth 20

  pub verify_email-Within : (t : String) → Within o (Service.verify_email t)
  unfolding Service.verify_email
  verify_email-Within t = search (rules, audit_as-Within) depth 30 fits 4000

  reset_for-Within : (r : Option UserRow) → Within o (Service.reset_for r)
  reset_for-Within none = search rules
  reset_for-Within (some r) = search (rules, send_mail-Within, audit_as-Within) depth 30 fits 4000

  pub request_password_reset-Within : (e : String) → Within o (Service.request_password_reset e)
  unfolding Service.request_password_reset
  request_password_reset-Within e = search (rules, reset_for-Within) depth 20

  set_password-Within : (i : Uuid) (p : String) → Within o (Service.set_password i p)
  unfolding Service.set_password
  set_password-Within i p = search rules depth 20

  pub reset_password-Within : (t p : String) → Within o (Service.reset_password t p)
  unfolding Service.reset_password
  reset_password-Within t p =
      search (rules, set_password-Within, audit_as-Within) depth 30 fits 4000

  pub change_password-Within :
      (md : MetadataMap) (p n : String) → Within o (Service.change_password md p n)
  unfolding Service.change_password
  change_password-Within md p n =
      search (rules, set_password-Within, audit_as-Within) depth 30 fits 4000

  pub list_audit_events-Within :
      (md : MetadataMap) (n : ℤ) → Within o (Service.list_audit_events md n)
  unfolding Service.list_audit_events
  list_audit_events-Within md n = search rules depth 20

  pub own_user-Within : (i : Uuid) → Within o (Service.own_user i)
  own_user-Within i = search rules depth 10

  store_codes-Within : (i : Uuid) (cs : List String) → Within o (Service.store_codes i cs)
  unfolding Service.store_codes
  store_codes-Within i [] = search rules
  store_codes-Within i (c ∷ cs) =
      Within-bind Service.ask
        (λ env. do
          Service.db "failed to store recovery code"
              (Repo.insert_recovery_code i (Service.hash_token env c))
          Service.store_codes i cs)
        (search rules)
        λ env.
          Within-bind
            (Service.db "failed to store recovery code"
              (Repo.insert_recovery_code i (Service.hash_token env c)))
            (λ _. Service.store_codes i cs) (search rules) λ _. store_codes-Within i cs

  pub enroll_totp-Within : (md : MetadataMap) → Within o (Service.enroll_totp md)
  unfolding Service.enroll_totp
  enroll_totp-Within md =
      search (rules, own_user-Within, recovery_codes-Within, store_codes-Within, audit-Within) depth
        40 fits 6000

  pub get_totp_status-Within : (md : MetadataMap) → Within o (Service.get_totp_status md)
  unfolding Service.get_totp_status
  get_totp_status-Within md = search (rules, own_user-Within) depth 20

  -- The activation, for an order that `enable_totp` respects.
  pub activate_totp-Within :
      (md : MetadataMap) (g : String)
      → ((id : Uuid) → Within o (Repo.enable_totp id))
      → Within o (Service.activate_totp md g)
  unfolding Service.activate_totp
  activate_totp-Within md g enables =
      search (rules, own_user-Within, audit-Within, enables) depth 40 fits 4000

  remove_totp-Within : (md : MetadataMap) (i : Uuid) → Within o (Service.remove_totp md i)
  remove_totp-Within md i = search (rules, audit-Within) depth 20

  disable_enabled-Within :
      (md : MetadataMap) (i : Uuid) (r : UserRow) (g : String)
      → Within o (Service.disable_enabled md i r g)
  unfolding Service.disable_enabled
  disable_enabled-Within md i r g =
      search (rules, or_recovery_code-Within, remove_totp-Within) depth 30 fits 4000

  pub disable_second_factor-Within :
      (md : MetadataMap) (g : String) → Within o (Service.disable_second_factor md g)
  unfolding Service.disable_second_factor
  disable_second_factor-Within md g =
      search (rules, own_user-Within, disable_enabled-Within) depth 30 fits 4000
