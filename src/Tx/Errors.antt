-- ===== src/Tx/Errors.antt =====
-- The errors that internal/identity returns, by their variables' names.

pub data Error : Type 0 where
  token_invalid credentials unverified session_invalid : Error
  password_short password_long password_breached email_invalid name_missing name_invalid : Error
  not_permitted code_wrong label_invalid factor_unknown factor_required no_second_factor : Error
  no_sealer step_up_needed no_enrolment already_enrolled code_too_soon code_too_many : Error
  codes_locked challenge_invalid challenge_exhausted key_refused address_taken : Error
  -- ErrSetupClosed and ErrTokenWrong of internal/staff
  setup_closed token_wrong : Error
  -- errVisitScope, and InTxFor's refusal of an empty marketplace
  visit_scope marketplace_missing : Error
  -- errTaken, pgx.ErrNoRows and errNotPHC
  taken no_rows not_phc : Error
  -- a failure that a called service reports
  outside : Error
