-- ===== src/Store.antt =====
-- The rows of the identity tables (migrations/00009 to 00016), as internal/identity reads and writes
-- them: store.go, factorstore.go, challengestore.go, emailcode.go, failures.go, challenge.go and
-- identity.go. An identifier is a number, 0 for none (the source's empty string and the column's
-- NULL). A moment is in nanoseconds. A bytea or text that is NULL is the empty list.
use marketplace.Base.{ℕ, Bool, String, Option, List, Bytes}
use marketplace.Policy.{UserKind, Method, Action}

pub record Account : Type 0 where
  pub id : ℕ
  pub kind : UserKind
  pub email : Bytes
  -- account.email_normalised, which the source's struct leaves out
  pub normalised : Bytes
  pub name : Bytes
  pub verified_at : Option ℕ

pub record Credential : Type 0 where
  pub account : ℕ
  pub secret : Bytes

pub record Verification : Type 0 where
  pub hash : Bytes
  pub account : ℕ
  pub expires_at : ℕ
  pub used_at : Option ℕ

pub record SessionRow : Type 0 where
  pub id : ℕ
  pub account : ℕ
  pub hash : Bytes
  pub ip : Bytes
  pub user_agent : Bytes
  pub created : ℕ
  pub seen : ℕ
  pub stepped_up : Option ℕ
  pub email_proved : Option ℕ
  pub revoked_at : Option ℕ
  pub revoked_reason : String

pub record Factor : Type 0 where
  pub id : ℕ
  pub account : ℕ
  pub method : Method
  pub label : Bytes
  pub secret : Bytes
  pub last_step : Option ℕ
  pub credential_id : Bytes
  pub public_key : Bytes
  pub sign_count : ℕ
  pub flags : ℕ
  pub created_at : ℕ
  pub last_used_at : Option ℕ

pub record RecoveryCode : Type 0 where
  pub account : ℕ
  pub code_hash : Bytes
  pub used_at : Option ℕ

pub record Enrolment : Type 0 where
  pub session : ℕ
  pub account : ℕ
  pub method : Method
  pub secret : Bytes
  pub ceremony : Bytes
  pub expires_at : ℕ

pub record Challenge : Type 0 where
  pub hash : Bytes
  pub account : ℕ
  -- the session that a step-up steps up, 0 at sign-in
  pub session : ℕ
  pub action : Action
  pub attempts : ℕ
  pub ceremony : Bytes
  pub expires_at : ℕ
  pub used_at : Option ℕ

-- What a code sent by e-mail is for (emailcode.go).
pub data Purpose : Type 0 where
  sign_in step_up enrolment : Purpose

pub record EmailCode : Type 0 where
  pub id : ℕ
  pub account : ℕ
  pub purpose : Purpose
  pub code_hash : Bytes
  pub expires_at : ℕ
  pub attempts : ℕ
  pub created_at : ℕ
  pub used_at : Option ℕ

pub record Failure : Type 0 where
  pub account : ℕ
  pub failures : ℕ

-- A variable of a mail, or a detail of an audit entry, before it is written as text.
pub data Detail : Type 0 where
  name code link user_agent sign_in_link : Bytes → Detail
  purpose : Purpose → Detail
  method : Method → Detail
  action : Action → Detail
  failures left stored presented owner_role : ℕ → Detail

-- A message in the outbox (mail.Message).
pub record Mail : Type 0 where
  pub template : String
  pub language : Bytes
  pub to : Bytes
  pub from : Bytes
  pub marketplace : ℕ
  pub variables : List Detail

-- Who acts: the platform itself on a refusal, staff, or a buyer (audit.Kind).
pub data Actor : Type 0 where
  system : Actor
  staff_member buyer_account : ℕ → Actor

pub record Audit : Type 0 where
  pub marketplace : ℕ
  pub actor : Actor
  pub action : String
  pub subject : ℕ
  -- the person whose key seals the entry, 0 for the platform's own
  pub person : ℕ
  pub from : Bytes
  pub details : List Detail

-- The rows of a role, of what an account may do, and of the first run (migrations/00017).
pub record RoleRow : Type 0 where
  pub id : ℕ
  pub name : String
  pub owner : Bool

pub record UserRole : Type 0 where
  pub account : ℕ
  pub role : ℕ
  pub marketplace : Option ℕ
  pub assigned_by : Option ℕ
  pub assigned_at : ℕ

pub record BootstrapRow : Type 0 where
  pub token_hash : Bytes
  pub used_at : ℕ
  pub owner : ℕ

-- The tables of one scope: a marketplace's rows, or the platform's, which is all that row-level
-- security lets a transaction of that scope see. `next_id` stands for gen_random_uuid().
pub record Db : Type 0 where
  pub next_id : ℕ
  pub accounts : List Account
  pub credentials : List Credential
  pub verifications : List Verification
  pub sessions : List SessionRow
  pub second_factors : List Factor
  pub recovery_codes : List RecoveryCode
  pub enrolments : List Enrolment
  pub challenges : List Challenge
  pub email_codes : List EmailCode
  pub failures : List Failure
  pub roles : List RoleRow
  pub user_roles : List UserRole
  pub bootstrap : List BootstrapRow
  pub outbox : List Mail
  pub audit : List Audit
