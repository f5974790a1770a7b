-- ===== src/Types.antt =====
-- web/src/api/types.ts: the wire types that the modelled code reads and writes. An optional field is
-- an `Option`; byte counts and other numbers are natural numbers.
use vlessvmorectl.Base.{ℕ, String, Bool, Option, List}

pub record Server : Type 0 where
  pub id : String
  pub url : String

pub data DisabledReason : Type 0 where
  quota expired : DisabledReason

pub record UsageSummary : Type 0 where
  pub up : ℕ
  pub down : ℕ
  pub total : ℕ
  pub window_up : ℕ
  pub window_down : ℕ
  pub window_total : ℕ
  pub quota_bytes : ℕ
  pub quota_remaining : ℕ

pub record VlessUser : Type 0 where
  pub id : String
  pub name : String
  pub uuid : String
  pub enabled : Bool
  pub quota_bytes : ℕ
  pub expires_at : Option String
  pub usage_reset_at : String
  pub disabled_reason : Option DisabledReason
  pub sub_token : Option String
  pub note : Option String
  pub created_at : String
  pub updated_at : String
  pub usage : Option UsageSummary
  pub subscription_url : Option String
  pub install_url : Option String

pub record SubscriberEntry : Type 0 where
  pub id : String
  pub server_id : String
  pub vless_user_id : String
  pub label : Option String
  pub added_at : String
  pub server_configured : Bool

pub record Subscriber : Type 0 where
  pub id : String
  pub name : String
  pub note : Option String
  pub token : String
  pub access_path : String
  pub disabled : Bool
  pub entries : List SubscriberEntry
  pub created_at : String
  pub updated_at : String

pub record UsagePoint : Type 0 where
  pub bucket : String
  pub up : ℕ
  pub down : ℕ

-- The envelope of a mutation that rewrites the node's configuration.
pub record Reloaded {ℓ} (A : Type ℓ) : Type ℓ where
  pub result : A
  pub reloaded : Bool
  pub reload_error : Option String
